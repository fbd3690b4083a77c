-- ===== src/Tests/Files.antt =====
-- `compile_file` on concrete inputs.
use gsc.Base.{ℕ, List, some, [], ◌∷◌, ◌≡◌, refl, codes, false}
use gsc.Base.Result.{Result, ok, err}
use gsc.Trie.{find, insert, hash}
use gsc.HashTrie.{init, upsert, set_value, value_at}
use gsc.HashTrie.Laws.{init-IsValid}
use gsc.Arena.{allocate_memory}
use gsc.StringTable.{intern}
use gsc.Compiler.Syntax.{
  Node, present, end, ast_file_reference, ast_identifier, ast_literal, ast_return_stmt,
  literal_function,
}
use gsc.Compiler.Code.{update, integer_of}
use gsc.Compiler.State.{Compiler, ◌>>=◌, pure, gets, error}
use gsc.Compiler.Emit.{emit_base, emit_operands, set_operands, string, started}
use gsc.Compiler.Locals.{define_local_variable}
use gsc.Compiler.Handlers.{visit_return_stmt}
use gsc.Compiler.Calls.{visit_literal}
use gsc.Compiler.Visit.{visit, visit_maybe}
use gsc.Compiler.Function.{
  compile_function, compile_body, resolve_jumps, define_parameters, reset, resolve,
}
use gsc.Parser.Program.{Function}
use gsc.Traverse.Occurs.{Occurs, OccursLiteral, OccursMaybe}
use gsc.CompiledFile.{
  CompiledFile, CompiledFunction, compile_functions, compile_declared, finish_function,
}
use gsc.CompiledFile.References.{Records, compile_functions-Records}
use gsc.Tests.Compiling.{tolower, start}

-- main() { a = 1; }
abbrev text : List ℕ
text = codes "main() { a = 1; }"

abbrev empty_file : CompiledFile
empty_file = record {
  functions = init CompiledFunction;
  includes = init ℕ;
  file_references = init ℕ;
}

-- return maps\x::f;
abbrev refers : Node
refers = ast_return_stmt (
    present (
      ast_literal
        (literal_function (present (ast_file_reference (codes "x"))) (ast_identifier (codes "f")))))

abbrev f : Function
f = record { parameters = end; body = refers }

abbrev done : Result (CompiledFile × Compiler)
done = compile_functions tolower (record { key = codes "g"; value = some f } ∷ []) empty_file start

abbrev file_of : Result (CompiledFile × Compiler) → CompiledFile
file_of (ok (cf, c)) = cf
file_of (err fault) = empty_file

abbrev compiler_of : Result (CompiledFile × Compiler) → Compiler
compiler_of (ok (cf, c)) = c
compiler_of (err fault) = start

compiles : done ≡ ok (file_of done, compiler_of done)
unfolding compile_functions compile_declared finish_function compile_function compile_body
    resolve_jumps define_parameters define_local_variable upsert init set_value value_at visit
    visit_maybe visit_return_stmt visit_literal emit_base emit_operands set_operands started update
    resolve integer_of ◌>>=◌ pure gets error string intern reset find insert hash allocate_memory
compiles = refl

compile_functions-Records_example : Records tolower (codes "x") (file_of done).file_references
compile_functions-Records_example =
    compile_functions-Records tolower (codes "g") (codes "x") f
      (Occurs.in_return_stmt (
        OccursMaybe.in_present
          (Occurs.in_literal (OccursLiteral.in_file (OccursMaybe.in_present Occurs.here)))))
      [] [] empty_file (file_of done) start (compiler_of done) (init-IsValid ℕ tolower false)
      compiles
