-- ===== src/CompiledFile.antt =====
-- main.c, instruction.h: `compile_file`, from the text of a file to its compiled functions. The memory
-- of the arenas is taken to be enough; the file's source and its state are left out.
pub mod Sound
pub mod References
use gsc.Base.{
  ℕ, zero, suc, ◌+◌, Bool, true, false, Option, none, some, List, [], ◌∷◌, map, length, take, ◌-◌,
}
use gsc.Base.Result.{Result, ok, err, ◌>>=◌, undefined_behaviour}
use gsc.Platform.{Platform}
use gsc.HashTrie.{HashTrie, upsert, set_value, init}
use gsc.HashTrie
use gsc.StringTable.{StringTable}
use gsc.Compiler.Syntax.{Node, Nodes, end, node, ast_file_reference}
use gsc.Compiler.Code.{Instruction, max_instructions_count}
use gsc.Compiler.State.{Compiler}
use gsc.Compiler.Function.{compile_function}
use gsc.Traverse.{traverse_function}
use gsc.Parser.{Parser, Outcome, parsed, failed, out_of_fuel, Lexeme}
use gsc.Parser.Program.{Function, Declarations, parse}
use gsc.Parser.Source.{tokens}

-- `ASTFunction.parameter_count`
unfoldable pub parameter_count : Nodes → ℕ
parameter_count end = 0
parameter_count (node n ns) = suc (parameter_count ns)

pub record CompiledFunction : Type 0 where
  pub instructions : ℕ → Instruction
  pub instruction_count : ℕ
  pub parameter_count : ℕ
  pub local_count : ℕ

pub record CompiledFile : Type 0 where
  pub functions : HashTrie CompiledFunction
  pub includes : HashTrie ℕ
  pub file_references : HashTrie ℕ

-- The size of `string`, into which `node_fn` prints a path.
abbrev pub string_size : ℕ
string_size = 16384

-- `node_fn`: the callback that keeps the paths of file references.
unfoldable pub node_fn : (ℕ → ℕ) → Node → HashTrie ℕ → HashTrie ℕ
node_fn tolower (ast_file_reference file) t =
    (upsert tolower t (take (string_size - 1) file) true false).0
node_fn tolower _ t = t

-- The compiler at the start: all else is 0.
unfoldable pub compiler_of : (ℕ → Instruction) → StringTable → HashTrie ℕ → List ℕ → Bool → Compiler
compiler_of instructions strings globals path print_expression = record {
  variable_index = 0;
  variables = init ℕ;
  globals = some globals;
  instructions = instructions;
  instruction_count = 0;
  max_instruction_count = 0;
  strings = strings;
  scopes = λ i. record { allows_break = false; allows_continue = false };
  current_scope = 0;
  jumps = [];
  path = some path;
  print_expression = print_expression;
}

-- The compiler reads only the keys of the globals.
abbrev pub names_only : HashTrie.Node Node → HashTrie.Node ℕ
names_only n = record { key = n.key; value = none }

unfoldable pub names_of : HashTrie Node → HashTrie ℕ
names_of t = record { head = t.head; nodes = map names_only t.nodes }

-- How `compile_file` ends: with the file, the strings and the globals; with the status 1 (or the end of
-- the program, as `syntax_error` calls `exit`); or, in the
-- model only, without fuel for the parser.
pub data Compilation : Type 0 where
  compiled : CompiledFile → StringTable → HashTrie Node → Compilation
  aborted : Compilation
  unfinished : Compilation

abbrev pub compilation_of : HashTrie Node → Result (CompiledFile × Compiler) → Compilation
compilation_of globals (ok (cf, c)) = compiled cf c.strings globals
compilation_of globals (err fault) = aborted

module _ (tolower : ℕ → ℕ) where
  -- `hash_trie_upsert(&cf->functions, …)` and `entry->value = compfunc`
  unfoldable pub add_function :
      HashTrie CompiledFunction → List ℕ → CompiledFunction → HashTrie CompiledFunction
  add_function t name f =
      let (t', entry) = upsert tolower t name true false in
      elim entry [ none ↦ t' | some p ↦ set_value t' p f ]

  -- What is kept of a function that is compiled: `memcpy` copies its instructions.
  unfoldable pub finish_function :
      List ℕ → Function → HashTrie ℕ → CompiledFile → ℕ → Compiler → CompiledFile
  finish_function name f references cf count c = record cf {
    file_references = references;
    functions = add_function cf.functions name (record {
      instructions = c.instructions;
      instruction_count = count;
      parameter_count = parameter_count f.parameters;
      local_count = c.variable_index;
    });
  }

  -- A round of the loop over `ast_functions`.
  unfoldable pub compile_declared :
      List ℕ → Option Function → CompiledFile → Compiler → Result (CompiledFile × Compiler)
  compile_declared name none cf c = err undefined_behaviour
  compile_declared name (some f) cf c =
      let references =
        traverse_function (node_fn tolower) name f.parameters f.body cf.file_references in
      compile_function tolower f.parameters f.body c >>= λ (count, c').
      ok (finish_function name f references cf count c', c')

  unfoldable pub compile_functions :
      List (HashTrie.Node Function) → CompiledFile → Compiler → Result (CompiledFile × Compiler)
  compile_functions [] cf c = ok (cf, c)
  compile_functions (n ∷ ns) cf c =
      compile_declared n.key n.value cf c >>= λ (cf', c'). compile_functions ns cf' c'

module _ (lib : Platform) (tolower : ℕ → ℕ) where
  unfoldable pub compile_parsed :
      (ℕ → Instruction)
      → StringTable
      → List ℕ
      → Bool
      → CompiledFile
      → Outcome Declarations
      → Compilation
  compile_parsed instructions strings path print cf out_of_fuel = unfinished
  compile_parsed instructions strings path print cf (failed why) = aborted
  compile_parsed instructions strings path print cf (parsed d p) = compilation_of d.globals (
      compile_functions tolower d.functions.nodes (record cf { includes = d.includes })
        (compiler_of instructions strings (names_of d.globals) path print))

  unfoldable pub compile_tokens :
      (ℕ → Instruction)
      → StringTable
      → HashTrie Node
      → List ℕ
      → Bool
      → CompiledFile
      → List Lexeme
      → Compilation
  compile_tokens instructions strings globals path print cf input =
      compile_parsed instructions strings path print cf (
        parse lib tolower (suc (length input))
          (record { includes = cf.includes; functions = init Function; globals = globals })
          (record { input = input; animtree = []; max_string_length = string_size }))

  -- `compile_file` of a text that was read.
  unfoldable pub compile_file :
      (ℕ → Instruction)
      → StringTable
      → HashTrie Node
      → List ℕ
      → Bool
      → CompiledFile
      → List ℕ
      → Compilation
  compile_file instructions strings globals path print cf text =
      compile_tokens instructions strings globals path print cf (tokens text)
