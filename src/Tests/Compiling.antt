-- ===== src/Tests/Compiling.antt =====
-- compiler.c on concrete inputs.
use gsc.Base.{
  ℕ, ◌+◌, true, false, none, some, Option, [], ◌∷◌, ◌≡◌, ◌∙◌, sym, inl, inr, refl, codes,
  if◌then◌else◌, ltb, ◌&&◌,
}
use gsc.Base.Result.{Result, ok, err}
use gsc.Trie.{empty, find, insert, hash}
use gsc.HashTrie.{init, upsert, set_value, value_at}
use gsc.StringTable.{StringTable, intern}
use gsc.Token.{tk_increment}
use gsc.Compiler.Syntax.{
  Node, absent, present, end, node, ast_identifier, ast_literal, literal_integer, ast_block_stmt,
  ast_break_stmt, ast_expr_stmt, ast_if_stmt, ast_while_stmt, ast_binary_expr, ast_unary_expr,
  ast_return_stmt, literal_type,
}
use gsc.Compiler.Code.{op_load, integer, op_invalid, none_operand, update, integer_of}
use gsc.Compiler.Function.{
  compile_function, compile_body, resolve_jumps, define_parameters, reset, resolve,
}
use gsc.Compiler.Sound.Function.{IsExecutable, compile_function-IsExecutable}
use gsc.Compiler.Sound.Pending.{Distinct, IsLeft, decrement_scope-IsLeft}
use gsc.Compiler.Emit.{
  emit_base, emit_operands, set_operands, string, reljmp_current, patch_reljmp, started,
}
use gsc.Compiler.Scope.{
  increment_scope, push_jump, emit_pending, patch_jumps, pending_target, decrement_scope,
}
use gsc.Compiler.Locals.{define_local_variable, variable, names_global}
use gsc.Compiler.Handlers.{
  visit_block_stmt, visit_loop, visit_if_stmt, visit_expr_stmt, visit_unary_expr, visit_binary_expr,
  visit_return_stmt, finish_loop,
}
use gsc.Compiler.Calls.{visit_literal}
use gsc.Compiler.Visit.{visit, visit_nodes, visit_maybe, lvalue}
use gsc.Compiler.State.{Compiler, jump_break, jump_continue, ◌>>=◌, pure, gets, error}

-- `tolower` of the C locale.
abbrev pub tolower : ℕ → ℕ
tolower n = if ltb 64 n && ltb n 91 then n + 32 else n

abbrev pub strings : StringTable
strings = record {
  head = empty;
  begin = record { beg = 4096; end = 8096; jmp_oom = true };
  end = record { beg = 10496; end = 12096; jmp_oom = true };
  strings = [];
  entries = [];
  index = 0;
  max_entries = 60;
}

abbrev pub start : Compiler
start = record {
  variable_index = 0;
  variables = init ℕ;
  globals = none;
  instructions = λ i. record {
    offset = 0;
    opcode = op_invalid;
    operand0 = none_operand;
    operand1 = none_operand;
    operand2 = none_operand;
    operand3 = none_operand;
  };
  instruction_count = 0;
  max_instruction_count = 0;
  strings = strings;
  scopes = λ i. record { allows_break = false; allows_continue = false };
  current_scope = 0;
  jumps = [];
  path = some (codes "main");
  print_expression = false;
}

-- while(n < 3) { if(n) break; n++; } return n;
abbrev pub n_var : Node
n_var = ast_identifier (codes "n")

abbrev pub body : Node
body = ast_block_stmt (
    node
      (ast_while_stmt (present (ast_binary_expr 60 n_var (ast_literal (literal_integer 3)))) (
        ast_block_stmt (
          node (ast_if_stmt n_var ast_break_stmt absent)
            (node (ast_expr_stmt (ast_unary_expr n_var tk_increment false)) end))))
      (node (ast_return_stmt (present n_var)) end))

abbrev pub state_of : Result (ℕ × Compiler) → Compiler
state_of (err fault) = start
state_of (ok (n, c)) = c

abbrev pub compiled : Compiler
compiled = state_of (compile_function tolower (node n_var end) body start)

pub compile : compile_function tolower (node n_var end) body start ≡ ok (22, compiled)
unfolding compile_function compile_body resolve_jumps define_parameters define_local_variable upsert
    init set_value value_at visit visit_nodes visit_maybe visit_block_stmt visit_loop visit_if_stmt
    visit_expr_stmt visit_unary_expr visit_binary_expr visit_literal visit_return_stmt variable
    names_global lvalue emit_base emit_operands set_operands emit_pending push_jump increment_scope
    finish_loop decrement_scope patch_jumps pending_target reljmp_current patch_reljmp started
    update resolve literal_type integer_of ◌>>=◌ pure gets error string intern reset find insert
    hash
compile = refl

-- The function starts with a load of `n`.
pub compiled_start :
    ((compiled.instructions 0).opcode ≡ op_load) × ((compiled.instructions 0).operand0 ≡ integer 1)
unfolding compile_function compile_body resolve_jumps define_parameters define_local_variable upsert
    init set_value value_at visit visit_nodes visit_maybe visit_block_stmt visit_loop visit_if_stmt
    visit_expr_stmt visit_unary_expr visit_binary_expr visit_literal visit_return_stmt variable
    names_global lvalue emit_base emit_operands set_operands emit_pending push_jump increment_scope
    finish_loop decrement_scope patch_jumps pending_target reljmp_current patch_reljmp started
    update resolve literal_type integer_of ◌>>=◌ pure gets error string intern reset find insert
    hash
compiled_start = (refl, refl)

compile_function-IsExecutable_example : IsExecutable 22 compiled
compile_function-IsExecutable_example =
    compile_function-IsExecutable tolower (node n_var end) body start compiled 22 compile

-- A loop that is open, with a `break` at instruction 2 and a `continue` of the loop around it.
abbrev in_loop : Compiler
in_loop = record start {
  current_scope = 2;
  scopes = λ i. record { allows_break = true; allows_continue = true };
  instruction_count = 5;
  jumps =
      record { ip = some 2; scope = 2; kind = jump_break }
      ∷ record { ip = some 0; scope = 1; kind = jump_continue }
      ∷ [];
}

abbrev out_of : Result (Unit {0} × Compiler) → Compiler
out_of (err fault) = start
out_of (ok (_, c)) = c

abbrev behind_loop : Compiler
behind_loop = out_of (decrement_scope (some 4) 5 in_loop)

leave : decrement_scope (some 4) 5 in_loop ≡ ok (tt, behind_loop)
unfolding decrement_scope patch_jumps pending_target
leave = refl

zero_ne_two : ◌≡◌ {A = Option ℕ} (some 0) (some 2) → ⊥
zero_ne_two e = cc

in_loop-Distinct : Distinct in_loop.jumps
in_loop-Distinct = (
  (λ i e p. elim p [ inl e' ↦ zero_ne_two (e' ∙ sym e) | inr never ↦ never ]),
  ((λ i e p. p), tt),
)

decrement_scope-IsLeft_example : IsLeft 4 5 in_loop behind_loop
decrement_scope-IsLeft_example =
    decrement_scope-IsLeft 4 5 in_loop behind_loop in_loop-Distinct leave
