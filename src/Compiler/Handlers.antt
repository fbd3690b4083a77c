-- ===== src/Compiler/Handlers.antt =====
-- compiler.c: the visitors of statements and operators. A child is given as the action that visits
-- it, and one that may be NULL as an option.
use gsc.Base.{ℕ, Bool, true, ◌||◌, Option, none, some, List, [], ◌∷◌, length, if◌then◌else◌, ◌==◌}
use gsc.Base.Result.{assertion_failed, unsupported_operator, unsupported_prefix, invalid_property}
use gsc.Token.{tk_logical_and, tk_logical_or, tk_increment, tk_decrement}
use gsc.Compiler.Syntax.{Node, is_expr}
use gsc.Compiler.Code.{
  Opcode, op_pop, op_undef, op_store, op_binop, op_ret, op_test, op_jmp, op_jz, op_jnz, op_const_0,
  op_const_1, op_wait, op_unary, op_vector, op_print_expr, none_operand, integer,
}
use gsc.Compiler.State.{Action, ◌>>=◌, ◌>>◌, pure, error, gets}
use gsc.Compiler.Emit.{emit, emit1, emit4, emit_base, ip, reljmp_current, patch_reljmp}
use gsc.Compiler.Scope.{increment_scope, decrement_scope}

-- A child, or an instruction in its place.
abbrev pub visit_or : Opcode → Option Action → Action
visit_or op none = emit op
visit_or op (some child) = child

abbrev pub emit_binop : ℕ → Action
emit_binop op = emit4 op_binop (integer op) none_operand none_operand none_operand

unfoldable pub visit_wait_stmt : Option Action → Action
visit_wait_stmt duration = do visit_or op_undef duration; emit op_wait

unfoldable pub visit_return_stmt : Option Action → Action
visit_return_stmt argument = do visit_or op_undef argument; emit op_ret

unfoldable pub visit_expr_stmt : Action → Action
visit_expr_stmt expression = do
  expression
  print ← gets (λ c. c.print_expression)
  if print then emit op_print_expr else emit op_pop

unfoldable pub visit_block_stmt : List Action → Action
visit_block_stmt [] = pure tt
visit_block_stmt (stmt ∷ stmts) = do stmt; visit_block_stmt stmts

-- A list of children from the last to the first.
unfoldable pub visit_reversed : List Action → Action
visit_reversed [] = pure tt
visit_reversed (child ∷ children) = do visit_reversed children; child

unfoldable pub visit_vector_expr : List Action → Action
visit_vector_expr elements = do visit_reversed elements; emit1 op_vector (integer (length elements))

-- The end of a loop, whose tests and body stand before it: the update, the jump back, and the targets
-- of the jumps that leave the loop or continue it.
abbrev pub update_of : Option Action → Action
update_of none = pure tt
update_of (some update) = do update; emit op_pop

unfoldable pub finish_loop : ℕ → ℕ → Option Action → Action
finish_loop loop_begin jz update = do
  continue_offset ← ip
  update_of update
  reljmp_current op_jmp loop_begin
  patch_reljmp jz
  break_offset ← ip
  decrement_scope (some continue_offset) break_offset

-- The loop of `while` and `for`: `while` has no update.
unfoldable pub visit_loop : Option Action → Option Action → Action → Action
visit_loop test update body = do
  increment_scope true true
  loop_begin ← ip
  visit_or op_const_1 test
  emit op_test
  jz ← emit_base op_jz
  body
  finish_loop loop_begin jz update

abbrev pub visit_while_stmt : Option Action → Action → Action
visit_while_stmt test body = visit_loop test none body

unfoldable pub visit_for_stmt : Option Action → Option Action → Option Action → Action → Action
visit_for_stmt init test update body = do update_of init; visit_loop test update body

abbrev pub visit_else : ℕ → Option Action → Action
visit_else jz none = patch_reljmp jz
visit_else jz (some alternative) = do
  jmp ← emit_base op_jmp
  patch_reljmp jz
  alternative
  patch_reljmp jmp

unfoldable pub visit_if_stmt : Action → Action → Option Action → Action
visit_if_stmt test consequent alternative = do
  test
  emit op_test
  jz ← emit_base op_jz
  consequent
  visit_else jz alternative

-- `&&` and `||`: the jump that skips the right side, and the constants that the two paths push.
unfoldable pub visit_logical : Opcode → Opcode → Opcode → ℕ → Action → Action → Action
visit_logical skip neutral decided op lhs rhs = do
  lhs
  emit op_test
  jump ← emit_base skip
  emit neutral
  rhs
  emit_binop op
  jmp ← emit_base op_jmp
  patch_reljmp jump
  emit decided
  patch_reljmp jmp

unfoldable pub visit_binary_expr : ℕ → Action → Action → Action
visit_binary_expr op lhs rhs =
    if op == tk_logical_and
    then visit_logical op_jz op_const_1 op_const_0 op lhs rhs
    else if op == tk_logical_or
    then visit_logical op_jnz op_const_0 op_const_1 op lhs rhs
    else (do lhs; rhs; emit_binop op)

-- An assignment from the actions that read its left side and that refer to it. The library's
-- `assert` aborts.
unfoldable pub visit_assignment_expr : ℕ → Action → Action → Action → Action
visit_assignment_expr op lhs lvalue rhs = if op == 61 then (do rhs; lvalue; emit op_store) else (do
  lhs
  rhs
  (if op == tk_logical_and || op == tk_logical_or then error assertion_failed else emit_binop op)
  lvalue
  emit op_store)

-- `++` and `--`, which leave the value from before.
abbrev pub postfix : ℕ → Action → Action → Action
postfix op argument lvalue = do
  argument
  argument
  emit op_const_1
  emit_binop op
  lvalue
  emit op_store
  emit op_pop

unfoldable pub visit_unary_expr : ℕ → Bool → Action → Action → Action
visit_unary_expr op prefix argument lvalue =
    if op == 45
    then (do argument; emit op_const_0; emit_binop op)
    else if op == 33 || op == 126
    then (do argument; emit4 op_unary (integer op) none_operand none_operand none_operand)
    else if op == tk_increment || op == tk_decrement
    then (if prefix
        then error unsupported_prefix
        else postfix (if op == tk_increment then 43 else 45) argument lvalue)
    else error unsupported_operator

-- `property` of a node: a computed property visits the node, one behind a `.` is named by it.
abbrev pub choose_property : ℕ → Node → Action → Action → Action
choose_property op n visited named =
    if op == 91 then (if is_expr n then visited else error invalid_property) else named

-- A field of an object: the property, the object, and the load or the reference.
unfoldable pub visit_field : Opcode → Action → Action → Action
visit_field op property object = do property; object; emit op

abbrev pub visit_self : Opcode → Action
visit_self op = emit4 op (integer 0) none_operand none_operand none_operand
