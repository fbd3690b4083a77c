-- ===== src/Compiler/Sound/Visit.antt =====
-- compiler.c: the visitor of every node keeps the state sound.
use gsc.Base.{ℕ, none, refl}
use gsc.Compiler.Syntax.{
  Node, MaybeNode, Nodes, absent, present, end, node, ast_function, ast_function_pointer_expr,
  ast_struct_expr, ast_array_expr, ast_group_expr, ast_assignment_expr, ast_binary_expr,
  ast_call_expr, ast_conditional_expr, ast_file_reference, ast_identifier, ast_literal,
  ast_member_expr, ast_self, ast_unary_expr, ast_vector_expr, ast_block_stmt, ast_break_stmt,
  ast_continue_stmt, ast_empty_stmt, ast_wait_till_frame_end_stmt, ast_do_while_stmt, ast_expr_stmt,
  ast_for_stmt, ast_if_stmt, ast_return_stmt, ast_switch_case, ast_switch_stmt, ast_wait_stmt,
  ast_while_stmt,
}
use gsc.Compiler.Code.{op_load, op_ref, op_load_field, op_field_ref, op_table}
use gsc.Compiler.State.{jump_break, jump_continue}
use gsc.Compiler.Visit.{
  visit, visit_maybe, visit_nodes, visit_arguments_of, visit_cases, property_name, lvalue, callee,
  member_object,
}
use gsc.Compiler.Sound.Invariant.{no_new}
use gsc.Compiler.Sound.Actions.{Keeps-pure, KeepsWith-error}
use gsc.Compiler.Sound.Emit.{emit-Keeps}
use gsc.Compiler.Sound.Scope.{emit_pending-Keeps}
use gsc.Compiler.Sound.Locals.{push_name-Keeps, visit_self-Keeps, variable-Keeps, identifier-Keeps}
use gsc.Compiler.Sound.Handlers.{
  Kept, OptionKept, AllKept, visit_wait_stmt-Keeps, visit_return_stmt-Keeps, visit_expr_stmt-Keeps,
  visit_block_stmt-Keeps, visit_vector_expr-Keeps, visit_loop-Keeps, visit_for_stmt-Keeps,
  visit_if_stmt-Keeps, visit_binary_expr-Keeps, visit_assignment_expr-Keeps, visit_unary_expr-Keeps,
  choose_property-Keeps, visit_field-Keeps,
}
use gsc.Compiler.Sound.Switch.{CasesKept, visit_switch_stmt-Keeps}
use gsc.Compiler.Sound.Calls.{
  ArgumentsKept, visit_literal-Keeps, literal_name-Keeps, call_name-Keeps, call_pointer-Keeps,
  call_literal-Keeps, visit_call_expr-Keeps,
}

module _ (tolower : ℕ → ℕ) where
  mutual
    unfolding visit visit_maybe visit_nodes visit_arguments_of visit_cases property_name lvalue
        callee member_object

    pub visit-Keeps : (n : Node) → Kept (visit tolower n)
    visit-Keeps (ast_function name) lo js = KeepsWith-error lo js no_new _
    visit-Keeps (ast_function_pointer_expr e) lo js = KeepsWith-error lo js no_new _
    visit-Keeps (ast_struct_expr ns) lo js = emit-Keeps lo js op_table refl
    visit-Keeps (ast_array_expr ns) lo js = emit-Keeps lo js op_table refl
    visit-Keeps (ast_group_expr e) lo js = visit-Keeps e lo js
    visit-Keeps (ast_assignment_expr op lhs rhs) lo js =
        visit_assignment_expr-Keeps op _ _ _ (visit-Keeps lhs) (lvalue-Keeps lhs) (visit-Keeps rhs)
          lo js
    visit-Keeps (ast_binary_expr op lhs rhs) lo js =
        visit_binary_expr-Keeps op _ _ (visit-Keeps lhs) (visit-Keeps rhs) lo js
    visit-Keeps (ast_call_expr threaded object function arguments) lo js =
        visit_call_expr-Keeps threaded _ function _ _ _ (visit_maybe-Keeps object)
          (member_object-Keeps function) (callee-Keeps function)
          (visit_arguments_of-Keeps arguments) lo js
    visit-Keeps (ast_conditional_expr a b c) lo js = KeepsWith-error lo js no_new _
    visit-Keeps (ast_file_reference file) lo js = KeepsWith-error lo js no_new _
    visit-Keeps (ast_identifier name) lo js =
        variable-Keeps tolower lo js op_load op_load_field 0 name refl refl
    visit-Keeps (ast_literal literal) lo js = visit_literal-Keeps literal lo js
    visit-Keeps (ast_member_expr object prop op) lo js =
        visit_field-Keeps op_load_field _ _ refl
          (choose_property-Keeps op prop _ _ (visit-Keeps prop) (property_name-Keeps prop))
          (visit-Keeps object) lo js
    visit-Keeps ast_self lo js = visit_self-Keeps lo js op_load refl
    visit-Keeps (ast_unary_expr argument op prefix) lo js =
        visit_unary_expr-Keeps op prefix _ _ (visit-Keeps argument) (lvalue-Keeps argument) lo js
    visit-Keeps (ast_vector_expr elements) lo js =
        visit_vector_expr-Keeps _ (visit_nodes-Keeps elements) lo js
    visit-Keeps (ast_block_stmt body) lo js =
        visit_block_stmt-Keeps _ (visit_nodes-Keeps body) lo js
    visit-Keeps ast_break_stmt lo js = emit_pending-Keeps lo js jump_break
    visit-Keeps ast_continue_stmt lo js = emit_pending-Keeps lo js jump_continue
    visit-Keeps (ast_do_while_stmt a b) lo js = KeepsWith-error lo js no_new _
    visit-Keeps ast_empty_stmt lo js = Keeps-pure lo js tt
    visit-Keeps (ast_expr_stmt e) lo js = visit_expr_stmt-Keeps _ (visit-Keeps e) lo js
    visit-Keeps (ast_for_stmt init test update body) lo js =
        visit_for_stmt-Keeps _ _ _ _ (visit_maybe-Keeps init) (visit_maybe-Keeps test)
          (visit_maybe-Keeps update) (visit-Keeps body) lo js
    visit-Keeps (ast_if_stmt test consequent alternative) lo js =
        visit_if_stmt-Keeps _ _ _ (visit-Keeps test) (visit-Keeps consequent)
          (visit_maybe-Keeps alternative) lo js
    visit-Keeps (ast_return_stmt argument) lo js =
        visit_return_stmt-Keeps _ (visit_maybe-Keeps argument) lo js
    visit-Keeps (ast_switch_case a b) lo js = KeepsWith-error lo js no_new _
    visit-Keeps (ast_switch_stmt discriminant cases) lo js =
        visit_switch_stmt-Keeps _ _ (visit-Keeps discriminant) (visit_cases-Keeps cases) lo js
    visit-Keeps (ast_wait_stmt duration) lo js =
        visit_wait_stmt-Keeps _ (visit_maybe-Keeps duration) lo js
    visit-Keeps ast_wait_till_frame_end_stmt lo js = KeepsWith-error lo js no_new _
    visit-Keeps (ast_while_stmt test body) lo js =
        visit_loop-Keeps _ none _ (visit_maybe-Keeps test) tt (visit-Keeps body) lo js

    visit_maybe-Keeps : (n : MaybeNode) → OptionKept (visit_maybe tolower n)
    visit_maybe-Keeps absent = tt
    visit_maybe-Keeps (present n) = visit-Keeps n

    visit_nodes-Keeps : (ns : Nodes) → AllKept (visit_nodes tolower ns)
    visit_nodes-Keeps end = tt
    visit_nodes-Keeps (node n ns) = (visit-Keeps n, visit_nodes-Keeps ns)

    visit_arguments_of-Keeps : (ns : Nodes) → ArgumentsKept (visit_arguments_of tolower ns)
    visit_arguments_of-Keeps end = tt
    visit_arguments_of-Keeps (node n ns) =
        (visit-Keeps n, (λ lo js. identifier-Keeps tolower lo js n), visit_arguments_of-Keeps ns)

    visit_cases-Keeps : (ns : Nodes) → CasesKept (visit_cases tolower ns)
    visit_cases-Keeps end = tt
    visit_cases-Keeps (node (ast_switch_case (present test) body) ns) =
        ((visit-Keeps test, visit_nodes-Keeps body), visit_cases-Keeps ns)
    visit_cases-Keeps (node (ast_switch_case absent body) ns) =
        (visit_nodes-Keeps body, visit_cases-Keeps ns)
    visit_cases-Keeps (node n ns) = (tt, visit_cases-Keeps ns)

    property_name-Keeps : (n : Node) → Kept (property_name tolower n)
    property_name-Keeps (ast_identifier name) lo js = push_name-Keeps lo js name
    property_name-Keeps (ast_member_expr object prop op) lo js =
        visit_field-Keeps op_load_field _ _ refl
          (choose_property-Keeps op prop _ _ (visit-Keeps prop) (property_name-Keeps prop))
          (visit-Keeps object) lo js
    property_name-Keeps (ast_literal literal) lo js = literal_name-Keeps literal lo js
    property_name-Keeps n lo js = KeepsWith-error lo js no_new _

    lvalue-Keeps : (n : Node) → Kept (lvalue tolower n)
    lvalue-Keeps ast_self lo js = visit_self-Keeps lo js op_ref refl
    lvalue-Keeps (ast_identifier name) lo js = identifier-Keeps tolower lo js (ast_identifier name)
    lvalue-Keeps (ast_member_expr object prop op) lo js =
        visit_field-Keeps op_field_ref _ _ refl
          (choose_property-Keeps op prop _ _ (visit-Keeps prop) (property_name-Keeps prop))
          (lvalue-Keeps object) lo js
    lvalue-Keeps n lo js = KeepsWith-error lo js no_new _

    callee-Keeps : (n : Node) (flags numarguments : ℕ) → Kept (callee tolower n flags numarguments)
    callee-Keeps (ast_member_expr object prop op) flags numarguments lo js =
        call_pointer-Keeps _ flags numarguments
          (visit_field-Keeps op_load_field _ _ refl
            (choose_property-Keeps op prop _ _ (visit-Keeps prop) (property_name-Keeps prop))
            (visit-Keeps object))
          lo js
    callee-Keeps (ast_identifier name) flags numarguments lo js =
        call_name-Keeps name flags numarguments lo js
    callee-Keeps (ast_function_pointer_expr e) flags numarguments lo js =
        call_pointer-Keeps _ flags numarguments (visit-Keeps e) lo js
    callee-Keeps (ast_literal literal) flags numarguments lo js =
        call_literal-Keeps literal flags numarguments lo js
    callee-Keeps n flags numarguments lo js = KeepsWith-error lo js no_new _

    member_object-Keeps : (n : Node) → OptionKept (member_object tolower n)
    member_object-Keeps (ast_member_expr object prop op) = visit-Keeps object
    member_object-Keeps n = tt
