-- ===== src/Compiler/Visit.antt =====
-- compiler.c: the visitors of all nodes, `property`, `lvalue` and `callee`, each by recursion on the
-- tree: they hand the actions of the children to the handlers.
use gsc.Base.{ℕ, Option, none, some, List, [], ◌∷◌}
use gsc.Base.Result.{
  unimplemented, outside_calling_context, nested_function, unsupported_callee, invalid_property,
  invalid_lvalue,
}
use gsc.Compiler.Syntax.{
  Node, MaybeNode, Nodes, absent, present, end, node, ast_function, ast_function_pointer_expr,
  ast_struct_expr, ast_array_expr, ast_group_expr, ast_assignment_expr, ast_binary_expr,
  ast_call_expr, ast_conditional_expr, ast_file_reference, ast_identifier, ast_literal,
  ast_member_expr, ast_self, ast_unary_expr, ast_vector_expr, ast_block_stmt, ast_break_stmt,
  ast_continue_stmt, ast_empty_stmt, ast_wait_till_frame_end_stmt, ast_do_while_stmt, ast_expr_stmt,
  ast_for_stmt, ast_if_stmt, ast_return_stmt, ast_switch_case, ast_switch_stmt, ast_wait_stmt,
  ast_while_stmt,
}
use gsc.Compiler.Code.{op_load, op_ref, op_load_field, op_field_ref, op_table}
use gsc.Compiler.State.{jump_break, jump_continue, Action, error, pure}
use gsc.Compiler.Emit.{emit}
use gsc.Compiler.Scope.{emit_pending}
use gsc.Compiler.Locals.{push_name, visit_identifier, identifier}
use gsc.Compiler.Handlers.{
  visit_wait_stmt, visit_return_stmt, visit_expr_stmt, visit_block_stmt, visit_vector_expr,
  visit_while_stmt, visit_for_stmt, visit_if_stmt, visit_binary_expr, visit_assignment_expr,
  visit_unary_expr, choose_property, visit_field, visit_self,
}
use gsc.Compiler.Switch.{SwitchCase, tested, default, not_a_case, visit_switch_stmt}
use gsc.Compiler.Calls.{
  Argument, visit_literal, literal_name, call_name, call_pointer, call_literal, visit_call_expr,
}

module _ (tolower : ℕ → ℕ) where
  unfoldable mutual
    pub visit : Node → Action
    visit (ast_function _) = error nested_function
    visit (ast_function_pointer_expr _) = error outside_calling_context
    visit (ast_struct_expr _) = emit op_table
    visit (ast_array_expr _) = emit op_table
    visit (ast_group_expr expression) = visit expression
    visit (ast_assignment_expr op lhs rhs) =
        visit_assignment_expr op (visit lhs) (lvalue lhs) (visit rhs)
    visit (ast_binary_expr op lhs rhs) = visit_binary_expr op (visit lhs) (visit rhs)
    visit (ast_call_expr threaded object function arguments) =
        visit_call_expr threaded (visit_maybe object) function (member_object function)
          (callee function) (visit_arguments_of arguments)
    visit (ast_conditional_expr _ _ _) = error unimplemented
    visit (ast_file_reference _) = error unimplemented
    visit (ast_identifier name) = visit_identifier tolower name
    visit (ast_literal literal) = visit_literal literal
    visit (ast_member_expr object prop op) =
        visit_field op_load_field (choose_property op prop (visit prop) (property_name prop))
          (visit object)
    visit ast_self = visit_self op_load
    visit (ast_unary_expr argument op prefix) =
        visit_unary_expr op prefix (visit argument) (lvalue argument)
    visit (ast_vector_expr elements) = visit_vector_expr (visit_nodes elements)
    visit (ast_block_stmt body) = visit_block_stmt (visit_nodes body)
    visit ast_break_stmt = emit_pending jump_break
    visit ast_continue_stmt = emit_pending jump_continue
    visit (ast_do_while_stmt _ _) = error unimplemented
    visit ast_empty_stmt = pure tt
    visit (ast_expr_stmt expression) = visit_expr_stmt (visit expression)
    visit (ast_for_stmt init test update body) =
        visit_for_stmt (visit_maybe init) (visit_maybe test) (visit_maybe update) (visit body)
    visit (ast_if_stmt test consequent alternative) =
        visit_if_stmt (visit test) (visit consequent) (visit_maybe alternative)
    visit (ast_return_stmt argument) = visit_return_stmt (visit_maybe argument)
    visit (ast_switch_case _ _) = error unimplemented
    visit (ast_switch_stmt discriminant cases) =
        visit_switch_stmt (visit discriminant) (visit_cases cases)
    visit (ast_wait_stmt duration) = visit_wait_stmt (visit_maybe duration)
    visit ast_wait_till_frame_end_stmt = error unimplemented
    visit (ast_while_stmt test body) = visit_while_stmt (visit_maybe test) (visit body)

    pub visit_maybe : MaybeNode → Option Action
    visit_maybe absent = none
    visit_maybe (present n) = some (visit n)

    pub visit_nodes : Nodes → List Action
    visit_nodes end = []
    visit_nodes (node n ns) = visit n ∷ visit_nodes ns

    pub visit_arguments_of : Nodes → List Argument
    visit_arguments_of end = []
    visit_arguments_of (node n ns) =
        record { visited = visit n; referenced = identifier tolower n } ∷ visit_arguments_of ns

    pub visit_cases : Nodes → List SwitchCase
    visit_cases end = []
    visit_cases (node (ast_switch_case (present test) body) ns) =
        tested (visit test) (visit_nodes body) ∷ visit_cases ns
    visit_cases (node (ast_switch_case absent body) ns) =
        default (visit_nodes body) ∷ visit_cases ns
    visit_cases (node _ ns) = not_a_case ∷ visit_cases ns

    -- `property` of a node behind a `.`.
    pub property_name : Node → Action
    property_name (ast_identifier name) = push_name name
    property_name (ast_member_expr object prop op) =
        visit_field op_load_field (choose_property op prop (visit prop) (property_name prop))
          (visit object)
    property_name (ast_literal literal) = literal_name literal
    property_name _ = error invalid_property

    pub lvalue : Node → Action
    lvalue ast_self = visit_self op_ref
    lvalue (ast_identifier name) = identifier tolower (ast_identifier name)
    lvalue (ast_member_expr object prop op) =
        visit_field op_field_ref (choose_property op prop (visit prop) (property_name prop))
          (lvalue object)
    lvalue _ = error invalid_lvalue

    pub callee : Node → ℕ → ℕ → Action
    callee (ast_member_expr object prop op) = call_pointer (
        visit_field op_load_field (choose_property op prop (visit prop) (property_name prop))
          (visit object))
    callee (ast_identifier name) = call_name name
    callee (ast_function_pointer_expr expression) = call_pointer (visit expression)
    callee (ast_literal literal) = call_literal literal
    callee _ = λ flags numarguments. error unsupported_callee

    -- The object of a callee that is a member.
    pub member_object : Node → Option Action
    member_object (ast_member_expr object _ _) = some (visit object)
    member_object _ = none
