-- ===== src/Traverse.antt =====
-- traverse.c: the walk over a syntax tree. `callback` is called at each node before its children.
pub mod Occurs
pub mod Keeps
pub mod Reaches
use gsc.Base.{ℕ, List}
use gsc.Compiler.Syntax.{
  Node, MaybeNode, absent, present, Nodes, end, node, Literal, ast_function,
  ast_function_pointer_expr, ast_struct_expr, ast_array_expr, ast_group_expr, ast_assignment_expr,
  ast_binary_expr, ast_call_expr, ast_conditional_expr, ast_file_reference, ast_identifier,
  ast_literal, ast_member_expr, ast_self, ast_unary_expr, ast_vector_expr, ast_block_stmt,
  ast_break_stmt, ast_continue_stmt, ast_empty_stmt, ast_wait_till_frame_end_stmt,
  ast_do_while_stmt, ast_expr_stmt, ast_for_stmt, ast_if_stmt, ast_return_stmt, ast_switch_case,
  ast_switch_stmt, ast_wait_stmt, ast_while_stmt, literal_function,
}

-- The visitor of a node calls back, and then visits the children.
unfoldable mutual
  pub visit : {S : Type 0} → (Node → S → S) → Node → S → S
  visit callback (ast_function name) s = callback (ast_function name) s
  visit callback (ast_function_pointer_expr e) s =
      visit callback e (callback (ast_function_pointer_expr e) s)
  visit callback (ast_struct_expr elements) s =
      visit_nodes callback elements (callback (ast_struct_expr elements) s)
  visit callback (ast_array_expr elements) s =
      visit_nodes callback elements (callback (ast_array_expr elements) s)
  visit callback (ast_group_expr e) s = visit callback e (callback (ast_group_expr e) s)
  visit callback (ast_assignment_expr op lhs rhs) s =
      visit callback rhs (visit callback lhs (callback (ast_assignment_expr op lhs rhs) s))
  visit callback (ast_binary_expr op lhs rhs) s =
      visit callback rhs (visit callback lhs (callback (ast_binary_expr op lhs rhs) s))
  visit callback (ast_call_expr threaded object callee args) s = visit_nodes callback args (
      visit callback callee
        (visit_maybe callback object (callback (ast_call_expr threaded object callee args) s)))
  visit callback (ast_conditional_expr condition consequent alternative) s =
      visit callback alternative (
        visit callback consequent (
          visit callback condition
            (callback (ast_conditional_expr condition consequent alternative) s)))
  visit callback (ast_file_reference file) s = callback (ast_file_reference file) s
  visit callback (ast_identifier name) s = callback (ast_identifier name) s
  visit callback (ast_literal literal) s =
      visit_literal callback literal (callback (ast_literal literal) s)
  visit callback (ast_member_expr object prop op) s =
      visit callback prop (visit callback object (callback (ast_member_expr object prop op) s))
  visit callback ast_self s = callback ast_self s
  visit callback (ast_unary_expr argument op prefix) s =
      visit callback argument (callback (ast_unary_expr argument op prefix) s)
  visit callback (ast_vector_expr elements) s =
      visit_nodes callback elements (callback (ast_vector_expr elements) s)
  visit callback (ast_block_stmt body) s =
      visit_nodes callback body (callback (ast_block_stmt body) s)
  visit callback ast_break_stmt s = callback ast_break_stmt s
  visit callback ast_continue_stmt s = callback ast_continue_stmt s
  visit callback ast_empty_stmt s = callback ast_empty_stmt s
  visit callback ast_wait_till_frame_end_stmt s = callback ast_wait_till_frame_end_stmt s
  visit callback (ast_do_while_stmt test body) s =
      visit callback test (visit callback body (callback (ast_do_while_stmt test body) s))
  visit callback (ast_expr_stmt e) s = visit callback e (callback (ast_expr_stmt e) s)
  visit callback (ast_for_stmt init test update body) s = visit callback body (
      visit_maybe callback update (
        visit_maybe callback test
          (visit_maybe callback init (callback (ast_for_stmt init test update body) s))))
  visit callback (ast_if_stmt test consequent alternative) s = visit_maybe callback alternative (
      visit callback consequent
        (visit callback test (callback (ast_if_stmt test consequent alternative) s)))
  visit callback (ast_return_stmt argument) s =
      visit_maybe callback argument (callback (ast_return_stmt argument) s)
  visit callback (ast_switch_case test consequent) s =
      visit_nodes callback consequent
        (visit_maybe callback test (callback (ast_switch_case test consequent) s))
  visit callback (ast_switch_stmt discriminant cases) s =
      visit callback discriminant
        (visit_nodes callback cases (callback (ast_switch_stmt discriminant cases) s))
  visit callback (ast_wait_stmt duration) s =
      visit_maybe callback duration (callback (ast_wait_stmt duration) s)
  visit callback (ast_while_stmt test body) s =
      visit callback body (visit_maybe callback test (callback (ast_while_stmt test body) s))

  pub visit_maybe : {S : Type 0} → (Node → S → S) → MaybeNode → S → S
  visit_maybe callback absent s = s
  visit_maybe callback (present n) s = visit callback n s

  pub visit_nodes : {S : Type 0} → (Node → S → S) → Nodes → S → S
  visit_nodes callback end s = s
  visit_nodes callback (node n ns) s = visit_nodes callback ns (visit callback n s)

  pub visit_literal : {S : Type 0} → (Node → S → S) → Literal → S → S
  visit_literal callback (literal_function file function) s =
      visit_maybe callback file (visit callback function s)
  visit_literal callback _ s = s

-- `traverse` of a function: its parameters, and its body.
unfoldable pub traverse_function : {S : Type 0} → (Node → S → S) → List ℕ → Nodes → Node → S → S
traverse_function callback name parameters body s =
    visit callback body (visit_nodes callback parameters (callback (ast_function name) s))
