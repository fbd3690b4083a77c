-- ===== src/Traverse/Keeps.antt =====
-- traverse.c: properties that the callback keeps, and the walk.
use gsc.Base.{ℕ, List}
use gsc.Compiler.Syntax.{
  Node, MaybeNode, absent, present, Nodes, end, node, Literal, ast_function,
  ast_function_pointer_expr, ast_struct_expr, ast_array_expr, ast_group_expr, ast_assignment_expr,
  ast_binary_expr, ast_call_expr, ast_conditional_expr, ast_file_reference, ast_identifier,
  ast_literal, ast_member_expr, ast_self, ast_unary_expr, ast_vector_expr, ast_block_stmt,
  ast_break_stmt, ast_continue_stmt, ast_empty_stmt, ast_wait_till_frame_end_stmt,
  ast_do_while_stmt, ast_expr_stmt, ast_for_stmt, ast_if_stmt, ast_return_stmt, ast_switch_case,
  ast_switch_stmt, ast_wait_stmt, ast_while_stmt, literal_function, literal_string,
  literal_localized_string, literal_integer, literal_boolean, literal_float, literal_undefined,
}
use gsc.Traverse.{visit, visit_maybe, visit_nodes, visit_literal, traverse_function}

-- A property of the state that the callback keeps at every node.
module _ {S : Type 0} (callback : Node → S → S) (P : S → Type 0)
    (stable : (n : Node) (s : S) → P s → P (callback n s)) where
  mutual
    unfolding visit visit_maybe visit_nodes visit_literal

    pub visit-after : (n : Node) (s : S) → P (callback n s) → P (visit callback n s)
    visit-after (ast_function name) s h = h
    visit-after (ast_function_pointer_expr e) s h =
        visit-after e (callback (ast_function_pointer_expr e) s)
          (stable e (callback (ast_function_pointer_expr e) s) h)
    visit-after (ast_struct_expr elements) s h =
        visit_nodes-keeps elements (callback (ast_struct_expr elements) s) h
    visit-after (ast_array_expr elements) s h =
        visit_nodes-keeps elements (callback (ast_array_expr elements) s) h
    visit-after (ast_group_expr e) s h =
        visit-after e (callback (ast_group_expr e) s) (stable e (callback (ast_group_expr e) s) h)
    visit-after (ast_assignment_expr op lhs rhs) s h =
        visit-after rhs (visit callback lhs (callback (ast_assignment_expr op lhs rhs) s)) (
          stable rhs (visit callback lhs (callback (ast_assignment_expr op lhs rhs) s)) (
            visit-after lhs (callback (ast_assignment_expr op lhs rhs) s)
              (stable lhs (callback (ast_assignment_expr op lhs rhs) s) h)))
    visit-after (ast_binary_expr op lhs rhs) s h =
        visit-after rhs (visit callback lhs (callback (ast_binary_expr op lhs rhs) s)) (
          stable rhs (visit callback lhs (callback (ast_binary_expr op lhs rhs) s)) (
            visit-after lhs (callback (ast_binary_expr op lhs rhs) s)
              (stable lhs (callback (ast_binary_expr op lhs rhs) s) h)))
    visit-after (ast_call_expr threaded object callee args) s h =
        visit_nodes-keeps args
          (visit callback callee
            (visit_maybe callback object (callback (ast_call_expr threaded object callee args) s)))
          (visit-after callee
            (visit_maybe callback object (callback (ast_call_expr threaded object callee args) s))
            (stable callee
              (visit_maybe callback object (callback (ast_call_expr threaded object callee args) s))
              (visit_maybe-keeps object (callback (ast_call_expr threaded object callee args) s)
                h)))
    visit-after (ast_conditional_expr condition consequent alternative) s h =
        visit-after alternative
          (visit callback consequent (
            visit callback condition
              (callback (ast_conditional_expr condition consequent alternative) s)))
          (stable alternative
            (visit callback consequent (
              visit callback condition
                (callback (ast_conditional_expr condition consequent alternative) s)))
            (visit-after consequent
              (visit callback condition
                (callback (ast_conditional_expr condition consequent alternative) s))
              (stable consequent
                (visit callback condition
                  (callback (ast_conditional_expr condition consequent alternative) s))
                (visit-after condition
                  (callback (ast_conditional_expr condition consequent alternative) s)
                  (stable condition
                    (callback (ast_conditional_expr condition consequent alternative) s) h)))))
    visit-after (ast_file_reference file) s h = h
    visit-after (ast_identifier name) s h = h
    visit-after (ast_literal literal) s h =
        visit_literal-keeps literal (callback (ast_literal literal) s) h
    visit-after (ast_member_expr object prop op) s h =
        visit-after prop (visit callback object (callback (ast_member_expr object prop op) s)) (
          stable prop (visit callback object (callback (ast_member_expr object prop op) s)) (
            visit-after object (callback (ast_member_expr object prop op) s)
              (stable object (callback (ast_member_expr object prop op) s) h)))
    visit-after ast_self s h = h
    visit-after (ast_unary_expr argument op prefix) s h =
        visit-after argument (callback (ast_unary_expr argument op prefix) s)
          (stable argument (callback (ast_unary_expr argument op prefix) s) h)
    visit-after (ast_vector_expr elements) s h =
        visit_nodes-keeps elements (callback (ast_vector_expr elements) s) h
    visit-after (ast_block_stmt body) s h =
        visit_nodes-keeps body (callback (ast_block_stmt body) s) h
    visit-after ast_break_stmt s h = h
    visit-after ast_continue_stmt s h = h
    visit-after ast_empty_stmt s h = h
    visit-after ast_wait_till_frame_end_stmt s h = h
    visit-after (ast_do_while_stmt test body) s h =
        visit-after test (visit callback body (callback (ast_do_while_stmt test body) s)) (
          stable test (visit callback body (callback (ast_do_while_stmt test body) s)) (
            visit-after body (callback (ast_do_while_stmt test body) s)
              (stable body (callback (ast_do_while_stmt test body) s) h)))
    visit-after (ast_expr_stmt e) s h =
        visit-after e (callback (ast_expr_stmt e) s) (stable e (callback (ast_expr_stmt e) s) h)
    visit-after (ast_for_stmt init test update body) s h =
        visit-after body
          (visit_maybe callback update (
            visit_maybe callback test
              (visit_maybe callback init (callback (ast_for_stmt init test update body) s))))
          (stable body
            (visit_maybe callback update (
              visit_maybe callback test
                (visit_maybe callback init (callback (ast_for_stmt init test update body) s))))
            (visit_maybe-keeps update
              (visit_maybe callback test
                (visit_maybe callback init (callback (ast_for_stmt init test update body) s)))
              (visit_maybe-keeps test
                (visit_maybe callback init (callback (ast_for_stmt init test update body) s))
                (visit_maybe-keeps init (callback (ast_for_stmt init test update body) s) h))))
    visit-after (ast_if_stmt test consequent alternative) s h =
        visit_maybe-keeps alternative
          (visit callback consequent
            (visit callback test (callback (ast_if_stmt test consequent alternative) s)))
          (visit-after consequent
            (visit callback test (callback (ast_if_stmt test consequent alternative) s))
            (stable consequent
              (visit callback test (callback (ast_if_stmt test consequent alternative) s))
              (visit-after test (callback (ast_if_stmt test consequent alternative) s)
                (stable test (callback (ast_if_stmt test consequent alternative) s) h))))
    visit-after (ast_return_stmt argument) s h =
        visit_maybe-keeps argument (callback (ast_return_stmt argument) s) h
    visit-after (ast_switch_case test consequent) s h =
        visit_nodes-keeps consequent
          (visit_maybe callback test (callback (ast_switch_case test consequent) s))
          (visit_maybe-keeps test (callback (ast_switch_case test consequent) s) h)
    visit-after (ast_switch_stmt discriminant cases) s h =
        visit-after discriminant
          (visit_nodes callback cases (callback (ast_switch_stmt discriminant cases) s))
          (stable discriminant
            (visit_nodes callback cases (callback (ast_switch_stmt discriminant cases) s))
            (visit_nodes-keeps cases (callback (ast_switch_stmt discriminant cases) s) h))
    visit-after (ast_wait_stmt duration) s h =
        visit_maybe-keeps duration (callback (ast_wait_stmt duration) s) h
    visit-after (ast_while_stmt test body) s h =
        visit-after body (visit_maybe callback test (callback (ast_while_stmt test body) s)) (
          stable body (visit_maybe callback test (callback (ast_while_stmt test body) s))
            (visit_maybe-keeps test (callback (ast_while_stmt test body) s) h))

    pub visit_maybe-keeps : (n : MaybeNode) (s : S) → P s → P (visit_maybe callback n s)
    visit_maybe-keeps absent s h = h
    visit_maybe-keeps (present n) s h = visit-after n s (stable n s h)

    pub visit_nodes-keeps : (ns : Nodes) (s : S) → P s → P (visit_nodes callback ns s)
    visit_nodes-keeps end s h = h
    visit_nodes-keeps (node n ns) s h =
        visit_nodes-keeps ns (visit callback n s) (visit-after n s (stable n s h))

    pub visit_literal-keeps : (l : Literal) (s : S) → P s → P (visit_literal callback l s)
    visit_literal-keeps (literal_function file function) s h =
        visit_maybe-keeps file (visit callback function s)
          (visit-after function s (stable function s h))
    visit_literal-keeps (literal_string _) s h = h
    visit_literal-keeps (literal_localized_string _) s h = h
    visit_literal-keeps (literal_integer _) s h = h
    visit_literal-keeps (literal_boolean _) s h = h
    visit_literal-keeps (literal_float _) s h = h
    visit_literal-keeps literal_undefined s h = h

  pub visit-keeps : (n : Node) (s : S) → P s → P (visit callback n s)
  visit-keeps n s h = visit-after n s (stable n s h)

  pub traverse_function-keeps :
      (name : List ℕ) (parameters : Nodes) (body : Node) (s : S)
      → P s
      → P (traverse_function callback name parameters body s)
  unfolding traverse_function
  traverse_function-keeps name parameters body s h =
      visit-keeps body (visit_nodes callback parameters (callback (ast_function name) s)) (
        visit_nodes-keeps parameters (callback (ast_function name) s)
          (stable (ast_function name) s h))
