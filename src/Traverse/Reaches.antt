-- ===== src/Traverse/Reaches.antt =====
-- traverse.c: the nodes that the walk comes to.
use gsc.Base.{ℕ, List}
use gsc.Compiler.Syntax.{
  Node, MaybeNode, Nodes, Literal, ast_function, ast_function_pointer_expr, ast_struct_expr,
  ast_array_expr, ast_group_expr, ast_assignment_expr, ast_binary_expr, ast_call_expr,
  ast_conditional_expr, ast_literal, ast_member_expr, ast_unary_expr, ast_vector_expr,
  ast_block_stmt, ast_do_while_stmt, ast_expr_stmt, ast_for_stmt, ast_if_stmt, ast_return_stmt,
  ast_switch_case, ast_switch_stmt, ast_wait_stmt, ast_while_stmt,
}
use gsc.Traverse.{visit, visit_maybe, visit_nodes, visit_literal, traverse_function}
use gsc.Traverse.Occurs.{Occurs, OccursMaybe, OccursNodes, OccursLiteral}
use gsc.Traverse.Keeps.{visit-after, visit-keeps, visit_maybe-keeps, visit_nodes-keeps}

-- `I` holds all along, and `P` holds once the callback has seen the node `m`.
module _ {S : Type 0} (callback : Node → S → S) (I P : S → Type 0)
    (kept : (n : Node) (s : S) → I s → I (callback n s))
    (stable : (n : Node) (s : S) → P s → P (callback n s)) (m : Node)
    (found : (s : S) → I s → P (callback m s)) where
  mutual
    unfolding visit visit_maybe visit_nodes visit_literal

    visit-reaches : (n : Node) (s : S) → I s → Occurs m n → P (visit callback n s)
    visit-reaches n s i Occurs.here = visit-after callback P stable m s (found s i)
    visit-reaches n s i (Occurs.in_function_pointer_expr {e = e} d) =
        visit-reaches e (callback (ast_function_pointer_expr e) s)
          (kept (ast_function_pointer_expr e) s i) d
    visit-reaches n s i (Occurs.in_struct_expr {elements = elements} d) =
        visit_nodes-reaches elements (callback (ast_struct_expr elements) s)
          (kept (ast_struct_expr elements) s i) d
    visit-reaches n s i (Occurs.in_array_expr {elements = elements} d) =
        visit_nodes-reaches elements (callback (ast_array_expr elements) s)
          (kept (ast_array_expr elements) s i) d
    visit-reaches n s i (Occurs.in_group_expr {e = e} d) =
        visit-reaches e (callback (ast_group_expr e) s) (kept (ast_group_expr e) s i) d
    visit-reaches n s i (Occurs.assignment_expr_lhs {op = op} {lhs = lhs} {rhs = rhs} d) =
        visit-keeps callback P stable rhs
          (visit callback lhs (callback (ast_assignment_expr op lhs rhs) s))
          (visit-reaches lhs (callback (ast_assignment_expr op lhs rhs) s)
            (kept (ast_assignment_expr op lhs rhs) s i) d)
    visit-reaches n s i (Occurs.assignment_expr_rhs {op = op} {lhs = lhs} {rhs = rhs} d) =
        visit-reaches rhs (visit callback lhs (callback (ast_assignment_expr op lhs rhs) s))
          (visit-keeps callback I kept lhs (callback (ast_assignment_expr op lhs rhs) s)
            (kept (ast_assignment_expr op lhs rhs) s i))
          d
    visit-reaches n s i (Occurs.binary_expr_lhs {op = op} {lhs = lhs} {rhs = rhs} d) =
        visit-keeps callback P stable rhs
          (visit callback lhs (callback (ast_binary_expr op lhs rhs) s))
          (visit-reaches lhs (callback (ast_binary_expr op lhs rhs) s)
            (kept (ast_binary_expr op lhs rhs) s i) d)
    visit-reaches n s i (Occurs.binary_expr_rhs {op = op} {lhs = lhs} {rhs = rhs} d) =
        visit-reaches rhs (visit callback lhs (callback (ast_binary_expr op lhs rhs) s))
          (visit-keeps callback I kept lhs (callback (ast_binary_expr op lhs rhs) s)
            (kept (ast_binary_expr op lhs rhs) s i))
          d
    visit-reaches n s i
          (Occurs.call_expr_object {threaded = threaded} {object = object} {callee = callee}
            {args = args} d) =
        visit_nodes-keeps callback P stable args
          (visit callback callee
            (visit_maybe callback object (callback (ast_call_expr threaded object callee args) s)))
          (visit-keeps callback P stable callee
            (visit_maybe callback object (callback (ast_call_expr threaded object callee args) s))
            (visit_maybe-reaches object (callback (ast_call_expr threaded object callee args) s)
              (kept (ast_call_expr threaded object callee args) s i) d))
    visit-reaches n s i
          (Occurs.call_expr_callee {threaded = threaded} {object = object} {callee = callee}
            {args = args} d) =
        visit_nodes-keeps callback P stable args
          (visit callback callee
            (visit_maybe callback object (callback (ast_call_expr threaded object callee args) s)))
          (visit-reaches callee
            (visit_maybe callback object (callback (ast_call_expr threaded object callee args) s))
            (visit_maybe-keeps callback I kept object
              (callback (ast_call_expr threaded object callee args) s)
              (kept (ast_call_expr threaded object callee args) s i))
            d)
    visit-reaches n s i
          (Occurs.call_expr_args {threaded = threaded} {object = object} {callee = callee}
            {args = args} d) =
        visit_nodes-reaches args
          (visit callback callee
            (visit_maybe callback object (callback (ast_call_expr threaded object callee args) s)))
          (visit-keeps callback I kept callee
            (visit_maybe callback object (callback (ast_call_expr threaded object callee args) s))
            (visit_maybe-keeps callback I kept object
              (callback (ast_call_expr threaded object callee args) s)
              (kept (ast_call_expr threaded object callee args) s i)))
          d
    visit-reaches n s i
          (Occurs.conditional_expr_condition {condition = condition} {consequent = consequent}
            {alternative = alternative} d) =
        visit-keeps callback P stable alternative
          (visit callback consequent (
            visit callback condition
              (callback (ast_conditional_expr condition consequent alternative) s)))
          (visit-keeps callback P stable consequent
            (visit callback condition
              (callback (ast_conditional_expr condition consequent alternative) s))
            (visit-reaches condition
              (callback (ast_conditional_expr condition consequent alternative) s)
              (kept (ast_conditional_expr condition consequent alternative) s i) d))
    visit-reaches n s i
          (Occurs.conditional_expr_consequent {condition = condition} {consequent = consequent}
            {alternative = alternative} d) =
        visit-keeps callback P stable alternative
          (visit callback consequent (
            visit callback condition
              (callback (ast_conditional_expr condition consequent alternative) s)))
          (visit-reaches consequent
            (visit callback condition
              (callback (ast_conditional_expr condition consequent alternative) s))
            (visit-keeps callback I kept condition
              (callback (ast_conditional_expr condition consequent alternative) s)
              (kept (ast_conditional_expr condition consequent alternative) s i))
            d)
    visit-reaches n s i
          (Occurs.conditional_expr_alternative {condition = condition} {consequent = consequent}
            {alternative = alternative} d) =
        visit-reaches alternative
          (visit callback consequent (
            visit callback condition
              (callback (ast_conditional_expr condition consequent alternative) s)))
          (visit-keeps callback I kept consequent
            (visit callback condition
              (callback (ast_conditional_expr condition consequent alternative) s))
            (visit-keeps callback I kept condition
              (callback (ast_conditional_expr condition consequent alternative) s)
              (kept (ast_conditional_expr condition consequent alternative) s i)))
          d
    visit-reaches n s i (Occurs.in_literal {literal = literal} d) =
        visit_literal-reaches literal (callback (ast_literal literal) s)
          (kept (ast_literal literal) s i) d
    visit-reaches n s i (Occurs.member_expr_object {object = object} {prop = prop} {op = op} d) =
        visit-keeps callback P stable prop
          (visit callback object (callback (ast_member_expr object prop op) s))
          (visit-reaches object (callback (ast_member_expr object prop op) s)
            (kept (ast_member_expr object prop op) s i) d)
    visit-reaches n s i (Occurs.member_expr_prop {object = object} {prop = prop} {op = op} d) =
        visit-reaches prop (visit callback object (callback (ast_member_expr object prop op) s))
          (visit-keeps callback I kept object (callback (ast_member_expr object prop op) s)
            (kept (ast_member_expr object prop op) s i))
          d
    visit-reaches n s i (Occurs.in_unary_expr {argument = argument} {op = op} {prefix = prefix} d) =
        visit-reaches argument (callback (ast_unary_expr argument op prefix) s)
          (kept (ast_unary_expr argument op prefix) s i) d
    visit-reaches n s i (Occurs.in_vector_expr {elements = elements} d) =
        visit_nodes-reaches elements (callback (ast_vector_expr elements) s)
          (kept (ast_vector_expr elements) s i) d
    visit-reaches n s i (Occurs.in_block_stmt {body = body} d) =
        visit_nodes-reaches body (callback (ast_block_stmt body) s) (kept (ast_block_stmt body) s i)
          d
    visit-reaches n s i (Occurs.do_while_stmt_body {test = test} {body = body} d) =
        visit-keeps callback P stable test
          (visit callback body (callback (ast_do_while_stmt test body) s))
          (visit-reaches body (callback (ast_do_while_stmt test body) s)
            (kept (ast_do_while_stmt test body) s i) d)
    visit-reaches n s i (Occurs.do_while_stmt_test {test = test} {body = body} d) =
        visit-reaches test (visit callback body (callback (ast_do_while_stmt test body) s))
          (visit-keeps callback I kept body (callback (ast_do_while_stmt test body) s)
            (kept (ast_do_while_stmt test body) s i))
          d
    visit-reaches n s i (Occurs.in_expr_stmt {e = e} d) =
        visit-reaches e (callback (ast_expr_stmt e) s) (kept (ast_expr_stmt e) s i) d
    visit-reaches n s i
          (Occurs.for_stmt_init {init = init} {test = test} {update = update} {body = body} d) =
        visit-keeps callback P stable body
          (visit_maybe callback update (
            visit_maybe callback test
              (visit_maybe callback init (callback (ast_for_stmt init test update body) s))))
          (visit_maybe-keeps callback P stable update
            (visit_maybe callback test
              (visit_maybe callback init (callback (ast_for_stmt init test update body) s)))
            (visit_maybe-keeps callback P stable test
              (visit_maybe callback init (callback (ast_for_stmt init test update body) s))
              (visit_maybe-reaches init (callback (ast_for_stmt init test update body) s)
                (kept (ast_for_stmt init test update body) s i) d)))
    visit-reaches n s i
          (Occurs.for_stmt_test {init = init} {test = test} {update = update} {body = body} d) =
        visit-keeps callback P stable body
          (visit_maybe callback update (
            visit_maybe callback test
              (visit_maybe callback init (callback (ast_for_stmt init test update body) s))))
          (visit_maybe-keeps callback P stable update
            (visit_maybe callback test
              (visit_maybe callback init (callback (ast_for_stmt init test update body) s)))
            (visit_maybe-reaches test
              (visit_maybe callback init (callback (ast_for_stmt init test update body) s))
              (visit_maybe-keeps callback I kept init
                (callback (ast_for_stmt init test update body) s)
                (kept (ast_for_stmt init test update body) s i))
              d))
    visit-reaches n s i
          (Occurs.for_stmt_update {init = init} {test = test} {update = update} {body = body} d) =
        visit-keeps callback P stable body
          (visit_maybe callback update (
            visit_maybe callback test
              (visit_maybe callback init (callback (ast_for_stmt init test update body) s))))
          (visit_maybe-reaches update
            (visit_maybe callback test
              (visit_maybe callback init (callback (ast_for_stmt init test update body) s)))
            (visit_maybe-keeps callback I kept test
              (visit_maybe callback init (callback (ast_for_stmt init test update body) s))
              (visit_maybe-keeps callback I kept init
                (callback (ast_for_stmt init test update body) s)
                (kept (ast_for_stmt init test update body) s i)))
            d)
    visit-reaches n s i
          (Occurs.for_stmt_body {init = init} {test = test} {update = update} {body = body} d) =
        visit-reaches body
          (visit_maybe callback update (
            visit_maybe callback test
              (visit_maybe callback init (callback (ast_for_stmt init test update body) s))))
          (visit_maybe-keeps callback I kept update
            (visit_maybe callback test
              (visit_maybe callback init (callback (ast_for_stmt init test update body) s)))
            (visit_maybe-keeps callback I kept test
              (visit_maybe callback init (callback (ast_for_stmt init test update body) s))
              (visit_maybe-keeps callback I kept init
                (callback (ast_for_stmt init test update body) s)
                (kept (ast_for_stmt init test update body) s i))))
          d
    visit-reaches n s i
          (Occurs.if_stmt_test {test = test} {consequent = consequent} {alternative = alternative}
            d) =
        visit_maybe-keeps callback P stable alternative
          (visit callback consequent
            (visit callback test (callback (ast_if_stmt test consequent alternative) s)))
          (visit-keeps callback P stable consequent
            (visit callback test (callback (ast_if_stmt test consequent alternative) s))
            (visit-reaches test (callback (ast_if_stmt test consequent alternative) s)
              (kept (ast_if_stmt test consequent alternative) s i) d))
    visit-reaches n s i
          (Occurs.if_stmt_consequent {test = test} {consequent = consequent}
            {alternative = alternative} d) =
        visit_maybe-keeps callback P stable alternative
          (visit callback consequent
            (visit callback test (callback (ast_if_stmt test consequent alternative) s)))
          (visit-reaches consequent
            (visit callback test (callback (ast_if_stmt test consequent alternative) s))
            (visit-keeps callback I kept test (callback (ast_if_stmt test consequent alternative) s)
              (kept (ast_if_stmt test consequent alternative) s i))
            d)
    visit-reaches n s i
          (Occurs.if_stmt_alternative {test = test} {consequent = consequent}
            {alternative = alternative} d) =
        visit_maybe-reaches alternative
          (visit callback consequent
            (visit callback test (callback (ast_if_stmt test consequent alternative) s)))
          (visit-keeps callback I kept consequent
            (visit callback test (callback (ast_if_stmt test consequent alternative) s))
            (visit-keeps callback I kept test (callback (ast_if_stmt test consequent alternative) s)
              (kept (ast_if_stmt test consequent alternative) s i)))
          d
    visit-reaches n s i (Occurs.in_return_stmt {argument = argument} d) =
        visit_maybe-reaches argument (callback (ast_return_stmt argument) s)
          (kept (ast_return_stmt argument) s i) d
    visit-reaches n s i (Occurs.switch_case_test {test = test} {consequent = consequent} d) =
        visit_nodes-keeps callback P stable consequent
          (visit_maybe callback test (callback (ast_switch_case test consequent) s))
          (visit_maybe-reaches test (callback (ast_switch_case test consequent) s)
            (kept (ast_switch_case test consequent) s i) d)
    visit-reaches n s i (Occurs.switch_case_consequent {test = test} {consequent = consequent} d) =
        visit_nodes-reaches consequent
          (visit_maybe callback test (callback (ast_switch_case test consequent) s))
          (visit_maybe-keeps callback I kept test (callback (ast_switch_case test consequent) s)
            (kept (ast_switch_case test consequent) s i))
          d
    visit-reaches n s i (Occurs.switch_stmt_cases {discriminant = discriminant} {cases = cases} d) =
        visit-keeps callback P stable discriminant
          (visit_nodes callback cases (callback (ast_switch_stmt discriminant cases) s))
          (visit_nodes-reaches cases (callback (ast_switch_stmt discriminant cases) s)
            (kept (ast_switch_stmt discriminant cases) s i) d)
    visit-reaches n s i
          (Occurs.switch_stmt_discriminant {discriminant = discriminant} {cases = cases} d) =
        visit-reaches discriminant
          (visit_nodes callback cases (callback (ast_switch_stmt discriminant cases) s))
          (visit_nodes-keeps callback I kept cases (callback (ast_switch_stmt discriminant cases) s)
            (kept (ast_switch_stmt discriminant cases) s i))
          d
    visit-reaches n s i (Occurs.in_wait_stmt {duration = duration} d) =
        visit_maybe-reaches duration (callback (ast_wait_stmt duration) s)
          (kept (ast_wait_stmt duration) s i) d
    visit-reaches n s i (Occurs.while_stmt_test {test = test} {body = body} d) =
        visit-keeps callback P stable body
          (visit_maybe callback test (callback (ast_while_stmt test body) s))
          (visit_maybe-reaches test (callback (ast_while_stmt test body) s)
            (kept (ast_while_stmt test body) s i) d)
    visit-reaches n s i (Occurs.while_stmt_body {test = test} {body = body} d) =
        visit-reaches body (visit_maybe callback test (callback (ast_while_stmt test body) s))
          (visit_maybe-keeps callback I kept test (callback (ast_while_stmt test body) s)
            (kept (ast_while_stmt test body) s i))
          d

    visit_maybe-reaches :
        (n : MaybeNode) (s : S) → I s → OccursMaybe m n → P (visit_maybe callback n s)
    visit_maybe-reaches n s i (OccursMaybe.in_present {n = n'} d) = visit-reaches n' s i d

    visit_nodes-reaches :
        (ns : Nodes) (s : S) → I s → OccursNodes m ns → P (visit_nodes callback ns s)
    visit_nodes-reaches ns s i (OccursNodes.first {n = n} {ns = rest} d) =
        visit_nodes-keeps callback P stable rest (visit callback n s) (visit-reaches n s i d)
    visit_nodes-reaches ns s i (OccursNodes.later {n = n} {ns = rest} d) =
        visit_nodes-reaches rest (visit callback n s) (visit-keeps callback I kept n s i) d

    visit_literal-reaches :
        (l : Literal) (s : S) → I s → OccursLiteral m l → P (visit_literal callback l s)
    visit_literal-reaches l s i (OccursLiteral.in_file {file = file} {function = function} d) =
        visit_maybe-reaches file (visit callback function s)
          (visit-keeps callback I kept function s i) d
    visit_literal-reaches l s i (OccursLiteral.in_function {file = file} {function = function} d) =
        visit_maybe-keeps callback P stable file (visit callback function s)
          (visit-reaches function s i d)

  -- A node of a function's body is reached.
  pub traverse_function-reaches :
      (name : List ℕ) (parameters : Nodes) (body : Node) (s : S)
      → I s
      → Occurs m body
      → P (traverse_function callback name parameters body s)
  unfolding traverse_function
  traverse_function-reaches name parameters body s i d =
      visit-reaches body (visit_nodes callback parameters (callback (ast_function name) s))
        (visit_nodes-keeps callback I kept parameters (callback (ast_function name) s)
          (kept (ast_function name) s i))
        d
