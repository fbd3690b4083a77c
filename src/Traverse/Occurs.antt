-- ===== src/Traverse/Occurs.antt =====
-- What a syntax tree contains: an independent description of its nodes.
use gsc.Base.{ℕ, Bool}
use gsc.Compiler.Syntax.{
  Node, MaybeNode, present, Nodes, node, Literal, ast_function_pointer_expr, ast_struct_expr,
  ast_array_expr, ast_group_expr, ast_assignment_expr, ast_binary_expr, ast_call_expr,
  ast_conditional_expr, ast_literal, ast_member_expr, ast_unary_expr, ast_vector_expr,
  ast_block_stmt, ast_do_while_stmt, ast_expr_stmt, ast_for_stmt, ast_if_stmt, ast_return_stmt,
  ast_switch_case, ast_switch_stmt, ast_wait_stmt, ast_while_stmt, literal_function,
}

-- `Occurs m n`: the node `m` is `n`, or stands below it.
mutual
  pub data Occurs (m : Node) : Node → Type 0 where
    here : Occurs m m
    in_function_pointer_expr : {e : Node} → Occurs m e → Occurs m (ast_function_pointer_expr e)
    in_struct_expr :
        {elements : Nodes} → OccursNodes m elements → Occurs m (ast_struct_expr elements)
    in_array_expr : {elements : Nodes} → OccursNodes m elements → Occurs m (ast_array_expr elements)
    in_group_expr : {e : Node} → Occurs m e → Occurs m (ast_group_expr e)
    assignment_expr_lhs :
        {op : ℕ} {lhs : Node} {rhs : Node}
        → Occurs m lhs
        → Occurs m (ast_assignment_expr op lhs rhs)
    assignment_expr_rhs :
        {op : ℕ} {lhs : Node} {rhs : Node}
        → Occurs m rhs
        → Occurs m (ast_assignment_expr op lhs rhs)
    binary_expr_lhs :
        {op : ℕ} {lhs : Node} {rhs : Node} → Occurs m lhs → Occurs m (ast_binary_expr op lhs rhs)
    binary_expr_rhs :
        {op : ℕ} {lhs : Node} {rhs : Node} → Occurs m rhs → Occurs m (ast_binary_expr op lhs rhs)
    call_expr_object :
        {threaded : Bool} {object : MaybeNode} {callee : Node} {args : Nodes}
        → OccursMaybe m object
        → Occurs m (ast_call_expr threaded object callee args)
    call_expr_callee :
        {threaded : Bool} {object : MaybeNode} {callee : Node} {args : Nodes}
        → Occurs m callee
        → Occurs m (ast_call_expr threaded object callee args)
    call_expr_args :
        {threaded : Bool} {object : MaybeNode} {callee : Node} {args : Nodes}
        → OccursNodes m args
        → Occurs m (ast_call_expr threaded object callee args)
    conditional_expr_condition :
        {condition : Node} {consequent : Node} {alternative : Node}
        → Occurs m condition
        → Occurs m (ast_conditional_expr condition consequent alternative)
    conditional_expr_consequent :
        {condition : Node} {consequent : Node} {alternative : Node}
        → Occurs m consequent
        → Occurs m (ast_conditional_expr condition consequent alternative)
    conditional_expr_alternative :
        {condition : Node} {consequent : Node} {alternative : Node}
        → Occurs m alternative
        → Occurs m (ast_conditional_expr condition consequent alternative)
    in_literal : {literal : Literal} → OccursLiteral m literal → Occurs m (ast_literal literal)
    member_expr_object :
        {object : Node} {prop : Node} {op : ℕ}
        → Occurs m object
        → Occurs m (ast_member_expr object prop op)
    member_expr_prop :
        {object : Node} {prop : Node} {op : ℕ}
        → Occurs m prop
        → Occurs m (ast_member_expr object prop op)
    in_unary_expr :
        {argument : Node} {op : ℕ} {prefix : Bool}
        → Occurs m argument
        → Occurs m (ast_unary_expr argument op prefix)
    in_vector_expr :
        {elements : Nodes} → OccursNodes m elements → Occurs m (ast_vector_expr elements)
    in_block_stmt : {body : Nodes} → OccursNodes m body → Occurs m (ast_block_stmt body)
    do_while_stmt_body :
        {test : Node} {body : Node} → Occurs m body → Occurs m (ast_do_while_stmt test body)
    do_while_stmt_test :
        {test : Node} {body : Node} → Occurs m test → Occurs m (ast_do_while_stmt test body)
    in_expr_stmt : {e : Node} → Occurs m e → Occurs m (ast_expr_stmt e)
    for_stmt_init :
        {init : MaybeNode} {test : MaybeNode} {update : MaybeNode} {body : Node}
        → OccursMaybe m init
        → Occurs m (ast_for_stmt init test update body)
    for_stmt_test :
        {init : MaybeNode} {test : MaybeNode} {update : MaybeNode} {body : Node}
        → OccursMaybe m test
        → Occurs m (ast_for_stmt init test update body)
    for_stmt_update :
        {init : MaybeNode} {test : MaybeNode} {update : MaybeNode} {body : Node}
        → OccursMaybe m update
        → Occurs m (ast_for_stmt init test update body)
    for_stmt_body :
        {init : MaybeNode} {test : MaybeNode} {update : MaybeNode} {body : Node}
        → Occurs m body
        → Occurs m (ast_for_stmt init test update body)
    if_stmt_test :
        {test : Node} {consequent : Node} {alternative : MaybeNode}
        → Occurs m test
        → Occurs m (ast_if_stmt test consequent alternative)
    if_stmt_consequent :
        {test : Node} {consequent : Node} {alternative : MaybeNode}
        → Occurs m consequent
        → Occurs m (ast_if_stmt test consequent alternative)
    if_stmt_alternative :
        {test : Node} {consequent : Node} {alternative : MaybeNode}
        → OccursMaybe m alternative
        → Occurs m (ast_if_stmt test consequent alternative)
    in_return_stmt :
        {argument : MaybeNode} → OccursMaybe m argument → Occurs m (ast_return_stmt argument)
    switch_case_test :
        {test : MaybeNode} {consequent : Nodes}
        → OccursMaybe m test
        → Occurs m (ast_switch_case test consequent)
    switch_case_consequent :
        {test : MaybeNode} {consequent : Nodes}
        → OccursNodes m consequent
        → Occurs m (ast_switch_case test consequent)
    switch_stmt_cases :
        {discriminant : Node} {cases : Nodes}
        → OccursNodes m cases
        → Occurs m (ast_switch_stmt discriminant cases)
    switch_stmt_discriminant :
        {discriminant : Node} {cases : Nodes}
        → Occurs m discriminant
        → Occurs m (ast_switch_stmt discriminant cases)
    in_wait_stmt :
        {duration : MaybeNode} → OccursMaybe m duration → Occurs m (ast_wait_stmt duration)
    while_stmt_test :
        {test : MaybeNode} {body : Node} → OccursMaybe m test → Occurs m (ast_while_stmt test body)
    while_stmt_body :
        {test : MaybeNode} {body : Node} → Occurs m body → Occurs m (ast_while_stmt test body)

  pub data OccursMaybe (m : Node) : MaybeNode → Type 0 where
    in_present : {n : Node} → Occurs m n → OccursMaybe m (present n)

  pub data OccursNodes (m : Node) : Nodes → Type 0 where
    first : {n : Node} {ns : Nodes} → Occurs m n → OccursNodes m (node n ns)
    later : {n : Node} {ns : Nodes} → OccursNodes m ns → OccursNodes m (node n ns)

  pub data OccursLiteral (m : Node) : Literal → Type 0 where
    in_file :
        {file : MaybeNode} {function : Node}
        → OccursMaybe m file
        → OccursLiteral m (literal_function file function)
    in_function :
        {file : MaybeNode} {function : Node}
        → Occurs m function
        → OccursLiteral m (literal_function file function)
