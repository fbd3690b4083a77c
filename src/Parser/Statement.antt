-- ===== src/Parser/Statement.antt =====
-- parse.c: statements. `stmt` is `statement`, and `expr` is `expression`; loops have their fuel as an
-- argument. One more than the tokens that are left is enough for each.
use gsc.Base.{ℕ, zero, suc, ◌||◌, if◌then◌else◌, ◌==◌}
use gsc.Platform.{Platform}
use gsc.Token.{
  tk_comment, tk_for, tk_while, tk_if, tk_else, tk_continue, tk_break, tk_return, tk_switch,
  tk_default, tk_case, tk_wait, tk_waittillframeend,
}
use gsc.Compiler.Syntax.{
  Node, MaybeNode, absent, present, Nodes, end, node, ast_block_stmt, ast_break_stmt,
  ast_continue_stmt, ast_empty_stmt, ast_expr_stmt, ast_for_stmt, ast_if_stmt, ast_return_stmt,
  ast_switch_case, ast_switch_stmt, ast_wait_stmt, ast_while_stmt,
}
use gsc.Parser.{Parse, ◌>>=◌, ◌>>◌, pure, exhausted, token_type, advance}
use gsc.Parser.Expression.{expression}

module _ (expr stmt : Parse Node) where
  -- An expression, or nothing where the token that ends it stands next.
  unfoldable pub unless : ℕ → Parse MaybeNode
  unless type = do
    t ← token_type
    if t == type then pure absent else (do n ← expr; pure (present n))

  -- `block`, behind the `{`.
  unfoldable pub block_body : ℕ → Parse Nodes
  block_body zero = exhausted
  block_body (suc fuel) = do
    t ← token_type
    if t == b'}' then pure end else (do n ← stmt; ns ← block_body fuel; pure (node n ns))

  unfoldable pub block : ℕ → Parse Node
  block fuel = do body ← block_body fuel; advance b'}'; pure (ast_block_stmt body)

  unfoldable pub while_statement : Parse Node
  while_statement = do
    advance tk_while
    advance b'('
    test ← expr
    advance b')'
    body ← stmt
    pure (ast_while_stmt (present test) body)

  unfoldable pub for_statement : Parse Node
  for_statement = do
    advance tk_for
    advance b'('
    init ← unless b';'
    advance b';'
    test ← unless b';'
    advance b';'
    update ← unless b')'
    advance b')'
    body ← stmt
    pure (ast_for_stmt init test update body)

  unfoldable pub wait_statement : Parse Node
  wait_statement = do
    advance tk_wait
    duration ← expr
    advance b';'
    pure (ast_wait_stmt (present duration))

  unfoldable pub return_statement : Parse Node
  return_statement = do
    advance tk_return
    argument ← unless b';'
    advance b';'
    pure (ast_return_stmt argument)

  -- The branch of an `else`, where there is one.
  unfoldable pub else_branch : Parse MaybeNode
  else_branch = do
    t ← token_type
    if t == tk_else
        then (do advance tk_else; alternative ← stmt; pure (present alternative))
        else pure absent

  unfoldable pub if_statement : Parse Node
  if_statement = do
    advance tk_if
    advance b'('
    test ← expr
    advance b')'
    consequent ← stmt
    alternative ← else_branch
    pure (ast_if_stmt test consequent alternative)

  -- The label of a case, up to its `:`; the default has no test.
  unfoldable pub case_label : Parse MaybeNode
  case_label = do
    t ← token_type
    if t == tk_default
        then (do advance tk_default; pure absent)
        else (do advance tk_case; test ← expr; pure (present test))

  unfoldable pub consequents : ℕ → Parse Nodes
  consequents zero = exhausted
  consequents (suc fuel) = do
    t ← token_type
    if t == tk_default || t == tk_case || t == b'}'
        then pure end
        else (do n ← stmt; ns ← consequents fuel; pure (node n ns))

  unfoldable pub cases : ℕ → Parse Nodes
  cases zero = exhausted
  cases (suc fuel) = do
    t ← token_type
    if t == b'}' then pure end else (do
      label ← case_label
      advance b':'
      consequent ← consequents fuel
      rest ← cases fuel
      pure (node (ast_switch_case label consequent) rest))

  unfoldable pub switch_statement : ℕ → Parse Node
  switch_statement fuel = do
    advance tk_switch
    advance b'('
    discriminant ← expr
    advance b')'
    advance b'{'
    body ← cases fuel
    advance b'}'
    pure (ast_switch_stmt discriminant body)

  unfoldable pub expression_statement : Parse Node
  expression_statement = do e ← expr; advance b';'; pure (ast_expr_stmt e)

  -- The `switch` of `statement`.
  unfoldable pub dispatch_statement : ℕ → ℕ → Parse Node
  dispatch_statement fuel t =
      if t == b'{'
      then (do advance b'{'; block fuel)
      else if t == b';'
      then (do advance b';'; pure ast_empty_stmt)
      else if t == tk_comment
      then (do advance tk_comment; pure ast_empty_stmt)
      else if t == tk_while
      then while_statement
      else if t == tk_for
      then for_statement
      else if t == tk_break
      then (do advance tk_break; advance b';'; pure ast_break_stmt)
      else if t == tk_wait
      then wait_statement
      else if t == tk_waittillframeend
      then (do advance tk_waittillframeend; advance b';'; pure (ast_wait_stmt absent))
      else if t == tk_continue
      then (do advance tk_continue; advance b';'; pure ast_continue_stmt)
      else if t == tk_switch
      then switch_statement fuel
      else if t == tk_return
      then return_statement
      else if t == tk_if
      then if_statement
      else expression_statement

-- `statement`, and `body`, which is the same.
unfoldable pub statement : Platform → ℕ → Parse Node
statement lib zero = exhausted
statement lib (suc fuel) = do
  t ← token_type
  dispatch_statement (expression lib (suc fuel)) (statement lib fuel) fuel t
