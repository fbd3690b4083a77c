-- ===== src/Parser/Infix.antt =====
-- precedence.c: the functions for a token behind an expression. `expr` is `parse_expression`, and `bp`
-- the precedence that the right side is parsed with.
use gsc.Base.{ℕ, Bool, true, false, ◌==◌, if◌then◌else◌}
use gsc.Token.{tk_identifier}
use gsc.Compiler.Syntax.{
  Node, absent, present, ast_assignment_expr, ast_binary_expr, ast_call_expr, ast_if_stmt,
  ast_member_expr, ast_unary_expr,
}
use gsc.Parser.{
  Lexeme, Parse, ◌>>=◌, ◌>>◌, pure, error, token_type, advance, expected_identifier, unexpected_led,
}
use gsc.Parser.Operators.{
  Led, no_led, binary, assignment, ternary, call, bracket, member, postfix, member_call,
  thread_member_call,
}
use gsc.Parser.Prefix.{function_name, function_name_of, call_arguments}

module _ (expr : ℕ → Parse Node) where
  unfoldable pub led_binary : Node → Lexeme → ℕ → Parse Node
  led_binary left t bp = do rhs ← expr bp; pure (ast_binary_expr t.type left rhs)

  unfoldable pub led_assignment : Node → Lexeme → ℕ → Parse Node
  led_assignment left t bp = do rhs ← expr bp; pure (ast_assignment_expr t.type left rhs)

  unfoldable pub led_ternary : Node → Parse Node
  led_ternary left = do
    consequent ← expr 0
    advance b':'
    alternative ← expr 0
    pure (ast_if_stmt left consequent (present alternative))

  unfoldable pub led_member : Node → Lexeme → ℕ → Parse Node
  led_member left t bp = do
    next ← token_type
    if next == tk_identifier
        then (do prop ← expr bp; pure (ast_member_expr left prop t.type))
        else error expected_identifier

  unfoldable pub led_function : ℕ → Node → Parse Node
  led_function fuel left = do
    args ← call_arguments expr fuel
    pure (ast_call_expr false absent left args)

  -- The arguments of a call on an object, with the `(` in front.
  unfoldable pub method_call : ℕ → Bool → Node → Node → Parse Node
  method_call fuel threaded object callee = do
    advance b'('
    args ← call_arguments expr fuel
    pure (ast_call_expr threaded (present object) callee args)

  unfoldable pub led_member_call : ℕ → Node → Lexeme → Parse Node
  led_member_call fuel left t = do
    callee ← function_name_of expr t
    method_call fuel false left callee

  unfoldable pub led_thread_member_call : ℕ → Node → Parse Node
  led_thread_member_call fuel left = do
    callee ← function_name expr
    method_call fuel true left callee

  unfoldable pub led_bracket : ℕ → Node → Lexeme → Parse Node
  led_bracket fuel left t = do
    next ← token_type
    if next == b'['
        then (do
          advance b'['
          callee ← function_name_of expr t
          advance b']'
          advance b']'
          method_call fuel false left callee)
        else (do prop ← expr 0; advance b']'; pure (ast_member_expr left prop t.type))

  -- `parse_led`, with the table's entry for the token.
  unfoldable pub parse_led : ℕ → Led → Node → Lexeme → ℕ → Parse Node
  parse_led fuel no_led left t bp = error unexpected_led
  parse_led fuel binary left t bp = led_binary left t bp
  parse_led fuel assignment left t bp = led_assignment left t bp
  parse_led fuel ternary left t bp = led_ternary left
  parse_led fuel call left t bp = led_function fuel left
  parse_led fuel bracket left t bp = led_bracket fuel left t
  parse_led fuel member left t bp = led_member left t bp
  parse_led fuel postfix left t bp = pure (ast_unary_expr left t.type false)
  parse_led fuel member_call left t bp = led_member_call fuel left t
  parse_led fuel thread_member_call left t bp = led_thread_member_call fuel left
