-- ===== src/Parser/Expression.antt =====
-- precedence.c: `parse_expression`. The fuel counts the nesting of expressions and the operators of one
-- level; each of them takes a token, so one more than the tokens that are left is enough.
use gsc.Base.{ℕ, zero, suc, if◌then◌else◌, ltb}
use gsc.Platform.{Platform}
use gsc.Compiler.Syntax.{Node}
use gsc.Parser.{Parse, ◌>>=◌, pure, exhausted, token_type, take_token}
use gsc.Parser.Operators.{operator, precedence, next_precedence}
use gsc.Parser.Prefix.{parse_nud}
use gsc.Parser.Infix.{parse_led}

-- The loop of `parse_expression`, whose rounds are the fuel; `inner` is that of the operators' sides.
unfoldable pub led_loop : (ℕ → Parse Node) → ℕ → ℕ → ℕ → Node → Parse Node
led_loop expr inner zero minimum left = exhausted
led_loop expr inner (suc fuel) minimum left = do
  next ← token_type
  if ltb minimum (precedence next)
      then (do
        t ← take_token
        let op = operator t.type
        left' ← parse_led expr inner op.led left t (next_precedence op)
        led_loop expr inner fuel minimum left')
      else pure left

unfoldable pub parse_expression : Platform → ℕ → ℕ → Parse Node
parse_expression lib zero minimum = exhausted
parse_expression lib (suc fuel) minimum = do
  t ← take_token
  left ← parse_nud lib (parse_expression lib fuel) fuel (operator t.type).nud t
  led_loop (parse_expression lib fuel) fuel fuel minimum left

-- `expression`
unfoldable pub expression : Platform → ℕ → Parse Node
expression lib fuel = parse_expression lib fuel 0
