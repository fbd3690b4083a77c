-- ===== src/Parser/Ends/Expressions.antt =====
-- precedence.c: the tokens that `parse_expression` leaves.
use gsc.Base.{
  ℕ, zero, suc, ◌<◌, false, List, [], ◌∷◌, ◌≡◌, refl, arith, ltb, Bool-cases, inl, inr, length,
}
use gsc.Platform.{Platform}
use gsc.Compiler.Syntax.{Node}
use gsc.Parser.{Lexeme, Parser, Parse, ◌>>=◌, pure, error, token_type, take_token}
use gsc.Parser.Operators.{precedence, operator, next_precedence}
use gsc.Parser.Prefix.{parse_nud}
use gsc.Parser.Infix.{parse_led}
use gsc.Parser.Expression.{led_loop, parse_expression}
use gsc.Parser.Ends.{Within, Below, Within-mono, Below-mono, Keeps, Takes, Takes-mono, Keeps-bind}
use gsc.Parser.Ends.Forms.{parse_nud-Keeps, parse_led-Keeps}

-- The table has no entry for the end of the input.
no_operator : (minimum : ℕ) → ltb minimum (precedence 0) ≡ false
unfolding precedence operator
no_operator zero = refl
no_operator (suc n) = ground arith

abbrev at : Parser → List Lexeme → Parser
at p input = record p { input = input }

-- One round of the loop, where the rounds that follow are within their fuel.
led_loop-round :
    (expr : ℕ → Parse Node) (inner fuel minimum : ℕ) (left : Node) (p : Parser) (t : Lexeme)
    (ts : List Lexeme)
    → ((bp : ℕ) → Takes (length ts) (expr bp))
    → length ts < inner
    → ((left' : Node) → Keeps (length ts) (led_loop expr inner fuel minimum left'))
    → Within (suc (length ts)) (led_loop expr inner (suc fuel) minimum left (at p (t ∷ ts)))
unfolding led_loop ◌>>=◌ token_type take_token pure
led_loop-round expr inner fuel minimum left p t ts ready args again =
    let op = operator t.type in
    let n = length ts in
    let round =
      Keeps-bind (parse_led-Keeps expr n inner ready args op.led left t (next_precedence op))
        again in
    elim (Bool-cases (ltb minimum (precedence t.type))) [
      | inr stops ↦ rw stops (omega arith)
      | inl goes ↦ rw goes (
          Within-mono n (suc n)
            ((parse_led expr inner op.led left t (next_precedence op) >>= λ left'.
                led_loop expr inner fuel minimum left')
              (at p ts))
            (omega arith) (round.run (at p ts) (omega arith)))
    ]

-- An operator takes its token, so the rounds are at most as many as the tokens.
led_loop-run :
    (expr : ℕ → Parse Node) (inner fuel minimum : ℕ) (left : Node) (p : Parser)
    (input : List Lexeme)
    → ((bp : ℕ) → Takes (length input) (expr bp))
    → length input < inner
    → length input < fuel
    → Within (length input) (led_loop expr inner fuel minimum left (at p input))
unfolding led_loop ◌>>=◌ token_type take_token pure
led_loop-run expr inner zero minimum left p input ready args enough = absurd (omega arith)
led_loop-run expr inner (suc fuel) minimum left p [] ready args enough =
    rw (no_operator minimum) (omega arith)
led_loop-run expr inner (suc fuel) minimum left p (t ∷ ts) ready args enough =
    led_loop-round expr inner fuel minimum left p t ts
      (λ bp. Takes-mono (length ts) (omega arith) (ready bp)) (omega arith)
      λ left'. record {
        run = λ q le.
            led_loop-run expr inner fuel minimum left' q q.input
              (λ bp. Takes-mono (length q.input) (omega arith) (ready bp)) (omega arith)
              (omega arith);
      }

led_loop-Keeps :
    (expr : ℕ → Parse Node) (n inner fuel minimum : ℕ) (left : Node)
    → ((bp : ℕ) → Takes n (expr bp))
    → n < inner
    → n < fuel
    → Keeps n (led_loop expr inner fuel minimum left)
led_loop-Keeps expr n inner fuel minimum left ready args enough = record {
  run = λ p le.
      led_loop-run expr inner fuel minimum left p p.input
        (λ bp. Takes-mono (length p.input) le (ready bp)) (omega arith) (omega arith);
}

-- The token in front of an expression, and what stands behind it.
parse_expression-front :
    (lib : Platform) (fuel minimum : ℕ) (p : Parser) (t : Lexeme) (ts : List Lexeme)
    → ((bp : ℕ) → Takes (length ts) (parse_expression lib fuel bp))
    → length ts < fuel
    → Below (suc (length ts)) (parse_expression lib (suc fuel) minimum (at p (t ∷ ts)))
unfolding parse_expression ◌>>=◌ take_token
parse_expression-front lib fuel minimum p t ts ready enough =
    let n = length ts in
    let expr = parse_expression lib fuel in
    let whole =
      Keeps-bind (parse_nud-Keeps expr n fuel ready enough lib (operator t.type).nud t)
        (λ left. led_loop-Keeps expr n fuel fuel minimum left ready enough enough) in
    Below-mono n (suc n)
      ((parse_nud lib expr fuel (operator t.type).nud t >>= λ left.
          led_loop expr fuel fuel minimum left)
        (at p ts))
      (omega arith) (whole.run (at p ts) (omega arith))

parse_expression-run :
    (lib : Platform) (fuel minimum : ℕ) (p : Parser) (input : List Lexeme)
    → length input < fuel
    → Below (length input) (parse_expression lib fuel minimum (at p input))
unfolding parse_expression ◌>>=◌ take_token operator parse_nud error
parse_expression-run lib zero minimum p input enough = absurd (omega arith)
parse_expression-run lib (suc fuel) minimum p [] enough = tt
parse_expression-run lib (suc fuel) minimum p (t ∷ ts) enough =
    parse_expression-front lib fuel minimum p t ts
      (λ bp. record { run = λ q le. parse_expression-run lib fuel bp q q.input (omega arith) })
      (omega arith)

-- `parse_expression` returns an expression or ends in an error where the fuel is more than the tokens
-- that are left, and an expression takes one of them at least.
pub parse_expression-Takes :
    (lib : Platform) (fuel n minimum : ℕ) → n < fuel → Takes n (parse_expression lib fuel minimum)
parse_expression-Takes lib fuel n minimum enough = record {
  run = λ p le. parse_expression-run lib fuel minimum p p.input (omega arith);
}
