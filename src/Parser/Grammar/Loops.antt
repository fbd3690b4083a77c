-- ===== src/Parser/Grammar/Loops.antt =====
-- The loop of `parse_expression` on tokens of the grammar: the fuel that is left, and one more operator.
use mathlib.Core.List.{append_assoc}
use gsc.Base.{
  ℕ, zero, suc, ◌+◌, ◌-◌, ◌≤◌, ◌<◌, false, List, [], ◌∷◌, ◌++◌, ◌≡◌, refl, ◌∙◌, ap, arith, ◌==◌,
  length, length-append,
}
use gsc.Platform.{Platform}
use gsc.Compiler.Syntax.{Node}
use gsc.Parser.{Lexeme, Parser, Outcome, continue, ◌>>=◌, take_token, head}
use gsc.Parser.Operators.{operator, precedence, next_precedence}
use gsc.Parser.Prefix.{parse_nud}
use gsc.Parser.Infix.{parse_led}
use gsc.Parser.Expression.{led_loop, parse_expression}
use gsc.Parser.Grammar.Steps.{Gives, led_loop-stops, led_loop-goes}

pub length-more : (xs ys : List Lexeme) → length (xs ++ ys) ≡ length xs + length ys
length-more = length-append

pub ruleset lengths = (arith, length-more)

-- No operator starts with a closing bracket, a comma or a colon.
ends_at : (c m : ℕ) → precedence c ≡ 0 → precedence c ≤ m
ends_at c m e = omega arith

pub at_close : (m : ℕ) → precedence b')' ≤ m
unfolding precedence operator
at_close m = ends_at b')' m refl

pub at_bracket : (m : ℕ) → precedence b']' ≤ m
unfolding precedence operator
at_bracket m = ends_at b']' m refl

pub at_comma : (m : ℕ) → precedence b',' ≤ m
unfolding precedence operator
at_comma m = ends_at b',' m refl

pub at_colon : (m : ℕ) → precedence b':' ≤ m
unfolding precedence operator
at_colon m = ends_at b':' m refl

module _ (lib : Platform) (p : Parser) where
  -- The loop that is left once an expression of the grammar is read.
  pub record Looped (f m : ℕ) (ts : List Lexeme) (e : Node) (rest : List Lexeme) : Type 0 where
    rounds : ℕ
    enough : f < rounds + length ts
    runs :
        parse_expression lib (suc f) m (record p { input = ts ++ rest })
        ≡ led_loop (parse_expression lib f) f rounds m e (record p { input = rest })

  Looped-Gives :
      (f m : ℕ) (ts : List Lexeme) (e : Node) (rest : List Lexeme)
      → Looped f m ts e rest
      → length ts ≤ f
      → precedence (head rest).type ≤ m
      → Gives p (parse_expression lib (suc f) m) (ts ++ rest) e rest
  Looped-Gives f m ts e rest l short stop =
      let ready = l.enough in
      let more : l.rounds ≡ suc (l.rounds - 1) = omega arith in
      l.runs
      ∙ ap (λ (g : ℕ). led_loop (parse_expression lib f) f g m e (record p { input = rest })) more
      ∙ led_loop-stops p (parse_expression lib f) f (l.rounds - 1) m e rest stop

  -- One more operator behind an expression that is read.
  pub Looped-back :
      (f m : ℕ) (ts ts' rest : List Lexeme) (left e : Node) (t : Lexeme)
      → Looped f m ts left (t ∷ (ts' ++ rest))
      → length (ts ++ (t ∷ ts')) ≤ f
      → m < precedence t.type
      → Gives p
          (parse_led
            (parse_expression lib f)
            f
            (operator t.type).led
            left
            t
            (next_precedence (operator t.type)))
          (ts' ++ rest)
          e
          rest
      → Looped f m (ts ++ (t ∷ ts')) e rest
  Looped-back f m ts ts' rest left e t l short above h =
      let ready = l.enough in
      let more : l.rounds ≡ suc (l.rounds - 1) = omega lengths in
      record {
        rounds = l.rounds - 1;
        enough = omega lengths;
        runs =
            ap
              (λ (input : List Lexeme). parse_expression lib (suc f) m (record p { input = input }))
              (append_assoc ts (t ∷ ts') rest)
            ∙ l.runs
            ∙ ap
                (λ (g : ℕ).
                  led_loop (parse_expression lib f) f g m left
                    (record p { input = t ∷ (ts' ++ rest) }))
                more
            ∙ led_loop-goes p (parse_expression lib f) f (l.rounds - 1) m left e t (ts' ++ rest)
                rest above h;
      }

  pub Looped-front :
      (f m : ℕ) (t : Lexeme) (ts rest : List Lexeme) (e : Node)
      → Gives p
          (parse_nud lib (parse_expression lib f) f (operator t.type).nud t)
          (ts ++ rest)
          e
          rest
      → Looped f m (t ∷ ts) e rest
  unfolding parse_expression ◌>>=◌ take_token
  Looped-front f m t ts rest e h = record {
    rounds = f;
    enough = omega arith;
    runs = ap (λ (r : Outcome Node). continue r (led_loop (parse_expression lib f) f f m)) h;
  }

  -- The same with the fuel of the whole call.
  pub read-Gives :
      (f m : ℕ) (ts rest : List Lexeme) (e : Node)
      → ((g : ℕ) → length ts ≤ g → Looped g m ts e rest)
      → length ts < f
      → precedence (head rest).type ≤ m
      → Gives p (parse_expression lib f m) (ts ++ rest) e rest
  read-Gives zero m ts rest e looped short stop = absurd (omega arith)
  read-Gives (suc f) m ts rest e looped short stop =
      Looped-Gives f m ts e rest (looped f (omega arith)) (omega arith) stop
