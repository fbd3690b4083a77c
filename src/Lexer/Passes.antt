-- ===== src/Lexer/Passes.antt =====
-- lexer.h: the passes of `lexer_step` through `repeat`.
use mathlib.Core.Path.{subst}
use gsc.Base.{
  ℕ, zero, suc, ◌+◌, ◌<◌, true, false, Option, none, some, ◌≡◌, refl, ◌∙◌, arith, ◌==◌,
  if◌then◌else◌, sym, Bool-cases, inl, inr,
}
use gsc.Lexer.{Token, Lexer, tell, lexer_advance}
use gsc.Lexer.Step.{Outcome, found, repeat, step_char, lexer_step, finish}
use gsc.Lexer.Forward.{
  IsInside, Forward-IsInside, Past, Past-Forward, advance-Past, is_nonzero, advance-left,
}
use gsc.Lexer.Progress.{behind, step_char-Moved}

-- A pass of `lexer_step`, with what the `switch` gives.
abbrev proceed : ℕ → Outcome → Option (Token × Lexer)
proceed fuel (found t l) = some (finish t l)
proceed fuel (repeat l) = lexer_step fuel l

abbrev read_token : Lexer → Outcome
read_token l = step_char (lexer_advance l).0 (lexer_advance l).1 (record {
  type = (lexer_advance l).0;
  offset = tell l;
  length = 0;
  next_offset = 18446744073709551615;
})

lexer_step-round :
    (fuel : ℕ) (l : Lexer)
    → lexer_step (suc fuel) l
      ≡ (if (lexer_advance l).0 == 0 then none else proceed fuel (read_token l))
unfolding lexer_step
lexer_step-round fuel l = refl

lexer_step-end :
    (fuel : ℕ) (l : Lexer) → ((lexer_advance l).0 == 0) ≡ true → lexer_step (suc fuel) l ≡ none
lexer_step-end fuel l e = lexer_step-round fuel l ∙ rw e refl

lexer_step-goes :
    (fuel : ℕ) (l : Lexer)
    → ((lexer_advance l).0 == 0) ≡ false
    → lexer_step (suc fuel) l ≡ proceed fuel (read_token l)
lexer_step-goes fuel l e = lexer_step-round fuel l ∙ rw e refl

read_token-Past :
    (l : Lexer) → IsInside l → ((lexer_advance l).0 == 0) ≡ false → Past l (behind (read_token l))
read_token-Past l v e =
    let nonzero = is_nonzero (lexer_advance l).0 e in
    let past = advance-Past l v nonzero in
    (step_char-Moved l (lexer_advance l).1 _ v past (advance-left l v nonzero) refl nonzero).moved

-- The lexer behind a token that was found.
abbrev Found : Lexer → Option (Token × Lexer) → Type 0
Found l none = Unit
Found l (some (t, l')) = Past l l'

proceed-Found :
    (fuel : ℕ) (l : Lexer) (o : Outcome)
    → Past l (behind o)
    → ((l' : Lexer) → Past l l' → Found l (lexer_step fuel l'))
    → Found l (proceed fuel o)
unfolding finish
proceed-Found fuel l (found t l') p rest = p
proceed-Found fuel l (repeat l') p rest = rest l' p

Found-after : (l l' : Lexer) (r : Option (Token × Lexer)) → Past l l' → Found l' r → Found l r
Found-after l l' none p f = tt
Found-after l l' (some (t, l'')) p f = Past-Forward p f.forward

lexer_step-Found : (fuel : ℕ) (l : Lexer) → IsInside l → Found l (lexer_step fuel l)
unfolding lexer_step
lexer_step-Found zero l v = tt
lexer_step-Found (suc fuel) l v = elim (Bool-cases ((lexer_advance l).0 == 0)) [
  | inl e ↦ subst (Found l) (sym (lexer_step-end fuel l e)) tt
  | inr e ↦ subst (Found l) (sym (lexer_step-goes fuel l e)) (
      proceed-Found fuel l (read_token l) (read_token-Past l v e) λ l' p.
        Found-after l l' (lexer_step fuel l') p
          (lexer_step-Found fuel l' (Forward-IsInside v p.forward)))
]

proceed-same :
    (f g : ℕ) (l : Lexer) (o : Outcome)
    → Past l (behind o)
    → ((l' : Lexer) → Past l l' → lexer_step f l' ≡ lexer_step g l')
    → proceed f o ≡ proceed g o
proceed-same f g l (found t l') p rest = refl
proceed-same f g l (repeat l') p rest = rest l' p

-- More passes than bytes that are left change nothing.
pub lexer_step-enough :
    (f g : ℕ) (l : Lexer)
    → IsInside l
    → l.stream.length < tell l + f
    → l.stream.length < tell l + g
    → lexer_step f l ≡ lexer_step g l
lexer_step-enough zero g l v few few' = absurd (omega (arith, v.inside))
lexer_step-enough (suc f) zero l v few few' = absurd (omega (arith, v.inside))
lexer_step-enough (suc f) (suc g) l v few few' = elim (Bool-cases ((lexer_advance l).0 == 0)) [
  | inl e ↦ lexer_step-end f l e ∙ sym (lexer_step-end g l e)
  | inr e ↦
      lexer_step-goes f l e
      ∙ proceed-same f g l (read_token l) (read_token-Past l v e) (λ l' p.
        let len = p.forward.same_length in
        let far = p.further in
        lexer_step-enough f g l' (Forward-IsInside v p.forward) (omega arith) (omega arith))
      ∙ sym (lexer_step-goes g l e)
]

pub lexer_step-Past :
    (fuel : ℕ) (l l' : Lexer) (t : Token)
    → IsInside l
    → lexer_step fuel l ≡ some (t, l')
    → Past l l'
lexer_step-Past fuel l l' t v e = subst (Found l) e (lexer_step-Found fuel l v)
