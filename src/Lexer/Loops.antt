-- ===== src/Lexer/Loops.antt =====
-- lexer.h: the offset behind its loops.
use mathlib.Core.Path.{subst}
use gsc.Base.{
  not, ◌&&◌, ℕ, zero, suc, ◌+◌, false, ◌≡◌, ◌≢◌, refl, ◌∙◌, arith, ◌==◌, sym, Bool-cases, inl, inr,
}
use gsc.Lexer.{Token, Lexer, lexer_advance, lexer_unget}
use gsc.Lexer.Char.{Condition}
use gsc.Lexer.Scan.{
  enough, Literal, run_string, lexer_parse_string, run_comment, lexer_parse_multiline_comment,
  fnv_step, fnv_offset, Run, run_characters, lexer_parse_characters,
}
use gsc.Lexer.Run.{round, run_characters-round}
use gsc.Lexer.Forward.{
  IsInside, Forward, Advanced, advance-Advanced, Forward-trans, Forward-IsInside, Forward-refl,
  Past, Past-Forward, advance-Past, unget-Forward, is_nonzero,
}

round-Forward :
    (cond : Condition) (fuel : ℕ) (r : Run) (read : ℕ × Lexer)
    → Advanced r.lexer read
    → ((q : Run) → q.lexer ≡ read.1 → Forward read.1 (run_characters cond fuel q).lexer)
    → Forward r.lexer (round cond fuel r read).lexer
round-Forward cond fuel r (ch, l) a rest = elim (Bool-cases (ch == 0)) [
  | inl e ↦ rw e a.forward
  | inr more ↦ elim (Bool-cases (cond r.type ch).0) [
    | inl stops ↦ rw more (
        rw stops (
          unget-Forward r.lexer l (record {
            forward = a.forward;
            further = omega (arith, (a.one (is_nonzero ch more)).0);
          })))
    | inr goes ↦ rw more (rw goes (Forward-trans a.forward (rest _ refl)))
  ]
]

run_characters-Forward :
    (cond : Condition) (fuel : ℕ) (r : Run)
    → IsInside r.lexer
    → Forward r.lexer (run_characters cond fuel r).lexer
unfolding run_characters
run_characters-Forward cond zero r v = Forward-refl r.lexer v
run_characters-Forward cond (suc fuel) r v =
    let a = advance-Advanced r.lexer v in
    subst (λ (q : Run). Forward r.lexer q.lexer) (sym (run_characters-round cond fuel r))
      (round-Forward cond fuel r (lexer_advance r.lexer) a (λ q e.
        subst (λ (l : Lexer). Forward l (run_characters cond fuel q).lexer) e
          (run_characters-Forward cond fuel q
            (subst IsInside (sym e) (Forward-IsInside v a.forward)))))

round-goes :
    (cond : Condition) (fuel : ℕ) (r : Run) (ch : ℕ) (l : Lexer)
    → ch ≢ 0
    → (cond r.type ch).0 ≡ false
    → round cond fuel r (ch, l)
      ≡ run_characters cond fuel
          (record { lexer = l; type = (cond r.type ch).1; hash = fnv_step r.hash ch; n = r.n + 1 })
round-goes cond fuel r zero l nonzero goes = absurd (nonzero refl)
round-goes cond fuel r (suc c) l nonzero goes = ground arith

-- A run whose first character continues it.
run_characters-Past :
    (cond : Condition) (fuel : ℕ) (r : Run)
    → IsInside r.lexer
    → (lexer_advance r.lexer).0 ≢ 0
    → (cond r.type (lexer_advance r.lexer).0).0 ≡ false
    → Past r.lexer (run_characters cond (suc fuel) r).lexer
run_characters-Past cond fuel r v nonzero goes =
    let a = advance-Past r.lexer v nonzero in
    let e =
      run_characters-round cond fuel r
      ∙ round-goes cond fuel r (lexer_advance r.lexer).0 (lexer_advance r.lexer).1 nonzero goes in
    subst (λ (q : Run). Past r.lexer q.lexer) (sym e)
      (Past-Forward a (run_characters-Forward cond fuel _ (Forward-IsInside v a.forward)))

pub lexer_parse_characters-Forward :
    (l : Lexer) (t : Token) (type : ℕ) (cond : Condition)
    → IsInside l
    → Forward l (lexer_parse_characters l t type cond).2
unfolding lexer_parse_characters
lexer_parse_characters-Forward l t type cond v =
    run_characters-Forward cond (enough l)
      (record { lexer = l; type = type; hash = fnv_offset; n = 0 }) v

pub lexer_parse_characters-Past :
    (l : Lexer) (t : Token) (type : ℕ) (cond : Condition)
    → IsInside l
    → (lexer_advance l).0 ≢ 0
    → (cond type (lexer_advance l).0).0 ≡ false
    → Past l (lexer_parse_characters l t type cond).2
unfolding lexer_parse_characters
lexer_parse_characters-Past l t type cond v nonzero goes =
    run_characters-Past cond l.stream.length
      (record { lexer = l; type = type; hash = fnv_offset; n = 0 }) v nonzero goes

run_string-Forward :
    (fuel : ℕ) (r : Literal) → IsInside r.lexer → Forward r.lexer (run_string fuel r).lexer
unfolding run_string
run_string-Forward zero r v = Forward-refl r.lexer v
run_string-Forward (suc fuel) r v =
    let a = advance-Advanced r.lexer v in
    let rest =
      run_string-Forward fuel
        (record {
          lexer = (lexer_advance r.lexer).1;
          escaped = not r.escaped && ((lexer_advance r.lexer).0 == 92);
          n = r.n + 1;
        })
        (Forward-IsInside v a.forward) in
    elim (Bool-cases ((lexer_advance r.lexer).0 == 0)) [
      | inl ends ↦ rw ends a.forward
      | inr more ↦ elim (Bool-cases (((lexer_advance r.lexer).0 == b'"') && not r.escaped)) [
        | inl quoted ↦ rw more (rw quoted a.forward)
        | inr goes ↦ rw more (rw goes (Forward-trans a.forward rest))
      ]
    ]

pub lexer_parse_string-Forward :
    (l : Lexer) (t : Token) → IsInside l → Forward l (lexer_parse_string l t).1
unfolding lexer_parse_string
lexer_parse_string-Forward l t v =
    run_string-Forward (enough l) (record { lexer = l; escaped = false; n = 0 }) v

run_comment-Forward :
    (initial fuel : ℕ) (l : Lexer) (n : ℕ) → IsInside l → Forward l (run_comment initial fuel l n).1
unfolding run_comment
run_comment-Forward initial zero l n v = Forward-refl l v
run_comment-Forward initial (suc fuel) l n v =
    let a = advance-Advanced l v in
    let l1 = (lexer_advance l).1 in
    let l2 = (lexer_advance l1).1 in
    let v1 = Forward-IsInside v a.forward in
    let a1 = advance-Advanced l1 v1 in
    let elsewhere = Forward-trans a.forward (run_comment-Forward initial fuel l1 (n + 1) v1) in
    elim (Bool-cases ((lexer_advance l).0 == 0)) [
      | inl ends ↦ rw ends a.forward
      | inr more ↦
          let past = Past-Forward (advance-Past l v (is_nonzero _ more)) a1.forward in
          let back = unget-Forward l l2 past in
          let again =
            Forward-trans back (
              run_comment-Forward initial fuel (lexer_unget l2) (n + 1)
                (Forward-IsInside v back)) in
          elim (Bool-cases ((lexer_advance l).0 == initial)) [
            | inr other ↦ rw more (rw other elsewhere)
            | inl same ↦ elim (Bool-cases ((lexer_advance l1).0 == b'/')) [
              | inl closed ↦ rw more (rw same (rw closed past.forward))
              | inr further ↦ rw more (rw same (rw further again))
            ]
          ]
    ]

pub lexer_parse_multiline_comment-Forward :
    (l : Lexer) (type : ℕ) (t : Token) (initial : ℕ)
    → IsInside l
    → Forward l (lexer_parse_multiline_comment l type t initial).1
unfolding lexer_parse_multiline_comment
lexer_parse_multiline_comment-Forward l type t initial v =
    run_comment-Forward initial (enough l) l 0 v
