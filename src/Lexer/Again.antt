-- ===== src/Lexer/Again.antt =====
-- A token that `lexer_step` reads again from its first character.
use mathlib.Core.Path.{subst}
use gsc.Base.{ℕ, ◌<◌, false, List, ◌≡◌, ◌≢◌, ap, ◌∙◌, arith, length, drop, get_or, sym, inl, inr}
use gsc.Stream.{StreamBuffer, Read, beg}
use gsc.Stream
use gsc.Lexer.{Token, Lexer, tell, lexer_advance, lexer_unget_token}
use gsc.Lexer.Char.{Condition}
use gsc.Lexer.Scan.{lexer_parse_characters}
use gsc.Lexer.Forward.{EndsInZero, IsInside, at-cases, advance-inside, advance-end, Past}
use gsc.Lexer.Loops.{lexer_parse_characters-Past}

-- The lexer is set back to the start of a token.
record Back (l l' : Lexer) : Type 0 where
  start : tell l' ≡ tell l
  back_length : l'.stream.length ≡ l.stream.length
  back_buffer : l'.stream.buffer ≡ l.stream.buffer

unget_token-Back :
    (l l1 : Lexer) (t : Token) → Past l l1 → t.offset ≡ tell l → Back l (lexer_unget_token l1 t)
unfolding lexer_unget_token Stream.seek
unget_token-Back l l1 t p e = record {
  start = ground (arith, p.further, p.forward.within, p.forward.same_length);
  back_length = ground (arith, p.forward.same_length);
  back_buffer = ground (arith, p.forward.same_buffer);
}

Back-IsInside : (l l' : Lexer) → Back l l' → IsInside l → IsInside l'
Back-IsInside l l' b v = record {
  zeroed = subst EndsInZero (sym b.back_buffer) v.zeroed;
  whole = b.back_length ∙ v.whole ∙ ap length (sym b.back_buffer);
  inside = omega (arith, b.start, b.back_length, v.inside);
}

Back-char : (l l' : Lexer) → IsInside l → Back l l' → (lexer_advance l').0 ≡ (lexer_advance l).0
Back-char l l' v b =
    let v' = Back-IsInside l l' b v in
    elim (at-cases (tell l) l.stream.length v.inside) [
      | inl more ↦
          let more' : tell l' < l'.stream.length = omega (arith, b.start, b.back_length, more) in
          let there : drop (tell l') l'.stream.buffer ≡ drop (tell l) l.stream.buffer =
            ap (λ (n : ℕ). drop n l'.stream.buffer) b.start ∙ ap (drop (tell l)) b.back_buffer in
          ap (λ (r : ℕ × Lexer). r.0) (advance-inside l' v' more')
          ∙ ap (λ (xs : List ℕ). get_or xs 0 0) there
          ∙ sym (ap (λ (r : ℕ × Lexer). r.0) (advance-inside l v more))
      | inr at ↦
          ap (λ (r : ℕ × Lexer). r.0) (advance-end l' (b.start ∙ at ∙ sym b.back_length))
          ∙ sym (ap (λ (r : ℕ × Lexer). r.0) (advance-end l at))
    ]

Back-Past : (l l' l'' : Lexer) → Back l l' → Past l' l'' → Past l l''
Back-Past l l' l'' b p = record {
  forward = record {
    same_length = p.forward.same_length ∙ b.back_length;
    same_buffer = p.forward.same_buffer ∙ b.back_buffer;
    ahead = omega (arith, b.start, p.forward.ahead);
    within = omega (arith, b.back_length, p.forward.within);
  };
  further = omega (arith, b.start, p.further);
}

-- A token that is read again from its start, which its condition continues.
pub again-Past :
    (l l1 : Lexer) (t t' : Token) (type : ℕ) (cond : Condition)
    → IsInside l
    → Past l l1
    → t.offset ≡ tell l
    → (lexer_advance l).0 ≢ 0
    → (cond type (lexer_advance l).0).0 ≡ false
    → Past l (lexer_parse_characters (lexer_unget_token l1 t) t' type cond).2
again-Past l l1 t t' type cond v p e nonzero goes =
    let l0 = lexer_unget_token l1 t in
    let b = unget_token-Back l l1 t p e in
    let same = Back-char l l0 v b in
    Back-Past l l0 _ b (
      lexer_parse_characters-Past l0 t' type cond (Back-IsInside l l0 b v) (rw same nonzero)
        (rw same goes))

pub again-start :
    (l l1 : Lexer) (t : Token)
    → Past l l1
    → t.offset ≡ tell l
    → tell (lexer_unget_token l1 t) ≡ tell l
again-start l l1 t p e = (unget_token-Back l l1 t p e).start
