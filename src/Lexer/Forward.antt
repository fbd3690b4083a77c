-- ===== src/Lexer/Forward.antt =====
-- lexer.h: lexers that stand further on in the same stream, and `lexer_advance`.
use mathlib.Core.Path.{subst}
use gsc.Base.{
  ℕ, zero, suc, ◌+◌, ◌≤◌, ◌<◌, false, List, [], ◌∷◌, ◌≡◌, ◌≢◌, refl, ap, ◌∙◌, arith, ◌==◌, length,
  drop, take, get_or, ltb, sym, Bool-cases, ltb→lt, ltb-false, ◌⊎◌, inl, inr,
}
use gsc.Stream.{StreamBuffer, Read, beg}
use gsc.Stream
use gsc.Lexer.{Lexer, tell, lexer_advance, lexer_match_char, lexer_unget}

-- A byte that is not 0 has one behind it.
abbrev pub EndsInZero : List ℕ → Type 0
EndsInZero xs = (o : ℕ) → get_or (drop o xs) 0 0 ≢ 0 → o + 1 < length xs

-- A stream within its buffer, which ends in 0.
pub record IsInside (l : Lexer) : Type 0 where
  pub zeroed : EndsInZero l.stream.buffer
  pub whole : l.stream.length ≡ length l.stream.buffer
  pub inside : tell l ≤ l.stream.length

pub record Forward (l l' : Lexer) : Type 0 where
  pub same_length : l'.stream.length ≡ l.stream.length
  pub same_buffer : l'.stream.buffer ≡ l.stream.buffer
  pub ahead : tell l ≤ tell l'
  pub within : tell l' ≤ l.stream.length

-- What `lexer_advance` gives.
pub record Advanced (l : Lexer) (r : ℕ × Lexer) : Type 0 where
  pub forward : Forward l r.1
  pub one : r.0 ≢ 0 → (tell r.1 ≡ tell l + 1) × (tell l + 1 < l.stream.length)

get_or-take : (n : ℕ) (xs : List ℕ) → get_or (take (suc n) xs) 0 0 ≡ get_or xs 0 0
get_or-take n [] = refl
get_or-take n (x ∷ xs) = refl

pub at-cases : (o n : ℕ) → o ≤ n → (o < n) ⊎ (o ≡ n)
at-cases o n le = elim (Bool-cases (ltb o n)) [
  | inl more ↦ inl (ltb→lt o n more)
  | inr end ↦ inr (omega (arith, ltb-false o n end))
]

-- A read within the buffer, and one at its end.
pub advance-inside :
    (l : Lexer)
    → IsInside l
    → tell l < l.stream.length
    → lexer_advance l ≡ (
      get_or (drop (tell l) l.stream.buffer) 0 0,
      record l { stream = record l.stream { offset = tell l + 1 } },
    )
unfolding lexer_advance Stream.advance Stream.read
advance-inside l v more = ground (arith, get_or-take 0 (drop (tell l) l.stream.buffer))

pub advance-end : (l : Lexer) → tell l ≡ l.stream.length → lexer_advance l ≡ (0, l)
unfolding lexer_advance Stream.advance Stream.read
advance-end l at = ground arith

pub advance-Advanced : (l : Lexer) → IsInside l → Advanced l (lexer_advance l)
advance-Advanced l v = elim (at-cases (tell l) l.stream.length v.inside) [
  | inl more ↦ rw (advance-inside l v more) (record {
    forward = record {
      same_length = refl;
      same_buffer = refl;
      ahead = omega arith;
      within = omega arith;
    };
    one = λ nonzero.
        (refl, subst (λ (n : ℕ). tell l + 1 < n) (sym v.whole) (v.zeroed (tell l) nonzero));
  })
  | inr at ↦ rw (advance-end l at) (record {
    forward = record {
      same_length = refl;
      same_buffer = refl;
      ahead = omega arith;
      within = omega arith;
    };
    one = λ nonzero. absurd (nonzero refl);
  })
]

pub Forward-trans : {a b c : Lexer} → Forward a b → Forward b c → Forward a c
Forward-trans f g = record {
  same_length = g.same_length ∙ f.same_length;
  same_buffer = g.same_buffer ∙ f.same_buffer;
  ahead = omega (arith, f.ahead, g.ahead);
  within = omega (arith, g.within, f.same_length);
}

pub Forward-IsInside : {a b : Lexer} → IsInside a → Forward a b → IsInside b
Forward-IsInside v f = record {
  zeroed = subst EndsInZero (sym f.same_buffer) v.zeroed;
  whole = f.same_length ∙ v.whole ∙ ap length (sym f.same_buffer);
  inside = omega (arith, f.within, f.same_length);
}

pub Forward-refl : (l : Lexer) → IsInside l → Forward l l
Forward-refl l v = record {
  same_length = refl;
  same_buffer = refl;
  ahead = omega arith;
  within = v.inside;
}

-- Forward by a byte at least.
pub record Past (l l' : Lexer) : Type 0 where
  pub forward : Forward l l'
  pub further : tell l < tell l'

pub Past-Forward : {a b c : Lexer} → Past a b → Forward b c → Past a c
Past-Forward p f = record {
  forward = Forward-trans p.forward f;
  further = omega (arith, p.further, f.ahead);
}

pub advance-Past : (l : Lexer) → IsInside l → (lexer_advance l).0 ≢ 0 → Past l (lexer_advance l).1
advance-Past l v nonzero =
    let a = advance-Advanced l v in
    record { forward = a.forward; further = omega (arith, (a.one nonzero).0) }

-- A character that was read is taken back.
pub unget-Forward : (l l1 : Lexer) → Past l l1 → Forward l (lexer_unget l1)
unfolding lexer_unget Stream.seek
unget-Forward l l1 p = record {
  same_length = ground (arith, p.forward.same_length);
  same_buffer = ground (arith, p.forward.same_buffer);
  ahead = ground (arith, p.forward.same_length, p.forward.within, p.further);
  within = ground (arith, p.forward.same_length, p.forward.within);
}

-- A byte is read where one is left.
pub advance-more : (l : Lexer) → IsInside l → tell l < l.stream.length → Past l (lexer_advance l).1
advance-more l v more = rw (advance-inside l v more) (record {
  forward = record {
    same_length = refl;
    same_buffer = refl;
    ahead = omega arith;
    within = omega arith;
  };
  further = omega arith;
})

pub is_nonzero : (c : ℕ) → (c == 0) ≡ false → c ≢ 0
is_nonzero zero e h = cc
is_nonzero (suc c) e h = omega arith

pub match_char-Forward :
    (l : Lexer) (needle : ℕ) → IsInside l → Forward l (lexer_match_char l needle).1
unfolding lexer_match_char Stream.seek
match_char-Forward l needle v =
    let a = advance-Advanced l v in
    let e = a.forward.same_length in
    let b = a.forward.same_buffer in
    let ahead = a.forward.ahead in
    let within = a.forward.within in
    record {
      same_length = ground arith;
      same_buffer = ground arith;
      ahead = ground arith;
      within = ground arith;
    }

pub advance-left :
    (l : Lexer)
    → IsInside l
    → (lexer_advance l).0 ≢ 0
    → tell (lexer_advance l).1 < (lexer_advance l).1.stream.length
advance-left l v nonzero =
    let a = advance-Advanced l v in
    let (one, left) = a.one nonzero in let same = a.forward.same_length in omega arith
