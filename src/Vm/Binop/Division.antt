-- ===== src/Vm/Binop/Division.antt =====
-- Division and remainder of integers against the numbers that the words stand for.
use gsc.Base.{
  ℕ, ◌+◌, ◌*◌, ◌/◌, ◌%◌, ◌<◌, ◌≤◌, Bool, true, false, ◌≡◌, ◌≢◌, ◌⊎◌, sym, ap, ◌∙◌, inl, inr, refl,
  arith, if◌then◌else◌,
}
use native.Mathlib.Nat.{mod-add-div, mod-lt}
use native.Mathlib.Decide.{dec_lt}
use gsc.Base.Result.{ok}
use gsc.Base.Word
use gsc.Base.Word.{word_mod, sign_bit, is_negative}
use gsc.Vm.Variable.{Variable}
use gsc.Vm.Binop.{Operation, binop_int}
use gsc.Vm.Binop.Words.{pos_part, neg_part, IsWord}

-- The parts of a word that stands for a magnitude with a sign.
neg_parts : (m : ℕ) → m ≤ sign_bit → (pos_part (Word.neg m) ≡ 0) × (neg_part (Word.neg m) ≡ m)
unfolding Word.neg
neg_parts m h = (ground arith, ground arith)

small_parts : (m : ℕ) → m < sign_bit → (pos_part m ≡ m) × (neg_part m ≡ 0)
small_parts m h = (ground arith, ground arith)

-- The number that a quotient, a divisor and a remainder make is the dividend.
abbrev pub IsDivision : ℕ → ℕ → ℕ → ℕ → Type 0
IsDivision a b q r =
    pos_part q * pos_part b + neg_part q * neg_part b + pos_part r + neg_part a
    ≡ pos_part q * neg_part b + neg_part q * pos_part b + neg_part r + pos_part a

negative_parts :
    (a : ℕ) → IsWord a → is_negative a ≡ true → (pos_part a ≡ 0) × (neg_part a ≡ Word.magnitude a)
unfolding Word.magnitude
negative_parts a h e = (ground arith, ground arith)

positive_parts :
    (a : ℕ) → is_negative a ≡ false → (pos_part a ≡ Word.magnitude a) × (neg_part a ≡ 0)
unfolding Word.magnitude
positive_parts a e = (ground arith, ground arith)

quotient_agree :
    (a b : ℕ)
    → is_negative a ≡ is_negative b
    → Word.quotient a b ≡ Word.magnitude a / Word.magnitude b
unfolding Word.quotient
quotient_agree a b e = ground arith

quotient_differ :
    (a b : ℕ)
    → is_negative a ≢ is_negative b
    → Word.quotient a b ≡ Word.neg (Word.magnitude a / Word.magnitude b)
unfolding Word.quotient
quotient_differ a b e = ground arith

remainder_signs :
    (a b : ℕ)
    → Word.remainder a b ≡ (
        if is_negative a
        then Word.neg (Word.magnitude a % Word.magnitude b)
        else Word.magnitude a % Word.magnitude b)
unfolding Word.remainder
remainder_signs a b = refl

-- The equation of a division, with each part replaced by its value.
same_parts :
    {pq nq pb nb pr nr pa na xq yq xb yb xr yr xa ya : ℕ}
    → pq ≡ xq
    → nq ≡ yq
    → pb ≡ xb
    → nb ≡ yb
    → pr ≡ xr
    → nr ≡ yr
    → pa ≡ xa
    → na ≡ ya
    → xq * xb + yq * yb + xr + ya ≡ xq * yb + yq * xb + yr + xa
    → pq * pb + nq * nb + pr + na ≡ pq * nb + nq * pb + nr + pa
same_parts e1 e2 e3 e4 e5 e6 e7 e8 e = rw (e1, e2, e3, e4, e5, e6, e7, e8) e

div-le : (x d : ℕ) → 0 < d → x / d ≤ x
div-le x d h = grind (arith, mod-add-div x d)

div-lt_two : (x d : ℕ) → 2 ≤ d → 0 < x → x / d < x
div-lt_two x d h k = grind (arith, mod-add-div x d)

module _ (a b : ℕ) (ha : IsWord a) (hb : IsWord b) (defined : Word.div_traps a b ≡ false) where
  divisor_pos : 0 < Word.magnitude b
  unfolding Word.magnitude Word.div_traps
  divisor_pos = ground arith

  magnitude-le : Word.magnitude a ≤ sign_bit
  unfolding Word.magnitude
  magnitude-le = ground arith

  -- The quotient of magnitudes is 2 ^ 63 at most, and less where the signs agree.
  quotient-le : Word.magnitude a / Word.magnitude b ≤ sign_bit
  quotient-le =
      omega (arith, div-le (Word.magnitude a) (Word.magnitude b) divisor_pos, magnitude-le)

  one_or_two :
      is_negative a ≡ is_negative b → (Word.magnitude a < sign_bit) ⊎ (2 ≤ Word.magnitude b)
  unfolding Word.magnitude Word.div_traps
  one_or_two same = ground arith

  quotient-lt : is_negative a ≡ is_negative b → Word.magnitude a / Word.magnitude b < sign_bit
  quotient-lt same = elim (one_or_two same) [
    | inl small ↦ omega (arith, div-le (Word.magnitude a) (Word.magnitude b) divisor_pos)
    | inr two ↦ elim (dec_lt 0 (Word.magnitude a)) [
      | yes pos ↦
          omega (arith, div-lt_two (Word.magnitude a) (Word.magnitude b) two pos, magnitude-le)
      | no zero ↦ omega (arith, div-le (Word.magnitude a) (Word.magnitude b) divisor_pos)
    ]
  ]

  magnitude-b-le : Word.magnitude b ≤ sign_bit
  unfolding Word.magnitude
  magnitude-b-le = ground arith

  remainder-lt : Word.magnitude a % Word.magnitude b < sign_bit
  remainder-lt = omega (arith, mod-lt (Word.magnitude a) divisor_pos, magnitude-b-le)

  -- A division that the processor defines truncates towards 0: the quotient and the remainder make
  -- the dividend. The two words are integers of 64 bits.
  division_lem : IsDivision a b (Word.quotient a b) (Word.remainder a b)
  division_lem = signs (is_negative a) (is_negative b) refl refl
    where
      q : ℕ
      q = Word.magnitude a / Word.magnitude b

      r : ℕ
      r = Word.magnitude a % Word.magnitude b

      split : r + Word.magnitude b * q ≡ Word.magnitude a
      split = mod-add-div (Word.magnitude a) (Word.magnitude b)

      minus : (m : ℕ) → m ≤ sign_bit → (pos_part (Word.neg m) ≡ 0) × (neg_part (Word.neg m) ≡ m)
      minus = neg_parts

      signs :
          (s u : Bool)
          → is_negative a ≡ s
          → is_negative b ≡ u
          → IsDivision a b (Word.quotient a b) (Word.remainder a b)
      signs true true ea eb =
          let (x, y) = small_parts q (quotient-lt (ea ∙ sym eb)) in
          let (z, w) = minus r (omega (arith, remainder-lt)) in
          let (f, g) = negative_parts a ha ea in
          let (h, k) = negative_parts b hb eb in
          let eq = quotient_agree a b (ea ∙ sym eb) in
          let er = remainder_signs a b ∙ ap (λ (c : Bool). if c then Word.neg r else r) ea in
          rw (eq, er) (same_parts x y h k z w f g (omega (arith, split)))
      signs true false ea eb =
          let (x, y) = minus q quotient-le in
          let (z, w) = minus r (omega (arith, remainder-lt)) in
          let (f, g) = negative_parts a ha ea in
          let (h, k) = positive_parts b eb in
          let eq = quotient_differ a b (λ e. cc) in
          let er = remainder_signs a b ∙ ap (λ (c : Bool). if c then Word.neg r else r) ea in
          rw (eq, er) (same_parts x y h k z w f g (omega (arith, split)))
      signs false true ea eb =
          let (x, y) = minus q quotient-le in
          let (z, w) = small_parts r remainder-lt in
          let (f, g) = positive_parts a ea in
          let (h, k) = negative_parts b hb eb in
          let eq = quotient_differ a b (λ e. cc) in
          let er = remainder_signs a b ∙ ap (λ (c : Bool). if c then Word.neg r else r) ea in
          rw (eq, er) (same_parts x y h k z w f g (omega (arith, split)))
      signs false false ea eb =
          let (x, y) = small_parts q (quotient-lt (ea ∙ sym eb)) in
          let (z, w) = small_parts r remainder-lt in
          let (f, g) = positive_parts a ea in
          let (h, k) = positive_parts b eb in
          let eq = quotient_agree a b (ea ∙ sym eb) in
          let er = remainder_signs a b ∙ ap (λ (c : Bool). if c then Word.neg r else r) ea in
          rw (eq, er) (same_parts x y h k z w f g (omega (arith, split)))

-- Where the processor defines the division, by a divisor that is not 0, `/` and `%` both return, and
-- quotient times divisor plus remainder is the dividend, as integers. The two words are integers of
-- 64 bits.
pub binop_int-IsDivision :
    (a b : ℕ)
    → IsWord a
    → IsWord b
    → Word.div_traps a b ≡ false
    → (q : ℕ) × (r : ℕ) × (binop_int Operation.div a b ≡ ok (Variable.integer q))
      × (binop_int Operation.rem a b ≡ ok (Variable.integer r))
      × IsDivision a b q r
unfolding binop_int Word.div Word.rem Word.div_traps
binop_int-IsDivision a b ha hb defined = (
  Word.quotient a b,
  Word.remainder a b,
  ground arith,
  ground arith,
  division_lem a b ha hb defined,
)
