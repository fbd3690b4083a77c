-- ===== src/Vm/Binop/Words.antt =====
-- The integer operators against the numbers that the words stand for. A word stands for the
-- difference of its positive and its negative part, so that an equation or an order of integers is
-- one of numbers.
use gsc.Base.{ℕ, ◌+◌, ◌-◌, ◌<◌, ◌≤◌, not, ◌≡◌, refl, arith, ◌==◌, if◌then◌else◌, leb, ltb}
use gsc.Base.Result.{ok}
use gsc.Base.Word
use gsc.Base.Word.{word_mod, sign_bit, is_negative}
use gsc.Vm.Variable.{Variable}
use gsc.Vm.Value.{bit}
use gsc.Vm.Binop.{Operation, binop_int}

abbrev pub pos_part : ℕ → ℕ
pos_part a = if is_negative a then 0 else a

abbrev pub neg_part : ℕ → ℕ
neg_part a = if is_negative a then word_mod - a else 0

abbrev pub IsWord : ℕ → Type 0
IsWord a = a < word_mod

-- The six comparisons of integers are those of the signed numbers that the words stand for, and give
-- the booleans 0 and 1. The two words are integers of 64 bits.
pub binop_int_order :
    (a b : ℕ)
    → IsWord a
    → IsWord b
    → let x = pos_part a + neg_part b in
      let y = pos_part b + neg_part a in
      (binop_int Operation.lt a b ≡ ok (Variable.boolean (bit (ltb x y))))
      × (binop_int Operation.gt a b ≡ ok (Variable.boolean (bit (ltb y x))))
      × (binop_int Operation.le a b ≡ ok (Variable.boolean (bit (leb x y))))
      × (binop_int Operation.ge a b ≡ ok (Variable.boolean (bit (leb y x))))
      × (binop_int Operation.eq a b ≡ ok (Variable.boolean (bit (x == y))))
      × (binop_int Operation.ne a b ≡ ok (Variable.boolean (bit (not (x == y)))))
unfolding binop_int Word.less
binop_int_order a b ha hb =
    (ground arith, ground arith, ground arith, ground arith, ground arith, ground arith)

-- The sum of two integers stands for the sum of the signed numbers, where that fits into 64 bits. The
-- two words are integers of 64 bits.
pub binop_int-add :
    (a b : ℕ)
    → IsWord a
    → IsWord b
    → pos_part a + pos_part b < neg_part a + neg_part b + sign_bit
    → neg_part a + neg_part b ≤ pos_part a + pos_part b + sign_bit
    → (c : ℕ) × (binop_int Operation.add a b ≡ ok (Variable.integer c))
      × (pos_part c + neg_part a + neg_part b ≡ neg_part c + pos_part a + pos_part b)
unfolding binop_int Word.add
binop_int-add a b ha hb h k = (Word.add a b, refl, ground arith)

-- The difference of two integers stands for the difference of the signed numbers, where that fits
-- into 64 bits. The two words are integers of 64 bits.
pub binop_int-sub :
    (a b : ℕ)
    → IsWord a
    → IsWord b
    → pos_part a + neg_part b < neg_part a + pos_part b + sign_bit
    → neg_part a + pos_part b ≤ pos_part a + neg_part b + sign_bit
    → (c : ℕ) × (binop_int Operation.sub a b ≡ ok (Variable.integer c))
      × (pos_part c + neg_part a + pos_part b ≡ neg_part c + pos_part a + neg_part b)
unfolding binop_int Word.sub
binop_int-sub a b ha hb h k = (Word.sub a b, refl, ground arith)
