-- ===== src/Base/Word.antt =====
-- 64-bit words: a `uint64_t` and an `int64_t` are their bit pattern, a number below 2 ^ 64. Signed
-- addition, subtraction, multiplication and negation wrap, as the processor does.
use Prim.Native.Nat.{ℕ, ◌+◌, ◌-◌, ◌*◌, ◌/◌, ◌%◌, ◌^◌}
use mathlib.Core.Bool.{Bool, true, false, ◌&&◌, ◌||◌}
use gsc.Base.Tests.{ltb, leb, ◌==◌, if◌then◌else◌}
use gsc.Base.Result.{Result, ok, err, undefined_behaviour}

abbrev pub word_mod : ℕ
word_mod = 18446744073709551616

abbrev pub sign_bit : ℕ
sign_bit = 9223372036854775808

abbrev pub is_negative : ℕ → Bool
is_negative a = leb sign_bit a

unfoldable pub add : ℕ → ℕ → ℕ
add a b = (a + b) % word_mod

unfoldable pub sub : ℕ → ℕ → ℕ
sub a b = (a + (word_mod - b)) % word_mod

pub mul : ℕ → ℕ → ℕ
mul a b = a * b % word_mod

unfoldable pub neg : ℕ → ℕ
neg a = (word_mod - a) % word_mod

pub lnot : ℕ → ℕ
lnot a = word_mod - 1 - a

-- The distance from 0, as an unsigned number.
unfoldable pub magnitude : ℕ → ℕ
magnitude a = if is_negative a then word_mod - a else a

unfoldable pub less : ℕ → ℕ → Bool
less a b =
    if is_negative a
    then (if is_negative b then ltb a b else true)
    else (if is_negative b then false else ltb a b)

-- Division truncates towards 0. A zero divisor traps, and so does the one quotient that is too big.
unfoldable pub div_traps : ℕ → ℕ → Bool
div_traps a b = b == 0 || (a == sign_bit && b == word_mod - 1)

unfoldable pub quotient : ℕ → ℕ → ℕ
unfolding magnitude neg
quotient a b =
    let q = magnitude a / magnitude b in
    if is_negative a
    then (if is_negative b then q else neg q)
    else (if is_negative b then neg q else q)

-- The remainder has the sign of the dividend.
unfoldable pub remainder : ℕ → ℕ → ℕ
unfolding magnitude neg
remainder a b = let r = magnitude a % magnitude b in if is_negative a then neg r else r

unfoldable pub div : ℕ → ℕ → Result ℕ
div a b = if div_traps a b then err undefined_behaviour else ok (quotient a b)

unfoldable pub rem : ℕ → ℕ → Result ℕ
rem a b = if div_traps a b then err undefined_behaviour else ok (remainder a b)

-- A shift is defined by fewer than 64 places. A right shift keeps the sign.
pub shl : ℕ → ℕ → Result ℕ
shl a b = if ltb b 64 then ok (a * 2 ^ b % word_mod) else err undefined_behaviour

pub shr : ℕ → ℕ → Result ℕ
unfolding lnot
shr a b =
    if ltb b 64
    then ok (if is_negative a then lnot (lnot a / 2 ^ b) else a / 2 ^ b)
    else err undefined_behaviour
