-- ===== src/Base/Masks.antt =====
-- `x & (2 ^ k - 1)` is the remainder by `2 ^ k`, by the digit recursion of the native operation.
use Prim.Native.Nat.{
  ℕ, zero, suc, ◌+◌, ◌-◌, ◌*◌, ◌/◌, ◌%◌, ◌^◌, ◌≤◌, ◌<◌, min, bit_and, digits, bit_and-bitwise,
}
use mathlib.Core.Path.{◌≡◌, refl, ap, ◌∙◌}
use native.Mathlib.Nat.{pow-suc, mod-lt, mod-add-div, mod-eq_of_lt, add-mul-mod_self_left}
use native.Mathlib.Omega.{arith}

abbrev and_rounds : ℕ → ℕ → ℕ → ℕ
and_rounds n a b = digits (λ b. zero) min n a b

and_rounds-enough : (r s a b : ℕ) → a ≤ r → a ≤ s → and_rounds r a b ≡ and_rounds s a b
and_rounds-enough zero zero a b le le' = refl
and_rounds-enough zero (suc s) zero b le le' = refl
and_rounds-enough zero (suc s) (suc a) b le le' = absurd (omega (arith, le))
and_rounds-enough (suc r) zero zero b le le' = refl
and_rounds-enough (suc r) zero (suc a) b le le' = absurd (omega (arith, le'))
and_rounds-enough (suc r) (suc s) zero b le le' = refl
and_rounds-enough (suc r) (suc s) (suc a) b le le' =
    let half = and_rounds-enough r s (suc a / 2) (b / 2) (omega arith) (omega arith) in
    omega (arith, half)

zero-bit_and : (b : ℕ) → bit_and 0 b ≡ 0
zero-bit_and b = bit_and-bitwise 0 b

bit_and-digit : (a b : ℕ) → bit_and a b ≡ bit_and (a / 2) (b / 2) * 2 + min (a % 2) (b % 2)
bit_and-digit zero b = omega (arith, zero-bit_and b, zero-bit_and (b / 2))
bit_and-digit (suc a) b = omega (
  arith,
  bit_and-bitwise (suc a) b,
  bit_and-bitwise (suc a / 2) (b / 2),
  and_rounds-enough a (suc a / 2) (suc a / 2) (b / 2) (omega arith) (omega arith),
)

bit_and-zero_upto : (n a : ℕ) → a ≤ n → bit_and a 0 ≡ 0
bit_and-zero_upto n zero h = zero-bit_and 0
bit_and-zero_upto zero (suc a) h = absurd (omega arith)
bit_and-zero_upto (suc n) (suc a) h =
    omega (arith, bit_and-digit (suc a) 0, bit_and-zero_upto n (suc a / 2) (omega arith))

pub pow_pos : (k : ℕ) → 0 < 2 ^ k
pow_pos zero = omega arith
pow_pos (suc k) = omega (arith, pow-suc 2 k, pow_pos k)

mod_double : (x n : ℕ) → 0 < n → x % (n * 2) ≡ x / 2 % n * 2 + x % 2
mod_double x n h =
    let rest : ℕ = x / 2 % n * 2 + x % 2 in
    let small : rest < n * 2 = omega (arith, mod-lt (x / 2) h) in
    let split : x ≡ rest + n * 2 * (x / 2 / n) = omega (arith, mod-add-div (x / 2) n) in
    ap (λ y. y % (n * 2)) split
    ∙ add-mul-mod_self_left rest (n * 2) (x / 2 / n)
    ∙ mod-eq_of_lt small

-- The mask of `k` ones keeps the remainder.
pub bit_and-mask : (k x : ℕ) → bit_and x (2 ^ k - 1) ≡ x % 2 ^ k
bit_and-mask zero x = omega (arith, bit_and-zero_upto x x (omega arith))
bit_and-mask (suc k) x =
    let n : ℕ = 2 ^ k in
    let h = pow_pos k in
    let half : (n * 2 - 1) / 2 ≡ n - 1 = omega arith in
    let odd : (n * 2 - 1) % 2 ≡ 1 = omega arith in
    rw (pow-suc, bit_and-digit x (n * 2 - 1), half, odd, bit_and-mask k (x / 2), mod_double x n h)
      (omega arith)

-- The mask of the bits from `k` on, below `2 ^ (d + k)`, takes the remainder away.
pub bit_and-high_mask :
    (d k x : ℕ) → x < 2 ^ (d + k) → bit_and x (2 ^ (d + k) - 2 ^ k) ≡ x - x % 2 ^ k
bit_and-high_mask d zero x h =
    let e : d + 0 ≡ d = omega arith in
    let below : x < 2 ^ d = rw e at h in rw (e, bit_and-mask d x, mod-eq_of_lt below) (omega arith)
bit_and-high_mask d (suc k) x h =
    let n : ℕ = 2 ^ k in
    let m : ℕ = 2 ^ (d + k) in
    let e : d + suc k ≡ suc (d + k) = omega arith in
    let below : x < m * 2 = rw (e, pow-suc) at h in
    let half : (m * 2 - n * 2) / 2 ≡ m - n = omega arith in
    let even : (m * 2 - n * 2) % 2 ≡ 0 = omega arith in
    rw (e, pow-suc 2 (d + k), pow-suc 2 k, bit_and-digit x (m * 2 - n * 2), half, even)
      (omega (arith, bit_and-high_mask d k (x / 2) (omega arith), mod_double x n (pow_pos k)))
