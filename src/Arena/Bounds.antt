-- ===== src/Arena/Bounds.antt =====
-- An arena hands out aligned blocks that lie inside it and do not overlap.
use gsc.Base.{
  ℕ, suc, ◌+◌, ◌-◌, ◌*◌, ◌/◌, ◌%◌, ◌^◌, ◌≤◌, ◌<◌, ◌≡◌, sym, ap, ◌∙◌, zero, arith, leb,
  if◌then◌else◌,
}
use gsc.Base.Word.{word_mod}
use gsc.Base.Masks.{bit_and-mask, pow_pos}
use native.Mathlib.Nat.{
  add-zero, pow-suc, mod-lt, mod-add-div, add-mul-mod_self_left, mul-mod_right,
}
use gsc.Arena.{Arena, allocated, jumped, null, padding, allocate_memory, split}

-- The free part is a range of addresses of user memory.
pub record IsValid (a : Arena) : Type 0 where
  pub not_null : 0 < a.beg
  pub ordered : a.beg ≤ a.end
  pub user : a.end < 2 ^ 63

-- The bytes from `p` to `q` are a block of the arena: it starts inside at a multiple of `align`,
-- holds `n` bytes, and what is left begins behind it.
pub record IsBlock (a b : Arena) (align n p : ℕ) : Type 0 where
  pub inside : a.beg ≤ p
  pub aligned : p % align ≡ 0
  pub taken : b.beg ≡ p + n
  pub fits : p + n ≤ a.end
  pub same_end : b.end ≡ a.end
  pub tight : p < a.beg + align

two_pow_add : (a b : ℕ) → 2 ^ (a + b) ≡ 2 ^ a * 2 ^ b
two_pow_add a zero = rw (add-zero) (omega arith)
two_pow_add a (suc b) =
    let e : a + suc b ≡ suc (a + b) = omega arith in
    rw (e, pow-suc, pow-suc) (omega (arith, ap (λ t. t * 2) (two_pow_add a b)))

padding_lem : (beg k : ℕ) → 0 < beg → beg < 2 ^ 63 → padding beg (2 ^ k) ≡ (word_mod - beg) % 2 ^ k
unfolding padding
padding_lem beg k pos h =
    let small : (word_mod - beg) % word_mod ≡ word_mod - beg = omega arith in
    bit_and-mask k ((word_mod - beg) % word_mod) ∙ ap (λ x. x % 2 ^ k) small

pub padding-lt : (beg k : ℕ) → 0 < beg → beg < 2 ^ 63 → padding beg (2 ^ k) < 2 ^ k
padding-lt beg k pos h = rw (padding_lem beg k pos h) (mod-lt (word_mod - beg) (pow_pos k))

-- The padded address is a multiple of the alignment.
padding-aligned :
    (beg k : ℕ) → 0 < beg → beg < 2 ^ 63 → k ≤ 64 → (beg + padding beg (2 ^ k)) % 2 ^ k ≡ 0
padding-aligned beg k pos h le =
    let n : ℕ = 2 ^ k in
    let q : ℕ = (word_mod - beg) / n in
    let m : ℕ = 2 ^ (64 - k) in
    let e : k + (64 - k) ≡ 64 = omega arith in
    let whole : n * m ≡ word_mod = sym (two_pow_add k (64 - k)) ∙ ap (λ t. 2 ^ t) e in
    let pad = padding_lem beg k pos h in
    let total : beg + padding beg n + n * q ≡ n * m =
      omega (arith, mod-add-div (word_mod - beg) n, whole, pad) in
    sym (add-mul-mod_self_left (beg + padding beg n) n q)
    ∙ ap (λ t. t % n) total
    ∙ mul-mod_right n m

-- The quotient test of the source is the test on the bytes.
count_fits : (count size room : ℕ) → 0 < size → count ≤ room / size → count * size ≤ room
count_fits count size room pos h = grind (arith, mod-add-div room size)

fits_count : (count size room : ℕ) → 0 < size → count * size ≤ room → count ≤ room / size
fits_count count size room pos h = grind (arith, mod-add-div room size, mod-lt room pos)

-- An allocation that returns a pointer returns a block of the arena: aligned, inside it, of
-- `count * size` bytes, and the free part begins right behind it. The arena is valid before, the
-- alignment is a power of two up to 2 ^ 64, and the size is not 0.
pub allocate_memory-IsBlock :
    (a : Arena) (size k count p : ℕ) {b : Arena}
    → IsValid a
    → k ≤ 64
    → 0 < size
    → allocate_memory a size (2 ^ k) count ≡ (b, allocated p)
    → IsBlock a b (2 ^ k) (count * size) p
unfolding allocate_memory
allocate_memory-IsBlock a size k count p v le pos e =
    let al = padding-aligned a.beg k v.not_null (omega arith) le in
    let lt = padding-lt a.beg k v.not_null (omega arith) in
    ground (arith, al, lt, count_fits count size (a.end - (a.beg + padding a.beg (2 ^ k))) pos)

pub allocate_memory-fits :
    (a : Arena) (size k count : ℕ)
    → IsValid a
    → 0 < size
    → let start = a.beg + padding a.beg (2 ^ k) in
      start + count * size ≤ a.end
      → allocate_memory a size (2 ^ k) count
        ≡ (record a { beg = start + count * size }, allocated start)
unfolding allocate_memory
allocate_memory-fits a size k count v pos h =
    ground (arith, fits_count count size (a.end - (a.beg + padding a.beg (2 ^ k))) pos)

-- An allocation succeeds exactly where the padded block fits, and then begins at the padded address;
-- one that fails leaves the arena as it was: it jumps if a jump buffer is set, and returns NULL
-- otherwise. The arena is valid before, and the size is not 0.
pub allocate_memory-exact :
    (a : Arena) (size k count : ℕ)
    → IsValid a
    → 0 < size
    → let start = a.beg + padding a.beg (2 ^ k) in
      allocate_memory a size (2 ^ k) count ≡ (
        if leb (start + count * size) a.end
        then (record a { beg = start + count * size }, allocated start)
        else (a, (if a.jmp_oom then jumped else null)))
unfolding allocate_memory
allocate_memory-exact a size k count v pos =
    let room : ℕ = a.end - (a.beg + padding a.beg (2 ^ k)) in
    ground (arith, fits_count count size room pos, count_fits count size room pos)

-- Two blocks that an arena hands out one after the other do not overlap, and the arena stays valid.
pub allocate_memory-disjoint :
    (a : Arena) (size k count size' k' count' p p' : ℕ) {b c : Arena}
    → IsValid a
    → k ≤ 64
    → k' ≤ 64
    → 0 < size
    → 0 < size'
    → allocate_memory a size (2 ^ k) count ≡ (b, allocated p)
    → allocate_memory b size' (2 ^ k') count' ≡ (c, allocated p')
    → (p + count * size ≤ p') × (p' + count' * size' ≤ a.end) × IsValid c
allocate_memory-disjoint a size k count size' k' count' p p' {b} {c} v le le' pos pos' e e' =
    let first = allocate_memory-IsBlock a size k count p v le pos e in
    let valid : IsValid b = omega arith in
    let second = allocate_memory-IsBlock b size' k' count' p' valid le' pos' e' in omega arith

-- `arena_split` of at most what is free gives two arenas that share no byte and together are the
-- base; both jump where the base jumps.
pub split-IsValid :
    (a : Arena) (size : ℕ)
    → IsValid a
    → size ≤ a.end - a.beg
    → let (part, rest) = split a size in
      IsValid part
      × IsValid rest
      × (part.end ≡ rest.beg)
      × (part.end - part.beg ≡ size)
      × (part.jmp_oom ≡ a.jmp_oom)
unfolding split
split-IsValid a size v h = ground arith
