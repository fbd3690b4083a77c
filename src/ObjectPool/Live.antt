-- ===== src/ObjectPool/Live.antt =====
-- A pool never hands out a unit that is in use, and its units lie apart in its memory.
use gsc.Base.{
  ℕ, suc, zero, ◌+◌, ◌-◌, ◌*◌, ◌/◌, ◌%◌, ◌^◌, ◌≤◌, ◌<◌, Option, none, some, List, [], ◌∷◌, bit_and,
  ◌≡◌, ◌≢◌, refl, arith, length, sym, ap,
}
use gsc.Base.Word.{word_mod}
use gsc.Base.Masks.{bit_and-high_mask, pow_pos}
use native.Mathlib.Nat.{mod-lt, mod-add-div, mul-mod_right}
use gsc.ObjectPool.{ObjectPool, unit, align_up, chain, init, allocate, deallocate}

abbrev pub NotIn : ℕ → List ℕ → Type 0
NotIn x [] = Unit
NotIn x (y ∷ ys) = (x ≢ y) × NotIn x ys

abbrev Distinct : List ℕ → Type 0
Distinct [] = Unit
Distinct (x ∷ xs) = NotIn x xs × Distinct xs

abbrev Apart : List ℕ → List ℕ → Type 0
Apart [] ys = Unit
Apart (x ∷ xs) ys = NotIn x ys × Apart xs ys

-- The units in use and the free ones are different units.
pub record IsSound (pool : ObjectPool) (live : List ℕ) : Type 0 where
  pub live_distinct : Distinct live
  pub free_distinct : Distinct pool.free_list
  pub apart : Apart live pool.free_list

Apart-tail : (xs : List ℕ) (y : ℕ) (ys : List ℕ) → Apart xs (y ∷ ys) → NotIn y xs × Apart xs ys
Apart-tail [] y ys h = (tt, tt)
Apart-tail (x ∷ xs) y ys ((ne, a), rest) =
    let (m, b) = Apart-tail xs y ys rest in ((λ e. ne (sym e), m), (a, b))

Apart-cons : (xs : List ℕ) (y : ℕ) (ys : List ℕ) → NotIn y xs → Apart xs ys → Apart xs (y ∷ ys)
Apart-cons [] y ys n h = tt
Apart-cons (x ∷ xs) y ys (ne, n) (a, rest) = ((λ e. ne (sym e), a), Apart-cons xs y ys n rest)

-- The pool is of fixed capacity: with no unit free it asks for no memory.
allocate-empty :
    (pool pool' : ObjectPool) (size p : ℕ) (memory : Option ℕ)
    → pool.capacity ≢ 0
    → pool.capacity ≤ pool.size
    → pool.free_list ≡ []
    → allocate pool size memory ≢ (pool', unit p)
unfolding allocate
allocate-empty pool pool' size p memory cap full none_free e = ground arith

allocate-first :
    (pool pool' : ObjectPool) (size p q : ℕ) (memory : Option ℕ) (rest : List ℕ)
    → pool.free_list ≡ q ∷ rest
    → allocate pool size memory ≡ (pool', unit p)
    → (q ≡ p) × (rest ≡ pool'.free_list)
unfolding allocate
allocate-first pool pool' size p q memory rest first e = ground arith

-- A unit that a pool of fixed capacity hands out was free and is not in use, and afterwards the
-- pool is sound with it in use. The pool is sound before; one of fixed capacity asks for no memory.
pub allocate-IsSound :
    (pool : ObjectPool) (live : List ℕ) (size p : ℕ) (memory : Option ℕ) {pool' : ObjectPool}
    → IsSound pool live
    → pool.capacity ≢ 0
    → pool.capacity ≤ pool.size
    → allocate pool size memory ≡ (pool', unit p)
    → (pool.free_list ≡ p ∷ pool'.free_list) × NotIn p live × IsSound pool' (p ∷ live)
allocate-IsSound pool live size p memory {pool'} v cap full e = split pool.free_list refl
  where
    split :
        (free : List ℕ)
        → pool.free_list ≡ free
        → (pool.free_list ≡ p ∷ pool'.free_list) × NotIn p live × IsSound pool' (p ∷ live)
    split [] none_free = absurd (allocate-empty pool pool' size p memory cap full none_free e)
    split (q ∷ rest) first =
        let (pq, same) = allocate-first pool pool' size p q memory rest first e in
        let whole : pool.free_list ≡ p ∷ pool'.free_list = cc in
        let (fresh, apart) = Apart-tail live p pool'.free_list (rw whole at v.apart) in
        let distinct = rw whole at v.free_distinct in
        (
          whole,
          fresh,
          record {
            live_distinct = (fresh, v.live_distinct);
            free_distinct = distinct.1;
            apart = (distinct.0, apart);
          },
        )

-- Taking back a unit that is in use keeps the pool sound, and that unit is the next to be handed out:
-- the allocation after it gives the pool back as it was. The type fits into a unit.
pub deallocate-IsSound :
    (pool : ObjectPool) (live : List ℕ) (p size : ℕ) (memory : Option ℕ)
    → IsSound pool (p ∷ live)
    → size ≤ pool.struct_size
    → IsSound (deallocate pool p) live × (allocate (deallocate pool p) size memory ≡ (pool, unit p))
unfolding allocate deallocate
deallocate-IsSound pool live p size memory v le = (
  record {
    live_distinct = v.live_distinct.1;
    free_distinct = (v.apart.0, v.free_distinct);
    apart = Apart-cons live p pool.free_list v.live_distinct.0 v.apart.1;
  },
  ground arith,
)

-- `align_up` gives the first multiple of a power of two from an address on; the sum does not wrap.
align_up_lem :
    (addr k : ℕ)
    → k ≤ 63
    → addr + 2 ^ k < 2 ^ 64
    → (addr ≤ align_up addr (2 ^ k))
      × (align_up addr (2 ^ k) < addr + 2 ^ k)
      × (align_up addr (2 ^ k) % 2 ^ k ≡ 0)
unfolding align_up
align_up_lem addr k le h =
    let n : ℕ = 2 ^ k in
    let x : ℕ = addr + (n - 1) in
    let e : 64 - k + k ≡ 64 = omega arith in
    let whole : 2 ^ (64 - k + k) ≡ word_mod = ap (λ t. 2 ^ t) e in
    let pos = pow_pos k in
    let low : x < 2 ^ (64 - k + k) = rw whole (omega arith) in
    let mask : bit_and x (word_mod - n) ≡ x - x % n =
      rw whole at (bit_and-high_mask (64 - k) k x low) in
    let r = mod-lt x pos in
    let q = mod-add-div x n in
    let multiple : x - x % n ≡ n * (x / n) = omega arith in
    rw mask (omega arith, omega arith, rw multiple (mul-mod_right n (x / n)))

-- The units of a chain: `n` of them, the `i`-th at `i * struct_size` from the first.
chain_lem : (struct_size n ptr : ℕ) → length (chain struct_size n ptr) ≡ n
unfolding chain
chain_lem struct_size zero ptr = refl
chain_lem struct_size (suc n) ptr = ap suc (chain_lem struct_size n (ptr + struct_size))

NotIn-chain : (struct_size n ptr x : ℕ) → x < ptr → NotIn x (chain struct_size n ptr)
unfolding chain
NotIn-chain struct_size zero ptr x h = tt
NotIn-chain struct_size (suc n) ptr x h =
    (omega arith, NotIn-chain struct_size n (ptr + struct_size) x (omega arith))

Distinct-chain : (struct_size n ptr : ℕ) → 0 < struct_size → Distinct (chain struct_size n ptr)
unfolding chain
Distinct-chain struct_size zero ptr h = tt
Distinct-chain struct_size (suc n) ptr h = (
  NotIn-chain struct_size n (ptr + struct_size) ptr (omega arith),
  Distinct-chain struct_size n (ptr + struct_size) h,
)

-- The free units of a new pool are a chain.
init-chain :
    (struct_size alignment initial_size : ℕ) (capacity memory : Option ℕ) (pool : ObjectPool)
    → init struct_size alignment initial_size capacity memory ≡ some pool
    → (a : ℕ) × (pool.free_list ≡ chain struct_size initial_size a)
unfolding init
init-chain struct_size alignment zero capacity memory pool e = (0, ground arith)
init-chain struct_size alignment (suc n) capacity none pool e = absurd (ground arith)
init-chain struct_size alignment (suc n) capacity (some m) pool e =
    (align_up m alignment, ground arith)

-- A pool that `object_pool_init` makes has all its units free, `initial_size` different ones, and
-- no unit is in use. Units are not empty.
pub init-IsSound :
    (struct_size alignment initial_size : ℕ) (capacity memory : Option ℕ) (pool : ObjectPool)
    → 0 < struct_size
    → init struct_size alignment initial_size capacity memory ≡ some pool
    → IsSound pool [] × (length pool.free_list ≡ initial_size)
init-IsSound struct_size alignment initial_size capacity memory pool h e =
    let (a, free) = init-chain struct_size alignment initial_size capacity memory pool e in
    (
      record {
        live_distinct = tt;
        free_distinct = rw free (Distinct-chain struct_size initial_size a h);
        apart = tt;
      },
      rw free (chain_lem struct_size initial_size a),
    )
