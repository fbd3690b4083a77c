-- ===== src/ObjectPool.antt =====
-- object_pool.h: a pool of equal units, its free units linked through their first word. The list
-- `free_list` is that chain, first unit first.
pub mod Live
use gsc.Base.{
  ℕ, suc, zero, ◌+◌, ◌-◌, ◌*◌, Bool, true, false, ◌||◌, Option, none, some, List, [], ◌∷◌, ltb,
  ◌==◌, if◌then◌else◌, bit_and,
}
use gsc.Base.Word.{word_mod}

pub record ObjectPool : Type 0 where
  pub struct_size : ℕ
  pub size : ℕ
  pub capacity : ℕ
  pub free_list : List ℕ
  pub initial_memory : Option ℕ

-- A unit, NULL, or `abort()` for a type that no unit holds.
pub data Taken : Type 0 where
  unit : ℕ → Taken
  null : Taken
  aborted : Taken

-- `align_up`: the mask is `~(align - 1)` on 64 bits.
pub align_up : ℕ → ℕ → ℕ
align_up addr align = bit_and (addr + (align - 1)) (word_mod - align)

-- `n` units from `ptr` on, each linked to the next.
pub chain : ℕ → ℕ → ℕ → List ℕ
chain struct_size zero ptr = []
chain struct_size (suc n) ptr = ptr ∷ chain struct_size n (ptr + struct_size)

-- `capacity` is `none` for -1; `memory` is what the allocator returns for the request.
unfoldable pub init : ℕ → ℕ → ℕ → Option ℕ → Option ℕ → Option ObjectPool
unfolding align_up chain
init struct_size alignment initial_size capacity memory =
    let cap : ℕ = elim capacity [ none ↦ initial_size | some c ↦ c ] in
    let empty : ObjectPool = record {
      struct_size = struct_size;
      size = initial_size;
      capacity = cap;
      free_list = [];
      initial_memory = none;
    } in
    if initial_size == 0 then some empty else elim memory [
      | none ↦ none
      | some m ↦ some (record {
        struct_size = struct_size;
        size = initial_size;
        capacity = cap;
        free_list = chain struct_size initial_size (align_up m alignment);
        initial_memory = some m;
      })
    ]

-- `memory` is what the allocator returns, where the call asks it for a unit.
unfoldable pub allocate : ObjectPool → ℕ → Option ℕ → ObjectPool × Taken
allocate pool size memory =
    if ltb pool.struct_size size then (pool, aborted) else elim pool.free_list [
      | [] ↦
          if pool.capacity == 0 || ltb pool.size pool.capacity
          then (record pool { size = pool.size + 1 }, elim memory [ none ↦ null | some m ↦ unit m ])
          else (pool, null)
      | p ∷ rest ↦ (record pool { free_list = rest }, unit p)
    ]

pub deallocate : ObjectPool → ℕ → ObjectPool
deallocate pool ptr = record pool { free_list = ptr ∷ pool.free_list }
