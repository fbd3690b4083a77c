-- ===== src/Arena.antt =====
-- arena.h: the bump allocator. An address is a number below 2 ^ 63, `jmp_oom` is kept only as
-- whether it is set, and the memory itself belongs to the component that allocates it.
pub mod Bounds
use gsc.Base.{ℕ, ◌+◌, ◌-◌, ◌*◌, ◌/◌, ◌%◌, Bool, true, false, ◌||◌, ltb, if◌then◌else◌, bit_and}
use gsc.Base.Word.{word_mod}

pub record Arena : Type 0 where
  pub beg : ℕ
  pub end : ℕ
  pub jmp_oom : Bool

-- A pointer, `longjmp(*a->jmp_oom, 1)`, or NULL where no jump buffer is set.
pub data Allocation : Type 0 where
  allocated : ℕ → Allocation
  jumped : Allocation
  null : Allocation

-- `-(uintptr_t)a->beg & (align - 1)`
pub padding : ℕ → ℕ → ℕ
padding beg align = bit_and ((word_mod - beg) % word_mod) (align - 1)

-- `available < 0 || count > available / size`
is_full : Arena → ℕ → ℕ → ℕ → Bool
unfolding padding
is_full a size align count =
    let start = a.beg + padding a.beg align in ltb a.end start || ltb ((a.end - start) / size) count

unfoldable pub allocate_memory : Arena → ℕ → ℕ → ℕ → Arena × Allocation
unfolding is_full
allocate_memory a size align count =
    let start = a.beg + padding a.beg align in
    if is_full a size align count
    then (if a.jmp_oom then (a, jumped) else (a, null))
    else (record a { beg = start + count * size }, allocated start)

unfoldable pub init : ℕ → ℕ → Arena
init buffer size = record { beg = buffer; end = buffer + size; jmp_oom = false }

-- The part that is split off, and what is left of the base.
pub split : Arena → ℕ → Arena × Arena
unfolding init
split base size =
    (record (init base.beg size) { jmp_oom = base.jmp_oom }, record base { beg = base.beg + size })

-- `arena_malloc_`: bytes, so nothing is aligned.
malloc : Arena → ℕ → Arena × Allocation
unfolding allocate_memory
malloc a size = allocate_memory a 1 1 size
