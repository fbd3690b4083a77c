-- ===== src/Tests/Memory.antt =====
-- arena.h, object_pool.h and stream_buffer.h on concrete inputs.
use gsc.Base.{
  ℕ, ◌+◌, ◌*◌, ◌^◌, ◌≤◌, true, false, List, [], ◌∷◌, ◌≡◌, refl, arith, leb, if◌then◌else◌, length,
  take,
}
use gsc.Base.Int.{pos}
use gsc.Arena.{Arena, allocated, jumped, null, padding, allocate_memory}
use gsc.Arena.Bounds
use gsc.Arena.Bounds.{
  IsBlock, allocate_memory-IsBlock, allocate_memory-exact, allocate_memory-disjoint, split-IsValid,
}
use gsc.Stream.{StreamBuffer, beg, read, write, seek}
use gsc.Stream.Laws
use gsc.Stream.Laws.{read_lem, read-write}

-- 35 bytes from address 1001 on.
abbrev arena : Arena
arena = record { beg = 1001; end = 1036; jmp_oom = true }

arena-IsValid : Bounds.IsValid arena
arena-IsValid = record { not_null = omega arith; ordered = omega arith; user = omega arith }

-- Two words of 4 bytes go to address 1004, behind the padding.
abbrev behind_words : Arena
behind_words = record { beg = 1012; end = 1036; jmp_oom = true }

words : allocate_memory arena 4 (2 ^ 2) 2 ≡ (behind_words, allocated 1004)
unfolding allocate_memory
words = refl

allocate_memory-IsBlock_example : IsBlock arena behind_words (2 ^ 2) (2 * 4) 1004
allocate_memory-IsBlock_example =
    allocate_memory-IsBlock arena 4 2 2 1004 arena-IsValid (omega arith) (omega arith) words

-- Five words of 8 bytes do not fit.
allocate_memory-exact_example : allocate_memory arena 8 (2 ^ 3) 5 ≡ (
    if leb (arena.beg + padding arena.beg (2 ^ 3) + 5 * 8) arena.end
    then (
      record arena { beg = arena.beg + padding arena.beg (2 ^ 3) + 5 * 8 },
      allocated (arena.beg + padding arena.beg (2 ^ 3)),
    )
    else (arena, (if arena.jmp_oom then jumped else null)))
allocate_memory-exact_example = allocate_memory-exact arena 8 3 5 arena-IsValid (omega arith)

abbrev behind_both : Arena
behind_both = record { beg = 1032; end = 1036; jmp_oom = true }

more_words : allocate_memory behind_words 8 (2 ^ 3) 2 ≡ (behind_both, allocated 1016)
unfolding allocate_memory
more_words = refl

allocate_memory-disjoint_example :
    (1004 + 2 * 4 ≤ 1016) × (1016 + 2 * 8 ≤ 1036) × Bounds.IsValid behind_both
allocate_memory-disjoint_example =
    allocate_memory-disjoint arena 4 2 2 8 3 2 1004 1016 arena-IsValid (omega arith) (omega arith)
      (omega arith) (omega arith) words more_words

-- "abcd", with the first byte read.
abbrev stream : StreamBuffer
stream = record { offset = 1; length = 4; buffer = 97 ∷ 98 ∷ 99 ∷ 100 ∷ []; grow = false }

stream-IsValid : Laws.IsValid stream
stream-IsValid = record { inside = omega arith; whole = omega arith; small = omega arith }

-- A read of two units of four bytes finds three bytes, and returns 2.
read_lem_example :
    ((read stream 4 2).bytes ≡ 98 ∷ 99 ∷ 100 ∷ [])
    × (length (read stream 4 2).bytes ≡ 3)
    × ((read stream 4 2).stream ≡ record stream { offset = 4 })
    × ((read stream 4 2).count ≡ 2)
    × Laws.IsValid (read stream 4 2).stream
read_lem_example = read_lem stream 4 2 stream-IsValid (omega arith)

abbrev realloc : List ℕ → ℕ → List ℕ
realloc buffer size = take size buffer

read-write_example :
    ((write realloc stream (120 ∷ 121 ∷ []) 1 2).0 ≡ 2)
    × Laws.IsValid (write realloc stream (120 ∷ 121 ∷ []) 1 2).1
    × ((read (seek (write realloc stream (120 ∷ 121 ∷ []) 1 2).1 (pos 1) beg) 1 2).bytes
        ≡ 120 ∷ 121 ∷ [])
read-write_example = read-write realloc stream (120 ∷ 121 ∷ []) stream-IsValid (omega arith)
