-- ===== src/StringTable.antt =====
-- string_table.h: the table of interned strings. `strings` is the memory from `table->strings` on,
-- as far as it is allocated; an entry is its index into `entries`, which keeps the offset of its
-- bytes; the `child` pointers of the entries are the trie.
pub mod Memory
pub mod Unique
pub mod Lookup
use gsc.Base.{
  ℕ, ◌+◌, ◌-◌, ◌*◌, ◌/◌, Bool, true, false, Option, none, some, List, [], ◌∷◌, ◌++◌, ltb, leb,
  if◌then◌else◌, length, get_or, drop, bytes_eq, c_string,
}
use gsc.Base.Int.{ℤ, pos, negsuc}
use gsc.Arena.{Arena, Allocation, allocated, jumped, null, allocate_memory}
use gsc.Arena
use gsc.Trie.{Trie, empty, hash, find, insert}

pub record StringTable : Type 0 where
  pub head : Trie
  pub begin : Arena
  pub end : Arena
  pub strings : List ℕ
  pub entries : List ℕ
  pub index : ℕ
  pub max_entries : ℕ

-- An index, or how the call ends without one: `longjmp`, or a write through a null pointer.
pub data Interned : Type 0 where
  interned : ℕ → Interned
  jumped_oom : Interned
  crashed : Interned

-- `sizeof(StringTableEntry)`: four pointers and an `int`, padded to 8 bytes.
abbrev pub entry_size : ℕ
entry_size = 40

-- The table over the two halves of an arena, once the entries are placed in the second; `none`
-- where they are not.
unfoldable pub place_entries : Arena → ℕ → Arena × Allocation → Option StringTable
place_entries begin max (end, jumped) = none
place_entries begin max (end, null) = none
place_entries begin max (end, allocated p) = some (record {
  head = empty;
  begin = begin;
  end = end;
  strings = [];
  entries = [];
  index = 0;
  max_entries = max;
})

-- `none` also where the table is so small that `max_entries` wraps.
unfoldable pub init : Arena → Option StringTable
unfolding place_entries
init arena =
    let h = (arena.end - arena.beg) / 2 in
    let begin = record (Arena.init arena.beg h) { jmp_oom = arena.jmp_oom } in
    let end = record (Arena.init (arena.beg + h) h) { jmp_oom = arena.jmp_oom } in
    let max = h / entry_size - entry_size in
    if ltb (h / entry_size) entry_size
    then none
    else place_entries begin max (allocate_memory end entry_size 8 max)

-- The C string at an offset of the table's memory.
abbrev pub string_at : List ℕ → ℕ → List ℕ
string_at memory offset = c_string (drop offset memory)

-- An entry that is not in use is zero, so it reads the string at offset 0.
pub get : StringTable → ℤ → Option (List ℕ)
get t (negsuc i) = none
get t (pos i) =
    if leb t.max_entries i then none else some (string_at t.strings (get_or t.entries i 0))

-- `!strcmp(table->strings + (*m)->offset, string)`
abbrev pub same_string : StringTable → List ℕ → ℕ → Bool
same_string t s p = bytes_eq (string_at t.strings (get_or t.entries p 0)) s

-- The string is copied, then the entry is taken and linked in.
pub add_entry : StringTable → List ℕ → Arena × Allocation → StringTable × Interned
add_entry t s (begin, jumped) = (record t { begin = begin }, jumped_oom)
add_entry t s (begin, null) = (record t { begin = begin }, crashed)
add_entry t s (begin, allocated p) =
    let copied = record t { begin = begin; strings = t.strings ++ (s ++ (0 ∷ [])) } in
    if leb t.max_entries t.index
    then (if t.end.jmp_oom then (copied, jumped_oom) else (copied, crashed))
    else (
      record copied {
        head = insert (same_string t s) (hash s) t.index t.head;
        entries = t.entries ++ (length t.strings ∷ []);
        index = t.index + 1;
      },
      interned t.index,
    )

unfoldable pub intern : StringTable → List ℕ → StringTable × Interned
unfolding add_entry
intern t s = elim (find (same_string t s) (hash s) t.head) [
  | some p ↦ (t, interned p)
  | none ↦ add_entry t s (allocate_memory t.begin 1 1 (length s + 1))
]
