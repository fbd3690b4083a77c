-- ===== src/Tests/Tables.antt =====
-- string_table.h, hash_trie.h and object_pool.h on concrete inputs.
use gsc.Base.{
  ℕ, ◌<◌, true, false, none, some, List, [], ◌∷◌, ◌≡◌, ◌≢◌, refl, arith, ◌==◌, if◌then◌else◌,
  length, codes, IsCString,
}
use gsc.Base.Int.{pos}
use gsc.Arena.{Arena, allocate_memory}
use gsc.Arena
use gsc.Arena.Bounds
use gsc.Trie.{empty, find, insert}
use gsc.StringTable.{StringTable, interned, init, place_entries, get, intern}
use gsc.StringTable.Unique
use gsc.StringTable.Unique.{IsInterned, contents, intern-IsInterned}
use gsc.StringTable.Lookup.{init-IsFresh, get-intern, intern-intern, get-intern_old, intern_returns}
use gsc.HashTrie.{HashTrie, Node, keys, walk, upsert, value_at, set_value}
use gsc.HashTrie
use gsc.HashTrie.Laws
use gsc.HashTrie.Laws.{Keeps, same_key, init-IsValid, walk-upsert, upsert-IsValid, set_value_lem}
use gsc.ObjectPool.{ObjectPool, Taken, unit, align_up, allocate, deallocate}
use gsc.ObjectPool
use gsc.ObjectPool.Live.{IsSound, NotIn, allocate-IsSound, deallocate-IsSound, init-IsSound}

-- 8000 bytes: half for the strings, half for 60 entries.
abbrev arena : Arena
arena = record { beg = 4096; end = 12096; jmp_oom = true }

abbrev fresh : StringTable
fresh = record {
  head = empty;
  begin = record { beg = 4096; end = 8096; jmp_oom = true };
  end = record { beg = 10496; end = 12096; jmp_oom = true };
  strings = [];
  entries = [];
  index = 0;
  max_entries = 60;
}

start : init arena ≡ some fresh
unfolding init place_entries allocate_memory Arena.init
start = refl

fresh-IsValid : Unique.IsValid fresh
fresh-IsValid = (init-IsFresh arena fresh start).0

abbrev self : List ℕ
self = codes "self"

abbrev level : List ℕ
level = codes "level"

abbrev with_self : StringTable
with_self = (intern fresh self).0

abbrev with_level : StringTable
with_level = (intern with_self level).0

intern-self : intern fresh self ≡ (with_self, interned 0)
unfolding intern allocate_memory find
intern-self = refl

self-IsCString : IsCString self
self-IsCString = ground arith

level-IsCString : IsCString level
level-IsCString = ground arith

intern-IsInterned_example : IsInterned fresh self with_self 0
intern-IsInterned_example =
    intern-IsInterned fresh self fresh-IsValid self-IsCString with_self 0 intern-self

with_self-IsValid : Unique.IsValid with_self
with_self-IsValid =
    (intern-IsInterned fresh self fresh-IsValid self-IsCString with_self 0 intern-self).valid

get-intern_example : get with_self (pos 0) ≡ some self
get-intern_example = get-intern fresh self fresh-IsValid self-IsCString with_self 0 intern-self

intern-intern_example : intern with_self self ≡ (with_self, interned 0)
intern-intern_example =
    intern-intern fresh self fresh-IsValid self-IsCString with_self 0 intern-self

intern-level : intern with_self level ≡ (with_level, interned 1)
unfolding intern allocate_memory find insert
intern-level = refl

one-indexed : 0 < with_self.index
unfolding intern allocate_memory find
one-indexed = omega arith

get-intern_old_example : get with_level (pos 0) ≡ get with_self (pos 0)
get-intern_old_example =
    get-intern_old with_self level with_self-IsValid level-IsCString with_level 1 0 intern-level
      one-indexed

begin-IsValid : Bounds.IsValid fresh.begin
begin-IsValid = record { not_null = omega arith; ordered = omega arith; user = omega arith }

intern_returns_example : (t : StringTable) × (i : ℕ) × (intern fresh level ≡ (t, interned i))
intern_returns_example = intern_returns fresh level begin-IsValid (omega arith) (omega arith)

-- Keys of one letter, where 1 is the upper case of 2.
abbrev lower : ℕ → ℕ
lower c = if c == 1 then 2 else c

abbrev trie : HashTrie ℕ
trie = (upsert lower (HashTrie.init ℕ) (1 ∷ []) true false).0

trie-IsValid : Laws.IsValid lower false trie
trie-IsValid =
    (upsert-IsValid lower false (HashTrie.init ℕ) (1 ∷ []) true (init-IsValid ℕ lower false)).0

walk-upsert_example :
    ((upsert lower trie (3 ∷ []) true false).1 ≢ none)
    × (walk lower false (upsert lower trie (3 ∷ []) true false).0 (2 ∷ []) ≡ (
        if same_key lower false (3 ∷ []) (2 ∷ [])
        then (upsert lower trie (3 ∷ []) true false).1
        else walk lower false trie (2 ∷ [])))
walk-upsert_example = walk-upsert lower false trie (3 ∷ []) (2 ∷ []) trie-IsValid

upsert-IsValid_example :
    Laws.IsValid lower false (upsert lower trie (2 ∷ []) true false).0
    × Keeps lower false trie (2 ∷ []) (upsert lower trie (2 ∷ []) true false).0
upsert-IsValid_example = upsert-IsValid lower false trie (2 ∷ []) true trie-IsValid

one-node : 0 < length trie.nodes
unfolding upsert HashTrie.init find
one-node = omega arith

-- Three units of 24 bytes in memory from address 100 on.
abbrev pool : ObjectPool
pool = record {
  struct_size = 24;
  size = 3;
  capacity = 3;
  free_list = 104 ∷ 128 ∷ 152 ∷ [];
  initial_memory = some 100;
}

new-pool : ObjectPool.init 24 8 3 none (some 100) ≡ some pool
unfolding ObjectPool.init
new-pool = refl

pool-IsSound : IsSound pool []
pool-IsSound = (init-IsSound 24 8 3 none (some 100) pool (omega arith) new-pool).0

abbrev taken : ObjectPool
taken = record pool { free_list = 128 ∷ 152 ∷ [] }

take-unit : allocate pool 20 none ≡ (taken, unit 104)
unfolding allocate
take-unit = refl

allocate-IsSound_example :
    (pool.free_list ≡ 104 ∷ taken.free_list) × NotIn 104 [] × IsSound taken (104 ∷ [])
allocate-IsSound_example =
    allocate-IsSound pool [] 20 104 none pool-IsSound (λ e. omega arith) (omega arith) take-unit

taken-IsSound : IsSound taken (104 ∷ [])
taken-IsSound =
    (allocate-IsSound pool [] 20 104 none pool-IsSound (λ e. omega arith) (omega arith) take-unit).2

deallocate-IsSound_example :
    IsSound (deallocate taken 104) []
    × (allocate (deallocate taken 104) 20 none ≡ (taken, unit 104))
deallocate-IsSound_example = deallocate-IsSound taken [] 104 20 none taken-IsSound (omega arith)
