-- ===== src/Trie.antt =====
-- The 4-ary hash tries of string_table.h, hash_trie.h and vm.c (`vm_object_upsert`): one walk that
-- the three share. A node is the pointer that the source allocates for it, a number, and its
-- `child[4]` is a function of the index. What a pointer's key is stands outside the tree.
pub mod Find
pub mod Index
use gsc.Base.{
  ℕ, ◌+◌, ◌*◌, ◌/◌, ◌%◌, ◌-◌, Bool, true, false, Option, none, some, List, [], ◌∷◌, ltb, ◌==◌,
  if◌then◌else◌, bit_xor,
}
use gsc.Base.Word.{word_mod}

pub data Trie : Type 0 where
  empty : Trie
  node : ℕ → (ℕ → Trie) → Trie

-- A `char` of the source is signed: `h ^= s[i]` extends its sign to 64 bits.
sign_extend : ℕ → ℕ
sign_extend c = if ltb c 128 then c else c + (word_mod - 256)

hash_from : ℕ → List ℕ → ℕ
unfolding sign_extend
hash_from h [] = h
hash_from h (c ∷ s) = hash_from (bit_xor h (sign_extend c) * 1111111111111111111 % word_mod) s

unfoldable pub hash : List ℕ → ℕ
unfolding hash_from
hash s = hash_from 256 s

-- `h >> (64 - 2)` and `h <<= 2`
abbrev pub slot : ℕ → ℕ
slot h = h / 4611686018427387904

abbrev pub next_hash : ℕ → ℕ
next_hash h = h * 4 % word_mod

-- The loop of the three functions: the pointer whose key passes the test, if the walk meets one.
unfoldable pub find : (ℕ → Bool) → ℕ → Trie → Option ℕ
find test h empty = none
find test h (node p child) =
    let rest = find test (next_hash h) (child (slot h)) in if test p then some p else rest

-- `*m = new_node` at the empty place where the walk ends; a key that is met changes nothing.
unfoldable pub insert : (ℕ → Bool) → ℕ → ℕ → Trie → Trie
insert test h q empty = node q (λ i. empty)
insert test h q (node p child) =
    let grown = insert test (next_hash h) q (child (slot h)) in
    if test p then node p child else node p (λ i. if i == slot h then grown else child i)
