-- ===== src/HashTrie.antt =====
-- hash_trie.h: a map from C strings to values, with its nodes in the order of their insertion (the
-- `next` chain). A node is its position in that chain; `tolower` is the C library's.
pub mod Laws
pub mod Values
use gsc.Base.{
  ℕ, ◌+◌, Bool, true, false, Option, none, some, List, [], ◌∷◌, ◌++◌, map, length, get_or, set,
  if◌then◌else◌,
}
use gsc.Trie.{Trie, empty}
use gsc.Trie.Index.{lookup, extend}

pub record Node {ℓ} (V : Type ℓ) : Type ℓ where
  pub key : List ℕ
  pub value : Option V

pub record HashTrie {ℓ} (V : Type ℓ) : Type ℓ where
  pub head : Trie
  pub nodes : List (Node V)

-- What the two comparisons and the hash read of a key: `strcmp` its bytes, `stricmp` their lower case.
abbrev pub norm : (ℕ → ℕ) → Bool → List ℕ → List ℕ
norm tolower true s = s
norm tolower false s = map tolower s

module _ {ℓ} {V : Type ℓ} where
  abbrev pub key_of : Node V → List ℕ
  key_of n = n.key

  abbrev pub keys : HashTrie V → List (List ℕ)
  keys t = map key_of t.nodes

  -- The node that a walk for a key meets.
  abbrev pub walk : (ℕ → ℕ) → Bool → HashTrie V → List ℕ → Option ℕ
  walk tolower case t k = lookup (norm tolower case) (keys t) t.head k

  -- `hash_trie_upsert`: with an allocator a key that is missing gets a node, without a value.
  unfoldable pub upsert : (ℕ → ℕ) → HashTrie V → List ℕ → Bool → Bool → HashTrie V × Option ℕ
  upsert tolower t k allocator case = elim (walk tolower case t k) [
    | some p ↦ (t, some p)
    | none ↦
        if allocator
        then (
          record {
            head = extend (norm tolower case) (keys t) t.head k;
            nodes = t.nodes ++ (record { key = k; value = none } ∷ []);
          },
          some (length t.nodes),
        )
        else (t, none)
  ]

  -- `entry->value`, and the assignment to it that callers make.
  unfoldable pub value_at : HashTrie V → ℕ → Option V
  value_at t p = (get_or t.nodes p (record { key = []; value = none })).value

  unfoldable pub set_value : HashTrie V → ℕ → V → HashTrie V
  set_value t p v = record t {
    nodes =
        set t.nodes p
          (record (get_or t.nodes p (record { key = []; value = none })) { value = some v });
  }

unfoldable pub init {ℓ} : (V : Type ℓ) → HashTrie V
init V = record { head = empty; nodes = [] }
