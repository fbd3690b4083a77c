-- ===== src/HashTrie/Values.antt =====
-- hash_trie.h: where the values of a map come from. A new node has none, and an assignment writes one.
use mathlib.Core.Path.{subst}
use gsc.Base.{
  ℕ, zero, suc, Bool, true, false, none, some, List, [], ◌∷◌, ◌++◌, ◌≡◌, ◌⊎◌, refl, Option-cases,
  inl, inr, get_or, set,
}
use gsc.HashTrie.{Node, HashTrie, walk, upsert, value_at, set_value}

module _ {ℓ} {V : Type ℓ} where
  abbrev blank : Node V
  blank = record { key = []; value = none }

  append-value :
      (nodes : List (Node V)) (k : List ℕ) (q : ℕ) (v : V)
      → (get_or (nodes ++ (record { key = k; value = none } ∷ [])) q blank).value ≡ some v
      → (get_or nodes q blank).value ≡ some v
  append-value [] k zero v e = e
  append-value [] k (suc q) v e = e
  append-value (n ∷ nodes) k zero v e = e
  append-value (n ∷ nodes) k (suc q) v e = append-value nodes k q v e

  set-value :
      (nodes : List (Node V)) (p q : ℕ) (node : Node V) (v : V)
      → (get_or (set nodes p node) q blank).value ≡ some v
      → (node.value ≡ some v) ⊎ ((get_or nodes q blank).value ≡ some v)
  set-value [] p q node v e = inr e
  set-value (n ∷ nodes) zero zero node v e = inl e
  set-value (n ∷ nodes) zero (suc q) node v e = inr e
  set-value (n ∷ nodes) (suc p) zero node v e = inr e
  set-value (n ∷ nodes) (suc p) (suc q) node v e = set-value nodes p q node v e

  upsert-nodes :
      (tolower : ℕ → ℕ) (t : HashTrie V) (k : List ℕ) (allocator case : Bool)
      → let t' = (upsert tolower t k allocator case).0 in
        (t'.nodes ≡ t.nodes) ⊎ (t'.nodes ≡ t.nodes ++ (record { key = k; value = none } ∷ []))
  unfolding upsert
  upsert-nodes tolower t k true case = elim (Option-cases (walk tolower case t k)) [
    | inl absent ↦ inr (rw (absent, upsert) refl)
    | inr (p, found) ↦ inl (rw (found, upsert) refl)
  ]
  upsert-nodes tolower t k false case = elim (Option-cases (walk tolower case t k)) [
    | inl absent ↦ inl (rw (absent, upsert) refl)
    | inr (p, found) ↦ inl (rw (found, upsert) refl)
  ]

  -- `hash_trie_upsert` adds no value.
  pub upsert-value :
      (tolower : ℕ → ℕ) (t : HashTrie V) (k : List ℕ) (allocator case : Bool) (q : ℕ) (v : V)
      → value_at (upsert tolower t k allocator case).0 q ≡ some v
      → value_at t q ≡ some v
  unfolding value_at
  upsert-value tolower t k allocator case q v e = elim (upsert-nodes tolower t k allocator case) [
    | inl same ↦ subst (λ nodes. (get_or nodes q blank).value ≡ some v) same e
    | inr new ↦
        append-value t.nodes k q v (subst (λ nodes. (get_or nodes q blank).value ≡ some v) new e)
  ]

  -- An assignment to `entry->value` adds that value only.
  pub set_value-value :
      (t : HashTrie V) (p q : ℕ) (w v : V)
      → value_at (set_value t p w) q ≡ some v
      → (some w ≡ some v) ⊎ (value_at t q ≡ some v)
  unfolding set_value value_at
  set_value-value t p q w v e = set-value t.nodes p q _ v e
