-- ===== src/Trie/Index.antt =====
-- A trie over a list of keys: the key of pointer `p` is the `p`-th key that was inserted, compared
-- and hashed through `norm` (the identity, or `tolower` of each byte). Every key is found.
use gsc.Base.{
  ℕ, ◌<◌, ◌+◌, Bool, false, Option, none, some, List, [], ◌∷◌, ◌++◌, ◌≡◌, sym, ap, ◌∙◌, arith,
  if◌then◌else◌, Bool-cases, inl, inr, length, get_or, bytes_eq, bytes_eq_refl, eq_of_bytes_eq,
  length-append, get_or-append_left, get_or-append_self,
}
use native.Mathlib.Decide.{dec_lt}
use gsc.Trie.{Trie, empty, hash, find, insert}
use gsc.Trie.Find.{
  Below, Below-mono, insert-Below, find-insert_self, find-insert_ne, find_congr, find-passes,
}

module _ (norm : List ℕ → List ℕ) where
  -- Whether the key of pointer `p` is `k`.
  abbrev pub matches : List (List ℕ) → List ℕ → ℕ → Bool
  matches keys k p = bytes_eq (norm (get_or keys p [])) (norm k)

  abbrev pub lookup : List (List ℕ) → Trie → List ℕ → Option ℕ
  lookup keys t k = find (matches keys k) (hash (norm k)) t

  -- The tree after a new pointer for `k`.
  abbrev pub extend : List (List ℕ) → Trie → List ℕ → Trie
  extend keys t k = insert (matches keys k) (hash (norm k)) (length keys) t

  pub record IsIndex (keys : List (List ℕ)) (t : Trie) : Type 0 where
    pub below : Below (length keys) t
    pub finds : (p : ℕ) → p < length keys → lookup keys t (get_or keys p []) ≡ some p

  pub empty-IsIndex : IsIndex [] empty
  empty-IsIndex = record { below = tt; finds = λ p h. absurd (omega arith) }

  matches-append :
      (keys : List (List ℕ)) (k j : List ℕ) (p : ℕ)
      → p < length keys
      → matches (keys ++ (k ∷ [])) j p ≡ matches keys j p
  matches-append keys k j p h = rw (get_or-append_left keys (k ∷ []) p [] h)

  matches-new :
      (keys : List (List ℕ)) (k j : List ℕ)
      → matches (keys ++ (k ∷ [])) j (length keys) ≡ bytes_eq (norm k) (norm j)
  matches-new keys k j = rw (get_or-append_self keys k [])

  lookup-append :
      (keys : List (List ℕ)) (t : Trie) (k j : List ℕ)
      → Below (length keys) t
      → lookup (keys ++ (k ∷ [])) t j ≡ lookup keys t j
  lookup-append keys t k j b =
      find_congr _ _ (length keys) _ t b (λ p h. matches-append keys k j p h)

  -- Lookups of equal keys agree.
  pub lookup_congr :
      (keys : List (List ℕ)) (t : Trie) (k j : List ℕ)
      → norm k ≡ norm j
      → lookup keys t k ≡ lookup keys t j
  lookup_congr keys t k j e =
      ap (λ n. find (λ p. bytes_eq (norm (get_or keys p [])) n) (hash n) t) e

  lookup-extend_self :
      (keys : List (List ℕ)) (t : Trie) (k : List ℕ)
      → Below (length keys) t
      → lookup keys t k ≡ none
      → lookup (keys ++ (k ∷ [])) (extend keys t k) k ≡ some (length keys)
  lookup-extend_self keys t k b absent =
      find-insert_self (matches keys k) _ (hash (norm k)) (length keys) t absent
        (lookup-append keys t k k b ∙ absent) (matches-new keys k k ∙ bytes_eq_refl (norm k))

  -- After a new key each lookup is as before, but for keys that are equal to it.
  pub lookup-extend :
      (keys : List (List ℕ)) (t : Trie) (k j : List ℕ)
      → Below (length keys) t
      → lookup keys t k ≡ none
      → lookup (keys ++ (k ∷ [])) (extend keys t k) j
        ≡ (if bytes_eq (norm k) (norm j) then some (length keys) else lookup keys t j)
  lookup-extend keys t k j b absent = elim (Bool-cases (bytes_eq (norm k) (norm j))) [
    | inl e ↦ rw e (
        sym (lookup_congr _ _ k j (eq_of_bytes_eq (norm k) (norm j) e))
        ∙ lookup-extend_self keys t k b absent)
    | inr e ↦ rw e (
        find-insert_ne (matches keys k) _ (hash (norm k)) (hash (norm j)) (length keys) t
          (matches-new keys k j ∙ e)
        ∙ lookup-append keys t k j b)
  ]

  -- A pointer that a lookup returns carries a key equal to the one looked up.
  pub lookup-key :
      (keys : List (List ℕ)) (t : Trie) (k : List ℕ) (p : ℕ)
      → Below (length keys) t
      → lookup keys t k ≡ some p
      → (norm (get_or keys p []) ≡ norm k) × (p < length keys)
  lookup-key keys t k p b e =
      let (m, lt) = find-passes _ _ t p (length keys) b e in (eq_of_bytes_eq _ _ m, lt)

  none_ne_some : (p : ℕ) → none ≡ some p → ⊥
  none_ne_some p e = cc

  -- An old key is equal to no key that the lookup misses.
  old-ne-new :
      (keys : List (List ℕ)) (t : Trie) (k : List ℕ) (p : ℕ)
      → IsIndex keys t
      → lookup keys t k ≡ none
      → p < length keys
      → bytes_eq (norm k) (norm (get_or keys p [])) ≡ false
  old-ne-new keys t k p v absent h =
      elim (Bool-cases (bytes_eq (norm k) (norm (get_or keys p [])))) [
        | inl e ↦ absurd (
            none_ne_some p
              (sym absent ∙ lookup_congr keys t k _ (eq_of_bytes_eq _ _ e) ∙ v.finds p h))
        | inr e ↦ e
      ]

  extend-finds :
      (keys : List (List ℕ)) (t : Trie) (k : List ℕ) (p : ℕ)
      → IsIndex keys t
      → lookup keys t k ≡ none
      → p < length keys + 1
      → lookup (keys ++ (k ∷ [])) (extend keys t k) (get_or (keys ++ (k ∷ [])) p []) ≡ some p
  extend-finds keys t k p v absent h = elim (dec_lt p (length keys)) [
    | yes old ↦ rw (get_or-append_left keys (k ∷ []) p [] old) (
        lookup-extend keys t k _ v.below absent
        ∙ (rw (old-ne-new keys t k p v absent old) (v.finds p old)))
    | no new ↦
        let e : p ≡ length keys = omega arith in
        rw (e, get_or-append_self keys k []) (lookup-extend_self keys t k v.below absent)
  ]

  -- A new key keeps the index.
  pub extend-IsIndex :
      (keys : List (List ℕ)) (t : Trie) (k : List ℕ)
      → IsIndex keys t
      → lookup keys t k ≡ none
      → IsIndex (keys ++ (k ∷ [])) (extend keys t k)
  extend-IsIndex keys t k v absent =
      let n = length-append keys (k ∷ []) in
      record {
        below =
            insert-Below _ _ (length keys) _ t (omega (arith, n))
              (Below-mono (length keys) _ t (omega (arith, n)) v.below);
        finds = λ p h. extend-finds keys t k p v absent (omega (arith, n));
      }
