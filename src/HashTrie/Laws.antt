-- ===== src/HashTrie/Laws.antt =====
-- `hash_trie_upsert` is a map: it adds a missing key once, behind the others, and finds it again.
use mathlib.Core.List.{map-append}
use gsc.Base.{
  ℕ, zero, suc, ◌<◌, Bool, true, false, none, some, List, [], ◌∷◌, ◌++◌, map, ◌≡◌, ◌≢◌, ◌⊎◌, refl,
  sym, ap, ◌∙◌, arith, if◌then◌else◌, Bool-cases, Option-cases, inl, inr, length, get_or, set,
  bytes_eq, get_or-set_self, get_or-set_ne, eq_of_bytes_eq, ◌==◌, ==_iff,
}
use gsc.Trie.Index.{IsIndex, extend, empty-IsIndex, extend-IsIndex, lookup-extend, lookup_congr}
use gsc.HashTrie.{Node, HashTrie, norm, key_of, keys, walk, upsert, value_at, set_value, init}

length-map {ℓ κ} :
    {A : Type ℓ} {B : Type κ} (f : A → B) (xs : List A) → length (map f xs) ≡ length xs
length-map f [] = refl
length-map f (x ∷ xs) = ap suc (length-map f xs)

-- Every key of the chain is found at its node, for one way to compare keys.
abbrev pub IsValid {ℓ} : {V : Type ℓ} → (ℕ → ℕ) → Bool → HashTrie V → Type 0
IsValid tolower case t = IsIndex (norm tolower case) (keys t) t.head

pub init-IsValid {ℓ} : (V : Type ℓ) (tolower : ℕ → ℕ) (case : Bool) → IsValid tolower case (init V)
unfolding init
init-IsValid V tolower case = empty-IsIndex (norm tolower case)

-- Whether the comparison takes two keys for one.
abbrev pub same_key : (ℕ → ℕ) → Bool → List ℕ → List ℕ → Bool
same_key tolower case k j = bytes_eq (norm tolower case k) (norm tolower case j)

-- The chain keeps its keys; a key that was missing may stand behind them.
abbrev pub Keeps {ℓ} : {V : Type ℓ} → (ℕ → ℕ) → Bool → HashTrie V → List ℕ → HashTrie V → Type 0
Keeps tolower case t k t' =
    (keys t' ≡ keys t) ⊎ ((keys t' ≡ keys t ++ (k ∷ [])) × (walk tolower case t k ≡ none))

module _ {ℓ} {V : Type ℓ} (tolower : ℕ → ℕ) (case : Bool) where
  abbrev grown : HashTrie V → List ℕ → HashTrie V
  grown t k = record {
    head = extend (norm tolower case) (keys t) t.head k;
    nodes = t.nodes ++ (record { key = k; value = none } ∷ []);
  }

  grown-keys : (t : HashTrie V) (k : List ℕ) → keys (grown t k) ≡ keys t ++ (k ∷ [])
  grown-keys t k = map-append key_of t.nodes _

  -- With an allocator `hash_trie_upsert` returns a node. Afterwards a walk for any key `j` meets that node if
  -- `j` equals the key, up to case where the comparison ignores it, and otherwise what it met
  -- before. The trie is valid before.
  pub walk-upsert :
      (t : HashTrie V) (k j : List ℕ)
      → IsValid tolower case t
      → let (t', r) = upsert tolower t k true case in
        (r ≢ none)
        × (walk tolower case t' j
            ≡ (if same_key tolower case k j then r else walk tolower case t j))
  unfolding upsert
  walk-upsert t k j v = elim (Option-cases (walk tolower case t k)) [
    | inl absent ↦
        rw (absent, upsert)
          (
            cc,
            rw (grown-keys t k) (
                lookup-extend (norm tolower case) (keys t) t.head k j v.below absent
                ∙ ap (λ n. if same_key tolower case k j then some n else walk tolower case t j)
                    (length-map key_of t.nodes)),
          )
    | inr (p, found) ↦
        rw (found, upsert)
          (
            cc,
            elim (Bool-cases (same_key tolower case k j)) [
              | inl e ↦ rw e (
                  sym (lookup_congr (norm tolower case) (keys t) t.head k j (eq_of_bytes_eq _ _ e))
                  ∙ found)
              | inr e ↦ rw e
            ],
          )
  ]

  -- Without an allocator the call changes nothing and only looks.
  upsert-lookup :
      (t : HashTrie V) (k : List ℕ) → upsert tolower t k false case ≡ (t, walk tolower case t k)
  unfolding upsert
  upsert-lookup t k = ground arith

  grown-IsValid :
      (t : HashTrie V) (k : List ℕ)
      → IsValid tolower case t
      → walk tolower case t k ≡ none
      → IsValid tolower case (grown t k)
  grown-IsValid t k v absent =
      rw (grown-keys t k) (extend-IsIndex (norm tolower case) (keys t) t.head k v absent)

  -- `hash_trie_upsert`, with an allocator and without, keeps a valid trie valid, and the chain with
  -- it: the keys stay in their order, and at most the given key is new, behind them, where no walk
  -- met it before.
  pub upsert-IsValid :
      (t : HashTrie V) (k : List ℕ) (allocator : Bool)
      → IsValid tolower case t
      → let (t', r) = upsert tolower t k allocator case in
        IsValid tolower case t' × Keeps tolower case t k t'
  unfolding upsert
  upsert-IsValid t k true v = elim (Option-cases (walk tolower case t k)) [
    | inl absent ↦ rw (absent, upsert) (grown-IsValid t k v absent, inr (grown-keys t k, refl))
    | inr (p, found) ↦ rw (found, upsert) (v, inl refl)
  ]
  upsert-IsValid t k false v = elim (Option-cases (walk tolower case t k)) [
    | inl absent ↦ rw (absent, upsert) (v, inl refl)
    | inr (p, found) ↦ rw (found, upsert) (v, inl refl)
  ]

  keys-set :
      (nodes : List (Node V)) (n d : Node V) (p : ℕ)
      → n.key ≡ (get_or nodes p d).key
      → map key_of (set nodes p n) ≡ map key_of nodes
  keys-set [] n d p e = refl
  keys-set (m ∷ nodes) n d zero e = ap (λ k. k ∷ map key_of nodes) e
  keys-set (m ∷ nodes) n d (suc p) e = ap (λ l. m.key ∷ l) (keys-set nodes n d p e)

  -- An assignment to `entry->value` is read back at that node, and changes neither the other nodes
  -- nor the keys. The node is one of the chain.
  pub set_value_lem :
      (t : HashTrie V) (p q : ℕ) (v : V)
      → p < length t.nodes
      → (value_at (set_value t p v) q ≡ (if p == q then some v else value_at t q))
        × (keys (set_value t p v) ≡ keys t)
  unfolding value_at set_value
  set_value_lem t p q v h = (
    elim (Bool-cases (p == q)) [
      | inl e ↦
          let same : p ≡ q = (==_iff p q).0 e in
          rw (e, ← same)
            (ap (λ (n : Node V). n.value)
              (get_or-set_self t.nodes p _ (record { key = []; value = none }) h))
      | inr e ↦
          let other : p ≢ q = λ s. ground arith in
          rw e (
            ap (λ (n : Node V). n.value)
              (get_or-set_ne t.nodes p q _ (record { key = []; value = none }) other))
    ],
    keys-set t.nodes _ (record { key = []; value = none }) p refl,
  )
