-- ===== src/StringTable/Unique.antt =====
-- The table holds distinct strings: `string_table_intern` gives each string one index for good.
use mathlib.Core.List.{map-append}
use mathlib.Core.Path.{subst₂}
use gsc.Base.{
  ℕ, ◌+◌, ◌≤◌, ◌<◌, false, none, some, List, [], ◌∷◌, ◌++◌, map, ◌≡◌, ◌⊎◌, refl, sym, ap, ◌∙◌,
  arith, leb, Bool-cases, Option-cases, inl, inr, length, get_or, bytes_eq, c_string, IsCString,
  c_string-append, length-append, drop-length, get_or-append_self,
}
use gsc.Base.Int.{pos}
use gsc.Arena.{Arena, Allocation, allocated, jumped, null}
use gsc.Trie.{hash, find, insert}
use gsc.Trie.Find.{find_congr, insert_congr}
use gsc.Trie.Index.{IsIndex, matches, lookup, extend, extend-IsIndex, lookup-key}
use gsc.StringTable.Memory.{
  AllTerminated, IsTerminated-c_string, map-string_at, AllTerminated-append, AllTerminated-snoc,
  length-map, get_or-map,
}
use gsc.StringTable.{StringTable, interned, string_at, get, same_string, add_entry, intern}

-- The list of strings that a table stands for: index `i` is the `i`-th.
abbrev pub contents : StringTable → List (List ℕ)
contents t = map (string_at t.strings) t.entries

abbrev exactly : List ℕ → List ℕ
exactly s = s

pub record IsValid (t : StringTable) : Type 0 where
  pub indexed : IsIndex exactly (contents t) t.head
  pub counted : t.index ≡ length t.entries
  pub terminated : AllTerminated t.strings t.entries
  pub within : t.index ≤ t.max_entries

-- The walk of the source compares memory; it is the walk over the strings that the table holds.
same_string-matches :
    (t : StringTable) (s : List ℕ) (p : ℕ)
    → p < length (contents t)
    → same_string t s p ≡ matches exactly (contents t) s p
same_string-matches t s p h =
    let f = string_at t.strings in
    ap (λ k. bytes_eq k s) (sym (get_or-map f t.entries p (omega (arith, length-map f t.entries))))

find-lookup :
    (t : StringTable) (s : List ℕ)
    → IsValid t
    → find (same_string t s) (hash s) t.head ≡ lookup exactly (contents t) t.head s
find-lookup t s v =
    find_congr _ _ (length (contents t)) _ t.head v.indexed.below (same_string-matches t s)

-- The table with a copied string, and with its entry.
abbrev pub copied : StringTable → List ℕ → Arena → StringTable
copied t s begin = record t { begin = begin; strings = t.strings ++ (s ++ (0 ∷ [])) }

abbrev pub added : StringTable → List ℕ → Arena → StringTable
added t s begin = record (copied t s begin) {
  head = insert (same_string t s) (hash s) t.index t.head;
  entries = t.entries ++ (length t.strings ∷ []);
  index = t.index + 1;
}

module _ (t : StringTable) (s : List ℕ) (begin : Arena) (v : IsValid t) where
  copied-contents : contents (copied t s begin) ≡ contents t
  copied-contents = map-string_at t.strings (s ++ (0 ∷ [])) t.entries v.terminated

  copied-IsValid : IsValid (copied t s begin)
  copied-IsValid = record {
    indexed = rw copied-contents v.indexed;
    counted = v.counted;
    terminated = AllTerminated-append t.strings (s ++ (0 ∷ [])) t.entries v.terminated;
    within = v.within;
  }

  added-contents : IsCString s → contents (added t s begin) ≡ contents t ++ (s ∷ [])
  added-contents cs =
      map-append _ t.entries (length t.strings ∷ [])
      ∙ ap (λ l. l ++ (string_at (t.strings ++ (s ++ (0 ∷ []))) (length t.strings) ∷ []))
          copied-contents
      ∙ ap (λ k. contents t ++ (k ∷ []))
          (ap c_string (drop-length t.strings (s ++ (0 ∷ []))) ∙ c_string-append s [] cs)

  added-head :
      insert (same_string t s) (hash s) t.index t.head ≡ extend exactly (contents t) t.head s
  added-head =
      insert_congr _ _ (length (contents t)) (hash s) t.index t.head v.indexed.below
        (same_string-matches t s)
      ∙ ap (λ q. insert (matches exactly (contents t) s) (hash s) q t.head)
          (v.counted ∙ sym (length-map _ t.entries))

  added-IsValid :
      IsCString s
      → lookup exactly (contents t) t.head s ≡ none
      → t.index < t.max_entries
      → IsValid (added t s begin)
  added-IsValid cs absent room = record {
    indexed =
        rw (added-contents cs, added-head)
          (extend-IsIndex exactly (contents t) t.head s v.indexed absent);
    counted = omega (arith, v.counted, length-append t.entries (length t.strings ∷ []));
    terminated =
        AllTerminated-snoc _ t.entries (length t.strings)
          (AllTerminated-append t.strings (s ++ (0 ∷ [])) t.entries v.terminated)
          (omega (arith, length-append t.strings (s ++ (0 ∷ []))))
          (rw (drop-length t.strings (s ++ (0 ∷ []))) (IsTerminated-c_string s));
    within = omega arith;
  }

-- What a call that returns index `i` for `s` has done to the table.
pub record IsInterned (t : StringTable) (s : List ℕ) (t' : StringTable) (i : ℕ) : Type 0 where
  pub valid : IsValid t'
  pub inside : i < length (contents t')
  pub reads : get_or (contents t') i [] ≡ s
  pub keeps : (contents t' ≡ contents t) ⊎ (contents t' ≡ contents t ++ (s ∷ []))
  pub same_size : t'.max_entries ≡ t.max_entries

module _ (t : StringTable) (s : List ℕ) (v : IsValid t) (cs : IsCString s) where
  added-IsInterned :
      (begin : Arena)
      → lookup exactly (contents t) t.head s ≡ none
      → leb t.max_entries t.index ≡ false
      → IsInterned t s (added t s begin) t.index
  added-IsInterned begin absent room =
      let n : t.index ≡ length (contents t) = v.counted ∙ sym (length-map _ t.entries) in
      let c = added-contents t s begin v cs in
      record {
        valid = added-IsValid t s begin v cs absent (ground arith);
        inside = rw c (omega (arith, length-append (contents t) (s ∷ [])));
        reads = rw (c, n) (get_or-append_self (contents t) s []);
        keeps = inr c;
        same_size = refl;
      }

  add_entry-IsInterned :
      (r : Arena × Allocation) {t' : StringTable} {i : ℕ}
      → lookup exactly (contents t) t.head s ≡ none
      → add_entry t s r ≡ (t', interned i)
      → IsInterned t s t' i
  unfolding add_entry
  add_entry-IsInterned (begin, jumped) absent e = cc
  add_entry-IsInterned (begin, null) absent e = cc
  add_entry-IsInterned (begin, allocated p) {t'} {i} absent e =
      elim (Bool-cases (leb t.max_entries t.index)) [
        | inl full ↦ ground arith
        | inr room ↦
            let q = rw room at e in
            let same : t.index ≡ i = cc (ap (λ r. r.1) q) in
            subst₂ (IsInterned t s) (ap (λ r. r.0) q) same (added-IsInterned begin absent room)
      ]

  found-IsInterned : (p : ℕ) → lookup exactly (contents t) t.head s ≡ some p → IsInterned t s t p
  found-IsInterned p e =
      let (key, lt) = lookup-key exactly (contents t) t.head s p v.indexed.below e in
      record { valid = v; inside = lt; reads = key; keeps = inl refl; same_size = refl }

  -- A call of `string_table_intern` that returns an index leaves a valid table whose string at that
  -- index is the given one; the strings that the table held keep their indices, and at most the
  -- given string is new, at the end. `s` is a C string and the table is valid.
  pub intern-IsInterned :
      (t' : StringTable) (i : ℕ) → intern t s ≡ (t', interned i) → IsInterned t s t' i
  unfolding intern
  intern-IsInterned t' i e = elim (Option-cases (find (same_string t s) (hash s) t.head)) [
    | inl absent ↦
        add_entry-IsInterned _ (sym (find-lookup t s v) ∙ absent) (rw (absent, intern) at e)
    | inr (p, found) ↦
        let q = rw (found, intern) at e in
        let same : p ≡ i = cc (ap (λ r. r.1) q) in
        let known = sym (find-lookup t s v) ∙ found in
        subst₂ (IsInterned t s) (ap (λ r. r.0) q) same (found-IsInterned p known)
  ]

module _ (t : StringTable) (v : IsValid t) where
  pub index-length : t.index ≡ length (contents t)
  index-length = v.counted ∙ sym (length-map _ t.entries)

  -- `string_table_get` reads the contents.
  pub get-contents :
      (i : ℕ) → i < length (contents t) → get t (pos i) ≡ some (get_or (contents t) i [])
  unfolding get
  get-contents i lt =
      let n = length-map (string_at t.strings) t.entries in
      let inside : leb t.max_entries i ≡ false = ground (arith, v.counted, n, v.within) in
      rw inside (ap some (sym (get_or-map _ t.entries i (omega (arith, n)))))

  -- The walk finds each string of the contents.
  pub find-contents :
      (i : ℕ) (s : List ℕ)
      → i < length (contents t)
      → get_or (contents t) i [] ≡ s
      → find (same_string t s) (hash s) t.head ≡ some i
  find-contents i s lt e =
      find-lookup t s v ∙ ap (lookup exactly (contents t) t.head) (sym e) ∙ v.indexed.finds i lt
