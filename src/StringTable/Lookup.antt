-- ===== src/StringTable/Lookup.antt =====
-- What a client of the table relies on: an index reads back its string, now and later.
use mathlib.Core.Path.{subst}
use mathlib.Core.Option.{some-injective}
use gsc.Base.{
  ℕ, ◌+◌, ◌-◌, ◌*◌, ◌≤◌, ◌<◌, false, some, List, [], ◌∷◌, ◌++◌, ◌≡◌, ◌⊎◌, refl, sym, ap, ◌∙◌, arith,
  leb, Option-cases, inl, inr, length, get_or, IsCString, length-append, get_or-append_left,
}
use gsc.Base.Int.{pos}
use gsc.Arena.{Arena, Allocation, allocated, jumped, null, allocate_memory, padding}
use gsc.Arena.Bounds
use gsc.Arena.Bounds.{padding-lt, allocate_memory-fits}
use gsc.Trie.{hash, find}
use gsc.Trie.Index.{empty-IsIndex}
use gsc.StringTable.{
  StringTable, interned, get, same_string, add_entry, intern, init, place_entries, entry_size,
}
use gsc.StringTable.Unique.{
  IsValid, contents, added, intern-IsInterned, get-contents, find-contents, index-length,
}

abbrev IsFresh : StringTable → Type 0
IsFresh t = IsValid t × (contents t ≡ []) × (t.index ≡ 0)

place_entries-IsFresh :
    (begin : Arena) (max : ℕ) (r : Arena × Allocation) (t : StringTable)
    → place_entries begin max r ≡ some t
    → IsFresh t
unfolding place_entries
place_entries-IsFresh begin max (end, jumped) t e = cc
place_entries-IsFresh begin max (end, null) t e = cc
place_entries-IsFresh begin max (end, allocated p) t e = subst IsFresh (some-injective _ _ e) (
  record {
    indexed = empty-IsIndex (λ s. s);
    counted = refl;
    terminated = tt;
    within = omega arith;
  },
  refl,
  refl,
)

-- A table that `string_table_init` makes holds no string and is valid.
pub init-IsFresh :
    (a : Arena) (t : StringTable) → init a ≡ some t → IsValid t × (contents t ≡ []) × (t.index ≡ 0)
unfolding init
init-IsFresh a t e = ground (arith, place_entries-IsFresh _ _ (allocate_memory _ entry_size 8 _) t)

-- A list that is kept, or grows at the end, keeps what it has.
kept-length :
    (xs ys : List (List ℕ)) (s : List ℕ) (j : ℕ)
    → (ys ≡ xs) ⊎ (ys ≡ xs ++ (s ∷ []))
    → j < length xs
    → j < length ys
kept-length xs ys s j (inl e) h = rw e h
kept-length xs ys s j (inr e) h = rw e (omega (arith, length-append xs (s ∷ [])))

kept-get :
    (xs ys : List (List ℕ)) (s : List ℕ) (j : ℕ)
    → (ys ≡ xs) ⊎ (ys ≡ xs ++ (s ∷ []))
    → j < length xs
    → get_or ys j [] ≡ get_or xs j []
kept-get xs ys s j (inl e) h = rw e
kept-get xs ys s j (inr e) h = rw e (get_or-append_left xs (s ∷ []) j [] h)

module _ (t : StringTable) (s : List ℕ) (v : IsValid t) (cs : IsCString s) where
  -- Where `string_table_intern` returns an index, `string_table_get` of that index reads the string
  -- that was interned. The table is valid, and the string is a C string.
  pub get-intern :
      (t' : StringTable) (i : ℕ) → intern t s ≡ (t', interned i) → get t' (pos i) ≡ some s
  get-intern t' i e =
      let r = intern-IsInterned t s v cs t' i e in
      get-contents t' r.valid i r.inside ∙ ap some r.reads

  -- Interning a string again returns the same index and leaves the table alone. The table is valid,
  -- and the string is a C string.
  pub intern-intern :
      (t' : StringTable) (i : ℕ) → intern t s ≡ (t', interned i) → intern t' s ≡ (t', interned i)
  unfolding intern
  intern-intern t' i e =
      let r = intern-IsInterned t s v cs t' i e in
      rw (find-contents t' r.valid i s r.inside r.reads, intern)

  -- An index that was given out before another string is interned reads the same string afterwards
  -- as before. The table is valid, and the string is a C string.
  pub get-intern_old :
      (t' : StringTable) (i j : ℕ)
      → intern t s ≡ (t', interned i)
      → j < t.index
      → get t' (pos j) ≡ get t (pos j)
  get-intern_old t' i j e h =
      let r = intern-IsInterned t s v cs t' i e in
      let n = index-length t v in
      let lt : j < length (contents t) = omega arith in
      get-contents t' r.valid j (kept-length _ _ s j r.keeps lt)
      ∙ ap some (kept-get _ _ s j r.keeps lt)
      ∙ sym (get-contents t v j lt)

add_entry-room :
    (t : StringTable) (s : List ℕ) (begin : Arena) (p : ℕ)
    → t.index < t.max_entries
    → add_entry t s (begin, allocated p) ≡ (added t s begin, interned t.index)
unfolding add_entry
add_entry-room t s begin p h =
    let room : leb t.max_entries t.index ≡ false = ground arith in rw room

-- `string_table_intern` returns an index where there is room for the bytes of the string and its 0 in
-- the first half, and for one more entry. The free part of the first half is a range of user memory.
pub intern_returns :
    (t : StringTable) (s : List ℕ)
    → Bounds.IsValid t.begin
    → length s + 1 ≤ t.begin.end - t.begin.beg
    → t.index < t.max_entries
    → (t' : StringTable) × (i : ℕ) × (intern t s ≡ (t', interned i))
unfolding intern
intern_returns t s v room more = elim (Option-cases (find (same_string t s) (hash s) t.head)) [
  | inl absent ↦
      let start = t.begin.beg + padding t.begin.beg 1 in
      let fits : start + (length s + 1) * 1 ≤ t.begin.end =
        omega (arith, padding-lt t.begin.beg 0 v.not_null (omega arith)) in
      let alloc = allocate_memory-fits t.begin 1 0 (length s + 1) v (omega arith) fits in
      (
        added t s (record t.begin { beg = start + (length s + 1) * 1 }),
        t.index,
        rw (absent, intern) (ap (add_entry t s) alloc ∙ add_entry-room t s _ start more),
      )
  | inr (p, found) ↦ (t, p, rw (found, intern))
]
