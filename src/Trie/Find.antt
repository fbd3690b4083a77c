-- ===== src/Trie/Find.antt =====
-- What the walk finds after an insertion, over any test on pointers.
use gsc.Base.{
  ℕ, ◌<◌, ◌≤◌, Bool, true, false, none, some, ◌≡◌, refl, arith, ◌==◌, if◌then◌else◌, Bool-cases,
  inl, inr,
}
use gsc.Trie.{Trie, empty, node, find, insert, slot, next_hash}

-- Every pointer of the tree is below `n`.
abbrev pub Below : ℕ → Trie → Type 0
Below n empty = Unit
Below n (node p child) = (p < n) × ((i : ℕ) → Below n (child i))

pub Below-mono : (m n : ℕ) (t : Trie) → m ≤ n → Below m t → Below n t
Below-mono m n empty h b = tt
Below-mono m n (node p child) h b = (omega arith, λ i. Below-mono m n (child i) h (b.1 i))

if_Below :
    (n h i : ℕ) (grown : Trie) (child : ℕ → Trie)
    → Below n grown
    → Below n (child i)
    → Below n (if i == slot h then grown else child i)
if_Below n h i grown child g b = elim (Bool-cases (i == slot h)) [ inl e ↦ rw e g | inr e ↦ rw e b ]

pub insert-Below :
    (test : ℕ → Bool) (h q n : ℕ) (t : Trie) → q < n → Below n t → Below n (insert test h q t)
unfolding insert
insert-Below test h q n empty lt b = (lt, λ i. tt)
insert-Below test h q n (node p child) lt b =
    let grown = insert-Below test (next_hash h) q n (child (slot h)) lt (b.1 (slot h)) in
    elim (Bool-cases (test p)) [
      | inl e ↦ rw e b
      | inr e ↦ rw e (b.0, λ i. if_Below n h i _ child grown (b.1 i))
    ]

-- The walk of a test finds a new pointer that passes it. The test of the walk that inserted it may
-- be another one, taken before the pointer had a key.
pub find-insert_self :
    (test other : ℕ → Bool) (h q : ℕ) (t : Trie)
    → find test h t ≡ none
    → find other h t ≡ none
    → other q ≡ true
    → find other h (insert test h q t) ≡ some q
unfolding find insert
find-insert_self test other h q empty absent gone new = rw new
find-insert_self test other h q (node p child) absent gone new =
    ground (arith, find-insert_self test other (next_hash h) q (child (slot h)))

-- A pointer that fails a test changes nothing for the walk of that test.
pub find-insert_ne :
    (test other : ℕ → Bool) (h g q : ℕ) (t : Trie)
    → other q ≡ false
    → find other g (insert test h q t) ≡ find other g t
unfolding find insert
find-insert_ne test other h g q empty new = rw new
find-insert_ne test other h g q (node p child) new =
    ground (arith, find-insert_ne test other (next_hash h) (next_hash g) q (child (slot h)))

-- The walk reads its test only at pointers of the tree.
pub find_congr :
    (test other : ℕ → Bool) (n h : ℕ) (t : Trie)
    → Below n t
    → ((p : ℕ) → p < n → test p ≡ other p)
    → find test h t ≡ find other h t
unfolding find
find_congr test other n h empty b same = refl
find_congr test other n h (node p child) b same =
    ground (
      arith,
      same p b.0,
      find_congr test other n (next_hash h) (child (slot h)) (b.1 (slot h)) same,
    )

pub find-passes :
    (test : ℕ → Bool) (h : ℕ) (t : Trie) (p n : ℕ)
    → Below n t
    → find test h t ≡ some p
    → (test p ≡ true) × (p < n)
unfolding find
find-passes test h empty p n b e = cc
find-passes test h (node q child) p n b e =
    ground (arith, find-passes test (next_hash h) (child (slot h)) p n (b.1 (slot h)))

-- So does the walk of an insertion.
pub insert_congr :
    (test other : ℕ → Bool) (n h q : ℕ) (t : Trie)
    → Below n t
    → ((p : ℕ) → p < n → test p ≡ other p)
    → insert test h q t ≡ insert other h q t
unfolding insert
insert_congr test other n h q empty b same = refl
insert_congr test other n h q (node p child) b same =
    rw (same p b.0, insert_congr test other n (next_hash h) q (child (slot h)) (b.1 (slot h)) same)
