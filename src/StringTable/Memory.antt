-- ===== src/StringTable/Memory.antt =====
-- Strings one after the other in the table's memory, each up to its 0.
use gsc.Base.{
  ℕ, zero, suc, ◌≤◌, ◌<◌, List, [], ◌∷◌, ◌++◌, map, ◌≡◌, refl, ap, arith, length, get_or, drop,
  c_string, length-append, drop-append_left,
}
use gsc.StringTable.{string_at}

-- A 0 ends the string that begins here.
abbrev IsTerminated : List ℕ → Type 0
IsTerminated [] = ⊥
IsTerminated (zero ∷ xs) = Unit
IsTerminated (suc c ∷ xs) = IsTerminated xs

abbrev pub AllTerminated : List ℕ → List ℕ → Type 0
AllTerminated memory [] = Unit
AllTerminated memory (o ∷ os) =
    (o ≤ length memory) × IsTerminated (drop o memory) × AllTerminated memory os

c_string-append_right : (xs ys : List ℕ) → IsTerminated xs → c_string (xs ++ ys) ≡ c_string xs
c_string-append_right [] ys h = absurd h
c_string-append_right (zero ∷ xs) ys h = refl
c_string-append_right (suc c ∷ xs) ys h = ap (λ t. suc c ∷ t) (c_string-append_right xs ys h)

IsTerminated-append : (xs ys : List ℕ) → IsTerminated xs → IsTerminated (xs ++ ys)
IsTerminated-append [] ys h = absurd h
IsTerminated-append (zero ∷ xs) ys h = tt
IsTerminated-append (suc c ∷ xs) ys h = IsTerminated-append xs ys h

pub IsTerminated-c_string : (s : List ℕ) → IsTerminated (s ++ (0 ∷ []))
IsTerminated-c_string [] = tt
IsTerminated-c_string (zero ∷ s) = tt
IsTerminated-c_string (suc c ∷ s) = IsTerminated-c_string s

-- New memory behind the old leaves the old strings as they are.
pub map-string_at :
    (memory more : List ℕ) (os : List ℕ)
    → AllTerminated memory os
    → map (string_at (memory ++ more)) os ≡ map (string_at memory) os
map-string_at memory more [] h = refl
map-string_at memory more (o ∷ os) (le, end, rest) =
    rw (drop-append_left o memory more le, c_string-append_right (drop o memory) more end)
      (ap (λ l. c_string (drop o memory) ∷ l) (map-string_at memory more os rest))

pub AllTerminated-append :
    (memory more : List ℕ) (os : List ℕ)
    → AllTerminated memory os
    → AllTerminated (memory ++ more) os
AllTerminated-append memory more [] h = tt
AllTerminated-append memory more (o ∷ os) (le, end, rest) = (
  omega (arith, length-append memory more),
  rw (drop-append_left o memory more le) (IsTerminated-append (drop o memory) more end),
  AllTerminated-append memory more os rest,
)

pub AllTerminated-snoc :
    (memory : List ℕ) (os : List ℕ) (o : ℕ)
    → AllTerminated memory os
    → o ≤ length memory
    → IsTerminated (drop o memory)
    → AllTerminated memory (os ++ (o ∷ []))
AllTerminated-snoc memory [] o h le end = (le, end, tt)
AllTerminated-snoc memory (p ∷ os) o (a, b, rest) le end =
    (a, b, AllTerminated-snoc memory os o rest le end)

pub length-map {ℓ κ} :
    {A : Type ℓ} {B : Type κ} (f : A → B) (xs : List A) → length (map f xs) ≡ length xs
length-map f [] = refl
length-map f (x ∷ xs) = ap suc (length-map f xs)

pub get_or-map :
    (f : ℕ → List ℕ) (xs : List ℕ) (i : ℕ)
    → i < length xs
    → get_or (map f xs) i [] ≡ f (get_or xs i 0)
get_or-map f [] i h = absurd (omega arith)
get_or-map f (x ∷ xs) zero h = refl
get_or-map f (x ∷ xs) (suc i) h = get_or-map f xs i (omega arith)
