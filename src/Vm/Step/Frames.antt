-- ===== src/Vm/Step/Frames.antt =====
-- vm.c: the instructions that neither jump nor return leave the frames as they are.
use gsc.Base.{
  ℕ, zero, suc, ◌+◌, ◌-◌, ◌%◌, Bool, true, false, Option, none, some, List, [], ◌∷◌, length, ◌≡◌,
  refl, sym, ◌∙◌, leb, ltb, ◌==◌, if◌then◌else◌,
}
use gsc.Base.Result.{Fault, Result, ok, err, ◌>>=◌}
use gsc.StringTable.{StringTable, Interned, interned, jumped_oom, crashed, intern}
use gsc.Vm.Variable.{Variable}
use gsc.Vm.Machine.{Machine}
use gsc.Vm.Stack.{
  push, pop_from, pop, reference_of, pop_ref, int_of, pop_int, interned_name, vm_string_index,
  assert_stack, pop_many, popped,
}
use gsc.Vm.Messages.{pop_references, captured}

-- The frames of `m` are those of `m₀`.
abbrev pub SameFrames : Machine → Machine → Type 0
SameFrames m₀ m = (m.frame ≡ m₀.frame) × (m.callers ≡ m₀.callers)

abbrev pub IsKept : Machine → Result Machine → Type 0
IsKept m₀ (err fault) = Unit
IsKept m₀ (ok m) = SameFrames m₀ m

pub record Kept (m₀ : Machine) (r : Result Machine) : Type 0 where
  pub at : IsKept m₀ r

-- The same beside a value.
abbrev IsKeptWith : {A : Type 0} → Machine → Result (A × Machine) → Type 0
IsKeptWith m₀ (err fault) = Unit
IsKeptWith m₀ (ok (a, m)) = SameFrames m₀ m

record KeptWith {A : Type 0} (m₀ : Machine) (r : Result (A × Machine)) : Type 0 where
  at : IsKeptWith m₀ r

pub Kept-ok : (m₀ m : Machine) → SameFrames m₀ m → Kept m₀ (ok m)
Kept-ok m₀ m s = record { at = s }

pub Kept-err : (m₀ : Machine) (fault : Fault) → Kept m₀ (err fault)
Kept-err m₀ fault = record { at = tt }

bind_with-IsKept :
    {A : Type 0} (m₀ : Machine) (r : Result (A × Machine)) (f : A × Machine → Result Machine)
    → IsKeptWith m₀ r
    → ((a : A × Machine) → SameFrames m₀ a.1 → Kept m₀ (f a))
    → IsKept m₀ (r >>= f)
bind_with-IsKept m₀ (err fault) f k h = tt
bind_with-IsKept m₀ (ok (a, m)) f k h = (h (a, m) k).at

Kept-bind_with :
    {A : Type 0} (m₀ : Machine) (r : Result (A × Machine)) (f : A × Machine → Result Machine)
    → KeptWith m₀ r
    → ((a : A × Machine) → SameFrames m₀ a.1 → Kept m₀ (f a))
    → Kept m₀ (r >>= f)
Kept-bind_with m₀ r f k h = record { at = bind_with-IsKept m₀ r f k.at h }

value-IsKept :
    {A : Type 0} (m₀ : Machine) (r : Result A) (f : A → Result Machine)
    → ((a : A) → Kept m₀ (f a))
    → IsKept m₀ (r >>= f)
value-IsKept m₀ (err fault) f h = tt
value-IsKept m₀ (ok a) f h = (h a).at

-- A part that computes a value without a state.
pub Kept-value :
    {A : Type 0} (m₀ : Machine) (r : Result A) (f : A → Result Machine)
    → ((a : A) → Kept m₀ (f a))
    → Kept m₀ (r >>= f)
Kept-value m₀ r f h = record { at = value-IsKept m₀ r f h }

bind-IsKept :
    (m₀ : Machine) (r : Result Machine) (f : Machine → Result Machine)
    → IsKept m₀ r
    → ((m : Machine) → SameFrames m₀ m → Kept m₀ (f m))
    → IsKept m₀ (r >>= f)
bind-IsKept m₀ (err fault) f k h = tt
bind-IsKept m₀ (ok m) f k h = (h m k).at

pub Kept-bind :
    (m₀ : Machine) (r : Result Machine) (f : Machine → Result Machine)
    → Kept m₀ r
    → ((m : Machine) → SameFrames m₀ m → Kept m₀ (f m))
    → Kept m₀ (r >>= f)
Kept-bind m₀ r f k h = record { at = bind-IsKept m₀ r f k.at h }

pub Kept-if :
    (m₀ : Machine) (b : Bool) (r s : Result Machine)
    → Kept m₀ r
    → Kept m₀ s
    → Kept m₀ (if b then r else s)
Kept-if m₀ true r s kr ks = kr
Kept-if m₀ false r s kr ks = ks

pub push-Kept : (m₀ m : Machine) (v : Variable) → SameFrames m₀ m → Kept m₀ (push m v)
unfolding push
push-Kept m₀ m v s = Kept-if m₀ _ _ _ (Kept-err m₀ _) (Kept-ok m₀ _ s)

pub assert_stack-Kept :
    (m₀ : Machine) (expected : ℕ) (m : Machine)
    → SameFrames m₀ m
    → Kept m₀ (assert_stack expected m)
unfolding assert_stack
assert_stack-Kept m₀ expected m s = Kept-if m₀ _ _ _ (Kept-ok m₀ m s) (Kept-err m₀ _)

pop_from-IsKeptWith :
    (m₀ m : Machine) (stack : List Variable) → SameFrames m₀ m → IsKeptWith m₀ (pop_from m stack)
pop_from-IsKeptWith m₀ m [] s = tt
pop_from-IsKeptWith m₀ m (v ∷ stack) s = s

pop-KeptWith : (m₀ m : Machine) → SameFrames m₀ m → KeptWith m₀ (pop m)
unfolding pop
pop-KeptWith m₀ m s = record { at = pop_from-IsKeptWith m₀ m m.stack s }

pub Kept-pop :
    (m₀ m : Machine) (f : Variable × Machine → Result Machine)
    → SameFrames m₀ m
    → ((a : Variable × Machine) → SameFrames m₀ a.1 → Kept m₀ (f a))
    → Kept m₀ (pop m >>= f)
Kept-pop m₀ m f s h = Kept-bind_with m₀ (pop m) f (pop-KeptWith m₀ m s) h

reference_of-IsKeptWith :
    (m₀ : Machine) (r : Result (Variable × Machine))
    → IsKeptWith m₀ r
    → IsKeptWith m₀ (r >>= reference_of)
reference_of-IsKeptWith m₀ (err fault) k = tt
reference_of-IsKeptWith m₀ (ok (Variable.reference a, m)) k = k
reference_of-IsKeptWith m₀ (ok (v, m)) k = tt

pop_ref-KeptWith : (m₀ m : Machine) → SameFrames m₀ m → KeptWith m₀ (pop_ref m)
unfolding pop_ref
pop_ref-KeptWith m₀ m s = record {
  at = reference_of-IsKeptWith m₀ (pop m) (pop-KeptWith m₀ m s).at;
}

pub Kept-pop_ref :
    (m₀ m : Machine) (f : ℕ × Machine → Result Machine)
    → SameFrames m₀ m
    → ((a : ℕ × Machine) → SameFrames m₀ a.1 → Kept m₀ (f a))
    → Kept m₀ (pop_ref m >>= f)
Kept-pop_ref m₀ m f s h = Kept-bind_with m₀ (pop_ref m) f (pop_ref-KeptWith m₀ m s) h

int_of-IsKeptWith :
    (m₀ m : Machine) (stack : List Variable) → SameFrames m₀ m → IsKeptWith m₀ (int_of m stack)
int_of-IsKeptWith m₀ m [] s = tt
int_of-IsKeptWith m₀ m (Variable.integer i ∷ stack) s = s
int_of-IsKeptWith m₀ m (Variable.boolean b ∷ stack) s = s
int_of-IsKeptWith m₀ m (v ∷ stack) s = tt

pub Kept-pop_int :
    (m₀ m : Machine) (f : ℕ × Machine → Result Machine)
    → SameFrames m₀ m
    → ((a : ℕ × Machine) → SameFrames m₀ a.1 → Kept m₀ (f a))
    → Kept m₀ (pop_int m >>= f)
unfolding pop_int
Kept-pop_int m₀ m f s h =
    Kept-bind_with m₀ (int_of m m.stack) f (record { at = int_of-IsKeptWith m₀ m m.stack s }) h

interned_name-IsKeptWith :
    (m₀ m : Machine) (r : StringTable × Interned)
    → SameFrames m₀ m
    → IsKeptWith m₀ (interned_name m r)
interned_name-IsKeptWith m₀ m (t, interned i) s = s
interned_name-IsKeptWith m₀ m (t, jumped_oom) s = tt
interned_name-IsKeptWith m₀ m (t, crashed) s = tt

pub Kept-vm_string_index :
    (m₀ m : Machine) (text : List ℕ) (f : ℕ × Machine → Result Machine)
    → SameFrames m₀ m
    → ((a : ℕ × Machine) → SameFrames m₀ a.1 → Kept m₀ (f a))
    → Kept m₀ (vm_string_index m text >>= f)
unfolding vm_string_index
Kept-vm_string_index m₀ m text f s h =
    Kept-bind_with m₀ (interned_name m (intern m.strings text)) f
      (record { at = interned_name-IsKeptWith m₀ m (intern m.strings text) s }) h

popped-IsKeptWith :
    (m₀ : Machine) (v : Variable) (r : Result (List Variable × Machine))
    → IsKeptWith m₀ r
    → IsKeptWith m₀ (r >>= popped v)
popped-IsKeptWith m₀ v (err fault) k = tt
popped-IsKeptWith m₀ v (ok (vs, m)) k = k

popped_rest-IsKeptWith :
    (m₀ : Machine) (n : ℕ) (r : Result (Variable × Machine))
    → IsKeptWith m₀ r
    → ((m : Machine) → SameFrames m₀ m → IsKeptWith m₀ (pop_many n m))
    → IsKeptWith m₀ (r >>= λ v. pop_many n v.1 >>= popped v.0)
popped_rest-IsKeptWith m₀ n (err fault) k h = tt
popped_rest-IsKeptWith m₀ n (ok (v, m)) k h = popped-IsKeptWith m₀ v (pop_many n m) (h m k)

pop_many-IsKeptWith : (m₀ m : Machine) (n : ℕ) → SameFrames m₀ m → IsKeptWith m₀ (pop_many n m)
unfolding pop_many
pop_many-IsKeptWith m₀ m zero s = s
pop_many-IsKeptWith m₀ m (suc n) s =
    popped_rest-IsKeptWith m₀ n (pop m) (pop-KeptWith m₀ m s).at
      (λ m' s'. pop_many-IsKeptWith m₀ m' n s')

pub Kept-pop_many :
    (m₀ m : Machine) (n : ℕ) (f : List Variable × Machine → Result Machine)
    → SameFrames m₀ m
    → ((a : List Variable × Machine) → SameFrames m₀ a.1 → Kept m₀ (f a))
    → Kept m₀ (pop_many n m >>= f)
Kept-pop_many m₀ m n f s h =
    Kept-bind_with m₀ (pop_many n m) f (record { at = pop_many-IsKeptWith m₀ m n s }) h

captured-IsKeptWith :
    (m₀ : Machine) (v : ℕ) (r : Result (List ℕ × Machine))
    → IsKeptWith m₀ r
    → IsKeptWith m₀ (r >>= captured v)
captured-IsKeptWith m₀ v (err fault) k = tt
captured-IsKeptWith m₀ v (ok (vs, m)) k = k

captured_rest-IsKeptWith :
    (m₀ : Machine) (n : ℕ) (r : Result (ℕ × Machine))
    → IsKeptWith m₀ r
    → ((m : Machine) → SameFrames m₀ m → IsKeptWith m₀ (pop_references n m))
    → IsKeptWith m₀ (r >>= λ v. pop_references n v.1 >>= captured v.0)
captured_rest-IsKeptWith m₀ n (err fault) k h = tt
captured_rest-IsKeptWith m₀ n (ok (v, m)) k h =
    captured-IsKeptWith m₀ v (pop_references n m) (h m k)

pop_references-IsKeptWith :
    (m₀ m : Machine) (n : ℕ) → SameFrames m₀ m → IsKeptWith m₀ (pop_references n m)
unfolding pop_references
pop_references-IsKeptWith m₀ m zero s = s
pop_references-IsKeptWith m₀ m (suc n) s =
    captured_rest-IsKeptWith m₀ n (pop_ref m) (pop_ref-KeptWith m₀ m s).at
      (λ m' s'. pop_references-IsKeptWith m₀ m' n s')

pub Kept-pop_references :
    (m₀ m : Machine) (n : ℕ) (f : List ℕ × Machine → Result Machine)
    → SameFrames m₀ m
    → ((a : List ℕ × Machine) → SameFrames m₀ a.1 → Kept m₀ (f a))
    → Kept m₀ (pop_references n m >>= f)
Kept-pop_references m₀ m n f s h =
    Kept-bind_with m₀ (pop_references n m) f (record { at = pop_references-IsKeptWith m₀ m n s }) h

pub ruleset frame_rules = (
  Kept-ok, Kept-err, push-Kept, assert_stack-Kept, Kept-pop, Kept-pop_ref, Kept-pop_int,
  Kept-vm_string_index, Kept-pop_many, Kept-pop_references, Kept-value, Kept-bind, Kept-if, refl,
)
