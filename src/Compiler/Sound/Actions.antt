-- ===== src/Compiler/Sound/Actions.antt =====
-- compiler.c: one rule for each way to build an action that keeps the state sound.
use mathlib.Core.Path.{subst}
use gsc.Base.{
  ℕ, ◌+◌, ◌≤◌, ◌<◌, Bool, true, false, List, ◌∷◌, ◌++◌, ◌≡◌, ◌≢◌, refl, sym, ◌∙◌, arith,
  if◌then◌else◌, Bool-cases, ◌==◌, ==_iff, ==-refl, ==-ne, inl, inr,
}
use gsc.Base.Result.{Fault, Result, ok, err}
use gsc.Compiler.Code.{Instruction, update}
use gsc.Compiler.State.{Compiler, Compile, continue, ◌>>=◌, pure, error, gets}
use gsc.Compiler.Emit.{ip}
use gsc.Compiler.Sound.Invariant.{
  Fits, AllFit, Patchable, AllPatchable, IsSound, Extends, Grows, KeepsWith, no_new, Keeps,
  AllPatchable-mono, AllPatchable-append,
}

pub weaken-Grows :
    {A : Type 0} (c c' : Compiler) (new : A → List ℕ) (r : Result (A × Compiler))
    → Extends c c'
    → Grows c' new r
    → Grows c new r
weaken-Grows c c' new (err fault) e g = tt
weaken-Grows c c' new (ok (a, c'')) e (e', n) =
    let le = e.count_mono in
    let le' = e'.count_mono in
    (
      record {
        sound = e'.sound;
        count_mono = omega arith;
        opcodes = λ i lt. e'.opcodes i (omega arith) ∙ e.opcodes i lt;
      },
      n,
    )

module _ {A B : Type 0} (new : A → List ℕ) (new' : B → List ℕ) where
  pub continue-Grows :
      (lo : ℕ) (js : List ℕ) (c : Compiler) (r : Result (A × Compiler)) (f : A → Compile B)
      → lo ≤ c.instruction_count
      → AllPatchable c.instruction_count c.instructions js
      → Grows c new r
      → ((a : A) → KeepsWith lo (new a ++ js) new' (f a))
      → Grows c new' (continue r f)
  continue-Grows lo js c (err fault) f le all g h = tt
  continue-Grows lo js c (ok (a, c')) f le all (e, n) h =
      let le' = e.count_mono in
      weaken-Grows c c' new' (f a c') e (
        (h a).at c' e.sound (omega arith) (
          AllPatchable-append _ _ (new a) js n
            (AllPatchable-mono _ _ _ _ js e.count_mono e.opcodes all)))

  pub KeepsWith-bind :
      (lo : ℕ) (js : List ℕ) (m : Compile A) (f : A → Compile B)
      → KeepsWith lo js new m
      → ((a : A) → KeepsWith lo (new a ++ js) new' (f a))
      → KeepsWith lo js new' (m >>= f)
  unfolding ◌>>=◌
  KeepsWith-bind lo js m f km kf = record {
    at = λ c s le all. continue-Grows lo js c (m c) f le all (km.at c s le all) kf;
  }

pub Keeps-bind :
    {A B : Type 0} (lo : ℕ) (js : List ℕ) (new : B → List ℕ) (m : Compile A) (f : A → Compile B)
    → Keeps lo js m
    → ((a : A) → KeepsWith lo js new (f a))
    → KeepsWith lo js new (m >>= f)
Keeps-bind lo js new m f = KeepsWith-bind no_new new lo js m f

pub Extends-refl : (c : Compiler) → IsSound c → Extends c c
Extends-refl c s = record { sound = s; count_mono = omega arith; opcodes = λ i lt. refl }

pub Keeps-pure : {A : Type 0} (lo : ℕ) (js : List ℕ) (a : A) → Keeps lo js (pure a)
unfolding pure
Keeps-pure lo js a = record { at = λ c s le all. (Extends-refl c s, tt) }

pub KeepsWith-error :
    {A : Type 0} (lo : ℕ) (js : List ℕ) (new : A → List ℕ) (fault : Fault)
    → KeepsWith lo js new (error fault)
unfolding error
KeepsWith-error lo js new fault = record { at = λ c s le all. tt }

pub Keeps-gets : {A : Type 0} (lo : ℕ) (js : List ℕ) (f : Compiler → A) → Keeps lo js (gets f)
unfolding gets
Keeps-gets lo js f = record { at = λ c s le all. (Extends-refl c s, tt) }

pub KeepsWith-if :
    {A : Type 0} (lo : ℕ) (js : List ℕ) (new : A → List ℕ) (b : Bool) (m n : Compile A)
    → KeepsWith lo js new m
    → KeepsWith lo js new n
    → KeepsWith lo js new (if b then m else n)
KeepsWith-if lo js new true m n km kn = km
KeepsWith-if lo js new false m n km kn = kn

-- Behind `ip` at least that many instructions are there.
pub Keeps-ip :
    {A : Type 0} (lo : ℕ) (js : List ℕ) (f : ℕ → Compile A)
    → ((i : ℕ) → lo ≤ i → Keeps i js (f i))
    → Keeps lo js (ip >>= f)
unfolding ◌>>=◌ gets
Keeps-ip lo js f kf = record {
  at = λ c s le all. (kf c.instruction_count le).at c s (omega arith) all;
}

-- An index among those at which a target may be written.
pub data Among : ℕ → List ℕ → Type 0 where
  here : {i : ℕ} {js : List ℕ} → Among i (i ∷ js)
  there : {i j : ℕ} {js : List ℕ} → Among i js → Among i (j ∷ js)

pub Patchable-Among :
    {count i : ℕ} {code : ℕ → Instruction} {js : List ℕ}
    → Among i js
    → AllPatchable count code js
    → Patchable count code i
Patchable-Among here (p, all) = p
Patchable-Among (there a) (p, all) = Patchable-Among a all

pub Fits-mono :
    {count n count' n' i : ℕ} {instr : Instruction}
    → count ≤ count'
    → n ≤ n'
    → Fits count n i instr
    → Fits count' n' i instr
Fits-mono le le' f = record {
  offset_eq = f.offset_eq;
  jump_lands = λ h. let (d, l, e) = f.jump_lands h in (d, omega arith, e);
  local_slot = λ h. let (v, l, e) = f.local_slot h in (v, omega arith, e);
}

pub update-eq :
    (code : ℕ → Instruction) (j : ℕ) (change : Instruction → Instruction)
    → update code j change j ≡ change (code j)
unfolding update
update-eq code j change = rw (==-refl j)

pub update-ne :
    (code : ℕ → Instruction) (i j : ℕ) (change : Instruction → Instruction)
    → i ≢ j
    → update code j change i ≡ code i
unfolding update
update-ne code i j change ne = rw (==-ne i j ne)

-- A buffer in which one instruction is changed.
pub update-AllFit :
    {count n j : ℕ} (code : ℕ → Instruction) (change : Instruction → Instruction)
    → AllFit count n code
    → (j < count → Fits count n j (code j) → Fits count n j (change (code j)))
    → AllFit count n (update code j change)
update-AllFit {count} {n} {j} code change all h i lt = elim (Bool-cases (i == j)) [
  | inl e ↦
      let p : i ≡ j = (==_iff i j).0 e in
      subst (λ k. Fits count n k (update code j change k)) (sym p)
        (rw (update-eq code j change) (h (omega arith) (all j (omega arith))))
  | inr e ↦ rw (update-ne code i j change (ground arith)) (all i lt)
]

-- A buffer with one more instruction, which may name one more local variable.
pub append-AllFit :
    {count n n' : ℕ} (code code' : ℕ → Instruction)
    → AllFit count n code
    → n ≤ n'
    → ((i : ℕ) → i < count → code' i ≡ code i)
    → Fits (count + 1) n' count (code' count)
    → AllFit (count + 1) n' code'
append-AllFit {count} {n} {n'} code code' all le same last i lt = elim (Bool-cases (i == count)) [
  | inl e ↦
      let p : i ≡ count = (==_iff i count).0 e in
      subst (λ k. Fits (count + 1) n' k (code' k)) (sym p) last
  | inr e ↦
      let below : i < count = ground arith in
      rw (same i below) (Fits-mono (omega arith) le (all i below))
]
