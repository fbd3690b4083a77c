-- ===== src/Compiler/Sound/Invariant.antt =====
-- compiler.c: the invariant of the compiler's state, and the actions that keep it.
use gsc.Base.{
  ℕ, ◌≤◌, ◌<◌, true, false, Option, none, some, List, [], ◌∷◌, ◌++◌, ◌≡◌, ap, ◌∙◌, arith,
}
use gsc.Base.Result.{Result, ok, err}
use gsc.HashTrie.{value_at}
use gsc.Compiler.Code.{Operand, integer, Instruction, is_jump, is_local, max_instructions_count}
use gsc.Compiler.State.{Compiler, PendingJump, Compile}
use gsc.Compiler.Emit.{distance}

-- The operand of a jump at `i` whose target is one of the first `count` instructions or the next.
abbrev pub Lands : ℕ → ℕ → Operand → Type 0
Lands count i o = (d : ℕ) × (d ≤ count) × (o ≡ integer (distance i d))

-- The operand that names one of `n` local variables.
abbrev pub IsSlot : ℕ → Operand → Type 0
IsSlot n o = (v : ℕ) × (v < n) × (o ≡ integer v)

-- What holds of the instruction at `i`, of `count` in a function with `n` local variables.
pub record Fits (count n i : ℕ) (instr : Instruction) : Type 0 where
  pub offset_eq : instr.offset ≡ i
  pub jump_lands : is_jump instr.opcode ≡ true → Lands count i instr.operand0
  pub local_slot : is_local instr.opcode ≡ true → IsSlot n instr.operand0

abbrev pub AllFit : ℕ → ℕ → (ℕ → Instruction) → Type 0
AllFit count n code = (i : ℕ) → i < count → Fits count n i (code i)

-- An index at which a target may be written: no local variable is named there.
pub record Patchable (count : ℕ) (code : ℕ → Instruction) (i : ℕ) : Type 0 where
  pub below : i < count
  pub not_local : is_local (code i).opcode ≡ false

abbrev pub AllPatchable : ℕ → (ℕ → Instruction) → List ℕ → Type 0
AllPatchable count code [] = Unit
AllPatchable count code (i ∷ is) = Patchable count code i × AllPatchable count code is

-- The index of a pending jump that is not patched yet.
abbrev pub pending_index : Option ℕ → List ℕ
pending_index none = []
pending_index (some i) = i ∷ []

abbrev pub pending : List PendingJump → List ℕ
pending [] = []
pending (j ∷ js) = pending_index j.ip ++ pending js

pub record IsSound (c : Compiler) : Type 0 where
  pub count_le : c.instruction_count ≤ c.max_instruction_count
  pub max_le : c.max_instruction_count ≤ max_instructions_count
  pub self_defined : 0 < c.variable_index
  pub slots : (p v : ℕ) → value_at c.variables p ≡ some v → v < c.variable_index
  pub fits : AllFit c.instruction_count c.variable_index c.instructions
  pub pending_patchable : AllPatchable c.instruction_count c.instructions (pending c.jumps)

-- The first `count` instructions keep their opcodes.
abbrev pub SameOpcodes : ℕ → (ℕ → Instruction) → (ℕ → Instruction) → Type 0
SameOpcodes count code code' = (i : ℕ) → i < count → (code' i).opcode ≡ (code i).opcode

-- A later state, which has lost nothing.
pub record Extends (c c' : Compiler) : Type 0 where
  pub sound : IsSound c'
  pub count_mono : c.instruction_count ≤ c'.instruction_count
  pub opcodes : SameOpcodes c.instruction_count c.instructions c'.instructions

-- What an action does to the state, where an error ends the compilation. At each of the indices `new`
-- a target may be written afterwards.
abbrev pub Grows : {A : Type 0} → Compiler → (A → List ℕ) → Result (A × Compiler) → Type 0
Grows c new (err fault) = Unit
Grows c new (ok (a, c')) = Extends c c' × AllPatchable c'.instruction_count c'.instructions (new a)

-- `m` keeps the state sound once `lo` instructions are there and a target may be written at each of
-- `js`.
pub record KeepsWith {A : Type 0} (lo : ℕ) (js : List ℕ) (new : A → List ℕ) (m : Compile A)
    : Type 0 where
  pub at :
      (c : Compiler)
      → IsSound c
      → lo ≤ c.instruction_count
      → AllPatchable c.instruction_count c.instructions js
      → Grows c new (m c)

abbrev pub no_new : {A : Type 0} → A → List ℕ
no_new a = []

abbrev pub Keeps : {A : Type 0} → ℕ → List ℕ → Compile A → Type 0
Keeps lo js m = KeepsWith lo js no_new m

pub AllPatchable-mono :
    (count count' : ℕ) (code code' : ℕ → Instruction) (js : List ℕ)
    → count ≤ count'
    → SameOpcodes count code code'
    → AllPatchable count code js
    → AllPatchable count' code' js
AllPatchable-mono count count' code code' [] le same all = tt
AllPatchable-mono count count' code code' (i ∷ js) le same (p, all) = (
  record {
    below = let b = p.below in omega arith;
    not_local = ap is_local (same i p.below) ∙ p.not_local;
  },
  AllPatchable-mono count count' code code' js le same all,
)

pub AllPatchable-append :
    (count : ℕ) (code : ℕ → Instruction) (is js : List ℕ)
    → AllPatchable count code is
    → AllPatchable count code js
    → AllPatchable count code (is ++ js)
AllPatchable-append count code [] js all all' = all'
AllPatchable-append count code (i ∷ is) js (p, all) all' =
    (p, AllPatchable-append count code is js all all')

pub AllPatchable-split :
    (count : ℕ) (code : ℕ → Instruction) (is js : List ℕ)
    → AllPatchable count code (is ++ js)
    → AllPatchable count code is × AllPatchable count code js
AllPatchable-split count code [] js all = (tt, all)
AllPatchable-split count code (i ∷ is) js (p, all) =
    let (all', all'') = AllPatchable-split count code is js all in ((p, all'), all'')
