-- ===== src/Compiler/Sound/Append.antt =====
-- compiler.c: what the state is like behind one more instruction, or behind one that is rewritten.
use gsc.Base.{ℕ, ◌+◌, ◌≤◌, ◌<◌, false, List, ◌==◌, ◌≡◌, refl, sym, ap, arith, Bool-cases, inl, inr}
use gsc.Base.Word.{sub}
use gsc.Base.Result.{Result, ok, err}
use gsc.Compiler.Code.{Opcode, integer, Instruction, is_local, update}
use gsc.Compiler.State.{Compiler, Compile}
use gsc.Compiler.Emit.{unresolved, distance, started}
use gsc.Compiler.Sound.Invariant.{
  Fits, AllFit, SameOpcodes, pending, IsSound, Extends, Grows, KeepsWith, Keeps, no_new,
  AllPatchable-mono,
}
use gsc.Compiler.Sound.Actions.{append-AllFit}

distance_self : (i : ℕ) → i ≤ 131072 → distance i i ≡ unresolved
unfolding sub
distance_self i le = omega arith

pub started-Fits :
    (op : Opcode) (i n : ℕ) (instr : Instruction)
    → i ≤ 131072
    → is_local op ≡ false
    → Fits (i + 1) n i (started i op instr)
unfolding started
started-Fits op i n instr le not_local = record {
  offset_eq = refl;
  jump_lands = λ h. rw h (i, omega arith, ap integer (sym (distance_self i le)));
  local_slot = λ h. ground arith;
}

abbrev pub opcode_of : Instruction → Opcode
opcode_of instr = instr.opcode

pub started-not_local :
    (op : Opcode) (i : ℕ) (instr : Instruction)
    → is_local op ≡ false
    → is_local (started i op instr).opcode ≡ false
unfolding started
started-not_local op i instr h = h

pub update-SameOpcodes :
    (code : ℕ → Instruction) (j : ℕ) (change : Instruction → Instruction)
    → ((instr : Instruction) → (change instr).opcode ≡ instr.opcode)
    → (count : ℕ) → SameOpcodes count code (update code j change)
unfolding update
update-SameOpcodes code j change same count i lt = elim (Bool-cases (i == j)) [
  | inl e ↦ rw e (same (code i))
  | inr e ↦ rw e
]

forget-Grows :
    {A : Type 0} (c : Compiler) (new : A → List ℕ) (r : Result (A × Compiler))
    → Grows c new r
    → Grows c no_new r
forget-Grows c new (err fault) g = tt
forget-Grows c new (ok (a, c')) (e, n) = (e, tt)

pub forget-new :
    {A : Type 0} (lo : ℕ) (js : List ℕ) (new : A → List ℕ) (m : Compile A)
    → KeepsWith lo js new m
    → Keeps lo js m
forget-new lo js new m k = record { at = λ c s le all. forget-Grows c new (m c) (k.at c s le all) }

-- The state behind one more instruction, whose new buffer agrees with the old one below it.
pub append-Extends :
    (c : Compiler) (code : ℕ → Instruction)
    → IsSound c
    → c.instruction_count < c.max_instruction_count
    → ((i : ℕ) → i < c.instruction_count → code i ≡ c.instructions i)
    → Fits (c.instruction_count + 1) c.variable_index c.instruction_count (code c.instruction_count)
    → Extends c (record c { instructions = code; instruction_count = c.instruction_count + 1 })
append-Extends c code s lt same last = record {
  sound = record {
    count_le = omega arith;
    max_le = s.max_le;
    self_defined = s.self_defined;
    slots = s.slots;
    fits = append-AllFit c.instructions code s.fits (omega arith) same last;
    pending_patchable =
        AllPatchable-mono _ _ _ _ (pending c.jumps) (omega arith)
          (λ i below. ap opcode_of (same i below)) s.pending_patchable;
  };
  count_mono = omega arith;
  opcodes = λ i below. ap opcode_of (same i below);
}

-- The state with another buffer of as many instructions and the same opcodes.
pub rewrite-Extends :
    (c : Compiler) (code : ℕ → Instruction)
    → IsSound c
    → AllFit c.instruction_count c.variable_index code
    → SameOpcodes c.instruction_count c.instructions code
    → Extends c (record c { instructions = code })
rewrite-Extends c code s all same = record {
  sound = record {
    count_le = s.count_le;
    max_le = s.max_le;
    self_defined = s.self_defined;
    slots = s.slots;
    fits = all;
    pending_patchable =
        AllPatchable-mono _ _ _ _ (pending c.jumps) (omega arith) same s.pending_patchable;
  };
  count_mono = omega arith;
  opcodes = same;
}
