-- ===== src/Compiler/Sound/Resolving.antt =====
-- compiler.c: the targets of jumps once the last loop of `compile_function` has resolved those that are
-- left.
use mathlib.Core.Bool.{true≢false}
use gsc.Base.{
  ℕ, ◌+◌, ◌%◌, ◌≤◌, ◌<◌, true, false, ◌&&◌, ◌≡◌, refl, sym, arith, Bool-cases, ◌==◌, inl, inr,
}
use gsc.Base.Word.{word_mod, sub}
use gsc.Compiler.Code.{Opcode, op_load, op_ref, integer, integer_of, Instruction, is_jump, is_local}
use gsc.Compiler.Emit.{unresolved, distance}
use gsc.Compiler.Function.{resolve}
use gsc.Compiler.Sound.Invariant.{Lands}

-- Where the machine goes from the instruction `i` by the operand of a jump: `ip` is behind it already.
abbrev pub jump_target : ℕ → ℕ → ℕ
jump_target i w = (i + 1 + w) % word_mod

jump_target-distance : (i d : ℕ) → i ≤ 131072 → d ≤ 131072 → jump_target i (distance i d) ≡ d
unfolding sub
jump_target-distance i d le le' = omega arith

-- A jump whose target is among the first `m` instructions, or the next, stays one once it is resolved.
pub resolve-Lands :
    (instr : Instruction) (i m : ℕ)
    → m ≤ 131072
    → i < m
    → is_jump instr.opcode ≡ true
    → Lands m i instr.operand0
    → (w : ℕ) × ((resolve instr).operand0 ≡ integer w) × (jump_target i w ≤ m)
unfolding resolve integer_of
resolve-Lands instr i m le lt jump (d, d-le, e) = elim (Bool-cases (distance i d == unresolved)) [
  | inl stays ↦
      let test : (is_jump instr.opcode && integer_of instr.operand0 == unresolved) ≡ true =
        rw (jump, e) stays in
      (0, rw test refl, omega arith)
  | inr goes ↦
      let test : (is_jump instr.opcode && integer_of instr.operand0 == unresolved) ≡ false =
        rw (jump, e) goes in
      (distance i d, rw test e, rw (jump_target-distance i d (omega arith) (omega arith)) d-le)
]

pub resolve-opcode : (instr : Instruction) → (resolve instr).opcode ≡ instr.opcode
unfolding resolve
resolve-opcode instr =
    elim (Bool-cases (is_jump instr.opcode && integer_of instr.operand0 == unresolved)) [
      | inl e ↦ rw e refl
      | inr e ↦ rw e refl
    ]

local_not_jump : (op : Opcode) → is_local op ≡ true → is_jump op ≡ false
local_not_jump op_load h = refl
local_not_jump op_ref h = refl
local_not_jump op h = absurd (true≢false (sym h))

pub resolve-local :
    (instr : Instruction) → is_local instr.opcode ≡ true → (resolve instr).operand0 ≡ instr.operand0
unfolding resolve
resolve-local instr h =
    let test : (is_jump instr.opcode && integer_of instr.operand0 == unresolved) ≡ false =
      rw (local_not_jump instr.opcode h) refl in
    rw test refl
