-- ===== src/Compiler/Sound/Emit.antt =====
-- compiler.c: the functions that append an instruction and those that set a target keep the state
-- sound.
use mathlib.Core.Bool.{true≢false}
use gsc.Base.{
  ℕ, ◌+◌, ◌≤◌, ◌<◌, false, List, [], ◌∷◌, ◌≡◌, refl, sym, ap, ◌∙◌, arith, Bool-cases, leb, inl, inr,
}
use gsc.StringTable.{StringTable, Interned, interned, jumped_oom, crashed, intern}
use gsc.Compiler.Code.{Opcode, Operand, integer, Instruction, is_jump, is_local, update}
use gsc.Compiler.State.{Compiler, Compile, ◌>>=◌, pure, gets}
use gsc.Compiler.Emit.{
  distance, started, emit_base, set_operands, emit_operands, emit, emit1, emit2, emit4, string,
  interned_operand, reljmp_current, patch_reljmp,
}
use gsc.Compiler.Sound.Invariant.{Fits, IsSound, Grows, KeepsWith, Keeps, no_new}
use gsc.Compiler.Sound.Actions.{
  Among, Patchable-Among, update-eq, update-ne, update-AllFit, continue-Grows, KeepsWith-bind,
  Keeps-bind, Keeps-pure,
}
use gsc.Compiler.Sound.Append.{
  started-Fits, opcode_of, started-not_local, update-SameOpcodes, forget-new, append-Extends,
  rewrite-Extends,
}

-- The index that `emit_base` returns may be given a target.
pub emit_base-Keeps_new :
    (lo : ℕ) (js : List ℕ) (op : Opcode)
    → is_local op ≡ false
    → KeepsWith lo js (λ i. i ∷ []) (emit_base op)
unfolding emit_base
emit_base-Keeps_new lo js op not_local = record {
  at = λ c s le all. elim (Bool-cases (leb c.max_instruction_count c.instruction_count)) [
    | inl full ↦ rw full tt
    | inr room ↦
        let lt : c.instruction_count < c.max_instruction_count = ground arith in
        let max_le = s.max_le in
        let start = started c.instruction_count op in
        rw room (
          append-Extends c _ s lt (λ i below. update-ne c.instructions i _ _ (omega arith))
              (rw (update-eq c.instructions c.instruction_count start)
                (started-Fits op c.instruction_count _ _ (omega arith) not_local)),
          (
            record {
              below = omega arith;
              not_local =
                  ap is_local (ap opcode_of (update-eq c.instructions c.instruction_count start))
                  ∙ started-not_local op c.instruction_count _ not_local;
            },
            tt,
          ),
        )
  ];
}

pub emit_base-Keeps :
    (lo : ℕ) (js : List ℕ) (op : Opcode) → is_local op ≡ false → Keeps lo js (emit_base op)
emit_base-Keeps lo js op not_local = forget-new _ _ _ _ (emit_base-Keeps_new lo js op not_local)

-- The rest of an action knows the jump that it appends.
pub Keeps-jump :
    {A : Type 0} (lo : ℕ) (js : List ℕ) (new : A → List ℕ) (op : Opcode) (f : ℕ → Compile A)
    → is_local op ≡ false
    → ((i : ℕ) → KeepsWith lo (i ∷ js) new (f i))
    → KeepsWith lo js new (emit_base op >>= f)
Keeps-jump lo js new op f not_local =
    KeepsWith-bind _ new lo js (emit_base op) f (emit_base-Keeps_new lo js op not_local)

-- The operands of the instruction that `emit_operands` appends are those of `change`.
pub emit_operands-Grows :
    (c : Compiler) (op : Opcode) (change : Instruction → Instruction)
    → IsSound c
    → ((instr : Instruction)
        → instr.offset ≡ c.instruction_count
        → instr.opcode ≡ op
        → Fits (c.instruction_count + 1) c.variable_index c.instruction_count (change instr))
    → Grows c no_new (emit_operands op change c)
unfolding emit_operands emit_base set_operands started ◌>>=◌ pure
emit_operands-Grows c op change s fit =
    elim (Bool-cases (leb c.max_instruction_count c.instruction_count)) [
      | inl full ↦ rw full tt
      | inr room ↦
          let lt : c.instruction_count < c.max_instruction_count = ground arith in
          let start = started c.instruction_count op in
          let code = update c.instructions c.instruction_count start in
          rw room (
            append-Extends c _ s lt
                (λ i below.
                  update-ne code i c.instruction_count change (omega arith)
                  ∙ update-ne c.instructions i c.instruction_count start (omega arith))
                (rw (update-eq code c.instruction_count change) (
                  rw (update-eq c.instructions c.instruction_count start)
                    (fit (start (c.instructions c.instruction_count)) refl refl))),
            tt,
          )
    ]

pub emit_operands-Keeps :
    (lo : ℕ) (js : List ℕ) (op : Opcode) (change : Instruction → Instruction)
    → is_jump op ≡ false
    → is_local op ≡ false
    → ((instr : Instruction) → (change instr).offset ≡ instr.offset)
    → ((instr : Instruction) → (change instr).opcode ≡ instr.opcode)
    → Keeps lo js (emit_operands op change)
emit_operands-Keeps lo js op change not_jump not_local same_offset same_opcode = record {
  at = λ c s le all. emit_operands-Grows c op change s λ instr at_end is_op. record {
    offset_eq = same_offset instr ∙ at_end;
    jump_lands =
        λ h. absurd (true≢false (sym h ∙ ap is_jump (same_opcode instr ∙ is_op) ∙ not_jump));
    local_slot =
        λ h. absurd (true≢false (sym h ∙ ap is_local (same_opcode instr ∙ is_op) ∙ not_local));
  };
}

pub emit-Keeps : (lo : ℕ) (js : List ℕ) (op : Opcode) → is_local op ≡ false → Keeps lo js (emit op)
emit-Keeps lo js op not_local =
    Keeps-bind lo js no_new _ _ (emit_base-Keeps lo js op not_local) (λ i. Keeps-pure lo js tt)

pub emit1-Keeps :
    (lo : ℕ) (js : List ℕ) (op : Opcode) (o1 : Operand)
    → is_jump op ≡ false
    → is_local op ≡ false
    → Keeps lo js (emit1 op o1)
emit1-Keeps lo js op o1 not_jump not_local =
    Keeps-bind lo js no_new _ _
      (emit_operands-Keeps lo js op _ not_jump not_local (λ i. refl) (λ i. refl))
      (λ i. Keeps-pure lo js tt)

pub emit2-Keeps :
    (lo : ℕ) (js : List ℕ) (op : Opcode) (o1 o2 : Operand)
    → is_jump op ≡ false
    → is_local op ≡ false
    → Keeps lo js (emit2 op o1 o2)
emit2-Keeps lo js op o1 o2 not_jump not_local =
    Keeps-bind lo js no_new _ _
      (emit_operands-Keeps lo js op _ not_jump not_local (λ i. refl) (λ i. refl))
      (λ i. Keeps-pure lo js tt)

pub emit4-Keeps :
    (lo : ℕ) (js : List ℕ) (op : Opcode) (o1 o2 o3 o4 : Operand)
    → is_jump op ≡ false
    → is_local op ≡ false
    → Keeps lo js (emit4 op o1 o2 o3 o4)
emit4-Keeps lo js op o1 o2 o3 o4 not_jump not_local =
    Keeps-bind lo js no_new _ _
      (emit_operands-Keeps lo js op _ not_jump not_local (λ i. refl) (λ i. refl))
      (λ i. Keeps-pure lo js tt)

-- A write behind the first operand.
pub set_operands-Keeps :
    (lo : ℕ) (js : List ℕ) (i : ℕ) (change : Instruction → Instruction)
    → ((instr : Instruction) → (change instr).offset ≡ instr.offset)
    → ((instr : Instruction) → (change instr).opcode ≡ instr.opcode)
    → ((instr : Instruction) → (change instr).operand0 ≡ instr.operand0)
    → Keeps lo js (set_operands i change)
unfolding set_operands
set_operands-Keeps lo js i change same_offset same_opcode same_operand = record {
  at = λ c s le all. (
    rewrite-Extends c _ s
        (update-AllFit c.instructions change s.fits λ lt f. record {
          offset_eq = same_offset _ ∙ f.offset_eq;
          jump_lands = λ h.
              rw (same_operand (c.instructions i))
                (f.jump_lands (sym (ap is_jump (same_opcode _)) ∙ h));
          local_slot = λ h.
              rw (same_operand (c.instructions i))
                (f.local_slot (sym (ap is_local (same_opcode _)) ∙ h));
        })
        (update-SameOpcodes c.instructions i change same_opcode _),
    tt,
  );
}

interned_operand-Grows :
    (c : Compiler) (r : StringTable × Interned) → IsSound c → Grows c no_new (interned_operand c r)
interned_operand-Grows c (t, interned i) s = (
  record {
    sound = record {
      count_le = s.count_le;
      max_le = s.max_le;
      self_defined = s.self_defined;
      slots = s.slots;
      fits = s.fits;
      pending_patchable = s.pending_patchable;
    };
    count_mono = omega arith;
    opcodes = λ i lt. refl;
  },
  tt,
)
interned_operand-Grows c (t, jumped_oom) s = tt
interned_operand-Grows c (t, crashed) s = tt

pub string-Keeps : (lo : ℕ) (js : List ℕ) (name : List ℕ) → Keeps lo js (string name)
unfolding string
string-Keeps lo js name = record {
  at = λ c s le all. interned_operand-Grows c (intern c.strings name) s;
}

-- A jump back to an instruction that is there.
pub reljmp_current-Keeps :
    (lo : ℕ) (js : List ℕ) (op : Opcode) (destination : ℕ)
    → destination ≤ lo
    → is_local op ≡ false
    → Keeps lo js (reljmp_current op destination)
unfolding reljmp_current ◌>>=◌ gets
reljmp_current-Keeps lo js op destination le not_local = record {
  at = λ c s lo-le all.
      continue-Grows no_new no_new lo js c (emit_operands op _ c) (λ _. pure tt) lo-le all
        (emit_operands-Grows c op _ s λ instr at_end is_op. record {
          offset_eq = at_end;
          jump_lands = λ h. (destination, omega arith, refl);
          local_slot = λ h. absurd (true≢false (sym h ∙ ap is_local is_op ∙ not_local));
        })
        (λ _. Keeps-pure lo js tt);
}

-- The next instruction becomes the target of a jump.
pub patch_reljmp-Keeps :
    (lo : ℕ) (js : List ℕ) (ins : ℕ) → Among ins js → Keeps lo js (patch_reljmp ins)
unfolding patch_reljmp
patch_reljmp-Keeps lo js ins among = record {
  at = λ c s le all. (
    rewrite-Extends c _ s
        (update-AllFit c.instructions _ s.fits λ lt f. record {
          offset_eq = f.offset_eq;
          jump_lands = λ h. (
            c.instruction_count,
            omega arith,
            ap (λ o. integer (distance o c.instruction_count)) f.offset_eq,
          );
          local_slot = λ h. absurd (true≢false (sym h ∙ (Patchable-Among among all).not_local));
        })
        (update-SameOpcodes c.instructions ins _ (λ instr. refl) _),
    tt,
  );
}
