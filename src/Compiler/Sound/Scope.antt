-- ===== src/Compiler/Sound/Scope.antt =====
-- compiler.c: opening and closing a scope, and the pending jumps of `break` and `continue`, keep the
-- state sound. The end of a scope gives its jumps targets among the instructions.
use mathlib.Core.Bool.{true≢false}
use gsc.Base.{
  ℕ, ◌+◌, ◌≤◌, Bool, Option, none, some, List, [], ◌∷◌, ◌++◌, ◌≡◌, refl, sym, ◌∙◌, arith,
  Bool-cases, leb, ◌==◌, inl, inr,
}
use gsc.Compiler.Code.{op_jmp, Instruction}
use gsc.Compiler.State.{Compiler, PendingJump, JumpKind, Scope}
use gsc.Compiler.Scope.{
  compiler_max_scopes, increment_scope, push_jump, emit_pending, pending_target, patch_to,
  patch_jump, patch_jumps, decrement_scope,
}
use gsc.Compiler.Sound.Invariant.{
  AllFit, SameOpcodes, Patchable, AllPatchable, pending_index, pending, IsSound, Extends, Keeps,
  no_new, AllPatchable-mono, AllPatchable-append, AllPatchable-split,
}
use gsc.Compiler.Sound.Actions.{
  Among, here, Patchable-Among, update-AllFit, Keeps-bind, Keeps-gets, KeepsWith-error,
  KeepsWith-if,
}
use gsc.Compiler.Sound.Emit.{Keeps-jump}
use gsc.Compiler.Sound.Append.{update-SameOpcodes}

-- The scopes and the pending jumps say nothing of the instructions.
scoped-Extends :
    (c : Compiler) (scopes : ℕ → Scope) (current_scope : ℕ) (jumps : List PendingJump)
    → IsSound c
    → AllPatchable c.instruction_count c.instructions (pending jumps)
    → Extends c (record c { scopes = scopes; current_scope = current_scope; jumps = jumps })
scoped-Extends c scopes current_scope jumps s all = record {
  sound = record {
    count_le = s.count_le;
    max_le = s.max_le;
    self_defined = s.self_defined;
    slots = s.slots;
    fits = s.fits;
    pending_patchable = all;
  };
  count_mono = omega arith;
  opcodes = λ i lt. refl;
}

pub increment_scope-Keeps :
    (lo : ℕ) (js : List ℕ) (allows_break allows_continue : Bool)
    → Keeps lo js (increment_scope allows_break allows_continue)
unfolding increment_scope
increment_scope-Keeps lo js allows_break allows_continue = record {
  at = λ c s le all. elim (Bool-cases (leb compiler_max_scopes c.current_scope)) [
    | inl e ↦ rw e tt
    | inr e ↦ elim (Bool-cases (leb compiler_max_scopes (c.current_scope + 1))) [
      | inl e' ↦ rw (e, e') tt
      | inr e' ↦ rw (e, e') (scoped-Extends c _ _ c.jumps s s.pending_patchable, tt)
    ]
  ];
}

pending-append :
    (count : ℕ) (code : ℕ → Instruction) (js : List PendingJump) (j : PendingJump)
    → AllPatchable count code (pending js)
    → AllPatchable count code (pending_index j.ip)
    → AllPatchable count code (pending (js ++ (j ∷ [])))
pending-append count code [] j all p = AllPatchable-append count code (pending_index j.ip) [] p tt
pending-append count code (k ∷ js) j all p =
    let (q, all') = AllPatchable-split count code (pending_index k.ip) (pending js) all in
    AllPatchable-append count code (pending_index k.ip) _ q (pending-append count code js j all' p)

push_jump-Keeps :
    (lo : ℕ) (js : List ℕ) (kind : JumpKind) (i : ℕ) → Among i js → Keeps lo js (push_jump kind i)
unfolding push_jump
push_jump-Keeps lo js kind i among = record {
  at = λ c s le all. (
    scoped-Extends c c.scopes c.current_scope _ s (
        pending-append _ _ c.jumps (record { ip = some i; scope = c.current_scope; kind = kind })
          s.pending_patchable (Patchable-Among among all, tt)),
    tt,
  );
}

pub emit_pending-Keeps : (lo : ℕ) (js : List ℕ) (kind : JumpKind) → Keeps lo js (emit_pending kind)
unfolding emit_pending
emit_pending-Keeps lo js kind = Keeps-bind lo js no_new _ _ (Keeps-gets lo js _) λ n.
    KeepsWith-if lo js no_new _ _ _ (KeepsWith-error lo js no_new _)
      (Keeps-jump lo js no_new op_jmp _ refl λ i. push_jump-Keeps lo (i ∷ js) kind i here)

-- The buffer and the pending jumps as `decrement_scope` rewrites them.
record Patches (count n : ℕ) (code : ℕ → Instruction) (r : (ℕ → Instruction) × List PendingJump)
    : Type 0 where
  patched_fits : AllFit count n r.0
  patched_pending : AllPatchable count r.0 (pending r.1)
  patched_opcodes : SameOpcodes count code r.0

module _ (count n : ℕ) (target_of : PendingJump → Option ℕ)
    (lands : (j : PendingJump) (d : ℕ) → target_of j ≡ some d → d ≤ count) where
  patch_to-Patches :
      (code : ℕ → Instruction) (j : PendingJump) (i : ℕ) (o : Option ℕ)
      → AllFit count n code
      → Patchable count code i
      → j.ip ≡ some i
      → target_of j ≡ o
      → let (code', j') = patch_to code j i o in Patches count n code (code', j' ∷ [])
  patch_to-Patches code j i none fits p at e = record {
    patched_fits = fits;
    patched_pending = rw at (p, tt);
    patched_opcodes = λ k lt. refl;
  }
  patch_to-Patches code j i (some d) fits p at e = record {
    patched_fits = update-AllFit code _ fits λ lt f. record {
      offset_eq = f.offset_eq;
      jump_lands = λ h. (d, lands j d e, refl);
      local_slot = λ h. absurd (true≢false (sym h ∙ p.not_local));
    };
    patched_pending = tt;
    patched_opcodes = update-SameOpcodes code i _ (λ instr. refl) count;
  }

  patch_jump-Patches :
      (code : ℕ → Instruction) (j : PendingJump) (o : Option ℕ)
      → AllFit count n code
      → AllPatchable count code (pending_index o)
      → j.ip ≡ o
      → let (code', j') = patch_jump target_of code j o in Patches count n code (code', j' ∷ [])
  patch_jump-Patches code j none fits all e = record {
    patched_fits = fits;
    patched_pending = rw e tt;
    patched_opcodes = λ k lt. refl;
  }
  patch_jump-Patches code j (some i) fits (p, all) e =
      patch_to-Patches code j i (target_of j) fits p e refl

  patch_jumps-Patches :
      (code : ℕ → Instruction) (js : List PendingJump)
      → AllFit count n code
      → AllPatchable count code (pending js)
      → Patches count n code (patch_jumps target_of code js)
  unfolding patch_jumps
  patch_jumps-Patches code [] fits all = record {
    patched_fits = fits;
    patched_pending = tt;
    patched_opcodes = λ k lt. refl;
  }
  patch_jumps-Patches code (j ∷ js) fits all =
      let (p, ps) = AllPatchable-split count code (pending_index j.ip) (pending js) all in
      let first = patch_jump-Patches code j j.ip fits p refl in
      let same = first.patched_opcodes in
      let rest =
        patch_jumps-Patches (patch_jump target_of code j j.ip).0 js first.patched_fits
          (AllPatchable-mono count count _ _ (pending js) (omega arith) same ps) in
      record {
        patched_fits = rest.patched_fits;
        patched_pending =
            let (p', _) = AllPatchable-split count _ (pending_index _) [] first.patched_pending in
            AllPatchable-append count _ (pending_index _) _
              (AllPatchable-mono count count _ _ (pending_index _) (omega arith)
                rest.patched_opcodes p')
              rest.patched_pending;
        patched_opcodes = λ k lt. rest.patched_opcodes k lt ∙ same k lt;
      }

-- A target that is there once `lo` instructions are.
abbrev pub AtMost : ℕ → Option ℕ → Type 0
AtMost lo o = (d : ℕ) → o ≡ some d → d ≤ lo

target-le :
    (lo : ℕ) (scope : Scope) (level : ℕ) (continue_offset : Option ℕ) (break_offset : ℕ)
    → AtMost lo continue_offset
    → break_offset ≤ lo
    → (j : PendingJump) (d : ℕ) → pending_target scope level continue_offset break_offset j ≡ some d
    → d ≤ lo
unfolding pending_target
target-le lo scope level continue_offset break_offset m le j d e = let m' = m d in ground arith

pub decrement_scope-Keeps :
    (lo : ℕ) (js : List ℕ) (continue_offset : Option ℕ) (break_offset : ℕ)
    → AtMost lo continue_offset
    → break_offset ≤ lo
    → Keeps lo js (decrement_scope continue_offset break_offset)
unfolding decrement_scope
decrement_scope-Keeps lo js continue_offset break_offset m le = record {
  at = λ c s lo-le all.
      let p =
        patch_jumps-Patches c.instruction_count c.variable_index
          (pending_target (c.scopes c.current_scope) c.current_scope continue_offset break_offset)
          (λ j d e.
            let d-le = target-le lo _ _ continue_offset break_offset m le j d e in omega arith)
          c.instructions c.jumps s.fits s.pending_patchable in
      elim (Bool-cases (c.current_scope == 0)) [
        | inl e ↦ rw e tt
        | inr e ↦ rw e (
          record {
            sound = record {
              count_le = s.count_le;
              max_le = s.max_le;
              self_defined = s.self_defined;
              slots = s.slots;
              fits = p.patched_fits;
              pending_patchable = p.patched_pending;
            };
            count_mono = omega arith;
            opcodes = p.patched_opcodes;
          },
          tt,
        )
      ];
}
