-- ===== src/Compiler/Sound/Pending.antt =====
-- compiler.c: what `decrement_scope` does to each pending jump and to the instructions.
use mathlib.Core.Path.{subst}
use gsc.Base.{
  ℕ, ◌+◌, ◌<◌, ◌≤◌, true, false, Option, none, some, List, [], ◌∷◌, ◌≡◌, ◌≢◌, ◌⊎◌, refl, sym, ◌∙◌,
  arith, Bool-cases, ◌==◌, inl, inr, ltb, ltb→lt, ltb-false, ap,
}
use gsc.Base.Result.{Result, ok, err}
use gsc.Compiler.Code.{Instruction, integer, update}
use gsc.Compiler.Emit.{distance}
use gsc.Compiler.State.{Compiler, PendingJump, JumpKind, jump_break, jump_continue, Scope}
use gsc.Compiler.Scope.{pending_target, patch_to, patch_jump, patch_jumps, decrement_scope}

-- A jump of the list waits at the instruction `i`.
abbrev pub Pending : ℕ → List PendingJump → Type 0
Pending i [] = ⊥
Pending i (j ∷ js) = (j.ip ≡ some i) ⊎ Pending i js

-- No two jumps wait at one instruction.
abbrev pub Distinct : List PendingJump → Type 0
Distinct [] = Unit
Distinct (j ∷ js) = ((i : ℕ) → j.ip ≡ some i → ¬ (Pending i js)) × Distinct js

-- A jump that the scope `level` and those within it leave to the scopes around it: it stands outside
-- the scope, or is of a kind that the scope does not take.
abbrev pub BelongsOutside : Scope → ℕ → PendingJump → Type 0
BelongsOutside scope level j =
    (j.scope < level)
    ⊎ (((j.kind ≡ jump_break) × (scope.allows_break ≡ false))
        ⊎ ((j.kind ≡ jump_continue) × (scope.allows_continue ≡ false)))

-- A jump inside the scope of a kind that the scope takes.
abbrev pub BelongsInside : Scope → ℕ → JumpKind → PendingJump → Type 0
BelongsInside scope level jump_break j =
    (level ≤ j.scope) × (j.kind ≡ jump_break) × (scope.allows_break ≡ true)
BelongsInside scope level jump_continue j =
    (level ≤ j.scope) × (j.kind ≡ jump_continue) × (scope.allows_continue ≡ true)

-- The instruction `i` as it was, with the distance to the target as its first operand.
abbrev pub aimed : (ℕ → Instruction) → ℕ → ℕ → Instruction
aimed code i target = record (code i) { operand0 = integer (distance i target) }

-- A pending jump before and after, with its instruction before (in `code`) and after (in `code'`).
pub data Settled (scope : Scope) (level continue_offset break_offset : ℕ)
    (code code' : ℕ → Instruction) : PendingJump → PendingJump → Type 0 where
  resolved :
      {j : PendingJump}
      → j.ip ≡ none
      → Settled scope level continue_offset break_offset code code' j j
  breaks :
      {j : PendingJump} (i : ℕ)
      → j.ip ≡ some i
      → BelongsInside scope level jump_break j
      → code' i ≡ aimed code i break_offset
      → Settled scope level continue_offset break_offset code code' j (record j { ip = none })
  continues :
      {j : PendingJump} (i : ℕ)
      → j.ip ≡ some i
      → BelongsInside scope level jump_continue j
      → code' i ≡ aimed code i continue_offset
      → Settled scope level continue_offset break_offset code code' j (record j { ip = none })
  waits :
      {j : PendingJump} (i : ℕ)
      → j.ip ≡ some i
      → BelongsOutside scope level j
      → code' i ≡ code i
      → Settled scope level continue_offset break_offset code code' j j

pub data AllSettled (scope : Scope) (level continue_offset break_offset : ℕ)
    (code code' : ℕ → Instruction) : List PendingJump → List PendingJump → Type 0 where
  none_left : AllSettled scope level continue_offset break_offset code code' [] []
  and_then :
      {j j' : PendingJump} {js js' : List PendingJump}
      → Settled scope level continue_offset break_offset code code' j j'
      → AllSettled scope level continue_offset break_offset code code' js js'
      → AllSettled scope level continue_offset break_offset code code' (j ∷ js) (j' ∷ js')

kind-cases : (k : JumpKind) → (k ≡ jump_break) ⊎ (k ≡ jump_continue)
kind-cases jump_break = inl refl
kind-cases jump_continue = inr refl

update-other :
    (code : ℕ → Instruction) (i k : ℕ) (f : Instruction → Instruction)
    → k ≢ i
    → update code i f k ≡ code k
unfolding update
update-other code i k f other = ground arith

update-same :
    (code : ℕ → Instruction) (i : ℕ) (f : Instruction → Instruction)
    → update code i f i ≡ f (code i)
unfolding update
update-same code i f = ground arith

-- The instructions that no jump waits at are kept.
patch_to-untouched :
    (code : ℕ → Instruction) (j : PendingJump) (i k : ℕ) (o : Option ℕ)
    → k ≢ i
    → (patch_to code j i o).0 k ≡ code k
patch_to-untouched code j i k none other = refl
patch_to-untouched code j i k (some d) other = update-other code i k _ other

patch_jump-untouched :
    (target_of : PendingJump → Option ℕ) (code : ℕ → Instruction) (j : PendingJump) (k : ℕ)
    (ip : Option ℕ)
    → ip ≢ some k
    → (patch_jump target_of code j ip).0 k ≡ code k
patch_jump-untouched target_of code j k none other = refl
patch_jump-untouched target_of code j k (some i) other =
    patch_to-untouched code j i k (target_of j) λ e. other (ap some (sym e))

patch_jumps-untouched :
    (target_of : PendingJump → Option ℕ) (code : ℕ → Instruction) (js : List PendingJump) (k : ℕ)
    → ¬ (Pending k js)
    → (patch_jumps target_of code js).0 k ≡ code k
unfolding patch_jumps
patch_jumps-untouched target_of code [] k other = refl
patch_jumps-untouched target_of code (j ∷ js) k other =
    patch_jumps-untouched target_of (patch_jump target_of code j j.ip).0 js k (λ p. other (inr p))
    ∙ patch_jump-untouched target_of code j k j.ip (λ e. other (inl e))

module _ (scope : Scope) (level continue_offset break_offset : ℕ) where
  abbrev target_of : PendingJump → Option ℕ
  target_of = pending_target scope level (some continue_offset) break_offset

  -- What the scope makes of a jump, with the target that it gives.
  target-cases :
      (j : PendingJump)
      → ((target_of j ≡ some break_offset) × BelongsInside scope level jump_break j)
        ⊎ (((target_of j ≡ some continue_offset) × BelongsInside scope level jump_continue j)
            ⊎ ((target_of j ≡ none) × BelongsOutside scope level j))
  unfolding pending_target
  target-cases j = elim (Bool-cases (ltb j.scope level)) [
    | inl outside ↦ inr (inr (rw outside refl, inl (ltb→lt _ _ outside)))
    | inr inside ↦ elim (kind-cases j.kind) [
      | inl kind ↦ elim (Bool-cases scope.allows_break) [
        | inl taken ↦ inl (rw (inside, kind, taken) refl, (ltb-false _ _ inside, kind, taken))
        | inr left ↦ inr (inr (rw (inside, kind, left) refl, inr (inl (kind, left))))
      ]
      | inr kind ↦ elim (Bool-cases scope.allows_continue) [
        | inl taken ↦ inr (inl (rw (inside, kind, taken) refl, (ltb-false _ _ inside, kind, taken)))
        | inr left ↦ inr (inr (rw (inside, kind, left) refl, inr (inr (kind, left))))
      ]
    ]
  ]

  abbrev Settles : (ℕ → Instruction) → (ℕ → Instruction) → PendingJump → PendingJump → Type 0
  Settles = Settled scope level continue_offset break_offset

  abbrev After : (ℕ → Instruction) → PendingJump → ℕ → (ℕ → Instruction) × PendingJump → Type 0
  After original j i (code', j') =
      (code'' : ℕ → Instruction) → code'' i ≡ code' i → Settles original code'' j j'

  -- A turn of the loop, where nothing behind it touches the instruction.
  patch_to-Settled :
      (original code : ℕ → Instruction) (j : PendingJump) (i : ℕ)
      → j.ip ≡ some i
      → code i ≡ original i
      → After original j i (patch_to code j i (target_of j))
  patch_to-Settled original code j i at same = elim (target-cases j) [
    | inl (e, inside) ↦
        subst (λ o. After original j i (patch_to code j i o)) (sym e)
          λ code'' kept. Settled.breaks i at inside (
            kept
            ∙ update-same code i _
            ∙ ap (λ (x : Instruction). record x { operand0 = integer (distance i break_offset) })
                same)
    | inr (inl (e, inside)) ↦
        subst (λ o. After original j i (patch_to code j i o)) (sym e)
          λ code'' kept. Settled.continues i at inside (
            kept
            ∙ update-same code i _
            ∙ ap (λ (x : Instruction). record x { operand0 = integer (distance i continue_offset) })
                same)
    | inr (inr (e, outside)) ↦
        subst (λ o. After original j i (patch_to code j i o)) (sym e)
          λ code'' kept. Settled.waits i at outside (kept ∙ same)
  ]

  patch_jump-Settled :
      (original code code'' : ℕ → Instruction) (j : PendingJump) (ip : Option ℕ)
      → j.ip ≡ ip
      → ((i : ℕ) → ip ≡ some i → code i ≡ original i)
      → ((i : ℕ) → ip ≡ some i → code'' i ≡ (patch_jump target_of code j ip).0 i)
      → Settles original code'' j (patch_jump target_of code j ip).1
  patch_jump-Settled original code code'' j none e same kept = Settled.resolved e
  patch_jump-Settled original code code'' j (some i) e same kept =
      patch_to-Settled original code j i e (same i refl) code'' (kept i refl)

  patch_jumps-AllSettled :
      (original code : ℕ → Instruction) (js : List PendingJump)
      → Distinct js
      → ((i : ℕ) → Pending i js → code i ≡ original i)
      → AllSettled scope level continue_offset break_offset original
          (patch_jumps target_of code js).0
          js
          (patch_jumps target_of code js).1
  unfolding patch_jumps
  patch_jumps-AllSettled original code [] d same = AllSettled.none_left
  patch_jumps-AllSettled original code (j ∷ js) (apart, d) same =
      let first = (patch_jump target_of code j j.ip).0 in
      AllSettled.and_then
        (patch_jump-Settled original code (patch_jumps target_of first js).0 j j.ip refl
          (λ i e. same i (inl e)) (λ i e. patch_jumps-untouched target_of first js i (apart i e)))
        (patch_jumps-AllSettled original first js d
          λ i p. patch_jump-untouched target_of code j i j.ip (λ e. apart i e p) ∙ same i (inr p))

-- What `decrement_scope` leaves where it returns.
pub record IsLeft (continue_offset break_offset : ℕ) (c c' : Compiler) : Type 0 where
  pub settled :
      AllSettled
        (c.scopes c.current_scope)
        c.current_scope
        continue_offset
        break_offset
        c.instructions
        c'.instructions
        c.jumps
        c'.jumps
  pub others : (i : ℕ) → ¬ (Pending i c.jumps) → c'.instructions i ≡ c.instructions i
  pub count : c'.instruction_count ≡ c.instruction_count
  pub level : c'.current_scope + 1 ≡ c.current_scope

abbrev Left : ℕ → ℕ → Compiler → Result (Unit {0} × Compiler) → Type 0
Left continue_offset break_offset c (err fault) = Unit
Left continue_offset break_offset c (ok (_, c')) = IsLeft continue_offset break_offset c c'

decrement_scope-Left :
    (continue_offset break_offset : ℕ) (c : Compiler)
    → Distinct c.jumps
    → Left continue_offset break_offset c (decrement_scope (some continue_offset) break_offset c)
unfolding decrement_scope
decrement_scope-Left continue_offset break_offset c d = elim (Bool-cases (c.current_scope == 0)) [
  | inl zero ↦ rw zero tt
  | inr nonzero ↦ rw nonzero (record {
    settled =
        patch_jumps-AllSettled (c.scopes c.current_scope) c.current_scope continue_offset
          break_offset c.instructions c.instructions c.jumps d (λ i p. refl);
    others = λ i. patch_jumps-untouched _ c.instructions c.jumps i;
    count = refl;
    level = ground arith;
  })
]

-- Where `decrement_scope` returns, it has left the scope and settled each pending jump. A `break` or
-- `continue` that stands in the scope or within it, and whose kind the scope takes, jumps to the
-- offset of its kind, with the distance from its own instruction, and waits no longer. Any other is
-- as it was, and so is its instruction. No other instruction is changed. No two jumps wait at one
-- instruction, and the scope has a target for `continue`.
pub decrement_scope-IsLeft :
    (continue_offset break_offset : ℕ) (c c' : Compiler)
    → Distinct c.jumps
    → decrement_scope (some continue_offset) break_offset c ≡ ok (tt, c')
    → IsLeft continue_offset break_offset c c'
decrement_scope-IsLeft continue_offset break_offset c c' d e =
    subst (Left continue_offset break_offset c) e
      (decrement_scope-Left continue_offset break_offset c d)
