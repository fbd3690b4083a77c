-- ===== src/Compiler/Scope.antt =====
-- compiler.c: the nested loops and switches, and the jumps of `break` and `continue`, which wait for
-- the end of the loop to learn their targets.
use gsc.Base.{
  ℕ, ◌+◌, ◌-◌, Bool, Option, none, some, List, [], ◌∷◌, ◌++◌, length, if◌then◌else◌, ltb, leb, ◌==◌,
}
use gsc.Base.Result.{ok, err, max_scope, scope_error, too_many_jumps, undefined_behaviour}
use gsc.Compiler.Code.{Instruction, op_jmp, integer, update}
use gsc.Compiler.State.{
  Action, PendingJump, JumpKind, jump_break, jump_continue, Scope, ◌>>=◌, error, gets,
}
use gsc.Compiler.Emit.{emit_base, distance}

abbrev pub compiler_max_scopes : ℕ
compiler_max_scopes = 32

abbrev pub max_pending_jumps : ℕ
max_pending_jumps = 1024

-- The check runs before the increment, so the 32nd nested scope is written behind the array.
unfoldable pub increment_scope : Bool → Bool → Action
increment_scope allows_break allows_continue = λ c.
    if leb compiler_max_scopes c.current_scope
    then err max_scope
    else if leb compiler_max_scopes (c.current_scope + 1)
    then err undefined_behaviour
    else ok (
      tt,
      record c {
        current_scope = c.current_scope + 1;
        scopes = λ i.
            if i == c.current_scope + 1
            then record { allows_break = allows_break; allows_continue = allows_continue }
            else c.scopes i;
      },
    )

-- `jumps[jump_count++]`.
unfoldable pub push_jump : JumpKind → ℕ → Action
push_jump kind i = λ c. ok (
  tt,
  record c {
    jumps = c.jumps ++ (record { ip = some i; scope = c.current_scope; kind = kind } ∷ []);
  },
)

-- `emit_break` and `emit_continue`.
unfoldable pub emit_pending : JumpKind → Action
emit_pending kind = do
  n ← gets (λ c. length c.jumps)
  if leb max_pending_jumps n
      then error too_many_jumps
      else do i ← emit_base op_jmp; push_jump kind i

-- The target that the end of the scope `level` gives a pending jump, or `none` while it waits: it is
-- patched already, belongs to a parent, or the scope does not take its kind.
unfoldable pub pending_target : Scope → ℕ → Option ℕ → ℕ → PendingJump → Option ℕ
pending_target scope level continue_offset break_offset j =
    if ltb j.scope level then none else elim j.kind [
      | jump_break ↦ if scope.allows_break then some break_offset else none
      | jump_continue ↦ if scope.allows_continue then continue_offset else none
    ]

-- One turn of the loop over the pending jumps.
abbrev pub patch_to :
    (ℕ → Instruction) → PendingJump → ℕ → Option ℕ → (ℕ → Instruction) × PendingJump
patch_to code j i (some offset) = (
  update code i (λ instr. record instr { operand0 = integer (distance i offset) }),
  record j { ip = none },
)
patch_to code j i none = (code, j)

abbrev pub patch_jump :
    (PendingJump → Option ℕ)
    → (ℕ → Instruction)
    → PendingJump
    → Option ℕ
    → (ℕ → Instruction) × PendingJump
patch_jump target_of code j none = (code, j)
patch_jump target_of code j (some i) = patch_to code j i (target_of j)

unfoldable pub patch_jumps :
    (PendingJump → Option ℕ)
    → (ℕ → Instruction)
    → List PendingJump
    → (ℕ → Instruction) × List PendingJump
patch_jumps target_of code [] = (code, [])
patch_jumps target_of code (j ∷ js) =
    let (code', j') = patch_jump target_of code j j.ip in
    let (code'', js') = patch_jumps target_of code' js in (code'', j' ∷ js')

-- `decrement_scope`. A `continue_offset` of -1 is `none`.
unfoldable pub decrement_scope : Option ℕ → ℕ → Action
decrement_scope continue_offset break_offset = λ c.
    let scope = c.scopes c.current_scope in
    let (code, jumps) =
      patch_jumps (pending_target scope c.current_scope continue_offset break_offset) c.instructions
        c.jumps in
    if c.current_scope == 0
    then err scope_error
    else ok
        (tt, record c { instructions = code; jumps = jumps; current_scope = c.current_scope - 1 })
