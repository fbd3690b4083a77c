-- ===== src/Vm/Execute.antt =====
-- vm.c: `vm_execute_instruction`, for the instructions that stay within the frames of a thread. Calls
-- and the instructions that read fields of objects are left out: for these the function gives `none`.
-- `true` beside the state says that the thread goes on.
use gsc.Base.{ℕ, ◌-◌, Bool, true, not, Option, none, some, length, ◌==◌, if◌then◌else◌}
use gsc.Base.Result.{Result, ok, err, ◌>>=◌, bad_opcode, bad_vector}
use gsc.Platform.{Platform}
use gsc.ObjectPool.{ObjectPool}
use gsc.Compiler.Code.{
  Opcode, Instruction, op_push, op_pop, op_undef, op_nop, op_invalid, op_load, op_store, op_ref,
  op_binop, op_ret, op_test, op_jmp, op_jz, op_jnz, op_const_0, op_const_1, op_wait, op_unary,
  op_vector, op_global, op_waittill, op_notify, op_endon,
}
use gsc.Vm.Variable.{Variable}
use gsc.Vm.Value.{coerce_float, unary}
use gsc.Vm.Binop.{binop}
use gsc.Vm.Event.{ThreadState}
use gsc.Vm.Machine.{Machine}
use gsc.Vm.Stack.{push, pop, read_int, assert_stack}
use gsc.Vm.Instructions.{
  execute_push, execute_pop, execute_const, execute_jump, execute_test, execute_load, execute_ref,
  store_top, execute_global, execute_ret,
}
use gsc.Vm.Messages.{execute_waittill, execute_notify, execute_endon}

-- A thread that only goes on, as all instructions but the last OP_RET do.
abbrev pub go_on : Result Machine → Option (Result (Machine × Bool))
go_on (err fault) = some (err fault)
go_on (ok m) = some (ok (m, true))

abbrev pub go_on_if : Option (Result Machine) → Option (Result (Machine × Bool))
go_on_if none = none
go_on_if (some r) = go_on r

abbrev pub is_zero : ℕ → Bool
is_zero n = n == 0

abbrev pub is_nonzero : ℕ → Bool
is_nonzero n = not (n == 0)

abbrev pub always : ℕ → Bool
always n = true

module _ (p : Platform) where
  -- `wait` with `undefined` waits for the next frame.
  abbrev pub wait_for : Machine → Variable → Result Machine
  wait_for m Variable.undefined =
      ok (record m { thread = record m.thread { state = ThreadState.waiting_frame } })
  wait_for m v = do
    duration ← coerce_float p m.strings v
    ok (record m { thread = record m.thread { wait = duration; state = ThreadState.waiting_time } })

  unfoldable pub execute_wait : Machine → Result Machine
  execute_wait m = do r ← pop m; wait_for r.1 r.0

  unfoldable pub execute_unary : Instruction → Machine → Result Machine
  execute_unary ins m = do
    op ← read_int ins.operand0
    r ← pop m
    v ← unary p r.1.strings r.0 op
    m' ← push r.1 v
    assert_stack (length m.stack) m'

  unfoldable pub execute_vector : Instruction → Machine → Result Machine
  execute_vector ins m = do
    nelements ← read_int ins.operand0
    if nelements == 3
        then (do
          x ← pop m
          fx ← coerce_float p m.strings x.0
          y ← pop x.1
          fy ← coerce_float p m.strings y.0
          z ← pop y.1
          fz ← coerce_float p m.strings z.0
          push z.1 (Variable.vector fx fy fz))
        else err bad_vector

  abbrev pub with_pool : Machine → Variable × ObjectPool → Result Machine
  with_pool m (v, pool) = push (record m { pool = pool }) v

  unfoldable pub execute_binop : Instruction → Machine → Result Machine
  execute_binop ins m = do
    op ← read_int ins.operand0
    b ← pop m
    a ← pop b.1
    r ← binop p a.1.strings a.0 b.0 op a.1.pool
    m' ← with_pool a.1 r
    assert_stack (length m.stack - 1) m'

  -- The instruction's opcode chooses its case. `none` is an instruction that is left out.
  abbrev pub execute : Opcode → Instruction → Machine → Option (Result (Machine × Bool))
  execute op_pop ins m = go_on (execute_pop m)
  execute op_undef ins m = go_on (push m Variable.undefined)
  execute op_const_0 ins m = go_on (execute_const 0 m)
  execute op_const_1 ins m = go_on (execute_const 1 m)
  execute op_push ins m = go_on (execute_push ins m)
  execute op_load ins m = go_on (execute_load ins m)
  execute op_ref ins m = go_on (execute_ref ins m)
  execute op_store ins m = go_on_if (store_top m m.stack)
  execute op_global ins m = go_on (execute_global ins m)
  execute op_binop ins m = go_on (execute_binop ins m)
  execute op_unary ins m = go_on (execute_unary ins m)
  execute op_vector ins m = go_on (execute_vector ins m)
  execute op_test ins m = go_on (execute_test m)
  execute op_jmp ins m = go_on (execute_jump always ins m)
  execute op_jz ins m = go_on (execute_jump is_zero ins m)
  execute op_jnz ins m = go_on (execute_jump is_nonzero ins m)
  execute op_wait ins m = go_on (execute_wait m)
  execute op_waittill ins m = go_on (execute_waittill ins m)
  execute op_notify ins m = go_on (execute_notify ins m)
  execute op_endon ins m = go_on (execute_endon m)
  execute op_ret ins m = some (execute_ret m)
  execute op_nop ins m = some (err bad_opcode)
  execute op_invalid ins m = some (err bad_opcode)
  execute _ ins m = none

  unfoldable pub vm_execute_instruction : Instruction → Machine → Option (Result (Machine × Bool))
  vm_execute_instruction ins m = execute ins.opcode ins m
