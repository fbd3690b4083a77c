-- ===== src/Vm/Instructions.antt =====
-- vm.c: the cases of `vm_execute_instruction` for the stack, the local variables, the jumps and the
-- returns. Reference counts of objects are left out.
use gsc.Base.{
  ℕ, ◌+◌, ◌-◌, ◌%◌, Bool, true, false, Option, none, some, List, [], ◌∷◌, length, ◌==◌, ◌||◌,
  if◌then◌else◌,
}
use gsc.Base.Word
use gsc.Base.Result.{Result, ok, err, ◌>>=◌, bad_operand, bad_global}
use gsc.ObjectPool.{ObjectPool, deallocate}
use gsc.Compiler.Code.{Operand, Instruction, string_index}
use gsc.Vm.Variable.{Variable}
use gsc.Vm.Event.{ThreadState}
use gsc.Vm.Machine.{StackFrame, Machine}
use gsc.Vm.Stack.{
  push, pop, pop_ref, pop_int, read_int, read_string_index, read_float, local, assert_stack,
}

-- An `int` from the low bits of an `int64_t`.
abbrev pub int_mod : ℕ
int_mod = 4294967296

-- `sf->ip += rel`
abbrev pub jump : ℕ → Machine → Machine
jump rel m = record m { frame = record m.frame { ip = (m.frame.ip + rel) % int_mod } }

abbrev pub jump_if : Bool → ℕ → Machine → Machine
jump_if true rel m = jump rel m
jump_if false rel m = m

-- An assignment through a reference.
abbrev pub assign : Machine → ℕ → Variable → Machine
assign m a v = record m { cells = λ b. if b == a then v else m.cells b }

-- The literal of OP_PUSH by its type.
abbrev file_of : Operand → ℕ
file_of (string_index i) = i
file_of _ = 4294967295

abbrev pub literal : ℕ → Instruction → Result Variable
literal type ins =
    if type == 0 || type == 5
    then (do i ← read_string_index ins.operand1; ok (Variable.interned_string i))
    else if type == 1
    then (do i ← read_int ins.operand1; ok (Variable.integer i))
    else if type == 2
    then (do i ← read_int ins.operand1; ok (Variable.boolean i))
    else if type == 3
    then (do f ← read_float ins.operand1; ok (Variable.float f))
    else if type == 4
    then (do i ← read_string_index ins.operand1; ok (Variable.function i (file_of ins.operand2)))
    else if type == 6
    then ok Variable.undefined
    else err bad_operand

unfoldable pub execute_push : Instruction → Machine → Result Machine
execute_push ins m = do
  type ← read_int ins.operand0
  v ← literal type ins
  m' ← push m v
  assert_stack (length m.stack + 1) m'

unfoldable pub execute_pop : Machine → Result Machine
execute_pop m = do r ← pop m; assert_stack (length m.stack - 1) r.1

unfoldable pub execute_const : ℕ → Machine → Result Machine
execute_const i m = do m' ← push m (Variable.integer i); assert_stack (length m.stack + 1) m'

-- OP_JMP, OP_JZ and OP_JNZ: whether the jump is taken depends on the result of the last test.
unfoldable pub execute_jump : (ℕ → Bool) → Instruction → Machine → Result Machine
execute_jump taken ins m = do
  rel ← read_int ins.operand0
  assert_stack (length m.stack) (jump_if (taken m.result) rel m)

unfoldable pub execute_test : Machine → Result Machine
execute_test m = do r ← pop_int m; ok (record r.1 { result = r.0 % int_mod })

unfoldable pub execute_load : Instruction → Machine → Result Machine
execute_load ins m = do
  slot ← read_int ins.operand0
  a ← local m slot
  m' ← push m (m.cells a)
  assert_stack (length m.stack + 1) m'

unfoldable pub execute_ref : Instruction → Machine → Result Machine
execute_ref ins m = do
  slot ← read_int ins.operand0
  a ← local m slot
  m' ← push m (Variable.reference a)
  assert_stack (length m.stack + 1) m'

-- The value stays on the stack. Reference counts of objects are left out.
unfoldable pub store_reference : Machine → Result Machine
store_reference m = do
  dst ← pop_ref m
  src ← pop dst.1
  m' ← push (assign src.1 dst.0 src.0) src.0
  assert_stack (length m.stack - 1) m'

-- A function on top is the setter of a proxy object, which the host calls.
abbrev pub store_top : Machine → List Variable → Option (Result Machine)
store_top m (Variable.function f g ∷ stack) = none
store_top m (Variable.native_function f ∷ stack) = none
store_top m stack = some (store_reference m)

abbrev pub is_object : Variable → Bool
is_object (Variable.object o) = true
is_object v = false

unfoldable pub execute_global : Instruction → Machine → Result Machine
execute_global ins m =
    if is_object (m.cells m.global_object)
    then (do
      w ← read_int ins.operand0
      push m
          (if Word.less 0 w then Variable.reference m.global_object else m.cells m.global_object))
    else err bad_global

-- OP_RET: the locals go back to the pool. The last frame ends the thread.
abbrev pub free_locals : ObjectPool → List ℕ → ObjectPool
free_locals pool [] = pool
free_locals pool (a ∷ locals) = free_locals (deallocate pool a) locals

abbrev pub leave : Machine → List StackFrame → Result (Machine × Bool)
leave m (frame ∷ callers) = ok (record m { frame = frame; callers = callers }, true)
leave m [] = do
  r ← pop (record m { thread = record m.thread { state = ThreadState.inactive } })
  ok (record r.1 { return_value = some r.0 }, false)

unfoldable pub execute_ret : Machine → Result (Machine × Bool)
execute_ret m = leave (record m { pool = free_locals m.pool m.frame.locals }) m.callers
