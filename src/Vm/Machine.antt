-- ===== src/Vm/Machine.antt =====
-- vm.h and vm.c: the state that an instruction reads and writes. It belongs to one thread: its stack,
-- with the top first, its frames and what it waits for, beside the strings, the events, the variables by
-- their address, and the pool of strings and locals.
use gsc.Base.{ℕ, Option, List}
use gsc.StringTable.{StringTable}
use gsc.ObjectPool.{ObjectPool}
use gsc.Compiler.Code.{Instruction}
use gsc.Vm.Variable.{Variable}
use gsc.Vm.Event.{Event, Thread}

-- A local is the address of its variable; `local_count` is the length of `locals`, of which the array
-- of the source holds the first VM_MAX_LOCALS. `ip` is the 32-bit pattern of an `int`.
pub record StackFrame : Type 0 where
  pub locals : List ℕ
  pub instructions : ℕ → Instruction
  pub instruction_count : ℕ
  pub ip : ℕ

-- `frame` is the frame at `bp`, `callers` are those below it. `sp` is the length of the stack.
-- `result` is the 32-bit pattern that OP_TEST leaves. `return_value` is what the last OP_RET writes
-- through the pointer of that name.
pub record Machine : Type 0 where
  pub stack : List Variable
  pub frame : StackFrame
  pub callers : List StackFrame
  pub result : ℕ
  pub thread : Thread
  pub return_value : Option Variable
  pub cells : ℕ → Variable
  pub global_object : ℕ
  pub strings : StringTable
  pub events : List Event
  pub pool : ObjectPool
