-- ===== src/Vm/Step/Compiled.antt =====
-- compiler.c and vm.c together: the machines that `run_thread` comes to from a compiled function.
use gsc.Base.{ℕ, ◌<◌, true, some, ◌≡◌, arith}
use gsc.Base.Result.{ok}
use gsc.Platform.{Platform}
use gsc.Compiler.Syntax.{Node, Nodes}
use gsc.Compiler.State.{Compiler}
use gsc.Compiler.Function.{compile_function}
use gsc.Compiler.Sound.Function.{compile_function-IsExecutable}
use gsc.Vm.Event.{ThreadState}
use gsc.Vm.Machine.{StackFrame, Machine}
use gsc.Vm.Execute.{vm_execute_instruction}
use gsc.Vm.Step.{advanced, step}
use gsc.Vm.Step.Bounds.{InBounds, AllInBounds, ThreadInBounds, step-InBounds}

-- The machines before the rounds of the loop of `run_thread`: the thread is active, and the round
-- goes on.
pub data Reached (p : Platform) (m : Machine) : Machine → Type 0 where
  start : Reached p m m
  next :
      {m' m'' : Machine}
      → Reached p m m'
      → m'.thread.state ≡ ThreadState.active
      → step p m' ≡ some (ok (m'', true))
      → Reached p m m''

Reached-ThreadInBounds :
    (p : Platform) (m m' : Machine) → ThreadInBounds m → Reached p m m' → ThreadInBounds m'
Reached-ThreadInBounds p m m' b Reached.start = b
Reached-ThreadInBounds p m m'' b (Reached.next {m' = m'} r active e) =
    (step-InBounds p m' (Reached-ThreadInBounds p m m' b r)).1 m'' e

-- A frame at the start of a function that `compile_function` has returned.
pub record IsEntered (n : ℕ) (c : Compiler) (frame : StackFrame) : Type 0 where
  pub code : frame.instructions ≡ c.instructions
  pub count : frame.instruction_count ≡ n
  pub at_start : frame.ip ≡ 0

pub IsEntered-InBounds :
    (tolower : ℕ → ℕ) (parameters : Nodes) (body : Node) (c c' : Compiler) (n : ℕ)
    (frame : StackFrame)
    → compile_function tolower parameters body c ≡ ok (n, c')
    → IsEntered n c' frame
    → InBounds frame
IsEntered-InBounds tolower parameters body c c' n frame e f =
    let x = compile_function-IsExecutable tolower parameters body c c' n e in
    let (last, count, ret) = x.ends in
    rw (f.code, f.count)
      (record {
        jumps = x.jumps;
        ends = x.ends;
        count_le = x.count_le;
        ip_lt = omega (arith, f.at_start);
      })

-- A thread whose frame stands at the start of a function that `compile_function` returned, and whose
-- callers run code of the same kind, never leaves that code, however many rounds `run_thread` makes
-- and whatever their instructions do: at each machine that it comes to, the check of `ip` passes and
-- the instruction at `ip` is executed, in this function and in the callers that it returns to. Calls
-- and the instructions that read fields are not among the rounds.
pub compiled-Reached :
    (p : Platform) (tolower : ℕ → ℕ) (parameters : Nodes) (body : Node) (c c' : Compiler) (n : ℕ)
    (m m' : Machine)
    → compile_function tolower parameters body c ≡ ok (n, c')
    → IsEntered n c' m.frame
    → AllInBounds m.callers
    → Reached p m m'
    → (m'.frame.ip < m'.frame.instruction_count)
      × (step p m' ≡ vm_execute_instruction p (m'.frame.instructions m'.frame.ip) (advanced m'))
compiled-Reached p tolower parameters body c c' n m m' e f callers r =
    let b =
      Reached-ThreadInBounds p m m'
        (IsEntered-InBounds tolower parameters body c c' n m.frame e f, callers) r in
    (b.0.ip_lt, (step-InBounds p m' b).0)
