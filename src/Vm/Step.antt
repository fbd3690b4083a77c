-- ===== src/Vm/Step.antt =====
-- vm.c: `run_thread`, the loop that fetches instructions and executes them.
pub mod Frames
pub mod Keeps
pub mod Bounds
pub mod Compiled
pub mod Negation
use gsc.Base.{
  ℕ, zero, suc, ◌+◌, ◌%◌, Bool, true, false, Option, none, some, List, leb, if◌then◌else◌,
}
use gsc.Base.Result.{Result, ok, err, ip_out_of_bounds, undefined_behaviour}
use gsc.Platform.{Platform}
use gsc.Compiler.Code.{Instruction}
use gsc.Vm.Event.{ThreadState}
use gsc.Vm.Machine.{StackFrame, Machine}
use gsc.Vm.Instructions.{int_mod}
use gsc.Vm.Execute.{vm_execute_instruction}

-- The patterns from here on are negative.
abbrev pub int_sign : ℕ
int_sign = 2147483648

-- `sf->ip++`
abbrev pub advanced : Machine → Machine
advanced m = record m { frame = record m.frame { ip = (m.frame.ip + 1) % int_mod } }

-- The bound is checked before the instruction is read. `ip` and the count are signed, so a negative
-- `ip` passes the check, and the instruction is read in front of the array.
unfoldable pub step : Platform → Machine → Option (Result (Machine × Bool))
step p m =
    if leb int_sign m.frame.ip
    then some (err undefined_behaviour)
    else if leb m.frame.instruction_count m.frame.ip
    then some (err ip_out_of_bounds)
    else vm_execute_instruction p (m.frame.instructions m.frame.ip) (advanced m)

abbrev is_running : ThreadState → Bool
is_running ThreadState.active = true
is_running _ = false

-- At most `fuel` rounds of the loop: `none` when the fuel ends or an instruction is left out.
abbrev continue_with :
    (Machine → Option (Result Machine)) → Option (Result (Machine × Bool)) → Option (Result Machine)
continue_with rest none = none
continue_with rest (some (err fault)) = some (err fault)
continue_with rest (some (ok (m, false))) = some (ok m)
continue_with rest (some (ok (m, true))) = rest m

unfoldable pub run_thread : Platform → ℕ → Machine → Option (Result Machine)
unfolding step
run_thread p zero m = none
run_thread p (suc fuel) m =
    if is_running m.thread.state then continue_with (run_thread p fuel) (step p m) else some (ok m)
