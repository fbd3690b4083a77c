-- ===== src/Vm/Scheduler.antt =====
-- `vm_run_threads` of vm.c: one frame, in which every queued thread has a turn of `run_thread`. As
-- there, the instructions that are left out make the outcome `none`, and so does a thread that does
-- not stop within `fuel` rounds. The instructions that start a thread are among those that are left
-- out, so the ring changes between the turns only.
pub mod Frame
use gsc.Base.{
  ℕ, zero, suc, ◌+◌, Bool, true, false, not, Option, none, some, List, [], ◌∷◌, ◌==◌, if◌then◌else◌,
}
use gsc.Base.Result.{Result, ok, err, ◌>>=◌}
use gsc.Platform.{Platform}
use gsc.ObjectPool.{ObjectPool, deallocate}
use gsc.StringTable.{StringTable}
use gsc.Vm.Variable.{Variable}
use gsc.Vm.Ring.{Ring, thread_count, add_thread, remove_thread}
use gsc.Vm.Event.{Event, Thread, ThreadState, Cells, check_endon, resume, compact, wait_time}
use gsc.Vm.Machine.{StackFrame, Machine}
use gsc.Vm.Step.{run_thread}

-- A thread with its stack and its frames.
pub record Task : Type 0 where
  pub thread : Thread
  pub stack : List Variable
  pub call : StackFrame
  pub callers : List StackFrame
  pub result : ℕ
  pub return_value : Option Variable

-- The part of the machine that a frame reads and writes; `threads` is the memory of the threads by
-- their pointers, `pool` is the one that they are taken from, and `variables` that of the strings and
-- locals.
pub record Vm : Type 0 where
  pub cells : Cells
  pub events : List Event
  pub threads : ℕ → Task
  pub ring : Ring
  pub pool : ObjectPool
  pub variables : ObjectPool
  pub strings : StringTable
  pub global_object : ℕ
  pub frame : ℕ

abbrev pub store : Vm → ℕ → Task → Vm
store vm p t = record vm { threads = λ a. if a == p then t else vm.threads a }

abbrev with_thread : Task → Thread → Task
with_thread t thread = record t { thread = thread }

-- `vm->thread = t`: what `run_thread` works on.
abbrev pub machine_of : Vm → Task → Machine
machine_of vm t = record {
  stack = t.stack;
  frame = t.call;
  callers = t.callers;
  result = t.result;
  thread = t.thread;
  return_value = t.return_value;
  cells = vm.cells;
  global_object = vm.global_object;
  strings = vm.strings;
  events = vm.events;
  pool = vm.variables;
}

abbrev pub left_by : Vm → ℕ → Machine → Vm
left_by vm p m =
    store
      (record vm {
        cells = m.cells;
        events = m.events;
        variables = m.pool;
        strings = m.strings;
        global_object = m.global_object;
      })
      p
      (record {
        thread = m.thread;
        stack = m.stack;
        call = m.frame;
        callers = m.callers;
        result = m.result;
        return_value = m.return_value;
      })

abbrev pub and_then :
    {A B : Type 0} → Option (Result A) → (A → Option (Result B)) → Option (Result B)
and_then none rest = none
and_then (some (err fault)) rest = some (err fault)
and_then (some (ok a)) rest = rest a

module _ (p : Platform) (fuel dt : ℕ) where
  -- The `switch` on the thread's state; the second part tells whether the thread is queued again.
  pub switch_state : Vm → ℕ → Task → ThreadState → Option (Result (Vm × Bool))
  switch_state vm thread t ThreadState.waiting_time =
      some (ok (store vm thread (with_thread t (wait_time p dt t.thread)), true))
  switch_state vm thread t ThreadState.waiting_frame =
      some (
        ok (store vm thread (with_thread t (record t.thread { state = ThreadState.active })), true))
  switch_state vm thread t ThreadState.inactive =
      some (ok (record (store vm thread t) { pool = deallocate vm.pool thread }, false))
  switch_state vm thread t ThreadState.active =
      and_then (run_thread p fuel (machine_of vm t)) λ m. some (ok (left_by vm thread m, true))
  switch_state vm thread t ThreadState.waiting_event =
      let (cells, events, t') = resume vm.cells vm.events t.thread in
      some
        (ok (record (store vm thread (with_thread t t')) { cells = cells; events = events }, true))

  pub requeue : Vm × Bool → ℕ → Result Vm
  requeue (vm, false) thread = ok vm
  requeue (vm, true) thread = do ring ← add_thread vm.ring thread; ok (record vm { ring = ring })

  -- The turn of the thread that was taken from the ring.
  pub take_turn : Vm → ℕ → Option (Result Vm)
  unfolding requeue switch_state
  take_turn vm thread =
      let t = with_thread (vm.threads thread) (check_endon vm.events (vm.threads thread).thread) in
      and_then (switch_state vm thread t t.thread.state) λ x. some (requeue x thread)

  pub run_turns : ℕ → Vm → Option (Result Vm)
  run_turns zero vm = some (ok vm)
  run_turns (suc n) vm =
      let (ring, first) = remove_thread vm.ring in
      elim first [
        | none ↦ some (ok vm)
        | some thread ↦ and_then (take_turn (record vm { ring = ring }) thread) (run_turns n)
      ]

  -- The frame, and whether a thread is left.
  pub vm_run_threads : Vm → Option (Result (Vm × Bool))
  unfolding run_turns
  vm_run_threads vm = and_then (run_turns (thread_count vm.ring) vm) λ vm'. some (
      ok (
        record vm' { events = compact vm'.events; frame = vm'.frame + 1 },
        not (vm'.ring.thread_read_idx == vm'.ring.thread_write_idx),
      ))
