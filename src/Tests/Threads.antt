-- ===== src/Tests/Threads.antt =====
-- The ring of threads, the events and a frame of vm.c on concrete inputs.
use gsc.Base.{
  ℕ, ◌+◌, ◌<◌, true, false, none, [], ◌∷◌, ◌++◌, ◌≡◌, refl, arith, ◌==◌, if◌then◌else◌, length,
  codes,
}
use gsc.Base.Result.{ok}
use gsc.Trie.{empty, find}
use gsc.Arena.{allocate_memory}
use gsc.StringTable.{StringTable, interned, intern}
use gsc.Vm.Variable.{Variable}
use gsc.Vm.Ring.{Ring, thread_count, add_thread, remove_thread}
use gsc.Vm.Ring.Queue
use gsc.Vm.Ring.Queue.{queue, front, add_thread-queue, remove_thread-queue}
use gsc.Vm.Event.{
  Event, Thread, ThreadState, Cells, check_endon, resume, deliver, compact, vm_notify_args,
}
use gsc.Vm.Event.Once.{resume-first, resume-notify, check_endon_lem, is_ended_by}
use gsc.Compiler.Code.{Instruction, op_undef, op_ret, none_operand}
use gsc.Vm.Scheduler.{Task, Vm}

-- Two threads around the end of four slots.
abbrev ring : Ring
ring = record {
  max_threads = 4;
  thread_buffer = 20 ∷ 30 ∷ 0 ∷ 10 ∷ [];
  thread_read_idx = 3;
  thread_write_idx = 1;
}

ring-IsValid : Queue.IsValid ring
ring-IsValid = record { whole = refl; read_inside = omega arith; write_inside = omega arith }

ring-queue : queue ring ≡ 10 ∷ 20 ∷ []
unfolding thread_count
ring-queue = refl

ring-room : length (queue ring) + 1 < 4
unfolding thread_count
ring-room = omega arith

add_thread-queue_example :
    (r : Ring) × (add_thread ring 40 ≡ ok r)
    × Queue.IsValid r
    × (queue r ≡ queue ring ++ (40 ∷ []))
    × (r.max_threads ≡ 4)
add_thread-queue_example = add_thread-queue ring 40 ring-IsValid ring-room

remove_thread-queue_example :
    Queue.IsValid (remove_thread ring).0
    × (queue ring ≡ front (remove_thread ring).1 (queue (remove_thread ring).0))
    × ((remove_thread ring).0.max_threads ≡ 4)
remove_thread-queue_example = remove_thread-queue ring ring-IsValid

abbrev cells : Cells
cells a = Variable.undefined

-- A thread that waits for event 0 on object 7 with one argument, and ends on event 5.
abbrev waiting : Thread
waiting = record {
  state = ThreadState.waiting_event;
  wait = 0;
  waittill_name = 0;
  waittill_object = 7;
  waittill_arguments = 64 ∷ [];
  endon = 5 ∷ [];
}

abbrev event : ℕ → Event
event name = record { name = name; object = 7; arguments = Variable.integer 3 ∷ []; active = true }

resume-first_example : resume cells (event 5 ∷ event 0 ∷ event 0 ∷ []) waiting ≡ (
  deliver cells (64 ∷ []) (Variable.integer 3 ∷ []),
  event 5 ∷ record (event 0) { active = false } ∷ event 0 ∷ [],
  record waiting { state = ThreadState.active },
)
resume-first_example =
    resume-first cells (event 5 ∷ []) (event 0 ∷ []) (event 0) waiting (refl, tt) refl

check_endon_lem_example : check_endon (event 0 ∷ event 5 ∷ []) waiting ≡ (
    if is_ended_by (event 0 ∷ event 5 ∷ []) waiting
    then record waiting { state = ThreadState.inactive }
    else waiting)
check_endon_lem_example = check_endon_lem (event 0 ∷ event 5 ∷ []) waiting

abbrev strings : StringTable
strings = record {
  head = empty;
  begin = record { beg = 4096; end = 8096; jmp_oom = true };
  end = record { beg = 10496; end = 12096; jmp_oom = true };
  strings = [];
  entries = [];
  index = 0;
  max_entries = 60;
}

abbrev with_spawned : StringTable
with_spawned = (intern strings (codes "spawned")).0

intern-spawned : intern strings (codes "spawned") ≡ (with_spawned, interned 0)
unfolding intern allocate_memory find
intern-spawned = refl

notify-spawned :
    vm_notify_args strings (event 5 ∷ []) 7 (codes "spawned") (Variable.integer 3 ∷ [])
    ≡ ok (with_spawned, event 5 ∷ event 0 ∷ [])
unfolding vm_notify_args intern allocate_memory find
notify-spawned = refl

resume-notify_example :
    ((resume cells (event 5 ∷ event 0 ∷ []) waiting).0
      ≡ deliver cells (64 ∷ []) (Variable.integer 3 ∷ []))
    × ((resume cells (event 5 ∷ event 0 ∷ []) waiting).2
        ≡ record waiting { state = ThreadState.active })
    × (compact (resume cells (event 5 ∷ event 0 ∷ []) waiting).1 ≡ compact (event 5 ∷ []))
resume-notify_example =
    resume-notify strings with_spawned cells (event 5 ∷ []) (codes "spawned")
      (Variable.integer 3 ∷ []) waiting (refl, tt) intern-spawned notify-spawned

-- A thread that runs `return undefined`, and one that waits for an event.
abbrev code : ℕ → Instruction
code i = record {
  offset = i;
  opcode = if i == 0 then op_undef else op_ret;
  operand0 = none_operand;
  operand1 = none_operand;
  operand2 = none_operand;
  operand3 = none_operand;
}

abbrev task : Thread → Task
task t = record {
  thread = t;
  stack = [];
  call = record { locals = []; instructions = code; instruction_count = 2; ip = 0 };
  callers = [];
  result = 0;
  return_value = none;
}

abbrev vm : Vm
vm = record {
  cells = cells;
  events = event 5 ∷ [];
  threads = λ a.
      task (if a == 10 then waiting else record waiting { state = ThreadState.active; endon = [] });
  ring = ring;
  pool = record { struct_size = 1; size = 0; capacity = 0; free_list = []; initial_memory = none };
  variables = record {
    struct_size = 16;
    size = 0;
    capacity = 0;
    free_list = [];
    initial_memory = none;
  };
  strings = strings;
  global_object = 0;
  frame = 0;
}
