-- ===== src/Vm/Messages.antt =====
-- vm.c: the cases of `vm_execute_instruction` that wait for events and send them.
use gsc.Base.{ℕ, zero, suc, ◌-◌, ◌%◌, List, [], ◌∷◌, ◌++◌, length, leb, ltb, if◌then◌else◌}
use gsc.Base.Result.{Result, ok, err, ◌>>=◌, not_an_object, endon_overflow}
use gsc.StringTable.{StringTable}
use gsc.Compiler.Code.{Instruction}
use gsc.Vm.Variable.{Variable}
use gsc.Vm.Value.{variable_string, follow}
use gsc.Vm.Event.{Event, ThreadState, vm_notify_args}
use gsc.Vm.Machine.{Machine}
use gsc.Vm.Stack.{push, pop, pop_ref, pop_many, read_int, vm_string_index}
use gsc.Vm.Instructions.{int_mod}

-- The number of values behind the name: `nargs - 1`, where `nargs` is an `int`.
abbrev pub value_count : ℕ → ℕ
value_count nargs = let n = nargs % int_mod in if leb 2147483648 n then 0 else n - 1

abbrev pub vm_max_event_args : ℕ
vm_max_event_args = 16

abbrev pub captured_count : ℕ → ℕ
captured_count n = if ltb n vm_max_event_args then n else vm_max_event_args

abbrev pub object_operand : Variable → Result ℕ
object_operand (Variable.object o) = ok o
object_operand v = err not_an_object

abbrev pub captured : ℕ → List ℕ × Machine → Result (List ℕ × Machine)
captured a (rest, m) = ok (a ∷ rest, m)

-- `pop` of `n` references.
unfoldable pub pop_references : ℕ → Machine → Result (List ℕ × Machine)
pop_references zero m = ok ([], m)
pop_references (suc n) m = do a ← pop_ref m; rest ← pop_references n a.1; captured a.0 rest

-- OP_WAITTILL: what the thread waits for. The references behind the sixteenth are dropped.
abbrev pub wait_event : Machine → ℕ → ℕ → List ℕ → Machine
wait_event m name object arguments = record m {
  thread = record m.thread {
    waittill_arguments = arguments;
    waittill_name = name;
    waittill_object = object;
    state = ThreadState.waiting_event;
  };
}

unfoldable pub execute_waittill : Instruction → Machine → Result Machine
execute_waittill ins m = do
  nargs ← read_int ins.operand0
  target ← pop m
  name ← pop target.1
  object ← object_operand target.0
  key ← variable_string name.1.strings name.0
  text ← follow key
  index ← vm_string_index name.1 text
  let n = value_count nargs
  references ← pop_references (captured_count n) index.1
  rest ← pop_many (n - captured_count n) references.1
  push (wait_event rest.1 index.0 object references.0) Variable.undefined

abbrev pub notified : Machine → StringTable × List Event → Machine
notified m (strings, events) = record m { strings = strings; events = events }

unfoldable pub execute_notify : Instruction → Machine → Result Machine
execute_notify ins m = do
  nargs ← read_int ins.operand0
  target ← pop m
  name ← pop target.1
  object ← object_operand target.0
  let n = value_count nargs
  arguments ← pop_many (captured_count n) name.1
  rest ← pop_many (n - captured_count n) arguments.1
  key ← variable_string rest.1.strings name.0
  text ← follow key
  sent ← vm_notify_args rest.1.strings rest.1.events object text arguments.0
  push (notified rest.1 sent) Variable.undefined

abbrev pub vm_max_endon_strings : ℕ
vm_max_endon_strings = 8

abbrev pub add_endon : Machine → ℕ → Result Machine
add_endon m index =
    if leb vm_max_endon_strings (length m.thread.endon)
    then err endon_overflow
    else ok (record m { thread = record m.thread { endon = m.thread.endon ++ (index ∷ []) } })

unfoldable pub execute_endon : Machine → Result Machine
execute_endon m = do
  target ← pop m
  name ← pop target.1
  key ← variable_string name.1.strings name.0
  text ← follow key
  index ← vm_string_index name.1 text
  m' ← add_endon index.1 index.0
  push m' Variable.undefined
