-- ===== src/Vm/Event.antt =====
-- Events of vm.c: `vm_notify_args`, and what `vm_run_threads` does with the events for one thread.
-- An event carries 16 arguments at most and a thread waits for 16 at most. Of a thread this keeps
-- what the scheduler reads; `cells` are the variables by their address.
pub mod Once
use gsc.Base.{
  ℕ, ◌+◌, Bool, true, false, not, ◌&&◌, ◌||◌, Option, none, some, List, [], ◌∷◌, ◌++◌, leb, ◌==◌,
  if◌then◌else◌, length, take,
}
use gsc.Base.Result.{Result, ok, err, event_overflow, out_of_memory, undefined_behaviour}
use gsc.StringTable.{StringTable, Interned, interned, jumped_oom, crashed, intern}
use gsc.Platform.{Platform}
use gsc.Vm.Variable.{Variable}

pub record Event : Type 0 where
  pub name : ℕ
  pub object : ℕ
  pub arguments : List Variable
  pub active : Bool

pub data ThreadState : Type 0 where
  inactive active waiting_time waiting_frame waiting_event : ThreadState

-- `waittill` keeps the addresses that the event's arguments go to.
pub record Thread : Type 0 where
  pub state : ThreadState
  pub wait : ℕ
  pub waittill_name : ℕ
  pub waittill_object : ℕ
  pub waittill_arguments : List ℕ
  pub endon : List ℕ

abbrev pub Cells : Type 0
Cells = ℕ → Variable

abbrev pub is_inactive : ThreadState → Bool
is_inactive ThreadState.inactive = true
is_inactive _ = false

-- The event goes into the next slot, once its name is interned.
pub append_event :
    List Event → ℕ → List Variable → StringTable × Interned → Result (StringTable × List Event)
append_event events object args (t, jumped_oom) = err out_of_memory
append_event events object args (t, crashed) = err undefined_behaviour
append_event events object args (t, interned name) =
    if leb 256 (length events)
    then err event_overflow
    else ok (
      t,
      events
          ++ (record { name = name; object = object; arguments = take 16 args; active = true }
              ∷ []),
    )

unfoldable pub vm_notify_args :
    StringTable → List Event → ℕ → List ℕ → List Variable → Result (StringTable × List Event)
unfolding append_event
vm_notify_args t events object key args = append_event events object args (intern t key)

abbrev pub elem : ℕ → List ℕ → Bool
elem x [] = false
elem x (y ∷ ys) = x == y || elem x ys

-- The loop over the events that end a thread.
pub check_endon : List Event → Thread → Thread
check_endon [] t = t
check_endon (e ∷ events) t =
    let ended : Thread = record t { state = ThreadState.inactive } in
    let rest = check_endon events t in
    if is_inactive t.state then t else if e.active && elem e.name t.endon then ended else rest

-- The event's arguments go to the addresses, as far as both reach.
pub deliver : Cells → List ℕ → List Variable → Cells
deliver cells [] args = cells
deliver cells (r ∷ refs) [] = cells
deliver cells (r ∷ refs) (v ∷ args) = deliver (λ a. if a == r then v else cells a) refs args

abbrev pub is_awaited : Thread → Event → Bool
is_awaited t e = e.active && ((e.name == t.waittill_name) && (e.object == t.waittill_object))

-- The case `VM_THREAD_WAITING_EVENT`: the first event that is awaited is used up.
pub resume : Cells → List Event → Thread → Cells × List Event × Thread
unfolding deliver
resume cells [] t = (cells, [], t)
resume cells (e ∷ events) t =
    let (cells', events', t') = resume cells events t in
    if is_awaited t e
    then (
      deliver cells t.waittill_arguments e.arguments,
      record e { active = false } ∷ events,
      record t { state = ThreadState.active },
    )
    else (cells', e ∷ events', t')

-- The events that stay for the next frame.
pub compact : List Event → List Event
compact [] = []
compact (e ∷ events) = let rest = compact events in if e.active then e ∷ rest else rest

-- The case `VM_THREAD_WAITING_TIME`.
pub wait_time : Platform → ℕ → Thread → Thread
wait_time p dt t = record t {
  state = if p.fle t.wait 0 then ThreadState.active else t.state;
  wait = p.fsub t.wait dt;
}
