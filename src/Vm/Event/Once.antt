-- ===== src/Vm/Event/Once.antt =====
-- What an event does to the threads that wait for it or end on it.
use gsc.Base.{
  ℕ, Bool, true, false, ◌&&◌, ◌||◌, List, [], ◌∷◌, ◌++◌, ◌≡◌, refl, sym, ap, ◌∙◌, arith,
  if◌then◌else◌, take,
}
use gsc.Base.Result.{ok}
use gsc.StringTable.{StringTable, interned, intern}
use gsc.Vm.Variable.{Variable}
use gsc.Vm.Event.{
  Event, Thread, ThreadState, Cells, is_inactive, append_event, vm_notify_args, elem, check_endon,
  deliver, is_awaited, resume, compact,
}

-- No event of the list is one that the thread waits for.
abbrev NoneAwaited : Thread → List Event → Type 0
NoneAwaited t [] = Unit
NoneAwaited t (e ∷ events) = (is_awaited t e ≡ false) × NoneAwaited t events

-- A thread that waits for an event takes the first one that it waits for: it becomes active, gets the
-- arguments of that event alone, and that event alone is used up.
pub resume-first :
    (cells : Cells) (before after : List Event) (e : Event) (t : Thread)
    → NoneAwaited t before
    → is_awaited t e ≡ true
    → resume cells (before ++ (e ∷ after)) t ≡ (
      deliver cells t.waittill_arguments e.arguments,
      before ++ (record e { active = false } ∷ after),
      record t { state = ThreadState.active },
    )
unfolding resume
resume-first cells [] after e t h awaited = ground arith
resume-first cells (x ∷ before) after e t (skipped, h) awaited =
    rw (skipped, resume-first cells before after e t h awaited) refl

-- Where no event is awaited the thread goes on waiting, and nothing changes.
resume-none :
    (cells : Cells) (events : List Event) (t : Thread)
    → NoneAwaited t events
    → resume cells events t ≡ (cells, events, t)
unfolding resume
resume-none cells [] t h = refl
resume-none cells (x ∷ events) t (skipped, h) = rw (skipped, resume-none cells events t h) refl

-- Whether an active event of the list ends the thread.
abbrev pub is_ended_by : List Event → Thread → Bool
is_ended_by [] t = false
is_ended_by (e ∷ events) t = e.active && elem e.name t.endon || is_ended_by events t

same : (t : Thread) → is_inactive t.state ≡ true → record t { state = ThreadState.inactive } ≡ t
same t h = ground arith

-- A thread ends exactly where an active event has a name that it ends on; only its state changes.
pub check_endon_lem :
    (events : List Event) (t : Thread)
    → check_endon events t
      ≡ (if is_ended_by events t then record t { state = ThreadState.inactive } else t)
unfolding check_endon
check_endon_lem [] t = refl
check_endon_lem (e ∷ events) t = ground (arith, check_endon_lem events t, same t)

compact-append :
    (before after : List Event) → compact (before ++ after) ≡ compact before ++ compact after
unfolding compact
compact-append [] after = refl
compact-append (e ∷ before) after = ground (arith, compact-append before after)

append_nil : (events : List Event) → events ++ [] ≡ events
append_nil [] = refl
append_nil (e ∷ events) = ap (λ l. e ∷ l) (append_nil events)

compact-used :
    (before : List Event) (e : Event)
    → compact (before ++ (record e { active = false } ∷ [])) ≡ compact before
unfolding compact
compact-used before e =
    compact-append before (record e { active = false } ∷ []) ∙ append_nil (compact before)

abbrev event_of : ℕ → ℕ → List Variable → Event
event_of name object args = record {
  name = name;
  object = object;
  arguments = take 16 args;
  active = true;
}

awaited_event :
    (t : Thread) (args : List Variable)
    → is_awaited t (event_of t.waittill_name t.waittill_object args) ≡ true
awaited_event t args = ground arith

append_event-ok :
    (s : StringTable) (events : List Event) (name object : ℕ) (args : List Variable)
    {events' : List Event}
    → append_event events object args (s, interned name) ≡ ok (s, events')
    → events' ≡ events ++ (event_of name object args ∷ [])
unfolding append_event
append_event-ok s events name object args e = ground arith

-- A notification wakes the thread that waits for its name on its object, where no event that is
-- still queued does: the thread becomes active with the first 16 arguments in its variables, and
-- after the frame the events are those that would be left without the notification.
pub resume-notify :
    (s s' : StringTable) (cells : Cells) (events : List Event) (key : List ℕ) (args : List Variable)
    (t : Thread) {events' : List Event}
    → NoneAwaited t events
    → intern s key ≡ (s', interned t.waittill_name)
    → vm_notify_args s events t.waittill_object key args ≡ ok (s', events')
    → let (cells', left, t') = resume cells events' t in
      (cells' ≡ deliver cells t.waittill_arguments (take 16 args))
      × (t' ≡ record t { state = ThreadState.active })
      × (compact left ≡ compact events)
unfolding vm_notify_args append_event
resume-notify s s' cells events key args t {events'} h named sent =
    let e = event_of t.waittill_name t.waittill_object args in
    let sent' = ap (append_event events t.waittill_object args) (sym named) ∙ sent in
    let queued = append_event-ok s' events t.waittill_name t.waittill_object args sent' in
    let woken = resume-first cells events [] e t h (awaited_event t args) in
    rw (queued, woken) (refl, refl, compact-used events e)
