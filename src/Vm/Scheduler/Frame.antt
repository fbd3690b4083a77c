-- ===== src/Vm/Scheduler/Frame.antt =====
-- vm.c: the ring of threads behind a frame.
use gsc.Base.{ℕ, suc, ◌+◌, ◌≤◌, Bool, not, Option, none, some, ◌≡◌, refl, ◌==◌, length}
use gsc.Base.Result.{Fault, Result, ok, err}
use gsc.Platform.{Platform}
use gsc.Vm.Ring.{Ring, remove_thread}
use gsc.Vm.Ring.Queue
use gsc.Vm.Ring.Queue.{queue}
use gsc.Vm.Machine.{Machine}
use gsc.Vm.Step.{run_thread}
use gsc.Vm.Scheduler.{Vm, and_then, take_turn, run_turns}

-- How the turns of threads can end: with a value for which `P` holds, or as `run_thread` ends on one
-- of the threads, with an error or, in the model only, with nothing.
pub data Outcome {A : Type 0} (p : Platform) (fuel : ℕ) (P : A → Type 0)
    : Option (Result A) → Type 0 where
  returns : {a : A} → P a → Outcome p fuel P (some (ok a))
  faults :
      {fault : Fault} (m : Machine)
      → run_thread p fuel m ≡ some (err fault)
      → Outcome p fuel P (some (err fault))
  runs_on : (m : Machine) → run_thread p fuel m ≡ none → Outcome p fuel P none

module _ (p : Platform) (fuel dt : ℕ) where
  abbrev KeepsRing : Ring → Vm × Bool → Type 0
  KeepsRing r x = x.0.ring ≡ r

  -- The ring after a turn: at most the thread is added.
  abbrev IsTurn : Ring → Vm → Type 0
  IsTurn r vm =
      Queue.IsValid vm.ring
      × (length (queue vm.ring) ≤ length (queue r) + 1)
      × (vm.ring.max_threads ≡ r.max_threads)

  -- What the turns of a frame leave: a valid ring with no more threads than before.
  abbrev pub IsFrame : Vm → Vm → Type 0
  IsFrame vm vm' = Queue.IsValid vm'.ring × (length (queue vm'.ring) ≤ length (queue vm.ring))

  abbrev turns : ℕ → Vm → Ring × Option ℕ → Option (Result Vm)
  turns n vm x = elim x.1 [
    | none ↦ some (ok vm)
    | some thread ↦
        and_then (take_turn p fuel dt (record vm { ring = x.0 }) thread) (run_turns p fuel dt n)
  ]

  run_turns-turns :
      (n : ℕ) (vm : Vm) → run_turns p fuel dt (suc n) vm ≡ turns n vm (remove_thread vm.ring)
  unfolding run_turns
  run_turns-turns n vm = refl

  -- The ring behind a frame, and the result that a thread is left.
  abbrev pub IsFrameWith : Vm → Vm × Bool → Type 0
  IsFrameWith vm (vm', left) = IsFrame vm vm' × (left ≡ not (length (queue vm'.ring) == 0))
