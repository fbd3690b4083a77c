-- ===== src/Vm/Ring/Queue.antt =====
-- The ring of threads is a queue of at most `max_threads - 1` threads.
use gsc.Base.{
  ℕ, zero, suc, ◌+◌, ◌%◌, ◌≤◌, ◌<◌, true, Option, none, some, List, [], ◌∷◌, ◌++◌, ◌≡◌, ◌≢◌, refl,
  sym, ap, ◌∙◌, arith, inl, inr, ◌==◌, if◌then◌else◌, length, get_or, get_or-set_self, length-set,
  length-replicate, Bool-cases,
}
use native.Mathlib.Nat.{mod-lt}
use gsc.Base.Result.{ok, err, max_threads}
use gsc.Vm.Ring.{Ring, init, thread_count, add_thread, remove_thread}
pub use gsc.Vm.Ring.Window.{IsValid, queue, queue-lt}
use gsc.Vm.Ring.Window.{
  window, next_slot, window-snoc, added, window-added, count-write, length-window, count-added,
}

add_thread-room :
    (r : Ring) (t : ℕ)
    → IsValid r
    → suc (thread_count r) < r.max_threads
    → add_thread r t ≡ ok (added r t)
unfolding add_thread thread_count
add_thread-room r t v room =
    rw (next_slot r.max_threads r.thread_write_idx v.write_inside) (ground arith)

count_bound :
    (r : Ring)
    → IsValid r
    → r.max_threads ≤ suc (thread_count r)
    → (if r.thread_write_idx + 1 == r.max_threads then 0 else r.thread_write_idx + 1)
      ≡ r.thread_read_idx
unfolding thread_count
count_bound r v full = ground arith

queue-added :
    (r : Ring) (t : ℕ)
    → IsValid r
    → suc (thread_count r) < r.max_threads
    → queue (added r t) ≡ queue r ++ (t ∷ [])
queue-added r t v room =
    let n = thread_count r in
    let i = r.thread_read_idx in
    let stored =
      get_or-set_self r.thread_buffer r.thread_write_idx t 0
        (omega (arith, v.whole, v.write_inside)) in
    ap (λ m. window (added r t) m i) (count-added r t v room)
    ∙ window-snoc (added r t) n i v.read_inside (omega arith)
    ∙ rw
        (
          window-added r t n i v.read_inside v.write_inside (omega arith) (count-write r v),
          count-write r v,
          stored,
        )
        refl

added-IsValid : (r : Ring) (t : ℕ) → IsValid r → IsValid (added r t)
added-IsValid r t v = record {
  whole = length-set r.thread_buffer r.thread_write_idx t ∙ v.whole;
  read_inside = v.read_inside;
  write_inside = mod-lt (r.thread_write_idx + 1) (omega (arith, v.write_inside));
}

-- `add_thread` on a valid ring puts a thread at the end of the queue where fewer than
-- `max_threads - 1` threads are queued; the ring stays valid and keeps its size.
pub add_thread-queue :
    (r : Ring) (t : ℕ)
    → IsValid r
    → length (queue r) + 1 < r.max_threads
    → (r' : Ring) × (add_thread r t ≡ ok r')
      × IsValid r'
      × (queue r' ≡ queue r ++ (t ∷ []))
      × (r'.max_threads ≡ r.max_threads)
add_thread-queue r t v room =
    let n = length-window r (thread_count r) r.thread_read_idx in
    (
      added r t,
      add_thread-room r t v (omega arith),
      added-IsValid r t v,
      queue-added r t v (omega arith),
      refl,
    )

-- `add_thread` on a valid ring fails where `max_threads - 1` threads are queued.
add_thread-full :
    (r : Ring) (t : ℕ)
    → IsValid r
    → r.max_threads ≤ length (queue r) + 1
    → add_thread r t ≡ err max_threads
unfolding add_thread thread_count
add_thread-full r t v full =
    let n : length (queue r) ≡ thread_count r =
      length-window r (thread_count r) r.thread_read_idx in
    rw (next_slot r.max_threads r.thread_write_idx v.write_inside)
      (ground (arith, count_bound r v (omega arith)))

-- The queue before a removal, by what is removed and the queue after it.
abbrev pub front : Option ℕ → List ℕ → List ℕ
front none q = []
front (some t) q = t ∷ q

count-removed :
    (r : Ring)
    → IsValid r
    → r.thread_read_idx ≢ r.thread_write_idx
    → thread_count r
      ≡ suc (thread_count (record r { thread_read_idx = (r.thread_read_idx + 1) % r.max_threads }))
unfolding thread_count
count-removed r v ne = rw (next_slot r.max_threads r.thread_read_idx v.read_inside) (ground arith)

count-empty : (r : Ring) → (r.thread_read_idx == r.thread_write_idx) ≡ true → thread_count r ≡ 0
unfolding thread_count
count-empty r e = ground arith

count-zero :
    (r : Ring) → IsValid r → (r.thread_read_idx == r.thread_write_idx) ≡ (thread_count r == 0)
unfolding thread_count
count-zero r v = ground arith

-- The two indices meet exactly where no thread is queued.
pub queue-empty :
    (r : Ring) → IsValid r → (r.thread_read_idx == r.thread_write_idx) ≡ (length (queue r) == 0)
queue-empty r v =
    count-zero r v ∙ ap (λ n. n == 0) (sym (length-window r (thread_count r) r.thread_read_idx))

removed-IsValid :
    (r : Ring)
    → IsValid r
    → IsValid (record r { thread_read_idx = (r.thread_read_idx + 1) % r.max_threads })
removed-IsValid r v = record {
  whole = v.whole;
  read_inside = mod-lt (r.thread_read_idx + 1) (omega (arith, v.read_inside));
  write_inside = v.write_inside;
}

window-same : (r : Ring) (j n i : ℕ) → window (record r { thread_read_idx = j }) n i ≡ window r n i
window-same r j zero i = refl
window-same r j (suc n) i =
    ap (λ l. get_or r.thread_buffer i 0 ∷ l) (window-same r j n ((i + 1) % r.max_threads))

-- `remove_thread` takes the first thread of the queue, or none where the queue is empty; the others
-- keep their order, and the ring stays valid and keeps its size. The ring is valid before.
pub remove_thread-queue :
    (r : Ring)
    → IsValid r
    → let (r', t) = remove_thread r in
      IsValid r' × (queue r ≡ front t (queue r')) × (r'.max_threads ≡ r.max_threads)
unfolding remove_thread
remove_thread-queue r v = elim (Bool-cases (r.thread_read_idx == r.thread_write_idx)) [
  | inl e ↦
      let none_left : thread_count r ≡ 0 = count-empty r e in
      rw (e, remove_thread) (v, ap (λ n. window r n r.thread_read_idx) none_left, refl)
  | inr e ↦
      let next : ℕ = (r.thread_read_idx + 1) % r.max_threads in
      let some_left = count-removed r v (λ s. ground arith) in
      rw (e, remove_thread)
        (
          removed-IsValid r v,
          ap (λ n. window r n r.thread_read_idx) some_left
              ∙ ap (λ l. get_or r.thread_buffer r.thread_read_idx 0 ∷ l)
                  (sym
                    (window-same r next (thread_count (record r { thread_read_idx = next })) next)),
          refl,
        )
]

-- The ring that `vm_init` makes is valid and empty, where `max_threads` is not 0.
pub init-IsValid : (n : ℕ) → 0 < n → IsValid (init n) × (queue (init n) ≡ [])
unfolding init thread_count
init-IsValid n h =
    (record { whole = length-replicate n 0; read_inside = h; write_inside = h }, refl)
