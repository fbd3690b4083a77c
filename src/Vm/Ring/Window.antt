-- ===== src/Vm/Ring/Window.antt =====
-- The slots of the ring that are in use, from the one that is read next.
use gsc.Base.{
  ℕ, zero, suc, ◌+◌, ◌-◌, ◌%◌, ◌<◌, List, [], ◌∷◌, ◌++◌, ◌≡◌, ◌≢◌, refl, ap, ◌∙◌, arith, ltb, ◌==◌,
  if◌then◌else◌, length, get_or, set, get_or-set_ne,
}
use native.Mathlib.Nat.{mod-eq_of_lt, mod-lt, mod_self}
use native.Mathlib.Decide.{dec_lt}
use gsc.Vm.Ring.{Ring, thread_count}

pub record IsValid (r : Ring) : Type 0 where
  pub whole : length r.thread_buffer ≡ r.max_threads
  pub read_inside : r.thread_read_idx < r.max_threads
  pub write_inside : r.thread_write_idx < r.max_threads

-- `n` slots from slot `i` on, around the ring.
abbrev pub window : Ring → ℕ → ℕ → List ℕ
window r zero i = []
window r (suc n) i = get_or r.thread_buffer i 0 ∷ window r n ((i + 1) % r.max_threads)

-- The threads in the order in which they run.
abbrev pub queue : Ring → List ℕ
queue r = window r (thread_count r) r.thread_read_idx

-- The slot `n` after slot `i`.
abbrev pub slot_after : ℕ → ℕ → ℕ → ℕ
slot_after max n i = if ltb (i + n) max then i + n else i + n - max

pub next_slot : (max i : ℕ) → i < max → (i + 1) % max ≡ (if i + 1 == max then 0 else i + 1)
next_slot max i h = elim (dec_lt (i + 1) max) [
  | yes lt ↦ rw (mod-eq_of_lt lt) (ground arith)
  | no ge ↦ let e : i + 1 ≡ max = omega arith in rw (e, mod_self max) (ground arith)
]

pub slot_after-lt : (max n i : ℕ) → i < max → n < max → slot_after max n i < max
slot_after-lt max n i h k = ground arith

pub slot_after-next :
    (max n i : ℕ)
    → i < max
    → suc n < max
    → slot_after max n ((i + 1) % max) ≡ slot_after max (suc n) i
slot_after-next max n i h k = rw (next_slot max i h) (ground arith)

-- One slot more at the end.
pub window-snoc :
    (r : Ring) (n i : ℕ)
    → i < r.max_threads
    → n < r.max_threads
    → window r (suc n) i
      ≡ window r n i ++ (get_or r.thread_buffer (slot_after r.max_threads n i) 0 ∷ [])
window-snoc r zero i h k =
    let same : slot_after r.max_threads 0 i ≡ i = ground arith in rw same refl
window-snoc r (suc n) i h k =
    let next : (i + 1) % r.max_threads < r.max_threads = mod-lt (i + 1) (omega arith) in
    ap (λ l. get_or r.thread_buffer i 0 ∷ l)
      (window-snoc r n ((i + 1) % r.max_threads) next (omega arith)
        ∙ ap (λ j. window r n ((i + 1) % r.max_threads) ++ (get_or r.thread_buffer j 0 ∷ []))
            (slot_after-next r.max_threads n i h k))

-- The ring with thread `t` in slot `w`, and the slot behind it next to be written.
abbrev pub added : Ring → ℕ → Ring
added r t = record r {
  thread_buffer = set r.thread_buffer r.thread_write_idx t;
  thread_write_idx = (r.thread_write_idx + 1) % r.max_threads;
}

-- A write behind the window leaves it as it is.
pub window-added :
    (r : Ring) (t n i : ℕ)
    → i < r.max_threads
    → r.thread_write_idx < r.max_threads
    → n < r.max_threads
    → slot_after r.max_threads n i ≡ r.thread_write_idx
    → window (added r t) n i ≡ window r n i
window-added r t zero i h w k e = refl
window-added r t (suc n) i h w k e =
    let next : (i + 1) % r.max_threads < r.max_threads = mod-lt (i + 1) (omega arith) in
    let other : r.thread_write_idx ≢ i = λ s. ground arith in
    rw (get_or-set_ne r.thread_buffer r.thread_write_idx i t 0 other) (
      ap (λ l. get_or r.thread_buffer i 0 ∷ l)
        (window-added r t n ((i + 1) % r.max_threads) next w (omega arith)
          (slot_after-next r.max_threads n i h k ∙ e)))

pub count-write :
    (r : Ring)
    → IsValid r
    → slot_after r.max_threads (thread_count r) r.thread_read_idx ≡ r.thread_write_idx
unfolding thread_count
count-write r v = ground arith

pub count-lt : (r : Ring) → IsValid r → thread_count r < r.max_threads
unfolding thread_count
count-lt r v = ground arith

pub length-window : (r : Ring) (n i : ℕ) → length (window r n i) ≡ n
length-window r zero i = refl
length-window r (suc n) i = ap suc (length-window r n ((i + 1) % r.max_threads))

-- One slot stays free.
pub queue-lt : (r : Ring) → IsValid r → length (queue r) < r.max_threads
queue-lt r v = omega (arith, length-window r (thread_count r) r.thread_read_idx, count-lt r v)

pub count-added :
    (r : Ring) (t : ℕ)
    → IsValid r
    → suc (thread_count r) < r.max_threads
    → thread_count (added r t) ≡ suc (thread_count r)
unfolding thread_count
count-added r t v h = rw (next_slot r.max_threads r.thread_write_idx v.write_inside) (ground arith)
