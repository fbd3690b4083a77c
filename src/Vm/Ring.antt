-- ===== src/Vm/Ring.antt =====
-- The ring of threads of vm.c: `thread_count`, `add_thread`, `remove_thread`. A thread is its
-- pointer, a number. One slot stays free, so that a full ring is told from an empty one.
pub mod Window
pub mod Queue
use gsc.Base.{
  ℕ, ◌+◌, ◌-◌, ◌%◌, Bool, Option, none, some, List, [], ◌∷◌, leb, ◌==◌, if◌then◌else◌, get_or, set,
  replicate,
}
use gsc.Base.Result.{Result, ok, err, max_threads}

pub record Ring : Type 0 where
  pub max_threads : ℕ
  pub thread_buffer : List ℕ
  pub thread_read_idx : ℕ
  pub thread_write_idx : ℕ

-- What `vm_init` makes.
unfoldable pub init : ℕ → Ring
init n = record {
  max_threads = n;
  thread_buffer = replicate n 0;
  thread_read_idx = 0;
  thread_write_idx = 0;
}

unfoldable pub thread_count : Ring → ℕ
thread_count r =
    if leb r.thread_read_idx r.thread_write_idx
    then r.thread_write_idx - r.thread_read_idx
    else r.max_threads - (r.thread_read_idx - r.thread_write_idx)

pub add_thread : Ring → ℕ → Result Ring
add_thread r t =
    if (r.thread_write_idx + 1) % r.max_threads == r.thread_read_idx
    then err max_threads
    else ok (record r {
      thread_buffer = set r.thread_buffer r.thread_write_idx t;
      thread_write_idx = (r.thread_write_idx + 1) % r.max_threads;
    })

pub remove_thread : Ring → Ring × Option ℕ
remove_thread r = if r.thread_read_idx == r.thread_write_idx then (r, none) else (
  record r { thread_read_idx = (r.thread_read_idx + 1) % r.max_threads },
  some (get_or r.thread_buffer r.thread_read_idx 0),
)
