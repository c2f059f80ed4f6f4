-- ===== src/Manager/Workers.antt =====
-- The table of workers in `main` of src/fss_manager.c: `workers_pid`, `fds_array` and
-- `workers_buffer`, each of `worker_limit` places, with `num_of_current_workers` in use.
pub mod Arrays
pub mod Release
pub mod Sharing
pub mod Invariant
use file_sync_system.Common.{
  ℕ, zero, suc, ◌+◌, ◌-◌, Bool, true, false, List, [], ◌∷◌, ◌++◌, replicate, length,
}
use file_sync_system.Common.Text.{Text}
use file_sync_system.Manager.Run.{Run, ok, fault, ◌>>=◌, read_at, write_at}

-- `struct pollfd`; `revents` tells whether `POLLIN` is set.
pub record PollFd : Type 0 where
  pub fd : ℕ
  pub revents : Bool

-- `workers_buffer` holds pointers: the number of an array among `buffers`, in the order in which
-- the arrays were allocated.
pub record Workers : Type 0 where
  pub num_of_current_workers : ℕ
  pub workers_pid : List ℕ
  pub fds_array : List PollFd
  pub workers_buffer : List ℕ
  pub buffers : List Text

unfoldable pub count_from : ℕ → ℕ → List ℕ
count_from k zero = []
count_from k (suc n) = k ∷ count_from (suc k) n

-- `pids` and `fds` are what `malloc` left in the arrays.
unfoldable pub create : ℕ → (pids : List ℕ) (fds : List PollFd) → Workers
create worker_limit pids fds = record {
  num_of_current_workers = 0;
  workers_pid = pids;
  fds_array = fds;
  workers_buffer = count_from 0 worker_limit;
  buffers = replicate worker_limit [];
}

-- `strcat(workers_buffer[i], buffer)`, with the text that the buffer then holds.
unfoldable pub receive : ℕ → Text → Workers → Run (Text × Workers)
receive i buffer w = read_at w.workers_buffer i >>= λ p. read_at w.buffers p >>= λ old.
    write_at w.buffers p (old ++ buffer) >>= λ buffers.
    ok (old ++ buffer, record w { buffers = buffers })

unfoldable pub swap_last {ℓ} : {A : Type ℓ} → List A → (i last : ℕ) → Run (List A)
swap_last xs i last = read_at xs i >>= λ temp.
    read_at xs last >>= λ x. write_at xs i x >>= λ ys. write_at ys last temp

-- The same for the buffers, but that the second write goes to the place behind the last one.
unfoldable pub swap_buffer : List ℕ → (i num : ℕ) → Run (List ℕ)
swap_buffer xs i num = read_at xs i >>= λ tmp.
    read_at xs (num - 1) >>= λ x. write_at xs i x >>= λ ys. write_at ys num tmp

-- A worker that has finished leaves the table.
unfoldable pub release : ℕ → Workers → Run Workers
release i w =
    let num = w.num_of_current_workers in
    read_at w.workers_buffer i >>= λ p. write_at w.buffers p [] >>= λ buffers.
    swap_last w.workers_pid i (num - 1) >>= λ pids. swap_last w.fds_array i (num - 1) >>= λ fds.
    swap_buffer w.workers_buffer i num >>= λ pointers. ok (record {
      num_of_current_workers = num - 1;
      workers_pid = pids;
      fds_array = fds;
      workers_buffer = pointers;
      buffers = buffers;
    })

-- A new worker takes the next place.
unfoldable pub launch : (child_pid fd : ℕ) → Workers → Run Workers
launch child_pid fd w =
    let num = w.num_of_current_workers in
    write_at w.workers_pid num child_pid >>= λ pids. read_at w.fds_array num >>= λ place.
    write_at w.fds_array num (record place { fd = fd }) >>= λ fds.
    ok (record w { num_of_current_workers = num + 1; workers_pid = pids; fds_array = fds })
