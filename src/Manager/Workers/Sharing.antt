-- ===== src/Manager/Workers/Sharing.antt =====
-- Two workers that share a buffer, after a third one has left the table.
use file_sync_system.Common.{
  ℕ, ◌+◌, ◌-◌, ◌<◌, ◌≡◌, ◌∙◌, refl, ap, false, some, ◌++◌, arith, length, get_elem?, set, ◌==◌,
  length-set, get_elem?-lt, lt-get_elem?, get_elem?-set_self,
}
use file_sync_system.Common.Text.{Text}
use file_sync_system.Manager.Run.{ok}
use file_sync_system.Manager.Workers.{Workers, receive, release, launch}
use file_sync_system.Manager.Workers.Arrays.{read_at-ok, write_at-ok}
use file_sync_system.Manager.Workers.Release.{IsTable, release-Released}

-- The buffer of the worker in a place holds a text.
pub record Holds (w : Workers) (i : ℕ) (text : Text) : Type 0 where
  pub pointer : ℕ
  pub at_place : get_elem? w.workers_buffer i ≡ some pointer
  pub content : get_elem? w.buffers pointer ≡ some text

-- A table with room takes a new worker.
pub record Launched (limit : ℕ) (w : Workers) (pid fd : ℕ) : Type 0 where
  pub after : Workers
  pub ends : launch pid fd w ≡ ok after
  pub shape : IsTable limit after
  pub one_more : after.num_of_current_workers ≡ w.num_of_current_workers + 1
  pub pid_at : get_elem? after.workers_pid w.num_of_current_workers ≡ some pid
  pub pointers_kept : after.workers_buffer ≡ w.workers_buffer
  pub texts_kept : after.buffers ≡ w.buffers

pub launch-Launched :
    (limit : ℕ) (w : Workers) (pid fd : ℕ)
    → IsTable limit w
    → w.num_of_current_workers < limit
    → Launched limit w pid fd
unfolding launch
launch-Launched limit w pid fd table free =
    let num = w.num_of_current_workers in
    let in_pids : num < length w.workers_pid = omega (arith, table.pids) in
    let in_fds : num < length w.fds_array = omega (arith, table.fds) in
    let (place, e) = get_elem?-lt w.fds_array num in_fds in
    let moved = record place { fd = fd } in
    record {
      after = record w {
        num_of_current_workers = num + 1;
        workers_pid = set w.workers_pid num pid;
        fds_array = set w.fds_array num moved;
      };
      ends =
          rw
            (
              write_at-ok w.workers_pid num pid in_pids,
              read_at-ok w.fds_array num place e,
              write_at-ok w.fds_array num moved in_fds,
            )
            refl;
      shape = record {
        pids = length-set w.workers_pid num pid ∙ table.pids;
        fds = length-set w.fds_array num moved ∙ table.fds;
        pointers = table.pointers;
        room = omega arith;
        owned = table.owned;
      };
      one_more = refl;
      pid_at = get_elem?-set_self w.workers_pid num pid in_pids;
      pointers_kept = refl;
      texts_kept = refl;
    }

-- What is received goes behind the text of the place's buffer.
pub receive-ok :
    (w : Workers) (j p : ℕ) (old text : Text)
    → get_elem? w.workers_buffer j ≡ some p
    → get_elem? w.buffers p ≡ some old
    → receive j text w ≡ ok (old ++ text, record w { buffers = set w.buffers p (old ++ text) })
unfolding receive
receive-ok w j p old text at_j e =
    rw
      (
        read_at-ok w.workers_buffer j p at_j,
        read_at-ok w.buffers p old e,
        write_at-ok w.buffers p (old ++ text) (lt-get_elem? w.buffers p old e),
      )
      refl

-- What one of two places with the same pointer receives stands in the other's buffer too.
pub receive-Holds :
    (w : Workers) (i j p : ℕ) (old text : Text)
    → get_elem? w.workers_buffer i ≡ some p
    → get_elem? w.workers_buffer j ≡ some p
    → get_elem? w.buffers p ≡ some old
    → (w' : Workers) × (receive j text w ≡ ok (old ++ text, w')) × Holds w' i (old ++ text)
receive-Holds w i j p old text at_i at_j e = (
  record w { buffers = set w.buffers p (old ++ text) },
  receive-ok w j p old text at_j e,
  record {
    pointer = p;
    at_place = at_i;
    content = get_elem?-set_self w.buffers p (old ++ text) (lt-get_elem? w.buffers p old e);
  },
)

-- A worker leaves the table from a place before the last, and a new worker takes the last one. What
-- the new worker then writes is added to what the worker that moved into the place has written:
-- the two share a buffer. There is a free place in the table at the start.
pub release-launch-receive :
    (limit : ℕ) (w : Workers) (i pid fd : ℕ) (text : Text)
    → IsTable limit w
    → w.num_of_current_workers < limit
    → i < w.num_of_current_workers - 1
    → (w₁ w₂ w₃ : Workers) × (old : Text) × (release i w ≡ ok w₁)
      × (launch pid fd w₁ ≡ ok w₂)
      × Holds w₂ i old
      × (receive (w.num_of_current_workers - 1) text w₂ ≡ ok (old ++ text, w₃))
      × Holds w₃ i (old ++ text)
release-launch-receive limit w i pid fd text table free before =
    let last = w.num_of_current_workers - 1 in
    let r = release-Released limit w table i (omega arith) free in
    let l = launch-Launched limit r.after pid fd r.shape (omega (arith, r.one_less)) in
    let differ : (i == last) ≡ false = ground arith in
    let here : get_elem? l.after.workers_buffer i ≡ some r.shared =
      ap (λ xs. get_elem? xs i) l.pointers_kept ∙ r.at_place in
    let there : get_elem? l.after.workers_buffer last ≡ some r.shared =
      ap (λ xs. get_elem? xs last) l.pointers_kept ∙ rw differ at r.at_next in
    let (old, e) = get_elem?-lt l.after.buffers r.shared (l.shape.owned i r.shared here) in
    let (w₃, ends, holds) = receive-Holds l.after i last r.shared old text here there e in
    (
      r.after,
      l.after,
      w₃,
      old,
      r.ends,
      l.ends,
      record { pointer = r.shared; at_place = here; content = e },
      ends,
      holds,
    )
