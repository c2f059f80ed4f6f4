-- ===== src/Protocol/Delivery.antt =====
-- The report of a worker (src/worker_process.c), from the pipe to the record of its pair in the
-- store of the manager (src/fss_manager.c).
use file_sync_system.Common.{
  ℕ, ◌+◌, ◌-◌, ◌<◌, ◌==◌, get_elem?, set, ◌≡◌, ◌∙◌, refl, Bool, false, Option, none, some, List, [],
  ◌∷◌, ◌++◌, if◌then◌else◌,
}
use file_sync_system.Common.Text.{Text, codes, str_eq}
use file_sync_system.Lnode.{DirInfo}
use file_sync_system.Manager.Collect.{
  Arrivals, Desk, Report, reported, complete, record_report, full_message, second_report, finish,
  take_input,
}
use file_sync_system.Manager.Run.{Run, ok, exited, ◌>>=◌, Ends-ok}
use file_sync_system.Manager.Workers.{Workers, receive, release}
use file_sync_system.Manager.Workers.Invariant.{receive-Ends}
use file_sync_system.Manager.Workers.Release.{IsTable, release-Released}
use file_sync_system.Manager.Workers.Sharing as Sharing
use file_sync_system.Manager.Workers.Sharing.{receive-Holds, receive-ok}
use file_sync_system.MemStore as Store
use file_sync_system.MemStore.Write.{write-Written}
use file_sync_system.Protocol.Lines.{IsToken}
use file_sync_system.Protocol.RoundTrip.{
  Holds, printed_errors, reading, extract-report, is_substring-report,
}
use file_sync_system.Worker.Report.{Outcome, status, details, report}

-- A report of which the last piece is to arrive: the worker stands in the place `i` of a table with
-- a free place, and the earlier pieces are in its buffer.
pub record Arriving (limit i : ℕ) (d : Desk) (whole old piece : Text) : Type 0 where
  pub table : IsTable limit d.workers
  pub used : i < d.workers.num_of_current_workers
  pub free : d.workers.num_of_current_workers < limit
  pub buffer : Sharing.Holds d.workers i old
  pub splits : old ++ piece ≡ whole

module _ (source_dir target_dir operation : Text) (o : Outcome) (lines : List Text) where
  abbrev is_full : Bool
  is_full = str_eq operation (codes "FULL")

  -- What is written into the record of the pair.
  unfoldable pub updated : (time : Text) → DirInfo → DirInfo
  updated time info = record info {
    is_in_workers = if is_full then false else info.is_in_workers;
    active_error_count = info.active_error_count + printed_errors o lines;
    last_sync_time = time;
    status = status o;
  }

  module _ (limit i : ℕ) (a : Arrivals) (d : Desk) (piece : Text) where
    -- The last worker of the table.
    abbrev last : ℕ
    last = d.workers.num_of_current_workers - 1

    -- The record of the pair is updated, and the worker at `i` leaves the table: the last worker
    -- stands in its place, and the others in theirs.
    pub record Delivered (info : DirInfo) : Type 0 where
      pub after : Desk
      pub ends : take_input second_report a i piece d ≡ ok after
      pub found : Store.find after.mem source_dir ≡ Store.ok (some (updated a.time info))
      pub lookup :
          (other : Text)
          → Store.find after.mem other ≡ (
              if str_eq source_dir other
              then Store.ok (some (updated a.time info))
              else Store.find d.mem other)
      pub table : IsTable limit after.workers
      pub one_less : after.workers.num_of_current_workers + 1 ≡ d.workers.num_of_current_workers
      pub pids :
          (j : ℕ)
          → j < last
          → get_elem? after.workers.workers_pid j
            ≡ get_elem? d.workers.workers_pid (if j == i then last else j)
      pub fds :
          (j : ℕ)
          → j < last
          → get_elem? after.workers.fds_array j
            ≡ get_elem? d.workers.fds_array (if j == i then last else j)

    -- For a pair that is in the store, and for one that is not.
    unfoldable pub Delivery : Option DirInfo → Type 0
    Delivery none = take_input second_report a i piece d ≡ exited
    Delivery (some info) = Delivered info

    unfoldable pub record_of : Report
    record_of = record {
      source_dir = source_dir;
      target_dir = target_dir;
      status = status o;
      operation = operation;
      details = b' ' ∷ details o;
      errors_found = printed_errors o lines;
    }

    module _ (source : IsToken source_dir) (target : IsToken target_dir) (op : IsToken operation)
        (holds : Holds o lines) (old : Text)
        (arriving : Arriving limit i d (report source_dir target_dir operation o) old piece) where
      -- Up to what becomes of the report, in either loop.
      pub take_input-report :
          (w' : Workers) (treat : Text → Report → Desk → Run Desk)
          → receive i piece d.workers ≡ ok (old ++ piece, w')
          → take_input treat a i piece d ≡ (
              treat a.time record_of (record d { workers = w' }) >>= λ d'.
              release i d'.workers >>= λ workers. ok (record d' { workers = workers }))
      unfolding take_input finish complete record_of reading
      take_input-report w' treat e =
          rw
            (
              e,
              arriving.splits,
              is_substring-report source_dir target_dir operation o,
              extract-report source_dir target_dir operation o source target op lines a.before
                  holds,
            )
            refl

      -- When the last piece of a worker's report arrives, the second loop writes the status, the
      -- errors and the time into the record of its pair, changes what is found
      -- under no other name, and takes this worker out of the table, so that the last one stands in
      -- its place and the others stay in theirs; if the pair is not in the store, the manager exits. The directories and the operation hold no blank, colon and newline, the
      -- error lines are those of a report, and there is a free place in the table.
      pub take_input-Delivery :
          (x : Option DirInfo) → Store.find d.mem source_dir ≡ Store.ok x → Delivery x
      unfolding Delivery updated second_report record_report record_of reported
      take_input-Delivery none unknown =
          let (w', e, _) =
            receive-Holds d.workers i i arriving.buffer.pointer old piece arriving.buffer.at_place
              arriving.buffer.at_place arriving.buffer.content in
          take_input-report w' second_report e ∙ rw unknown refl
      take_input-Delivery (some info) known =
          let w' : Workers = record d.workers {
            buffers = set d.workers.buffers arriving.buffer.pointer (old ++ piece);
          } in
          let e : receive i piece d.workers ≡ ok (old ++ piece, w') =
            receive-ok d.workers i arriving.buffer.pointer old piece arriving.buffer.at_place
              arriving.buffer.content in
          let (table, same) =
            Ends-ok _ _ _ (receive-Ends limit d.workers arriving.table i piece) e in
          let r = release-Released limit w' table i arriving.used arriving.free in
          let w = write-Written (updated a.time) (λ v. refl) source_dir d.mem info known in
          record {
            after = record {
              mem = w.after;
              workers = r.after;
              out = if is_full then d.out ++ full_message a.time record_of ∷ [] else d.out;
            };
            ends = take_input-report w' second_report e ∙ rw known (rw w.ends (rw r.ends refl));
            found = w.found;
            lookup = w.lookup;
            table = r.shape;
            one_less = r.one_less ∙ same;
            pids = r.pids;
            fds = r.fds;
          }
