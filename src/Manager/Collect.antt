-- ===== src/Manager/Collect.antt =====
-- The part of both loops of `main` (src/fss_manager.c) that reads what the workers have written,
-- and takes the workers whose report is complete out of the table.
pub mod Reports
pub mod Invariant
use file_sync_system.Common.{
  ℕ, zero, suc, ◌+◌, Bool, true, false, Option, none, some, List, [], ◌∷◌, ◌++◌, ltb, if◌then◌else◌,
}
use file_sync_system.Common.Text.{Text, codes, str_eq}
use file_sync_system.Lnode.{DirInfo}
use file_sync_system.Manager.Report.{Output, end_mark, extract_workers_output}
use file_sync_system.Manager.Run.{
  Run, ok, exited, out_of_fuel, ◌>>=◌, of_store, of_report, not_null, or_exit, read_at,
}
use file_sync_system.Manager.Scan.{is_substring}
use file_sync_system.Manager.Workers.{PollFd, Workers, receive, release}
use file_sync_system.MemStore as Store
use file_sync_system.MemStore.{MemStore}

-- What the system gives to one pass: whether a descriptor has input, what `read` takes from it,
-- `none` for a negative result, the time, and what the variables of the report held before.
pub record Arrivals : Type 0 where
  pub ready : ℕ → Bool
  pub arrived : ℕ → Option Text
  pub time : Text
  pub before : Output

-- What the pass changes; `out` is what has been written into the FIFO to the console.
pub record Desk : Type 0 where
  pub mem : MemStore
  pub workers : Workers
  pub out : List Text

-- `poll` on the first `n` places.
unfoldable pub poll : (ℕ → Bool) → ℕ → List PollFd → List PollFd
poll ready zero fds = fds
poll ready (suc n) [] = []
poll ready (suc n) (place ∷ fds) = record place { revents = ready place.fd } ∷ poll ready n fds

-- `"[%s] …"`
unfoldable pub stamped : (time message : Text) → Text
stamped time message = codes "[" ++ (time ++ (codes "] " ++ message))

-- The writes through `info`.
unfoldable pub reported :
    (is_full : Bool) → (errors_found : ℕ) → (time status : Text) → DirInfo → DirInfo
reported is_full errors_found time status info = record info {
  is_in_workers = if is_full then false else info.is_in_workers;
  active_error_count = info.active_error_count + errors_found;
  last_sync_time = time;
  status = status;
}

-- The texts of a report, all of them printed into the log file first.
pub record Report : Type 0 where
  pub source_dir : Text
  pub target_dir : Text
  pub status : Text
  pub operation : Text
  pub details : Text
  pub errors_found : ℕ

unfoldable pub complete : Output → Run Report
complete out = not_null out.source_dir >>= λ source_dir. not_null out.target_dir >>= λ target_dir.
    not_null out.operation >>= λ operation. not_null out.status >>= λ status.
    not_null out.details >>= λ details. ok (record {
      source_dir = source_dir;
      target_dir = target_dir;
      status = status;
      operation = operation;
      details = details;
      errors_found = out.errors_found;
    })

-- The store after a report. In the first loop every operation is `FULL`.
unfoldable pub record_report : (is_full : Bool) → (time : Text) → Report → MemStore → Run MemStore
record_report is_full time r mem = of_store (Store.find mem r.source_dir) >>= λ info. elim info [
  | none ↦ exited
  | some _ ↦ of_store (Store.write (reported is_full r.errors_found time r.status) mem r.source_dir)
]

-- The message to the console on a `FULL` that has ended.
unfoldable pub full_message : (time : Text) → Report → Text
full_message time r = stamped time (
    if str_eq r.status (codes "ERROR")
    then codes "Sync "
      ++ (r.source_dir ++ (codes " -> " ++ (r.target_dir ++ codes " coudn't complete\n")))
    else codes "Sync completed "
      ++ (r.source_dir ++ (codes " -> " ++ (r.target_dir ++ codes "\n"))))

-- A report in the first loop, and in the second one.
unfoldable pub first_report : (time : Text) → Report → Desk → Run Desk
first_report time r d = record_report true time r d.mem >>= λ mem. ok (record d { mem = mem })

unfoldable pub second_report : (time : Text) → Report → Desk → Run Desk
second_report time r d =
    let is_full = str_eq r.operation (codes "FULL") in
    record_report is_full time r d.mem >>= λ mem.
    ok (record d { mem = mem; out = if is_full then d.out ++ full_message time r ∷ [] else d.out })

module _ (report : (time : Text) → Report → Desk → Run Desk) (a : Arrivals) where
  -- A report that is complete.
  unfoldable pub finish : ℕ → Text → Desk → Run Desk
  finish i content d = of_report (extract_workers_output content a.before) >>= λ out.
      complete out >>= λ r. report a.time r d >>= λ d'.
      release i d'.workers >>= λ workers. ok (record d' { workers = workers })

  -- What has been read is added to the buffer of the place.
  unfoldable pub take_input : ℕ → Text → Desk → Run Desk
  take_input i buffer d = receive i buffer d.workers >>= λ (content, workers).
      let d' = record d { workers = workers } in
      if is_substring content end_mark then finish i content d' else ok d'

  -- A place, if its descriptor has input.
  unfoldable pub collect_place : ℕ → Desk → Run Desk
  collect_place i d = read_at d.workers.fds_array i >>= λ place.
      if place.revents
      then (or_exit (a.arrived place.fd) >>= λ buffer. take_input i buffer d)
      else ok d

  -- The loop over the places; the entry that `release` moves into a place is passed over.
  unfoldable pub collect_from : ℕ → ℕ → Desk → Run Desk
  collect_from zero i d = if ltb i d.workers.num_of_current_workers then out_of_fuel else ok d
  collect_from (suc fuel) i d =
      if ltb i d.workers.num_of_current_workers
      then collect_place i d >>= collect_from fuel (i + 1)
      else ok d

  unfoldable pub collect : Desk → Run Desk
  collect d =
      let n = d.workers.num_of_current_workers in
      collect_from n 0
        (record d { workers = record d.workers { fds_array = poll a.ready n d.workers.fds_array } })
