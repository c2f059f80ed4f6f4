-- ===== src/Manager/Loop.antt =====
-- The second loop of `main` (src/fss_manager.c): one round of it, and the loop.
pub mod Lost
pub mod Branch
pub mod Fate
pub mod Invariant
use file_sync_system.Common.{
  ℕ, zero, suc, ◌+◌, Bool, true, false, List, [], ◌∷◌, ◌++◌, ltb, ◌==◌, ◌&&◌, ◌||◌, not,
  if◌then◌else◌,
}
use file_sync_system.Common.Text.{Text, codes}
use file_sync_system.Manager.Collect.{collect, second_report, stamped}
use file_sync_system.Manager.Config.{Job}
use file_sync_system.Manager.Dispatch.{command}
use file_sync_system.Manager.Event.{notify}
use file_sync_system.Manager.Run.{Run, ok, out_of_fuel, ◌>>=◌, or_exit}
use file_sync_system.Manager.State.{
  State, Input, quiet, notified, commanded, hung_up, Supply, Decision, skipped, nothing, started,
  say,
}
use file_sync_system.Manager.Workers.{launch}

-- `"%s %s %s %s"`
unfoldable pub job_text : Job → Text
job_text j = j.source_dir ++ b' ' ∷ (j.target_dir ++ b' ' ∷ (j.filename ++ b' ' ∷ j.operation))

unfoldable pub note_shutdown : Text → State → State
note_shutdown time s =
    if s.shutdown_flag && (s.desk.workers.num_of_current_workers == 0)
    then say (stamped time (codes "Processing remaining queued tasks.\n")) s
    else s

module _ (worker_limit : ℕ) (su : Supply) where
  -- A worker for the job, or the job in the queue.
  unfoldable pub start_or_queue : Job → State → Run State
  start_or_queue j s =
      if ltb s.desk.workers.num_of_current_workers worker_limit
      then (or_exit su.child_pid >>= λ pid. launch pid su.pipe_fd s.desk.workers >>= λ workers.
          ok (record s {
            desk = record s.desk { workers = workers };
            spawned = s.spawned ++ j ∷ [];
          }))
      else ok (record s { workers_queue = s.workers_queue ++ job_text j ∷ [] })

  -- The rest of the round behind a decision.
  unfoldable pub carry_out : Decision × State → Run State
  carry_out (skipped, s) = ok s
  carry_out (nothing, s) = ok (note_shutdown su.time s)
  carry_out (started j, s) = start_or_queue j (note_shutdown su.time s)

  unfoldable pub serve : Input → State → Run State
  serve quiet s = ok s
  serve (notified input) s = notify input su.buffer s >>= carry_out
  serve (commanded pieces) s = command su pieces s >>= carry_out
  serve hung_up s = carry_out (nothing, s)

  -- A task that is taken from the queue goes no further than into the array `buffer`.
  unfoldable pub pop_or_serve : State → Run State
  pop_or_serve s =
      if ltb s.desk.workers.num_of_current_workers worker_limit
      then elim s.workers_queue [
        | [] ↦ serve su.input s
        | task ∷ rest ↦ ok (record s { workers_queue = rest })
      ]
      else serve su.input s

  unfoldable pub round : State → Run State
  round s =
      collect second_report su.arrivals s.desk >>= λ desk. pop_or_serve (record s { desk = desk })

-- The test of the loop, which stands behind its body.
unfoldable pub goes_on : State → Bool
goes_on s =
    not s.shutdown_flag
    || (not (elim s.workers_queue [ [] ↦ true | task ∷ rest ↦ false ])
        || ltb 0 s.desk.workers.num_of_current_workers)

unfoldable pub loop : ℕ → ℕ → (ℕ → Supply) → State → Run State
loop zero worker_limit su s = out_of_fuel
loop (suc fuel) worker_limit su s = round worker_limit (su fuel) s >>= λ s'.
    let rest = loop fuel worker_limit su s' in if goes_on s' then rest else ok s'
