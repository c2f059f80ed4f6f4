-- ===== src/Manager/Loop/Invariant.antt =====
-- The table of workers in the second loop: no more workers than places.
use file_sync_system.Common.{
  ℕ, ◌+◌, ◌<◌, ◌≡◌, refl, ltb, ltb→lt, arith, Bool-cases, Option-cases, inl, inr, none, some, [],
  ◌∷◌, ◌++◌, get_elem?,
}
use file_sync_system.Manager.Collect.{collect, second_report}
use file_sync_system.Manager.Collect.Invariant.{collect-Ends}
use file_sync_system.Manager.Collect.Reports.{second_report-Ends}
use file_sync_system.Manager.Config.{Job}
use file_sync_system.Manager.Dispatch.{command}
use file_sync_system.Manager.Dispatch.Kept.{command-Kept, notify-Kept}
use file_sync_system.Manager.Event.{notify}
use file_sync_system.Manager.Loop.{note_shutdown, job_text, start_or_queue, carry_out, serve, round}
use file_sync_system.Manager.Loop.Branch.{popped, served, pop_or_serve-Branch}
use file_sync_system.Manager.Run.{ok, exited, ok_injective, >>=-eq-ok, Ends-ok, or_exit}
use file_sync_system.Manager.State.{
  State, Input, quiet, notified, commanded, hung_up, Supply, Decision, skipped, nothing, started,
  say,
}
use file_sync_system.Manager.Workers.{launch}
use file_sync_system.Manager.Workers.Release.{IsTable}
use file_sync_system.Manager.Workers.Invariant.{launch-IsTable}
use file_sync_system.Manager.Workers.Sharing.{launch-Launched}

-- The states that rounds of the loop lead to.
pub data Reach (worker_limit : ℕ) : State → State → Type 0 where
  here : (s : State) → Reach worker_limit s s
  next :
      (su : Supply) (s s' s'' : State)
      → round worker_limit su s ≡ ok s'
      → Reach worker_limit s' s''
      → Reach worker_limit s s''

module _ (worker_limit : ℕ) (su : Supply) where
  note_workers : (s : State) → (note_shutdown su.time s).desk.workers ≡ s.desk.workers
  unfolding note_shutdown say
  note_workers s = ground arith

  carry_out-IsTable :
      (d : Decision) (s s' : State)
      → carry_out worker_limit su (d, s) ≡ ok s'
      → IsTable worker_limit s.desk.workers
      → IsTable worker_limit s'.desk.workers
  unfolding carry_out start_or_queue
  carry_out-IsTable skipped s s' e table = rw (← ok_injective e) table
  carry_out-IsTable nothing s s' e table = rw (← ok_injective e) (rw (note_workers s) table)
  carry_out-IsTable (started j) s s' e table =
      let s₁ = note_shutdown su.time s in
      let table₁ : IsTable worker_limit s₁.desk.workers = rw (note_workers s) table in
      elim (Bool-cases (ltb s₁.desk.workers.num_of_current_workers worker_limit)) [
        | inl room ↦
            let (pid, _, e₁) = >>=-eq-ok (or_exit su.child_pid) _ (rw room at e) in
            let (workers, launched, e₂) = >>=-eq-ok (launch pid su.pipe_fd s₁.desk.workers) _ e₁ in
            rw (← ok_injective e₂) (
              launch-IsTable worker_limit s₁.desk.workers workers pid su.pipe_fd table₁ room
                launched)
        | inr full ↦ rw (← ok_injective (rw full at e)) table₁
      ]

  serve-IsTable :
      (i : Input) (s s' : State)
      → serve worker_limit su i s ≡ ok s'
      → IsTable worker_limit s.desk.workers
      → IsTable worker_limit s'.desk.workers
  unfolding serve
  serve-IsTable quiet s s' e table = rw (← ok_injective e) table
  serve-IsTable hung_up s s' e table = carry_out-IsTable nothing s s' e table
  serve-IsTable (notified input) s s' e table =
      let ((d, s₁), e₁, e₂) = >>=-eq-ok (notify input su.buffer s) _ e in
      carry_out-IsTable d s₁ s' e₂ (rw ((notify-Kept su d s s₁ input su.buffer e₁).workers) table)
  serve-IsTable (commanded pieces) s s' e table =
      let ((d, s₁), e₁, e₂) = >>=-eq-ok (command su pieces s) _ e in
      carry_out-IsTable d s₁ s' e₂ (rw ((command-Kept su d s s₁ pieces e₁).workers) table)

  round-IsTable :
      (s s' : State)
      → round worker_limit su s ≡ ok s'
      → IsTable worker_limit s.desk.workers
      → IsTable worker_limit s'.desk.workers
  unfolding round
  round-IsTable s s' e table =
      let (desk, collected, e') = >>=-eq-ok (collect second_report su.arrivals s.desk) _ e in
      let table' =
        (Ends-ok _ _ desk
          (collect-Ends worker_limit second_report su.arrivals second_report-Ends s.desk table)
          collected).table in
      elim (pop_or_serve-Branch worker_limit su (record s { desk = desk }) s' e') [
        | popped task rest room waits same ↦ rw same table'
        | served free served_input ↦
            serve-IsTable su.input (record s { desk = desk }) s' served_input table'
      ]

-- However many rounds the second loop makes, and whatever the system gives in them: from a table of
-- `worker_limit` places the manager comes to no state with more workers than that.
pub Reach-IsTable :
    (worker_limit : ℕ) (s s' : State)
    → IsTable worker_limit s.desk.workers
    → Reach worker_limit s s'
    → IsTable worker_limit s'.desk.workers
Reach-IsTable worker_limit _ _ table (here s) = table
Reach-IsTable worker_limit _ _ table (next su s s' s'' e steps) =
    Reach-IsTable worker_limit s' s'' (round-IsTable worker_limit su s s' e table) steps

module _ (worker_limit : ℕ) (su : Supply) (j : Job) (s : State) where
  -- The job has a worker of its own in the table, or waits in the queue, of which nothing is started.
  pub data Placed : Type 0 where
    exits :
        s.desk.workers.num_of_current_workers < worker_limit
        → su.child_pid ≡ none
        → start_or_queue worker_limit su j s ≡ exited
        → Placed
    starts :
        (s' : State) (pid : ℕ)
        → s.desk.workers.num_of_current_workers < worker_limit
        → su.child_pid ≡ some pid
        → start_or_queue worker_limit su j s ≡ ok s'
        → s'.spawned ≡ s.spawned ++ j ∷ []
        → s'.workers_queue ≡ s.workers_queue
        → s'.desk.workers.num_of_current_workers ≡ s.desk.workers.num_of_current_workers + 1
        → get_elem? s'.desk.workers.workers_pid s.desk.workers.num_of_current_workers ≡ some pid
        → IsTable worker_limit s'.desk.workers
        → Placed
    waits :
        s.desk.workers.num_of_current_workers ≡ worker_limit
        → start_or_queue worker_limit su j s
          ≡ ok (record s { workers_queue = s.workers_queue ++ job_text j ∷ [] })
        → Placed

  start_or_queue-Placed : IsTable worker_limit s.desk.workers → Placed
  unfolding start_or_queue
  start_or_queue-Placed table =
      elim (Bool-cases (ltb s.desk.workers.num_of_current_workers worker_limit)) [
        | inl room ↦ elim (Option-cases su.child_pid) [
          | inl failed ↦ exits (ltb→lt _ _ room) failed (rw room (rw failed refl))
          | inr (pid, forked) ↦
              let l =
                launch-Launched worker_limit s.desk.workers pid su.pipe_fd table
                  (ltb→lt _ _ room) in
              starts
                (record s {
                  desk = record s.desk { workers = l.after };
                  spawned = s.spawned ++ j ∷ [];
                })
                pid (ltb→lt _ _ room) forked (rw room (rw forked (rw l.ends refl))) refl refl
                l.one_more l.pid_at l.shape
        ]
        | inr full ↦ waits (ground (arith, table.room, full)) (rw full refl)
      ]

-- In every state that the second loop comes to from a table of `worker_limit` places, a job for
-- which a worker is to be started gets one behind the others, where there are less than
-- `worker_limit` of them, unless `fork` fails, upon which the manager exits; with `worker_limit`
-- workers its text goes to the end of the queue, and nothing else changes. Neither is ever an
-- access outside the table, and the table keeps its places.
pub Reach-Placed :
    (worker_limit : ℕ) (s s' : State)
    → IsTable worker_limit s.desk.workers
    → Reach worker_limit s s'
    → (su : Supply) (j : Job) → Placed worker_limit su j s'
Reach-Placed worker_limit s s' table steps su j =
    start_or_queue-Placed worker_limit su j s' (Reach-IsTable worker_limit s s' table steps)
