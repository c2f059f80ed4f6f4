-- ===== src/Manager/Loop/Fate.antt =====
-- What one round of the second loop does with tasks.
use file_sync_system.Common.{
  ℕ, ◌≡◌, refl, Bool, true, [], ◌∷◌, ◌++◌, ltb, arith, Bool-cases, inl, inr,
}
use file_sync_system.Common.Text.{Text}
use file_sync_system.Manager.Collect.{Desk, collect, second_report}
use file_sync_system.Manager.Config.{Job}
use file_sync_system.Manager.Dispatch.{command}
use file_sync_system.Manager.Dispatch.Kept.{Kept, command-Kept, notify-Kept}
use file_sync_system.Manager.Event.{notify}
use file_sync_system.Manager.Loop.{
  job_text, note_shutdown, start_or_queue, carry_out, serve, pop_or_serve, round,
}
use file_sync_system.Manager.Loop.Branch.{popped, served, pop_or_serve-Branch}
use file_sync_system.Manager.Run.{ok, >>=-eq-ok, or_exit}
use file_sync_system.Manager.State.{
  State, Input, quiet, notified, commanded, hung_up, Supply, Decision, skipped, nothing, started,
  say,
}
use file_sync_system.Manager.Workers.{launch}

-- The queue and the calls of `execl` before and after.
pub data Fate (s s' : State) : Type 0 where
  idle : s'.workers_queue ≡ s.workers_queue → s'.spawned ≡ s.spawned → Fate s s'
  start :
      (j : Job)
      → s.workers_queue ≡ []
      → s'.workers_queue ≡ []
      → s'.spawned ≡ s.spawned ++ j ∷ []
      → Fate s s'
  queue :
      (j : Job)
      → s'.workers_queue ≡ s.workers_queue ++ job_text j ∷ []
      → s'.spawned ≡ s.spawned
      → Fate s s'
  drop :
      (task : Text) → s.workers_queue ≡ task ∷ s'.workers_queue → s'.spawned ≡ s.spawned → Fate s s'

module _ (worker_limit : ℕ) (su : Supply) (s s' : State) where
  abbrev has_room : Bool
  has_room = ltb s.desk.workers.num_of_current_workers worker_limit

  started-Fate :
      (j : Job) (s₁ : State)
      → Kept s s₁
      → (has_room ≡ true → s.workers_queue ≡ [])
      → start_or_queue worker_limit su j s₁ ≡ ok s'
      → Fate s s'
  unfolding start_or_queue
  started-Fate j s₁ k free e = elim (Bool-cases has_room) [
    | inl room ↦
        let e₀ = rw (k.workers, room) at e in
        let (pid, _, e₁) = >>=-eq-ok (or_exit su.child_pid) _ e₀ in
        let (workers, _, e₂) = >>=-eq-ok (launch pid su.pipe_fd s.desk.workers) _ e₁ in
        let empty = free room in start j empty (ground (arith, empty)) (ground arith)
    | inr full ↦ let e₀ = rw (k.workers, full) at e in queue j (ground arith) (ground arith)
  ]

  note-Kept : (s₁ : State) → Kept s s₁ → Kept s (note_shutdown su.time s₁)
  unfolding note_shutdown say
  note-Kept s₁ k = ground arith

  carry_out-Fate :
      (d : Decision) (s₁ : State)
      → Kept s s₁
      → (has_room ≡ true → s.workers_queue ≡ [])
      → carry_out worker_limit su (d, s₁) ≡ ok s'
      → Fate s s'
  unfolding carry_out note_shutdown say
  carry_out-Fate skipped s₁ k free e = idle (ground arith) (ground arith)
  carry_out-Fate nothing s₁ k free e = idle (ground arith) (ground arith)
  carry_out-Fate (started j) s₁ k free e =
      started-Fate j (note_shutdown su.time s₁) (note-Kept s₁ k) free e

  serve-Fate :
      (i : Input)
      → (has_room ≡ true → s.workers_queue ≡ [])
      → serve worker_limit su i s ≡ ok s'
      → Fate s s'
  unfolding serve
  serve-Fate quiet free e = idle (ground arith) (ground arith)
  serve-Fate hung_up free e =
      carry_out-Fate nothing s (record { queue = refl; workers = refl; spawned = refl }) free e
  serve-Fate (notified input) free e =
      let ((d, s₁), e₁, e₂) = >>=-eq-ok (notify input su.buffer s) _ e in
      carry_out-Fate d s₁ (notify-Kept su d s s₁ input su.buffer e₁) free e₂
  serve-Fate (commanded pieces) free e =
      let ((d, s₁), e₁, e₂) = >>=-eq-ok (command su pieces s) _ e in
      carry_out-Fate d s₁ (command-Kept su d s s₁ pieces e₁) free e₂

  pop_or_serve-Fate : pop_or_serve worker_limit su s ≡ ok s' → Fate s s'
  pop_or_serve-Fate e = elim (pop_or_serve-Branch worker_limit su s s' e) [
    | popped task rest room waits same ↦ drop task (rw same waits) (rw same refl)
    | served free e' ↦ serve-Fate su.input free e'
  ]

-- What becomes of tasks in a round of the second loop that returns: nothing, or a worker is started
-- and none was waiting, or one more task waits and none is started, or the first of the waiting
-- tasks is gone and none is started. So no task that has waited is ever started.
pub round-Fate :
    (worker_limit : ℕ) (su : Supply) (s s' : State) → round worker_limit su s ≡ ok s' → Fate s s'
unfolding round
round-Fate worker_limit su s s' e =
    let (desk, _, e') = >>=-eq-ok (collect second_report su.arrivals s.desk) _ e in
    moved (pop_or_serve-Fate worker_limit su (record s { desk = desk }) s' e')
  where
    moved : {desk : Desk} → Fate (record s { desk = desk }) s' → Fate s s'
    moved (idle q p) = idle q p
    moved (start j z q p) = start j z q p
    moved (queue j q p) = queue j q p
    moved (drop t q p) = drop t q p
