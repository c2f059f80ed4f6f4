-- ===== src/Manager/Loop/Lost.antt =====
-- What becomes of the tasks in the queue once the second loop runs.
use file_sync_system.Common.{
  ℕ, zero, suc, ◌<◌, ◌≡◌, ◌∙◌, refl, ap, true, false, List, [], ◌∷◌, arith, length, lt→ltb,
}
use file_sync_system.Common.Text.{Text}
use file_sync_system.Manager.Collect.{Desk, collect, collect_from, poll, second_report}
use file_sync_system.Manager.Loop.{pop_or_serve, round, goes_on, loop}
use file_sync_system.Manager.Run.{ok, ◌>>=◌}
use file_sync_system.Manager.State.{State, Supply}

-- Without workers there is nothing to collect.
collect-idle :
    (su : Supply) (d : Desk)
    → d.workers.num_of_current_workers ≡ 0
    → collect second_report su.arrivals d ≡ ok d
unfolding collect collect_from poll
collect-idle su d none = rw (collect, none) (ground (arith, none))

-- With room for a worker, the first task of the queue leaves it, and nothing else happens.
pub pop_or_serve-drops :
    (worker_limit : ℕ) (su : Supply) (s : State) (task : Text) (rest : List Text)
    → s.desk.workers.num_of_current_workers < worker_limit
    → s.workers_queue ≡ task ∷ rest
    → pop_or_serve worker_limit su s ≡ ok (record s { workers_queue = rest })
pop_or_serve-drops worker_limit su s task rest room queue =
    ap (λ q. pop_or_serve worker_limit su (record s { workers_queue = q })) queue ∙ popped
  where
    popped :
        pop_or_serve worker_limit su (record s { workers_queue = task ∷ rest })
        ≡ ok (record s { workers_queue = rest })
    popped =
        unfold pop_or_serve in
        rw (lt→ltb s.desk.workers.num_of_current_workers worker_limit room) refl

-- A round of a manager that has no worker, a place for one and a task in its queue.
round-drops :
    (worker_limit : ℕ) (su : Supply) (s : State) (task : Text) (rest : List Text)
    → 0 < worker_limit
    → s.desk.workers.num_of_current_workers ≡ 0
    → s.workers_queue ≡ task ∷ rest
    → round worker_limit su s ≡ ok (record s { workers_queue = rest })
unfolding round
round-drops worker_limit su s task rest some_place none queue =
    ap (λ r. r >>= λ desk. pop_or_serve worker_limit su (record s { desk = desk }))
      (collect-idle su s.desk none)
    ∙ pop_or_serve-drops worker_limit su s task rest (omega arith) queue

goes_on-queue :
    (s : State) (task : Text) (rest : List Text)
    → goes_on (record s { workers_queue = task ∷ rest }) ≡ true
unfolding goes_on
goes_on-queue s task rest = ground arith

ends :
    (s : State)
    → s.shutdown_flag ≡ true
    → s.desk.workers.num_of_current_workers ≡ 0
    → goes_on (record s { workers_queue = [] }) ≡ false
unfolding goes_on
ends s stop none = ground (arith, stop, none)

-- A manager that is to shut down, has no worker and room for one ends after a round for each task in
-- its queue, whatever the system gives it. It starts no worker for any of them.
pub loop-drops :
    (worker_limit fuel : ℕ) (su : ℕ → Supply) (s : State) (task : Text) (rest : List Text)
    → 0 < worker_limit
    → s.shutdown_flag ≡ true
    → s.desk.workers.num_of_current_workers ≡ 0
    → s.workers_queue ≡ task ∷ rest
    → length rest < fuel
    → loop fuel worker_limit su s ≡ ok (record s { workers_queue = [] })
unfolding loop
loop-drops worker_limit zero su s task rest place stop none queue h = absurd (omega arith)
loop-drops worker_limit (suc fuel) su s task [] place stop none queue h =
    rw (round-drops worker_limit (su fuel) s task [] place none queue, ends s stop none) refl
loop-drops worker_limit (suc fuel) su s task (next ∷ rest) place stop none queue h =
    rw
      (
        round-drops worker_limit (su fuel) s task (next ∷ rest) place none queue,
        goes_on-queue s next rest,
      )
      (loop-drops worker_limit fuel su (record s { workers_queue = next ∷ rest }) next rest place
        stop none refl (omega arith))
