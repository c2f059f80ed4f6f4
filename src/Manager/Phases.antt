-- ===== src/Manager/Phases.antt =====
-- The two loops of `main` (src/fss_manager.c), one behind the other.
use file_sync_system.Common.{
  ℕ, ◌≡◌, ◌∙◌, refl, sym, ap, Bool, false, List, [], ◌∷◌, ◌++◌, append-nil, append_assoc, All,
  length, arith,
}
use file_sync_system.Common.Text.{Text}
use file_sync_system.HashTable as Watches
use file_sync_system.Manager.Command.Words.{IsWord}
use file_sync_system.Manager.Config.{Supply, Job, Config, config_loop}
use file_sync_system.Manager.Config.Invariant.{config_loop-IsTable}
use file_sync_system.Manager.Config.Order.{config_loop-pairs}
use file_sync_system.Manager.Config.Waiting.{pairs}
use file_sync_system.Manager.Loop.Fate.{Fate, idle, start, queue, drop, round-Fate}
use file_sync_system.Manager.Loop.Invariant.{Reach, here, next, Reach-IsTable}
use file_sync_system.Manager.Run.{ok}
use file_sync_system.Manager.State.{State}
use file_sync_system.Manager.Workers.{PollFd, create}
use file_sync_system.Manager.Workers.Invariant.{create-IsTable}
use file_sync_system.Manager.Workers.Release.{IsTable}
use file_sync_system.MemStore as Store

-- Before the first loop: an open configuration file with its words, and what `malloc` left in two
-- of the arrays.
unfoldable pub first_state :
    (worker_limit : ℕ) (pids : List ℕ) (fds : List PollFd) (words : List Text)
    (ends_with_word : Bool)
    → Config
first_state worker_limit pids fds words ends_with_word = record {
  scanner = record { words = words; ends_with_word = ends_with_word; eof = false };
  desk = record { mem = Store.create; workers = create worker_limit pids fds; out = [] };
  inotify_map = Watches.create;
  workers_queue = [];
  spawned = [];
}

-- Before the second loop.
unfoldable pub second_state : Config → State
second_state c = record {
  desk = record c.desk { workers = record c.desk.workers { num_of_current_workers = 0 } };
  inotify_map = c.inotify_map;
  workers_queue = c.workers_queue;
  shutdown_flag = false;
  spawned = c.spawned;
  unwatched = [];
}

-- No more workers than places, and behind the workers of the configuration file those of the second
-- loop.
pub record Running (worker_limit : ℕ) (words : List Text) (s : State) : Type 0 where
  pub table : IsTable worker_limit s.desk.workers
  pub later : List Job
  pub spawned : s.spawned ≡ pairs words ++ later

abbrev Longer : State → State → Type 0
Longer s s' = (js : List Job) × (s'.spawned ≡ s.spawned ++ js)

Fate-Longer : (s s' : State) → Fate s s' → Longer s s'
Fate-Longer s s' (idle q p) = ([], p ∙ sym (append-nil s.spawned))
Fate-Longer s s' (start j z q p) = (j ∷ [], p)
Fate-Longer s s' (queue j q p) = ([], p ∙ sym (append-nil s.spawned))
Fate-Longer s s' (drop t q p) = ([], p ∙ sym (append-nil s.spawned))

Reach-Longer : (worker_limit : ℕ) (s s' : State) → Reach worker_limit s s' → Longer s s'
Reach-Longer worker_limit _ _ (here s) = ([], sym (append-nil s.spawned))
Reach-Longer worker_limit _ _ (next su s s' s'' e steps) =
    let (first, p) = Fate-Longer s s' (round-Fate worker_limit su s s' e) in
    let (rest, q) = Reach-Longer worker_limit s' s'' steps in
    (first ++ rest, q ∙ ap (λ l. l ++ rest) p ∙ append_assoc s.spawned first rest)

second-IsTable :
    (worker_limit : ℕ) (c : Config)
    → IsTable worker_limit c.desk.workers
    → IsTable worker_limit (second_state c).desk.workers
unfolding second_state
second-IsTable worker_limit c table = record {
  pids = table.pids;
  fds = table.fds;
  pointers = table.pointers;
  room = omega arith;
  owned = table.owned;
}

-- From the words of a configuration file the first loop may end, and the second loop then make any
-- number of rounds. In the state that it has come to, a worker has been started for each pair of the
-- file, in their order and before any other, and there are at most `worker_limit` workers. The words
-- are not empty and hold no blank and no newline, and the arrays have `worker_limit` places.
pub phases-Running :
    (fuel worker_limit : ℕ) (su : ℕ → Supply) (pids : List ℕ) (fds : List PollFd)
    (words : List Text) (ends_with_word : Bool) (c : Config) (s : State)
    → length pids ≡ worker_limit
    → length fds ≡ worker_limit
    → All IsWord words
    → config_loop fuel worker_limit su (first_state worker_limit pids fds words ends_with_word)
      ≡ ok c
    → Reach worker_limit (second_state c) s
    → Running worker_limit words s
unfolding first_state second_state
phases-Running fuel worker_limit su pids fds words ends_with_word c s p f good ran steps =
    let c₀ = first_state worker_limit pids fds words ends_with_word in
    let table =
      config_loop-IsTable fuel worker_limit su c₀ c (create-IsTable worker_limit pids fds p f)
        ran in
    let all = config_loop-pairs fuel worker_limit su c₀ c good refl refl refl ran in
    let (later, more) = Reach-Longer worker_limit (second_state c) s steps in
    record {
      table =
          Reach-IsTable worker_limit (second_state c) s (second-IsTable worker_limit c table) steps;
      later = later;
      spawned = more ∙ ap (λ l. l ++ later) all;
    }
