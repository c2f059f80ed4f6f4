-- ===== src/Protocol/Startup/Phase.antt =====
-- The first loop of `main` (src/fss_manager.c), from the state before it to its end.
use file_sync_system.Common.{
  ℕ, zero, suc, ◌+◌, ◌*◌, ◌≤◌, ◌<◌, ◌≡◌, refl, Bool, List, [], All, arith, length, replicate,
}
use file_sync_system.Common.Text.{Text}
use file_sync_system.HashTable.Insert.{create-IsValid}
use file_sync_system.Manager.Command.Words.{IsWord}
use file_sync_system.Manager.Config.{Job, Supply, Config, is_going, config_loop}
use file_sync_system.Manager.Config.Order.{config_loop-pairs}
use file_sync_system.Manager.Config.Waiting.{pairs}
use file_sync_system.Manager.Phases.{first_state}
use file_sync_system.Manager.Run.{ok}
use file_sync_system.Manager.Workers.{PollFd, create}
use file_sync_system.Manager.Workers.Invariant.{create-IsTable}
use file_sync_system.MemStore as Store
use file_sync_system.MemStore.Invariant as Stores
use file_sync_system.Protocol.Startup.Ends.{Peaceful, config_loop-Done}
use file_sync_system.Protocol.Startup.Found.{Found}
use file_sync_system.Protocol.Startup.Start.{Fit}
use file_sync_system.Protocol.Startup.Report.{Empty}
use file_sync_system.Protocol.Startup.Round.{SameLengths, Smooth, weight}

Empty-replicate : (n : ℕ) → Empty (replicate n [])
Empty-replicate zero p text e = cc
Empty-replicate (suc n) zero text e = ground arith
Empty-replicate (suc n) (suc p) text e = Empty-replicate n p text e

-- Before the loop there is room for so many workers.
pub first_state-Fit :
    (worker_limit n : ℕ) (pids : List ℕ) (fds : List PollFd) (words : List Text)
    (ends_with_word : Bool)
    → length pids ≡ worker_limit
    → length fds ≡ worker_limit
    → n < worker_limit
    → n ≤ 173
    → Fit worker_limit n
        (first_state worker_limit pids fds words ends_with_word).desk
        (first_state worker_limit pids fds words ends_with_word).inotify_map
unfolding first_state create Store.create
first_state-Fit worker_limit n pids fds words ends_with_word pids_width fds_width room space =
    record {
      table = create-IsTable worker_limit pids fds pids_width fds_width;
      empty = Empty-replicate worker_limit;
      store = Stores.create-IsValid;
      keys = create-IsValid;
      room = omega (arith, room);
      space = omega (arith, space);
    }

-- The loop has ended. A worker has been started for each pair of the file, in their order, and all
-- of them have ended; nothing waits, and the store finds each pair.
pub record Settled (words : List Text) (c : Config) : Type 0 where
  pub spawned : c.spawned ≡ pairs words
  pub none_left : c.desk.workers.num_of_current_workers ≡ 0
  pub queue : c.workers_queue ≡ []
  pub found : All (λ (job : Job). Found c.desk.mem job.source_dir) c.spawned

module _ (worker_limit : ℕ) (pids : List ℕ) (fds : List PollFd) (words : List Text)
    (ends_with_word : Bool) (pids_width : length pids ≡ worker_limit)
    (fds_width : length fds ≡ worker_limit) (good : All IsWord words) (lengths : SameLengths words)
    (room : length (pairs words) < worker_limit) (space : length (pairs words) ≤ 173) where
  first_state-Smooth : Smooth worker_limit (first_state worker_limit pids fds words ends_with_word)
  unfolding first_state
  first_state-Smooth = record {
    fit =
        first_state-Fit worker_limit _ pids fds words ends_with_word pids_width fds_width room
          space;
    queue = refl;
    words = good;
    ended = λ e. cc;
    lengths = lengths;
    found = tt;
  }

  -- The first loop on the words of a configuration file ends, where it starts with empty tables, if
  -- the two names of each pair have the same length and there are fewer pairs than places for
  -- workers and no more than 173; the words are not empty and hold no blank and no newline, the
  -- arrays have `worker_limit` places; in each round `fork` gives a child, `malloc` zeros in a new node of
  -- the table of watches, and the supply one level of the store's recursion, and one worker's whole
  -- report on its `FULL` arrives, with error lines as in a report and of a pair whose names hold no
  -- colon, or nothing, the latter in `idle` rounds at most behind the end of the file. Two rounds for each pair, one for the end of the file and the idle ones are enough. It has then
  -- started a worker for each pair, in their order; all workers have ended, nothing waits, and the
  -- store finds each pair.
  pub first_loop-Settled :
      (fuel : ℕ) (su : ℕ → Supply) (idle : ℕ)
      → Peaceful fuel worker_limit su idle (first_state worker_limit pids fds words ends_with_word)
      → 2 * length (pairs words) + 1 + idle ≤ fuel
      → (c : Config) × (config_loop fuel worker_limit su
            (first_state worker_limit pids fds words ends_with_word)
          ≡ ok c)
        × Settled words c
  unfolding first_state weight is_going create
  first_loop-Settled fuel su idle peace enough =
      let first = first_state worker_limit pids fds words ends_with_word in
      let d =
        config_loop-Done worker_limit su fuel idle first first_state-Smooth peace
          (omega (arith, enough)) in
      (
        d.after,
        d.ends,
        record {
          spawned = config_loop-pairs fuel worker_limit su first d.after good refl refl refl d.ends;
          none_left = ground (arith, d.over);
          queue = d.smooth.queue;
          found = d.smooth.found;
        },
      )
