-- ===== src/Manager/Config.antt =====
-- The first loop of `main` (src/fss_manager.c): it starts a worker for each pair of directories in
-- the configuration file, and queues those for which there is no room.
pub mod Waiting
pub mod Order
pub mod Invariant
use file_sync_system.Common.{
  ℕ, zero, suc, ◌+◌, Bool, true, false, Option, none, some, List, [], ◌∷◌, ◌++◌, ltb, if◌then◌else◌,
  ◌&&◌, ◌||◌, not, length,
}
use file_sync_system.Common.Text.{Text, codes, strtok}
use file_sync_system.HashTable as Watches
use file_sync_system.HashTable.{HashTable}
use file_sync_system.ListNode.{ListNode}
use file_sync_system.Lnode.{DirInfo}
use file_sync_system.Manager.Collect.{Arrivals, Desk, collect, first_report}
use file_sync_system.Manager.Command.{delims}
use file_sync_system.Manager.Run.{
  Run, ok, out_of_fuel, ◌>>=◌, of_store, of_table, not_null, or_exit,
}
use file_sync_system.Manager.Workers.{Workers, launch}
use file_sync_system.MemStore as Store
use file_sync_system.MemStore.{MemStore, Slot}

-- The words of the file that are left, whether the file ends with the last word, and `feof`.
pub record Scanner : Type 0 where
  pub words : List Text
  pub ends_with_word : Bool
  pub eof : Bool

unfoldable pub is_empty : List Text → Bool
is_empty [] = true
is_empty (w ∷ words) = false

-- `fscanf("%s")`: it meets the end of the file if there is no word, or none behind it.
unfoldable pub scan : Scanner → Option Text × Scanner
unfolding is_empty
scan sc = elim sc.words [
  | [] ↦ (none, record sc { eof = true })
  | w ∷ words ↦
      (some w, record sc { words = words; eof = sc.eof || (sc.ends_with_word && is_empty words) })
]

-- The arguments that a worker is started with.
pub record Job : Type 0 where
  pub source_dir : Text
  pub target_dir : Text
  pub filename : Text
  pub operation : Text

-- What the system gives in one round: the input of the workers, the process number of a child,
-- `none` if `fork` fails, the descriptors of its pipe and of a watch, and what `malloc` leaves.
pub record Supply : Type 0 where
  pub arrivals : Arrivals
  pub child_pid : Option ℕ
  pub pipe_fd : ℕ
  pub watch_fd : ℕ
  pub leftover : ListNode
  pub fresh : ℕ → ℕ → List Slot
  pub depth : ℕ

-- `workers_queue` is the list that the queue represents, and `spawned` are the calls of `execl`.
pub record Config : Type 0 where
  pub scanner : Scanner
  pub desk : Desk
  pub inotify_map : HashTable
  pub workers_queue : List Text
  pub spawned : List Job

-- `new_dir`
unfoldable pub new_dir : (source_dir target_dir : Text) → DirInfo
new_dir source_dir target_dir = record {
  source_dir = source_dir;
  target_dir = target_dir;
  status = [];
  last_sync_time = [];
  active_error_count = 0;
  is_active = true;
  is_in_workers = true;
}

unfoldable pub full_job : (source_dir target_dir : Text) → Job
full_job source_dir target_dir = record {
  source_dir = source_dir;
  target_dir = target_dir;
  filename = codes "ALL";
  operation = codes "FULL";
}

-- The two texts that `strtok` takes from the buffer, neither of them NULL.
unfoldable pub parse_pair : Text → Run (Text × Text)
parse_pair buffer =
    let (source_dir, rest) = strtok delims buffer in
    let (target_dir, _) = strtok delims rest in
    not_null source_dir >>= λ s. not_null target_dir >>= λ t. ok (s, t)

-- `"%s %s "`
unfoldable pub pair_text : Text → Text → Text
pair_text buffer s2 = buffer ++ (b' ' ∷ (s2 ++ b' ' ∷ []))

module _ (worker_limit : ℕ) (su : Supply) where
  unfoldable pub start_worker : Text → Config → Run Config
  start_worker buffer c = parse_pair buffer >>= λ (source_dir, target_dir).
      or_exit su.child_pid >>= λ pid.
      of_table (Watches.insert su.leftover c.inotify_map su.watch_fd source_dir) >>= λ map.
      of_store (Store.add su.fresh su.depth c.desk.mem (new_dir source_dir target_dir)) >>= λ mem.
      launch pid su.pipe_fd c.desk.workers >>= λ workers. ok (record c {
        desk = record c.desk { mem = mem; workers = workers };
        inotify_map = map;
        spawned = c.spawned ++ full_job source_dir target_dir ∷ [];
      })

  -- The part behind the choice of the task.
  unfoldable pub start_or_push : Text → Config → Run Config
  start_or_push buffer c =
      if ltb c.desk.workers.num_of_current_workers worker_limit
      then start_worker buffer c
      else ok (record c { workers_queue = c.workers_queue ++ buffer ∷ [] })

  -- A pair from the file. A last word that stands alone is dropped.
  unfoldable pub next_pair : Config → Run Config
  next_pair c =
      let (buffer, sc) = scan c.scanner in
      let (s2, sc') = scan sc in
      let first : Text = elim buffer [ none ↦ [] | some w ↦ w ] in
      elim s2 [
        | none ↦ ok (record c { scanner = (scan sc').1 })
        | some w ↦ start_or_push (pair_text first w) (record c { scanner = sc' })
      ]

  -- The choice of the task.
  unfoldable pub choose : Config → Run Config
  choose c =
      if ltb c.desk.workers.num_of_current_workers worker_limit
      then elim c.workers_queue [
        | [] ↦ next_pair c
        | buffer ∷ rest ↦ start_or_push buffer (record c { workers_queue = rest })
      ]
      else next_pair c

  unfoldable pub config_round : Config → Run Config
  config_round c =
      collect first_report su.arrivals c.desk >>= λ desk. choose (record c { desk = desk })

-- The test of the loop.
unfoldable pub is_going : Config → Bool
unfolding is_empty
is_going c =
    not c.scanner.eof
    || ltb 0 c.desk.workers.num_of_current_workers
    || not (is_empty c.workers_queue)

-- The loop; the supplies are those of its rounds.
unfoldable pub config_loop : ℕ → ℕ → (ℕ → Supply) → Config → Run Config
config_loop zero worker_limit su c = if is_going c then out_of_fuel else ok c
config_loop (suc fuel) worker_limit su c =
    if is_going c
    then config_round worker_limit (su fuel) c >>= config_loop fuel worker_limit su
    else ok c
