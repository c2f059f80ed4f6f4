-- ===== src/Protocol/Startup/Lost.antt =====
-- A pair that the store does not find ends the manager when its worker reports.
use file_sync_system.Common.{
  ℕ, zero, suc, lt→ltb, ◌⊎◌, inl, inr, ◌%◌, ◌<◌, ◌≡◌, ◌≢◌, ◌∙◌, refl, ap, Bool, true, false, ◌&&◌,
  ◌||◌, none, some, List, [], ◌∷◌, arith, length, get_elem?, get_elem?-replicate,
}
use file_sync_system.Common.Text.{Text}
use file_sync_system.HashTable as Watches
use file_sync_system.Lnode.{lnode_find}
use file_sync_system.Manager.Collect.{Arrivals, Desk, record_report, first_report, collect}
use file_sync_system.Manager.Command.Words.{IsWord}
use file_sync_system.Manager.Config.{
  Job, Supply, Config, scan, is_empty, full_job, next_pair, choose, config_round, is_going,
  config_loop,
}
use file_sync_system.Manager.Phases.{first_state}
use file_sync_system.Manager.Run.{ok, exited}
use file_sync_system.Manager.Workers.{PollFd}
use file_sync_system.MemStore as Store
use file_sync_system.MemStore.Invariant as Stores
use file_sync_system.Protocol.Delivery.{record_of}
use file_sync_system.Protocol.Startup.Collect.{collect-exits, collect-quiet}
use file_sync_system.Protocol.Startup.Ends.{Then}
use file_sync_system.Protocol.Startup.Poll.{polled, polled-IsTable}
use file_sync_system.Protocol.Startup.Phase.{first_state-Fit}
use file_sync_system.Protocol.Startup.Report.{Whole, whole, taken, buffer_of}
use file_sync_system.Protocol.Startup.Round.{Silent, choose-next}
use file_sync_system.Protocol.Startup.Start.{Fit, Served, start-Begun, begun_unknown}

-- The report of a pair that is not in the store.
lost_exits :
    (limit n : ℕ) (a : Arrivals) (d : Desk) (map : Watches.HashTable) (spawned : List Job)
    → Fit limit n d map
    → (w : Whole a d spawned) → Store.find d.mem w.source_dir ≡ Store.ok none
    → collect first_report a d ≡ exited
unfolding first_report record_report record_of polled whole
lost_exits limit n a d map spawned f w unknown =
    let free : d.workers.num_of_current_workers < limit = omega (arith, f.room) in
    let (p, at, content) = buffer_of limit a d f.table free f.empty spawned w in
    collect-exits first_report a limit d w.place _ f.table w.only
      (taken limit a d f.table free f.empty spawned w p at content ∙ rw unknown refl)

find-create : (name : Text) → Store.find Store.create name ≡ Store.ok none
unfolding Store.find Store.read_slot Store.create Store.pos lnode_find
find-create name =
    rw
      (
        Store.read_slot,
        get_elem?-replicate 193 (Store.hash_code name % 193) (Store.chain [])
            (Stores.pos-lt Store.create name (omega arith)),
      )
      refl

round_exits :
    (limit : ℕ) (su : Supply) (c : Config)
    → collect first_report su.arrivals c.desk ≡ exited
    → config_round limit su c ≡ exited
unfolding config_round
round_exits limit su c e = rw e refl

single : (job other : Job) (n : ℕ) → get_elem? (job ∷ []) n ≡ some other → job ≡ other
single job other zero e = ground (arith, e)
single job other (suc n) e = cc

polled-Fit :
    (limit n : ℕ) (a : Arrivals) (d : Desk) (map : Watches.HashTable)
    → Fit limit n d map
    → Fit limit n (polled a d) map
unfolding polled
polled-Fit limit n a d map f = record {
  table = polled-IsTable a limit d f.table;
  empty = f.empty;
  store = f.store;
  keys = f.keys;
  room = f.room;
  space = f.space;
}

-- The state in which the worker of the one pair is running, the store does not find the pair, and
-- nothing is left in the file.
record Running (limit : ℕ) (s t : Text) (c : Config) : Type 0 where
  fit : Fit limit 0 c.desk c.inotify_map
  unknown : Store.find c.desk.mem s ≡ Store.ok none
  spawned : c.spawned ≡ full_job s t ∷ []
  words : c.scanner.words ≡ []
  queue : c.workers_queue ≡ []
  busy : 0 < c.desk.workers.num_of_current_workers

Running-is_going : (limit : ℕ) (s t : Text) (c : Config) → Running limit s t c → is_going c ≡ true
unfolding is_going
Running-is_going limit s t c r = ground (arith, r.busy)

-- Nothing is left in the file and in the queue.
choose_end :
    (limit : ℕ) (su : Supply) (c : Config) (words queue : List Text)
    → words ≡ []
    → queue ≡ []
    → c.desk.workers.num_of_current_workers < limit
    → choose limit su
        (record c { scanner = record c.scanner { words = words }; workers_queue = queue })
      ≡ ok (record c { scanner = record c.scanner { words = []; eof = true }; workers_queue = [] })
unfolding choose next_pair scan
choose_end limit su c [] [] e e' room =
    rw (lt→ltb c.desk.workers.num_of_current_workers limit room) refl
choose_end limit su c [] (x ∷ queue) e e' room = cc
choose_end limit su c (w ∷ words) queue e e' room = cc

-- A round in which nothing arrives.
idle-Running :
    (limit : ℕ) (su : Supply) (s t : Text) (c : Config)
    → Silent su
    → Running limit s t c
    → (c' : Config) × (config_round limit su c ≡ ok c') × Running limit s t c'
unfolding config_round polled
idle-Running limit su s t c silent r = (
  record c {
    desk = polled su.arrivals c.desk;
    scanner = record c.scanner { words = []; eof = true };
    workers_queue = [];
  },
  rw (collect-quiet first_report su.arrivals limit c.desk r.fit.table silent) (
      choose_end limit su (record c { desk = polled su.arrivals c.desk }) c.scanner.words
        c.workers_queue r.words r.queue (omega (arith, r.fit.room))),
  record {
    fit = polled-Fit limit 0 su.arrivals c.desk c.inotify_map r.fit;
    unknown = r.unknown;
    spawned = r.spawned;
    words = refl;
    queue = refl;
    busy = r.busy;
  },
)

-- Within `fuel` rounds the whole report arrives, and nothing arrives in the rounds before.
unfoldable pub Awaited : (fuel worker_limit : ℕ) → (ℕ → Supply) → Config → Type 0
Awaited zero worker_limit su c = ⊥
Awaited (suc fuel) worker_limit su c =
    Whole (su fuel).arrivals c.desk c.spawned
    ⊎ (Silent (su fuel)
        × Then (Awaited fuel worker_limit su) (config_round worker_limit (su fuel) c))

config_loop_exits :
    (fuel limit : ℕ) (su : ℕ → Supply) (s t : Text) (c : Config)
    → Running limit s t c
    → Awaited fuel limit su c
    → config_loop fuel limit su c ≡ exited
unfolding config_loop Awaited full_job
config_loop_exits zero limit su s t c r later = absurd later
config_loop_exits (suc fuel) limit su s t c r (inl w) =
    let same =
      ap (λ (j : Job). j.source_dir)
        (single (full_job s t) _ w.number (rw r.spawned at w.started)) in
    let gone =
      lost_exits limit 0 (su fuel).arrivals c.desk c.inotify_map c.spawned r.fit w
        (rw same at r.unknown) in
    rw (Running-is_going limit s t c r, round_exits limit (su fuel) c gone) refl
config_loop_exits (suc fuel) limit su s t c r (inr (silent, later)) =
    let (c', e, r') = idle-Running limit (su fuel) s t c silent r in
    rw (Running-is_going limit s t c r, e)
      (config_loop_exits fuel limit su s t c' r' (rw e at later))

module _ (worker_limit : ℕ) (pids : List ℕ) (fds : List PollFd) (s t : Text) (b : Bool)
    (pids_width : length pids ≡ worker_limit) (fds_width : length fds ≡ worker_limit)
    (several : 1 < worker_limit) (word_s : IsWord s) (word_t : IsWord t)
    (differ : (length s % 193) ≢ (length t % 193)) where
  abbrev first : Config
  first = first_state worker_limit pids fds (s ∷ t ∷ []) b

  round-Running :
      (su : Supply)
      → Served su
      → Silent su
      → (c : Config) × (config_round worker_limit su first ≡ ok c) × Running worker_limit s t c
  unfolding config_round next_pair scan is_empty first_state polled Store.create
  round-Running su v silent =
      let d = polled su.arrivals first.desk in
      let fit = polled-Fit worker_limit 1 su.arrivals first.desk first.inotify_map (
        first_state-Fit worker_limit 1 pids fds (s ∷ t ∷ []) b pids_width fds_width several
          (omega arith)) in
      let c' : Config = record first {
        scanner = record {
          words = [];
          ends_with_word = b;
          eof = (false || (b && false)) || (b && true);
        };
        desk = d;
      } in
      let begun = start-Begun worker_limit 0 su s t c' word_s word_t v fit in
      (
        record c' { desk = begun.desk; inotify_map = begun.map; spawned = full_job s t ∷ [] },
        rw
            (collect-quiet first_report su.arrivals worker_limit first.desk
              (first_state-Fit worker_limit 1 pids fds (s ∷ t ∷ []) b pids_width fds_width several
                (omega arith)).table
              silent)
            (choose-next worker_limit su v (record first { desk = d }) first.scanner
                (omega (arith, fit.room))
              ∙ begun.ends),
        record {
          fit = begun.fit;
          unknown =
              begun_unknown worker_limit 0 su s t c' v fit begun (find-create s)
                (ground (arith, differ));
          spawned = refl;
          words = refl;
          queue = refl;
          busy = omega (arith, begun.one_more);
        },
      )

  -- The first loop on a configuration file with one pair, whose names have different lengths, modulo
  -- the 193 slots of the store: its first round starts the worker, and nothing else, and when the
  -- worker's whole report arrives the manager exits. The report comes within `fuel` rounds more, and
  -- nothing has been written in the rounds before. The names are not empty and hold no blank and no
  -- newline, and, as the report is to be read back, no colon; the report is on the worker's `FULL`,
  -- with error lines as in a report. There is more than one place for a worker, the arrays have
  -- `worker_limit` places, and in the first round `fork` gives a child, `malloc` zeros in a new node
  -- of the table of watches, and the supply one level of the store's recursion.
  pub one_pair_exits :
      (fuel : ℕ) (su : ℕ → Supply)
      → Served (su fuel)
      → Silent (su fuel)
      → Then (Awaited fuel worker_limit su) (config_round worker_limit (su fuel) first)
      → (c : Config) × (config_round worker_limit (su fuel) first ≡ ok c)
        × (c.spawned ≡ full_job s t ∷ [])
        × (config_loop (suc fuel) worker_limit su first ≡ exited)
  unfolding config_loop is_going first_state
  one_pair_exits fuel su v silent later =
      let (c, e, r) = round-Running (su fuel) v silent in
      (c, e, r.spawned, rw e (config_loop_exits fuel worker_limit su s t c r (rw e at later)))
