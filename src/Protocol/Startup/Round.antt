-- ===== src/Protocol/Startup/Round.antt =====
-- A round of the loop over the configuration file that succeeds, and what it brings nearer.
use file_sync_system.Common.{
  All-map, All-snoc, All-get_elem?, ℕ, ◌+◌, ◌*◌, ◌≤◌, ◌<◌, ◌≡◌, ◌∙◌, refl, sym, ap, subst, Bool,
  true, false, List, [], ◌∷◌, ◌++◌, ◌&&◌, ◌||◌, All, arith, lt→ltb, length, if◌then◌else◌,
}
use file_sync_system.Common.Text.{Text}
use file_sync_system.HashTable.{HashTable}
use file_sync_system.Manager.Collect.{Arrivals, Desk, first_report}
use file_sync_system.Manager.Command.Words.{IsWord}
use file_sync_system.Manager.Config.{
  Job, Scanner, Supply, Config, scan, is_empty, full_job, next_pair, choose, config_round,
}
use file_sync_system.Manager.Config.Waiting.{pairs}
use file_sync_system.Manager.Run.{ok}
use file_sync_system.Protocol.Startup.Collect.{collect-quiet}
use file_sync_system.Protocol.Startup.Found.{Found}
use file_sync_system.Protocol.Startup.Poll.{polled, polled-IsTable}
use file_sync_system.Protocol.Startup.Report.{Whole}
use file_sync_system.Protocol.Startup.Passed.{Passed, arrival-Passed}
use file_sync_system.Protocol.Startup.Start.{Fit, Served, Passed-Fit, start-Begun, begun-Found}

-- The two words of each pair have the same length.
abbrev pub SameLengths : List Text → Type 0
SameLengths [] = Unit
SameLengths (w ∷ []) = Unit
SameLengths (s ∷ t ∷ words) = (length s ≡ length t) × SameLengths words

-- Nothing waits, no buffer holds a part of a report, and the tables have room for a worker for each
-- pair of words that is left; the store finds all pairs that have been started.
pub record Smooth (limit : ℕ) (c : Config) : Type 0 where
  pub fit : Fit limit (length (pairs c.scanner.words)) c.desk c.inotify_map
  pub queue : c.workers_queue ≡ []
  pub words : All IsWord c.scanner.words
  pub ended : c.scanner.eof ≡ true → c.scanner.words ≡ []
  pub lengths : SameLengths c.scanner.words
  pub found : All (λ (job : Job). Found c.desk.mem job.source_dir) c.spawned

-- `poll` finds no input.
abbrev pub Silent : Supply → Type 0
Silent su = (fd : ℕ) → su.arrivals.ready fd ≡ false

abbrev pub unread : Bool → ℕ
unread eof = if eof then 0 else 1

unread_le : (eof : Bool) → unread eof ≤ 1
unread_le eof = ground arith

-- What is left to be done: a pair of words is read and its worker ends.
unfoldable pub weight : Config → ℕ
weight c =
    2 * length (pairs c.scanner.words)
    + c.desk.workers.num_of_current_workers
    + unread c.scanner.eof

pub quiet-Passed :
    (limit n : ℕ) (a : Arrivals) (d : Desk) (map : HashTable)
    → Fit limit n d map
    → ((fd : ℕ) → a.ready fd ≡ false)
    → Passed limit 0 a d
unfolding polled
quiet-Passed limit n a d map f silent = record {
  after = polled a d;
  ends = collect-quiet first_report a limit d f.table silent;
  table = polled-IsTable a limit d f.table;
  fewer = omega arith;
  empty = f.empty;
  store = f.store;
  size = refl;
  capacity = refl;
  found = λ name known. known;
}

module _ (limit : ℕ) (su : Supply) (v : Served su) where
  -- The choice of the task.
  record Chosen (c : Config) : Type 0 where
    after : Config
    ends : choose limit su c ≡ ok after
    smooth : Smooth limit after
    less : weight after + unread c.scanner.eof ≤ weight c

  pub choose-next :
      (c : Config) (sc : Scanner)
      → c.desk.workers.num_of_current_workers < limit
      → choose limit su (record c { scanner = sc; workers_queue = [] })
        ≡ next_pair limit su (record c { scanner = sc; workers_queue = [] })
  unfolding choose
  choose-next c sc h = rw (lt→ltb c.desk.workers.num_of_current_workers limit h) refl

  -- No pair is left in the file.
  at_end :
      (ws : List Text) (b f : Bool) (c : Config)
      → Fit limit 0 c.desk c.inotify_map
      → All (λ (job : Job). Found c.desk.mem job.source_dir) c.spawned
      → next_pair limit su (record c {
        scanner = record { words = ws; ends_with_word = b; eof = f };
        workers_queue = [];
      })
        ≡ ok (record c {
          scanner = record { words = []; ends_with_word = b; eof = true };
          workers_queue = [];
        })
      → Chosen (record c {
        scanner = record { words = ws; ends_with_word = b; eof = f };
        workers_queue = [];
      })
  unfolding pairs weight
  at_end ws b f c fit found read = record {
    after = record c {
      scanner = record { words = []; ends_with_word = b; eof = true };
      workers_queue = [];
    };
    ends = choose-next c _ (omega (arith, fit.room)) ∙ read;
    smooth = record {
      fit = fit;
      queue = refl;
      words = tt;
      ended = λ _. refl;
      lengths = tt;
      found = found;
    };
    less = ground arith;
  }

  choose_words-Chosen :
      (ws : List Text) (b f : Bool) (c : Config)
      → Fit limit (length (pairs ws)) c.desk c.inotify_map
      → All IsWord ws
      → (f ≡ true → ws ≡ [])
      → SameLengths ws
      → All (λ (job : Job). Found c.desk.mem job.source_dir) c.spawned
      → Chosen (record c {
        scanner = record { words = ws; ends_with_word = b; eof = f };
        workers_queue = [];
      })
  unfolding next_pair scan is_empty pairs weight full_job
  choose_words-Chosen [] b f c fit words ended lengths found = at_end [] b f c fit found refl
  choose_words-Chosen (w ∷ []) b f c fit words ended lengths found =
      at_end (w ∷ []) b f c fit found refl
  choose_words-Chosen (s ∷ t ∷ ws) b f c fit words ended lengths found =
      let g = (f || (b && false)) || (b && is_empty ws) in
      let c' : Config = record c {
        scanner = record { words = ws; ends_with_word = b; eof = g };
        workers_queue = [];
      } in
      let begun = start-Begun limit (length (pairs ws)) su s t c' words.0 words.1.0 v fit in
      record {
        after = record c' {
          desk = begun.desk;
          inotify_map = begun.map;
          spawned = c.spawned ++ full_job s t ∷ [];
        };
        ends = choose-next c _ (omega (arith, fit.room)) ∙ begun.ends;
        smooth = record {
          fit = begun.fit;
          queue = refl;
          words = words.1.1;
          ended = behind ws;
          lengths = lengths.1;
          found =
              All-snoc _ c.spawned (full_job s t)
                (All-map _ _ c.spawned (λ job. begun.found job.source_dir) found)
                (begun-Found limit (length (pairs ws)) su s t c' v fit begun lengths.0);
        };
        less = omega (arith, begun.one_more, unread_le g, unread_le f);
      }
    where
      behind : (ws : List Text) → ((f || (b && false)) || (b && is_empty ws)) ≡ true → ws ≡ []
      behind [] h = refl
      behind (w ∷ ws) h = ground (arith, ended)

  choose-Chosen : (c : Config) → Smooth limit c → Chosen c
  choose-Chosen c smooth =
      subst Chosen (ap (λ q. record c { workers_queue = q }) (sym smooth.queue)) (
        choose_words-Chosen c.scanner.words c.scanner.ends_with_word c.scanner.eof c smooth.fit
          smooth.words smooth.ended smooth.lengths smooth.found)

-- A round that ends, smooth again, with `progress` less to be done.
pub record Nearer (limit : ℕ) (su : Supply) (progress : ℕ) (c : Config) : Type 0 where
  pub after : Config
  pub ends : config_round limit su c ≡ ok after
  pub smooth : Smooth limit after
  pub less : weight after + progress ≤ weight c

module _ (limit : ℕ) (su : Supply) (v : Served su) (c : Config) (smooth : Smooth limit c) where
  nearer :
      (gone : ℕ)
      → Passed limit gone su.arrivals c.desk
      → Nearer limit su (gone + unread c.scanner.eof) c
  unfolding config_round weight
  nearer gone p =
      let d = record c { desk = p.after } in
      let after_pass : Smooth limit d = record {
        fit = Passed-Fit limit _ gone su.arrivals c.desk c.inotify_map smooth.fit p;
        queue = smooth.queue;
        words = smooth.words;
        ended = smooth.ended;
        lengths = smooth.lengths;
        found = All-map _ _ c.spawned (λ job. p.found job.source_dir) smooth.found;
      } in
      let k = choose-Chosen limit su v d after_pass in
      record {
        after = k.after;
        ends = rw p.ends k.ends;
        smooth = k.smooth;
        less = omega (arith, k.less, p.fewer);
      }

  pub idle-Nearer : Silent su → Nearer limit su (0 + unread c.scanner.eof) c
  idle-Nearer silent =
      nearer 0 (quiet-Passed limit _ su.arrivals c.desk c.inotify_map smooth.fit silent)

  pub arrival-Nearer :
      Whole su.arrivals c.desk c.spawned → Nearer limit su (1 + unread c.scanner.eof) c
  unfolding full_job
  arrival-Nearer whole = nearer 1 (
      arrival-Passed limit su.arrivals c.desk smooth.fit.table (omega (arith, smooth.fit.room))
        smooth.fit.empty c.spawned whole
        (All-get_elem? _ c.spawned whole.number _ smooth.found whole.started) smooth.fit.store)
