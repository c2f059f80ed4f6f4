-- ===== src/Protocol/Startup/Report.antt =====
-- A round of the loop over the configuration file in which one worker's whole report arrives.
use file_sync_system.Common.{
  ℕ, ◌+◌, ◌-◌, ◌<◌, ◌≡◌, ◌∙◌, refl, sym, ap, false, some, List, [], arith, ◌==◌, if◌then◌else◌,
  get_elem?, set, length-set, get_elem?-lt,
}
use file_sync_system.Common.Text.{Text, codes}
use file_sync_system.Manager.Collect.{Report, Arrivals, Desk, first_report, take_input}
use file_sync_system.Manager.Run.{ok, ◌>>=◌}
use file_sync_system.Manager.Workers.{Workers, release}
use file_sync_system.Manager.Workers.Release.{IsTable}
use file_sync_system.Manager.Workers.Sharing.{receive-ok}
use file_sync_system.Protocol.Delivery.{Arriving, record_of, take_input-report}
use file_sync_system.Protocol.Lines.{IsToken, IsToken-check}
use file_sync_system.Protocol.RoundTrip.{Holds}
use file_sync_system.Protocol.Startup.Collect.{IdleFrom}
use file_sync_system.Manager.Config.{Job, full_job}
use file_sync_system.Protocol.Startup.Poll.{polled, polled-IsTable, polled-others, Only}
use file_sync_system.Worker.Report.{Outcome, report}

-- No buffer holds a part of a report.
abbrev pub Empty : List Text → Type 0
Empty buffers = (p : ℕ) (text : Text) → get_elem? buffers p ≡ some text → text ≡ []

-- The whole report of a `FULL` of a pair that has been started.
pub record Whole (a : Arrivals) (d : Desk) (spawned : List Job) : Type 0 where
  pub place : ℕ
  pub source_dir : Text
  pub target_dir : Text
  pub outcome : Outcome
  pub lines : List Text
  pub source : IsToken source_dir
  pub target : IsToken target_dir
  pub holds : Holds outcome lines
  pub number : ℕ
  pub started : get_elem? spawned number ≡ some (full_job source_dir target_dir)
  pub only : Only a d place (report source_dir target_dir (codes "FULL") outcome)

full-IsToken : IsToken (codes "FULL")
full-IsToken = IsToken-check (codes "FULL") (λ e. cc) refl

module _ (limit : ℕ) (a : Arrivals) (d : Desk) (table : IsTable limit d.workers)
    (free : d.workers.num_of_current_workers < limit) (empty : Empty d.workers.buffers)
    (spawned : List Job) (w : Whole a d spawned) where
  unfoldable pub whole : Text
  whole = report w.source_dir w.target_dir (codes "FULL") w.outcome

  abbrev pub before : Desk
  before = polled a d

  abbrev pub the_report : Report
  the_report =
      record_of w.source_dir w.target_dir (codes "FULL") w.outcome w.lines limit w.place a before
        whole

  -- The table when the report has been received.
  unfoldable pub received : ℕ → Workers
  received p = record before.workers { buffers = set d.workers.buffers p whole }

  pub received-IsTable : (p : ℕ) → IsTable limit (received p)
  unfolding received polled
  received-IsTable p =
      let t = polled-IsTable a limit d table in
      record {
        pids = t.pids;
        fds = t.fds;
        pointers = t.pointers;
        room = t.room;
        owned = λ i q e. omega (arith, length-set d.workers.buffers p whole, t.owned i q e);
      }

  -- Up to what becomes of the report.
  pub taken :
      (p : ℕ)
      → get_elem? d.workers.workers_buffer w.place ≡ some p
      → get_elem? d.workers.buffers p ≡ some []
      → take_input first_report a w.place whole before ≡ (
          first_report a.time the_report (record before { workers = received p }) >>= λ d'.
          release w.place d'.workers >>= λ workers. ok (record d' { workers = workers }))
  unfolding received polled whole
  taken p at content =
      let arriving : Arriving limit w.place before whole [] whole = record {
        table = polled-IsTable a limit d table;
        used = w.only.used;
        free = free;
        buffer = record { pointer = p; at_place = at; content = content };
        splits = refl;
      } in
      take_input-report w.source_dir w.target_dir (codes "FULL") w.outcome w.lines limit w.place a
        before whole w.source w.target full-IsToken w.holds [] arriving (received p) first_report
        (receive-ok before.workers w.place p [] whole at content)

  -- The places behind the one that has been released.
  pub idle_behind :
      (p : ℕ) (after : Workers)
      → after.num_of_current_workers + 1 ≡ d.workers.num_of_current_workers
      → ((j : ℕ)
          → j < d.workers.num_of_current_workers - 1
          → get_elem? after.fds_array j
            ≡ get_elem?
                (received p).fds_array
                (if j == w.place then d.workers.num_of_current_workers - 1 else j))
      → IdleFrom (w.place + 1) after
  unfolding received whole
  idle_behind p after less fds j place le lt e =
      let apart : (j == w.place) ≡ false = ground arith in
      let same = rw apart at (fds j (omega (arith, lt, less))) in
      polled-others a d w.place whole j place w.only (omega (arith, lt, less))
        (λ h. omega (arith, h, le)) (sym same ∙ e)

  -- The buffer into which the report goes.
  pub buffer_of :
      (p : ℕ) × (get_elem? d.workers.workers_buffer w.place ≡ some p)
      × (get_elem? d.workers.buffers p ≡ some [])
  buffer_of =
      let (p, at) =
        get_elem?-lt d.workers.workers_buffer w.place
          (omega (arith, table.pointers, table.room, w.only.used)) in
      let (old, content) = get_elem?-lt d.workers.buffers p (table.owned w.place p at) in
      (p, at, content ∙ ap some (empty p old content))
