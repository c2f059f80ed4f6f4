-- ===== src/Tests/Config.antt =====
-- The configuration phase of the manager (src/fss_manager.c), on a file with two pairs.
mod Startup
mod Lost
mod Program
use file_sync_system.Common.{
  ℕ, ◌+◌, ◌≡◌, refl, false, none, some, List, [], ◌∷◌, ltb, ◌==◌, All, if◌then◌else◌,
}
use file_sync_system.Common.Text.{Text, codes, str_eq, skip, cut, strtok, Free-check}
use file_sync_system.HashTable as Watches
use file_sync_system.ListNode as Nodes
use file_sync_system.Lnode.{lnode_create, lnode_add_next, lnode_find, lnode_write}
use file_sync_system.Manager.Collect.{
  Arrivals, poll, reported, complete, record_report, first_report, finish, take_input,
  collect_place, collect_from, collect,
}
use file_sync_system.Manager.Command.{delims}
use file_sync_system.Manager.Command.Words.{IsWord}
use file_sync_system.Manager.Config.{
  scan, Supply, Config, new_dir, full_job, parse_pair, pair_text, start_worker, start_or_push,
  next_pair, choose, config_round, is_going, config_loop,
}
use file_sync_system.Manager.Config.Invariant.{config_loop-IsTable}
use file_sync_system.Manager.Workers.Invariant.{create-IsTable}
use file_sync_system.Manager.Workers.Release.{IsTable}
use file_sync_system.Manager.Config.Order.{config_loop-pairs}
use file_sync_system.Manager.Config.Waiting.{pairs}
use file_sync_system.Manager.Loop.{round, pop_or_serve, serve}
use file_sync_system.Manager.Loop.Invariant.{here, next}
use file_sync_system.Manager.Phases.{first_state, second_state, Running, phases-Running}
use file_sync_system.Manager.State as State
use file_sync_system.Manager.State.{quiet}
use file_sync_system.Manager.Report.{
  Output, count_errors, extract_field, extract_loop, extract_workers_output,
}
use file_sync_system.Manager.Run.{Run, ok, read_at, write_at}
use file_sync_system.Manager.Scan.{is_substring}
use file_sync_system.Manager.Workers.{
  PollFd, Workers, count_from, create, receive, swap_last, swap_buffer, release, launch,
}
use file_sync_system.MemStore as Store
use file_sync_system.Worker.Number.{number_to_string}
use file_sync_system.Worker.Report.{Outcome, status, count_text, details, errors, report}

abbrev two_words : List Text
two_words = codes "a" ∷ codes "b" ∷ codes "c" ∷ codes "d" ∷ codes "e" ∷ []

abbrev no_output : Output
no_output = record {
  source_dir = none;
  target_dir = none;
  status = none;
  operation = none;
  details = none;
  errors_found = 0;
}

abbrev one_copied : Outcome
one_copied = record {
  error_buffer = [];
  files_copied = 1;
  files_skipped = 0;
  files_deleted = 0;
  error_flag = false;
}

abbrev any_place : PollFd
any_place = record { fd = 0; revents = false }

abbrev three_places : Workers
unfolding count_from create
three_places = create 3 (0 ∷ 0 ∷ 0 ∷ []) (any_place ∷ any_place ∷ any_place ∷ [])

abbrev at_start : Config
at_start = record {
  scanner = record { words = two_words; ends_with_word = false; eof = false };
  desk = record { mem = Store.create; workers = three_places; out = [] };
  inotify_map = Watches.create;
  workers_queue = [];
  spawned = [];
}

-- The workers of the two pipes report from the third round on.
abbrev arrivals_of : ℕ → Arrivals
arrivals_of n = record {
  ready = λ fd. ltb n 3;
  arrived = λ fd.
      if fd == 15
      then some (report (codes "a") (codes "b") (codes "FULL") one_copied)
      else some (report (codes "c") (codes "d") (codes "FULL") one_copied);
  time = codes "12:00";
  before = no_output;
}

abbrev supply_of : ℕ → Supply
supply_of n = record {
  arrivals = arrivals_of n;
  child_pid = some (100 + n);
  pipe_fd = 10 + n;
  watch_fd = n;
  leftover = Nodes.null;
  fresh = λ depth k. [];
  depth = 1;
}

config_steps : Unit {0}
unfolding str_eq skip cut strtok Watches.create Watches.insert Watches.find Watches.read_slot
    Watches.slot Watches.fill Watches.insert_new Nodes.list_node_create Nodes.list_node_add
    Nodes.list_node_find lnode_create lnode_add_next lnode_find lnode_write Store.create Store.pos
    Store.hash_code Store.read_slot Store.find Store.write Store.link Store.insert Store.overloaded
    Store.add poll reported complete record_report first_report finish take_input collect_place
    collect_from collect scan new_dir full_job parse_pair pair_text start_worker start_or_push
    next_pair choose config_round is_going config_loop count_errors extract_field extract_loop
    extract_workers_output read_at write_at is_substring count_from create receive swap_last
    swap_buffer release launch number_to_string status count_text details errors report pairs
config_steps = tt

abbrev result_of : Run Config → Config
result_of (ok c) = c
result_of _ = at_start

finished : Config
finished = result_of (config_loop 6 3 supply_of at_start)

did_finish : config_loop 6 3 supply_of at_start ≡ ok finished
unfolding config_steps finished
did_finish = refl

IsWord-two_words : All IsWord two_words
IsWord-two_words = (
  record { nonempty = λ e. cc; free = Free-check delims (codes "a") refl },
  (
    record { nonempty = λ e. cc; free = Free-check delims (codes "b") refl },
    (
      record { nonempty = λ e. cc; free = Free-check delims (codes "c") refl },
      (
        record { nonempty = λ e. cc; free = Free-check delims (codes "d") refl },
        (record { nonempty = λ e. cc; free = Free-check delims (codes "e") refl }, tt),
      ),
    ),
  ),
)

config_loop-pairs_example :
    finished.spawned ≡ full_job (codes "a") (codes "b") ∷ full_job (codes "c") (codes "d") ∷ []
unfolding pairs
config_loop-pairs_example =
    config_loop-pairs 6 3 supply_of at_start finished IsWord-two_words refl refl refl did_finish

-- A round of the second loop in which nothing happens.
abbrev quiet_supply : State.Supply
quiet_supply = record {
  arrivals = arrivals_of 0;
  input = quiet;
  buffer = [];
  time = codes "12:01";
  child_pid = some 200;
  pipe_fd = 30;
  watch_fd = 31;
  leftover = Nodes.null;
  fresh = λ depth k. [];
  depth = 1;
  stale_status = [];
  stale_in_workers = false;
}

quiet-round : round 3 quiet_supply (second_state finished) ≡ ok (second_state finished)
unfolding config_steps finished second_state round pop_or_serve serve collect collect_from poll
quiet-round = refl
