-- ===== src/Tests/Manager.antt =====
-- The second loop of the manager (src/fss_manager.c) on small states.
use file_sync_system.Common.{◌==◌, ◌≡◌, refl, true, false, none, some, [], ◌∷◌, arith}
use file_sync_system.Common.Text.{codes, str_eq, skip, cut, strtok}
use file_sync_system.HashTable as Watches
use file_sync_system.ListNode as Nodes
use file_sync_system.Lnode.{DirInfo, lnode_find}
use file_sync_system.Manager.Collect.{Arrivals, second_report, poll, stamped, collect_from, collect}
use file_sync_system.Manager.Collect.Invariant.{AtMost, collect-Ends}
use file_sync_system.Manager.Collect.Reports.{second_report-Ends}
use file_sync_system.Manager.Command.{request, parse_action, parse_command}
use file_sync_system.Manager.Dispatch.{full_job, watch, on_sync, gather, command, perform}
use file_sync_system.Manager.Event.{InotifyEvent, on_event, notify}
use file_sync_system.Manager.Event.First.{IsEvent, encode, notify-encode}
use file_sync_system.Manager.Loop.{
  note_shutdown, start_or_queue, carry_out, serve, pop_or_serve, round, loop,
}
use file_sync_system.Manager.Loop.Fate.{Fate, round-Fate}
use file_sync_system.Manager.Loop.Invariant.{Reach, here, next, Placed, Reach-Placed}
use file_sync_system.Manager.Loop.Lost.{loop-drops}
use file_sync_system.Manager.Report.{Output}
use file_sync_system.Manager.Run.{Ends, ok, read_at, write_at}
use file_sync_system.Manager.Scan.{is_full_command}
use file_sync_system.Manager.State.{State, Input, quiet, commanded, Supply, say}
use file_sync_system.Manager.Workers.{Workers, launch}
use file_sync_system.Manager.Workers.Release.{IsTable}
use file_sync_system.MemStore as Store
use file_sync_system.Tests.Workers.{place_of, two_of_three, two_of_three-IsTable}

abbrev no_output : Output
no_output = record {
  source_dir = none;
  target_dir = none;
  status = none;
  operation = none;
  details = none;
  errors_found = 0;
}

abbrev idle_table : Workers
idle_table = record two_of_three { num_of_current_workers = 0 }

-- The pair of `/a` and `/b`.
abbrev pub pair_a : DirInfo
pair_a = record {
  source_dir = codes "/a";
  target_dir = codes "/b";
  status = [];
  last_sync_time = [];
  active_error_count = 0;
  is_active = true;
  is_in_workers = false;
}

abbrev pub small_store : Store.MemStore
small_store = record {
  hash_table = Store.chain [] ∷ Store.chain [] ∷ Store.chain (pair_a ∷ []) ∷ [];
  size = 1;
  capacity = 3;
}

abbrev small_map : Watches.HashTable
small_map = record {
  table = Nodes.null ∷ Nodes.node (Nodes.new_pair 1 (codes "/a")) Nodes.null ∷ Nodes.null ∷ [];
  size = 0;
  capacity = 3;
}

abbrev monitoring : State
monitoring = record {
  desk = record { mem = small_store; workers = idle_table; out = [] };
  inotify_map = small_map;
  workers_queue = [];
  shutdown_flag = false;
  spawned = [];
  unwatched = [];
}

abbrev supply : Input → Supply
supply input = record {
  arrivals = record {
    ready = λ fd. false;
    arrived = λ fd. none;
    time = codes "12:00";
    before = no_output;
  };
  input = input;
  buffer = [];
  time = codes "12:00";
  child_pid = some 102;
  pipe_fd = 9;
  watch_fd = 4;
  leftover = Nodes.null;
  fresh = λ depth n. [];
  depth = 1;
  stale_status = [];
  stale_in_workers = false;
}

waiting : State
waiting = record monitoring {
  workers_queue = codes "/a /b all FULL" ∷ codes "/a /b x ADDED" ∷ [];
  shutdown_flag = true;
}

loop-drops_example :
    loop 2 3 (λ n. supply quiet) waiting ≡ ok (record waiting { workers_queue = [] })
unfolding waiting
loop-drops_example =
    loop-drops 3 2 (λ n. supply quiet) waiting (codes "/a /b all FULL") (codes "/a /b x ADDED" ∷ [])
      (omega arith) refl refl refl (omega arith)

-- `sync /a` starts a worker.
sync_a : Input
sync_a = commanded (codes "sync /a \n" ∷ [])

after_sync : State
after_sync = record monitoring {
  desk = record monitoring.desk {
    workers = record idle_table {
      num_of_current_workers = 1;
      workers_pid = 102 ∷ 101 ∷ 0 ∷ [];
      fds_array = place_of 9 ∷ place_of 8 ∷ place_of 0 ∷ [];
    };
    out = codes "[12:00] Syncing directory: /a -> /b\n" ∷ [];
  };
  inotify_map = record small_map {
    table =
        Nodes.null
        ∷ Nodes.node (Nodes.new_pair 1 (codes "/a"))
            (Nodes.node (Nodes.new_pair 4 (codes "/a")) Nodes.null)
        ∷ Nodes.null
        ∷ [];
  };
  spawned = full_job (codes "/a") (codes "/b") ∷ [];
}

round_steps : Unit {0}
unfolding round collect collect_from poll pop_or_serve serve command gather is_full_command
    parse_command parse_action request strtok skip cut perform on_sync str_eq full_job watch say
    stamped carry_out note_shutdown start_or_queue launch read_at write_at Store.find Store.pos
    Store.hash_code Store.read_slot lnode_find Watches.insert Watches.find Watches.read_slot
    Watches.slot Watches.fill Watches.insert_new Nodes.list_node_create Nodes.list_node_add
    Nodes.list_node_find
round_steps = tt

sync_a-round : round 3 (supply sync_a) monitoring ≡ ok after_sync
unfolding sync_a after_sync round_steps
sync_a-round = refl

round-Fate_example : Fate monitoring after_sync
round-Fate_example = round-Fate 3 (supply sync_a) monitoring after_sync sync_a-round

-- A file `x` is created, and other events stand behind.
abbrev created : InotifyEvent
created = record { wd = 1; mask = 256; cookie = 0; len = 16; name = codes "x" }

created-IsEvent : IsEvent created
created-IsEvent = record {
  wd = omega arith;
  mask = omega arith;
  cookie = omega arith;
  len = omega arith;
  name = omega arith;
}

notify-encode_example :
    notify (encode created (0 ∷ 0 ∷ 2 ∷ 0 ∷ [])) (9 ∷ 9 ∷ []) monitoring
    ≡ on_event created monitoring
notify-encode_example =
    notify-encode created (0 ∷ 0 ∷ 2 ∷ 0 ∷ []) (9 ∷ 9 ∷ []) monitoring created-IsEvent

pub a-found : Store.find small_store (codes "/a") ≡ Store.ok (some pair_a)
unfolding Store.find Store.pos Store.read_slot Store.hash_code lnode_find str_eq
a-found = refl

one_step : Reach 3 monitoring after_sync
one_step = next (supply sync_a) monitoring after_sync after_sync sync_a-round (here after_sync)

idle_table-IsTable : IsTable 3 idle_table
idle_table-IsTable = record {
  pids = refl;
  fds = refl;
  pointers = refl;
  room = omega arith;
  owned = two_of_three-IsTable.owned;
}

Reach-Placed_example : Placed 3 (supply quiet) (full_job (codes "/a") (codes "/b")) after_sync
Reach-Placed_example =
    Reach-Placed 3 monitoring after_sync idle_table-IsTable one_step (supply quiet)
      (full_job (codes "/a") (codes "/b"))

-- The first of two workers has written a part of its report.
abbrev some_input : Arrivals
some_input = record (supply quiet).arrivals {
  ready = λ fd. fd == 7;
  arrived = λ fd. some (codes "EXEC_REPORT_START\n");
}

collect-Ends_example : Ends (AtMost 3 2) (
    collect second_report some_input
      (record { mem = small_store; workers = two_of_three; out = [] }))
collect-Ends_example =
    collect-Ends 3 second_report some_input second_report-Ends
      (record { mem = small_store; workers = two_of_three; out = [] }) two_of_three-IsTable
