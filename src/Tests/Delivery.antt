-- ===== src/Tests/Delivery.antt =====
-- A worker's report (src/worker_process.c) in two pieces, and the manager's store
-- (src/fss_manager.c) behind it.
use file_sync_system.Common.{◌≡◌, refl, true, none, some, [], ◌∷◌, ◌++◌, arith}
use file_sync_system.Common.Text.{Text, codes}
use file_sync_system.Manager.Collect.{Arrivals, Desk}
use file_sync_system.Protocol.Delivery.{Arriving, Delivery, take_input-Delivery}
use file_sync_system.Protocol.Lines.{IsToken-check}
use file_sync_system.Tests.Manager.{small_store, pair_a, a-found}
use file_sync_system.Tests.Workers.{two_of_three, two_of_three-IsTable}
use file_sync_system.Tests.Pipe.{line, partial, full_IsToken, partial-Holds}
use file_sync_system.Worker.Number.{number_to_string}
use file_sync_system.Worker.Report.{status, count_text, details, errors, report}

abbrev first_piece : Text
first_piece = codes "EXEC_REPORT_START\nSOURCE DIR: /a\nTARGET DIR: /b\nOPERATION: FULL\nSTA"

abbrev last_piece : Text
last_piece =
    codes
      "TUS: PARTIAL\nDETAILS: 2 files copied,1 files skipped\nERRORS:- File a: Permission denied\n"
    ++ codes "\nEXEC_REPORT_END\n"

abbrev desk : Desk
desk = record {
  mem = small_store;
  workers = record two_of_three { buffers = first_piece ∷ [] ∷ [] ∷ [] };
  out = [];
}

whole-report : first_piece ++ last_piece ≡ report (codes "/a") (codes "/b") (codes "FULL") partial
unfolding number_to_string status count_text details errors report
whole-report = refl

desk-Arriving :
    Arriving 3 0 desk
      (report (codes "/a") (codes "/b") (codes "FULL") partial)
      first_piece
      last_piece
desk-Arriving = record {
  table = record {
    pids = refl;
    fds = refl;
    pointers = refl;
    room = omega arith;
    owned = two_of_three-IsTable.owned;
  };
  used = omega arith;
  free = omega arith;
  buffer = record { pointer = 0; at_place = refl; content = refl };
  splits = whole-report;
}

abbrev arrivals : Arrivals
arrivals = record {
  ready = λ fd. true;
  arrived = λ fd. some last_piece;
  time = codes "12:00";
  before = record {
    source_dir = none;
    target_dir = none;
    status = none;
    operation = none;
    details = none;
    errors_found = 0;
  };
}

take_input-Delivery_example :
    Delivery
      (codes "/a")
      (codes "/b")
      (codes "FULL")
      partial
      (line ∷ [])
      3
      0
      arrivals
      desk
      last_piece
      (some pair_a)
take_input-Delivery_example =
    take_input-Delivery (codes "/a") (codes "/b") (codes "FULL") partial (line ∷ []) 3 0 arrivals
      desk last_piece (IsToken-check (codes "/a") (λ e. cc) refl)
      (IsToken-check (codes "/b") (λ e. cc) refl) full_IsToken partial-Holds first_piece
      desk-Arriving (some pair_a) a-found
