-- ===== src/Tests/Config/Lost.antt =====
-- The configuration phase (src/fss_manager.c), on a file with one pair of names of two lengths.
use file_sync_system.Common.{ℕ, inl, inr, ◌≡◌, refl, true, false, some, [], ◌∷◌, ltb, arith}
use file_sync_system.Common.Text.{codes, Free-check}
use file_sync_system.Manager.Command.{delims}
use file_sync_system.Manager.Config.{Supply, Config, full_job, config_round, config_loop}
use file_sync_system.Manager.Phases.{first_state}
use file_sync_system.Manager.Run.{ok, exited}
use file_sync_system.ListNode as Nodes
use file_sync_system.Protocol.Lines.{IsToken-check, unlines}
use file_sync_system.Protocol.RoundTrip.{Holds}
use file_sync_system.Protocol.Startup.Ends.{Then}
use file_sync_system.Protocol.Startup.Lost.{Awaited, one_pair_exits}
use file_sync_system.Protocol.Startup.Report.{Whole}
use file_sync_system.Protocol.Startup.Start.{Served}
use file_sync_system.Tests.Config.{any_place, one_copied, no_output, result_of, config_steps}
use file_sync_system.Worker.Report.{report}

-- The worker reports in the third round.
abbrev supply_of : ℕ → Supply
supply_of n = record {
  arrivals = record {
    ready = λ fd. ltb n 1;
    arrived = λ fd. some (report (codes "a") (codes "bb") (codes "FULL") one_copied);
    time = codes "12:00";
    before = no_output;
  };
  child_pid = some 100;
  pipe_fd = 10;
  watch_fd = 1;
  leftover = Nodes.null;
  fresh = λ depth k. [];
  depth = 1;
}

abbrev one_pair : Config
one_pair =
    first_state 3 (0 ∷ 0 ∷ 0 ∷ []) (any_place ∷ any_place ∷ any_place ∷ [])
      (codes "a" ∷ codes "bb" ∷ []) true

abbrev started : Config
started = result_of (config_round 3 (supply_of 2) one_pair)

-- After a round in which nothing arrives.
abbrev waiting : Config
waiting = result_of (config_round 3 (supply_of 1) started)

supply_of-Served : (n : ℕ) → Served (supply_of n)
supply_of-Served n = record { child = 100; forked = refl; zeros = refl; below = 0; steps = refl }

one_copied-Holds : Holds one_copied []
unfolding unlines
one_copied-Holds = record { buffer = refl; each = tt }

waiting-Whole : Whole (supply_of 0).arrivals waiting.desk waiting.spawned
unfolding config_steps first_state
waiting-Whole = record {
  place = 0;
  source_dir = codes "a";
  target_dir = codes "bb";
  outcome = one_copied;
  lines = [];
  number = 0;
  started = refl;
  source = IsToken-check (codes "a") (λ e. cc) refl;
  target = IsToken-check (codes "bb") (λ e. cc) refl;
  holds = one_copied-Holds;
  only = record {
    used = omega arith;
    place = record { fd = 10; revents = false };
    at_place = refl;
    ready = refl;
    others = λ j other lt ne e. absurd (omega (arith, lt, ne));
    input = refl;
  };
}

first-Awaited : Then (Awaited 2 3 supply_of) (config_round 3 (supply_of 2) one_pair)
unfolding config_steps first_state Awaited
first-Awaited = inr (λ fd. refl, inl waiting-Whole)

one_pair_exits_example :
    (c : Config) × (config_round 3 (supply_of 2) one_pair ≡ ok c)
    × (c.spawned ≡ full_job (codes "a") (codes "bb") ∷ [])
    × (config_loop 3 3 supply_of one_pair ≡ exited)
one_pair_exits_example =
    one_pair_exits 3 (0 ∷ 0 ∷ 0 ∷ []) (any_place ∷ any_place ∷ any_place ∷ []) (codes "a")
      (codes "bb") true refl refl (omega arith)
      (record { nonempty = λ e. cc; free = Free-check delims (codes "a") refl })
      (record { nonempty = λ e. cc; free = Free-check delims (codes "bb") refl })
      (λ e. omega (arith, e)) 2 supply_of (supply_of-Served 2) (λ fd. refl) first-Awaited
