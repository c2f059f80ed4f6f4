-- ===== src/Tests/Config/Startup.antt =====
-- The whole configuration phase (src/fss_manager.c), on a file with one pair.
use file_sync_system.Common.{
  All, ℕ, ◌+◌, ◌≡◌, refl, true, false, some, List, [], ◌∷◌, ltb, arith, inl, inr,
}
use file_sync_system.Common.Text.{Text, codes, Free-check}
use file_sync_system.Manager.Collect.{Arrivals}
use file_sync_system.Manager.Command.{delims}
use file_sync_system.Manager.Config.{Supply, Config, config_loop}
use file_sync_system.Manager.Config.Waiting.{pairs}
use file_sync_system.Manager.Run.{ok}
use file_sync_system.ListNode as Nodes
use file_sync_system.Protocol.Lines.{IsToken-check, unlines}
use file_sync_system.Protocol.Startup.Ends.{Peaceful}
use file_sync_system.Protocol.Startup.Phase.{Settled, first_loop-Settled}
use file_sync_system.Manager.Command.Words.{IsWord}
use file_sync_system.Manager.Phases.{first_state}
use file_sync_system.Protocol.RoundTrip.{Holds}
use file_sync_system.Protocol.Startup.Start.{Served}
use file_sync_system.Worker.Report.{report}
use file_sync_system.Tests.Config.{any_place, one_copied, no_output, config_steps}

abbrev pub two_names : List Text
two_names = codes "a" ∷ codes "b" ∷ []

abbrev one_pair : Config
one_pair = first_state 3 (0 ∷ 0 ∷ 0 ∷ []) (any_place ∷ any_place ∷ any_place ∷ []) two_names true

-- The worker reports in the third round.
abbrev pub arrivals_of : ℕ → Arrivals
arrivals_of n = record {
  ready = λ fd. ltb n 2;
  arrived = λ fd. some (report (codes "a") (codes "b") (codes "FULL") one_copied);
  time = codes "12:00";
  before = no_output;
}

abbrev pub supply_of : ℕ → Supply
supply_of n = record {
  arrivals = arrivals_of n;
  child_pid = some (100 + n);
  pipe_fd = 10 + n;
  watch_fd = n;
  leftover = Nodes.null;
  fresh = λ depth k. [];
  depth = 1;
}

supply_of-Served : (n : ℕ) → Served (supply_of n)
supply_of-Served n = record {
  child = 100 + n;
  forked = refl;
  zeros = refl;
  below = 0;
  steps = refl;
}

one_copied-Holds : Holds one_copied []
unfolding unlines
one_copied-Holds = record { buffer = refl; each = tt }

one_pair-Peaceful : Peaceful 4 3 supply_of 1 one_pair
unfolding config_steps Peaceful first_state
one_pair-Peaceful = (
  supply_of-Served 3,
  inr (
    λ fd. refl,
    1,
    refl,
    (
      supply_of-Served 2,
      inr (
        λ fd. refl,
        0,
        refl,
        (
          supply_of-Served 1,
          inl (
            record {
              place = 0;
              source_dir = codes "a";
              target_dir = codes "b";
              outcome = one_copied;
              lines = [];
              number = 0;
              started = refl;
              source = IsToken-check (codes "a") (λ e. cc) refl;
              target = IsToken-check (codes "b") (λ e. cc) refl;
              holds = one_copied-Holds;
              only = record {
                used = omega arith;
                place = record { fd = 13; revents = false };
                at_place = refl;
                ready = refl;
                others = λ j other lt ne e. absurd (omega (arith, lt, ne));
                input = refl;
              };
            },
            tt,
          ),
        ),
      ),
    ),
  ),
)

pub two_names-IsWord : All IsWord two_names
two_names-IsWord = (
  record { nonempty = λ e. cc; free = Free-check delims (codes "a") refl },
  (record { nonempty = λ e. cc; free = Free-check delims (codes "b") refl }, tt),
)

first_loop-Settled_example :
    (c : Config) × (config_loop 4 3 supply_of one_pair ≡ ok c) × Settled two_names c
unfolding pairs
first_loop-Settled_example =
    first_loop-Settled 3 (0 ∷ 0 ∷ 0 ∷ []) (any_place ∷ any_place ∷ any_place ∷ []) two_names true
      refl refl two_names-IsWord (refl, tt) (omega arith) (omega arith) 4 supply_of 1
      one_pair-Peaceful (omega arith)
