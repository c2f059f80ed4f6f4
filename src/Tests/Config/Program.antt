-- ===== src/Tests/Config/Program.antt =====
-- A whole run of the manager (src/fss_manager.c): a file with one pair, then `shutdown`.
use file_sync_system.Common.{
  arith, ◌≡◌, refl, true, some, Bool, All, List, [], ◌∷◌, replicate, length-replicate,
}
use file_sync_system.Common.Text.{Text, codes, str_eq}
use file_sync_system.Manager.Args.{has_too_many, is_unset, take_option, options_loop, read_args}
use file_sync_system.Manager.Collect.{stamped, poll, collect, collect_from}
use file_sync_system.Manager.Command.{parse_command, parse_action, request}
use file_sync_system.Manager.Command.Words.{IsWord}
use file_sync_system.Manager.Dispatch.{command, gather, perform, on_shutdown}
use file_sync_system.Manager.Fifos.{create_fifo, create_second, create_fifos}
use file_sync_system.Manager.Loop.{
  note_shutdown, carry_out, serve, pop_or_serve, round, goes_on, loop,
}
use file_sync_system.Manager.Phases.{first_state, second_state}
use file_sync_system.Manager.Program.{World, open_files, serve_until_shutdown, run, main}
use file_sync_system.Manager.Program.Ended.{Ended, main-Ended}
use file_sync_system.Manager.Run.{Run, ok}
use file_sync_system.Manager.Scan.{is_full_command}
use file_sync_system.Manager.State.{State, commanded, say}
use file_sync_system.Tests.Config.{any_place, quiet_supply, finished, config_steps}
use file_sync_system.Tests.Config.Startup.{supply_of, two_names, two_names-IsWord}
use file_sync_system.Tests.Fifos.{names_directory, left_over}

abbrev world : World
world = record {
  atoi = λ text. 3;
  inotify_fd = some 4;
  config_input = λ file. some (two_names, true);
  logfile_output = λ file. true;
  pids = λ n. replicate n 0;
  fds = λ n. replicate n any_place;
  has_memory = λ n. true;
  first_rounds = 4;
  first_supplies = supply_of;
  in_fd = some 5;
  out_fd = some 6;
  second_rounds = 1;
  second_supplies = λ n. record quiet_supply { input = commanded (codes "shutdown \n" ∷ []) };
  end_time = codes "12:02";
}

abbrev argv : List Text
argv = codes "-c" ∷ codes "pairs.txt" ∷ codes "-l" ∷ codes "log.txt" ∷ []

abbrev state_of : Run State → State
state_of (ok s) = s
state_of _ = second_state finished

after_main : State
after_main = state_of (main names_directory world argv left_over)

did_return : main names_directory world argv left_over ≡ ok after_main
unfolding after_main config_steps has_too_many is_unset take_option options_loop read_args stamped
    poll collect collect_from parse_command parse_action request command gather perform on_shutdown
    create_fifo create_second create_fifos note_shutdown carry_out serve pop_or_serve round goes_on
    loop first_state second_state open_files serve_until_shutdown run main is_full_command say
    str_eq
did_return = refl

world-words :
    (file : Text) (words : List Text) (b : Bool)
    → world.config_input file ≡ some (words, b)
    → All IsWord words
world-words file words b e =
    let same : two_names ≡ words = ground (arith, e) in rw (← same) two_names-IsWord

main-Ended_example : Ended world argv after_main
main-Ended_example =
    main-Ended names_directory world (λ n. length-replicate n 0) (λ n. length-replicate n any_place)
      world-words argv left_over after_main did_return
