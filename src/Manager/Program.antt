-- ===== src/Manager/Program.antt =====
-- `main` of src/fss_manager.c as a whole: what stands before, between and behind its two loops.
pub mod Ended
use file_sync_system.Common.{ℕ, Bool, true, false, Option, none, some, List, if◌then◌else◌}
use file_sync_system.Common.Text.{Text, codes}
use file_sync_system.Manager.Args.{has_too_many, read_args}
use file_sync_system.Manager.Collect.{stamped}
use file_sync_system.Manager.Config as Config
use file_sync_system.Manager.Config.{config_loop}
use file_sync_system.Manager.Fifos.{Directory, create_fifos}
use file_sync_system.Manager.Loop.{loop}
use file_sync_system.Manager.Phases.{first_state, second_state}
use file_sync_system.Manager.Run.{Run, ok, exited, ◌>>=◌, not_null, or_exit}
use file_sync_system.Manager.State as State
use file_sync_system.Manager.State.{State, say}
use file_sync_system.Manager.Workers.{PollFd}

-- What the system gives to a run: `atoi`, the descriptors, `none` where a call fails, the words of a
-- configuration file and whether it ends with the last one, whether a log file can be opened, what
-- `malloc` left in an array of a length, whether it gives the arrays and the buffers for a limit, and
-- the supplies of the rounds, with their numbers. For a negative limit, which stands here by its
-- bits, the size that is asked for is beyond all memory.
pub record World : Type 0 where
  pub atoi : Text → ℕ
  pub inotify_fd : Option ℕ
  pub config_input : Text → Option (List Text × Bool)
  pub logfile_output : Text → Bool
  pub pids : ℕ → List ℕ
  pub fds : ℕ → List PollFd
  pub has_memory : ℕ → Bool
  pub first_rounds : ℕ
  pub first_supplies : ℕ → Config.Supply
  pub in_fd : Option ℕ
  pub out_fd : Option ℕ
  pub second_rounds : ℕ
  pub second_supplies : ℕ → State.Supply
  pub end_time : Text

module _ (dir : Directory) (w : World) where
  -- The two calls of `fopen`, and the test of both results.
  unfoldable pub open_files : (config_file logfile : Option Text) → Run (List Text × Bool)
  open_files config_file logfile = not_null config_file >>= λ c. not_null logfile >>= λ l.
      or_exit (w.config_input c) >>= λ input. if w.logfile_output l then ok input else exited

  -- The second loop, between the opening of the pipes and the last message.
  unfoldable pub serve_until_shutdown : (worker_limit : ℕ) → State → Run State
  serve_until_shutdown worker_limit s = or_exit w.in_fd >>= λ _. or_exit w.out_fd >>= λ _.
      loop w.second_rounds worker_limit w.second_supplies s >>= λ s'.
      ok (say (stamped w.end_time (codes "Manager shutdown complete\n")) s')

  -- Behind the creation of the pipes.
  unfoldable pub run : List Text → Run State
  run argv = read_args w.atoi argv >>= λ st. or_exit w.inotify_fd >>= λ _.
      open_files st.config_file st.logfile >>= λ (words, ends_with_word).
      if w.has_memory st.worker_limit
      then (config_loop w.first_rounds st.worker_limit w.first_supplies (
            first_state st.worker_limit (w.pids st.worker_limit) (w.fds st.worker_limit) words
              ends_with_word)
          >>= λ c. serve_until_shutdown st.worker_limit (second_state c))
      else exited

  -- `argv` without the program's name. The number of arguments is tested before the pipes are made.
  unfoldable pub main : List Text → dir.State → Run State
  main argv s =
      if has_too_many argv
      then exited
      else let (made, _) = create_fifos dir s in if made then run argv else exited
