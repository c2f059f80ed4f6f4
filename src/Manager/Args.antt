-- ===== src/Manager/Args.antt =====
-- The arguments of the manager (src/fss_manager.c).
pub mod Settled
use file_sync_system.Common.{
  ℕ, suc, ◌+◌, Bool, true, false, Option, none, some, List, [], ◌∷◌, ltb, ◌==◌, length,
  if◌then◌else◌,
}
use file_sync_system.Common.Text.{Text, codes, str_eq}
use file_sync_system.Manager.Run.{Run, ok, exited, fault, ◌>>=◌, not_null}

-- `none` for NULL; the limit by the bits of an `int`, which are a large number for a
-- negative one: `main` then asks `malloc` for more than there is.
pub record Settings : Type 0 where
  pub logfile : Option Text
  pub config_file : Option Text
  pub worker_limit : ℕ

-- `name[0] == '\0'`
unfoldable pub is_unset : Option Text → Run Bool
is_unset none = fault
is_unset (some []) = ok true
is_unset (some (c ∷ name)) = ok false

abbrev pub default_workers_limit : ℕ
default_workers_limit = 5

-- The test of `argc`, which counts the program's name too.
unfoldable pub has_too_many : List Text → Bool
has_too_many argv = ltb 7 (length argv + 1)

module _ (atoi : Text → ℕ) where
  -- An argument and the one behind it, which is NULL behind the last.
  unfoldable pub take_option : Text → Option Text → Settings → Run Settings
  take_option arg value st =
      if str_eq arg (codes "-l")
      then (is_unset st.logfile >>= λ unset.
          if unset then ok (record st { logfile = value }) else exited)
      else if str_eq arg (codes "-c")
      then (is_unset st.config_file >>= λ unset.
          if unset then ok (record st { config_file = value }) else exited)
      else if str_eq arg (codes "-n")
      then (not_null value >>= λ text.
          if atoi text == 0 then exited else ok (record st { worker_limit = atoi text }))
      else exited

  unfoldable pub options_loop : List Text → Settings → Run Settings
  options_loop [] st = ok st
  options_loop (arg ∷ []) st = take_option arg none st
  options_loop (arg ∷ value ∷ argv) st = take_option arg (some value) st >>= options_loop argv

  -- `argv` without the program's name.
  unfoldable pub read_args : List Text → Run Settings
  read_args argv =
      if has_too_many argv
      then exited
      else options_loop argv (record {
        logfile = some [];
        config_file = some [];
        worker_limit = default_workers_limit;
      })
