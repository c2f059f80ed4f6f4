-- ===== src/Worker/Process.antt =====
-- `main` of src/worker_process.c as a whole: the test of its arguments, an operation, the report.
use file_sync_system.Common.{ℕ, List, [], ◌∷◌}
use file_sync_system.Common.Text.{Text, codes}
use file_sync_system.Worker.Copy.{Done, returned, ◌>>=◌}
use file_sync_system.Worker.Files.{FileSystem}
use file_sync_system.Worker.Main.{End, reported, wrong_operation, main}
use file_sync_system.Worker.Report.{report}

-- What is written to the standard output, with the files as they are at the end; or by an exit with
-- an error.
pub data Exit {ℓ} (S : Type ℓ) : Type ℓ where
  success : Text → S → Exit S
  failure : Text → Exit S

-- The first 29 bytes of the message.
abbrev pub usage_error : Text
usage_error = codes "ERROR in <worker_process>! Wr"

module _ (fs : FileSystem) where
  unfoldable pub finish : (source_dir target_dir operation : Text) → End fs.State → Exit fs.State
  finish source_dir target_dir operation (reported o s) =
      success (report source_dir target_dir operation o) s
  finish source_dir target_dir operation wrong_operation = failure []

  -- `argv` without the program's name.
  unfoldable pub process : (fuel : ℕ) → (argv : List Text) → fs.State → Done (Exit fs.State)
  process fuel (source_dir ∷ target_dir ∷ filename ∷ operation ∷ []) s =
      main fs fuel source_dir target_dir filename operation s >>= λ e.
      returned (finish source_dir target_dir operation e)
  process fuel _ s = returned (failure usage_error)
