-- ===== src/Worker/Report.antt =====
-- What `main` of src/worker_process.c has counted when the operation is over, and the report that
-- it then writes to the pipe.
use file_sync_system.Common.{ℕ, Bool, [], ◌++◌, ◌==◌, ltb, not, ◌&&◌, if◌then◌else◌}
use file_sync_system.Common.Text.{Text, codes}
use file_sync_system.Worker.Number.{number_to_string}

pub record Outcome : Type 0 where
  pub error_buffer : Text
  pub files_copied : ℕ
  pub files_skipped : ℕ
  pub files_deleted : ℕ
  pub error_flag : Bool

-- The operation's result, `STATUS`.
unfoldable pub status : Outcome → Text
status o =
    if not o.error_flag
    then codes "SUCCESS"
    else if (o.files_deleted == 0) && (o.files_copied == 0)
    then codes "ERROR"
    else codes "PARTIAL"

-- One count of the `DETAILS`, left out if it is zero.
unfoldable pub count_text : ℕ → Text → Text
count_text n what = if ltb 0 n then number_to_string n ++ what else []

unfoldable pub details : Outcome → Text
unfolding count_text
details o =
    count_text o.files_copied (codes " files copied,")
    ++ (count_text o.files_deleted (codes " files deleted,")
        ++ count_text o.files_skipped (codes " files skipped"))

unfoldable pub errors : Outcome → Text
errors o = if o.error_flag then codes "\nERRORS:" ++ o.error_buffer else []

-- All that the worker writes: each piece is one `write`, in the order of the source.
unfoldable pub report : (source_dir target_dir operation : Text) → Outcome → Text
report source_dir target_dir operation o =
    codes "EXEC_REPORT_START\n"
    ++ (codes "SOURCE DIR: "
        ++ (source_dir
            ++ (codes "\nTARGET DIR: "
                ++ (target_dir
                    ++ (codes "\nOPERATION: "
                        ++ (operation
                            ++ (codes "\nSTATUS: "
                                ++ (status o
                                    ++ (codes "\nDETAILS: "
                                        ++ (details o
                                            ++ (errors o ++ codes "\nEXEC_REPORT_END\n")))))))))))
