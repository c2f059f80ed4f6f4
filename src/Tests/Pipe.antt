-- ===== src/Tests/Pipe.antt =====
-- A worker's report (src/worker_process.c) and the manager's reading of it (src/fss_manager.c).
use file_sync_system.Common.{
  ◌+◌, ◌≤◌, ◌≡◌, ◌≢◌, refl, true, false, some, none, [], ◌∷◌, ◌++◌, arith, length,
}
use file_sync_system.Common.Text.{Text, codes, str_eq, strtok, Free-check}
use file_sync_system.Manager.Report.{
  Output, newline, done, null_deref, out_of_fuel, extract_workers_output, extract_loop,
  extract_field, count_errors,
}
use file_sync_system.Manager.Report.Termination.{extract_workers_output-ends}
use file_sync_system.Manager.Scan.{is_substring}
use file_sync_system.Manager.Scan.Match.{Occurs, is_substring-Occurs}
use file_sync_system.Protocol.Lines.{IsToken, IsToken-check, unlines}
use file_sync_system.Protocol.RoundTrip.{Holds, printed_errors, reading, extract-report}
use file_sync_system.Worker.Number.{number_to_string}
use file_sync_system.Worker.Number.Decimal.{
  decimal, decimal-number_to_string, length-number_to_string,
}
use file_sync_system.Worker.Report.{Outcome, status, count_text, details, errors, report}

abbrev pub line : Text
line = codes "- File a: Permission denied"

-- A run that copied two files and failed on one.
abbrev pub partial : Outcome
partial = record {
  error_buffer = codes "- File a: Permission denied\n";
  files_copied = 2;
  files_skipped = 1;
  files_deleted = 0;
  error_flag = true;
}

abbrev blank : Output
blank = record {
  source_dir = none;
  target_dir = none;
  status = none;
  operation = none;
  details = none;
  errors_found = 7;
}

writer : Unit {0}
unfolding number_to_string status count_text details errors report
writer = tt

reader : Unit {0}
unfolding str_eq strtok extract_workers_output extract_loop extract_field count_errors
reader = tt

report_text :
    report (codes "/s") (codes "/t") (codes "FULL") partial
    ≡ codes "EXEC_REPORT_START\nSOURCE DIR: /s\nTARGET DIR: /t\nOPERATION: FULL\nSTATUS: PARTIAL\n"
      ++ codes "DETAILS: 2 files copied,1 files skipped\nERRORS:- File a: Permission denied\n"
      ++ codes "\nEXEC_REPORT_END\n"
unfolding writer
report_text = refl

report_read :
    extract_workers_output (report (codes "/s") (codes "/t") (codes "FULL") partial) blank
    ≡ done (record {
      source_dir = some (codes "/s");
      target_dir = some (codes "/t");
      status = some (codes "PARTIAL");
      operation = some (codes "FULL");
      details = some (codes " 2 files copied,1 files skipped");
      errors_found = 1;
    })
unfolding writer reader
report_read = refl

-- A colon in the name of a directory cuts the name off.
colon_cut :
    extract_workers_output (codes "SOURCE DIR: /s:1\nTARGET DIR: /t\n") blank
    ≡ done (record blank {
      source_dir = some (codes "/s");
      target_dir = some (codes "/t");
      errors_found = 0;
    })
unfolding reader
colon_cut = refl

-- A report that breaks off behind its errors makes the manager read through NULL.
cut_off : extract_workers_output (codes "ERRORS:- File a: x\n") blank ≡ null_deref
unfolding reader
cut_off = refl

source_IsToken : IsToken (codes "/s")
source_IsToken = IsToken-check (codes "/s") (λ e. cc) refl

target_IsToken : IsToken (codes "/t")
target_IsToken = IsToken-check (codes "/t") (λ e. cc) refl

pub full_IsToken : IsToken (codes "FULL")
full_IsToken = IsToken-check (codes "FULL") (λ e. cc) refl

pub partial-Holds : Holds partial (line ∷ [])
unfolding unlines str_eq
partial-Holds = record {
  buffer = refl;
  each = (record { nonempty = λ e. cc; free = Free-check newline line refl; not_end = refl }, tt);
}

extract-report_example :
    extract_workers_output (report (codes "/s") (codes "/t") (codes "FULL") partial) blank
    ≡ done (
        reading
          (codes "/s")
          (codes "/t")
          (codes "FULL")
          partial
          (printed_errors partial (line ∷ [])))
extract-report_example =
    extract-report (codes "/s") (codes "/t") (codes "FULL") partial source_IsToken target_IsToken
      full_IsToken (line ∷ []) blank partial-Holds

extract_workers_output-ends_example :
    extract_workers_output (codes "ERRORS:- File a: x\n") blank ≢ out_of_fuel
extract_workers_output-ends_example =
    extract_workers_output-ends (codes "ERRORS:- File a: x\n") blank

-- The scan goes back to the start of the text at a mismatch, but not in the buffer.
missed : is_substring (codes "EEXEC") (codes "EXEC") ≡ false
unfolding is_substring
missed = refl

is_substring-Occurs_example : Occurs (codes "END") (codes "THE END")
is_substring-Occurs_example =
    is_substring-Occurs (codes "THE END") (codes "END") (unfold is_substring in refl)

decimal-number_to_string_example : decimal (number_to_string 1203) ≡ 1203
decimal-number_to_string_example = decimal-number_to_string 1203

numeral : number_to_string 1203 ≡ codes "1203"
unfolding number_to_string
numeral = refl

length-number_to_string_example : length (number_to_string 2_147_483_647) + 1 ≤ 32
length-number_to_string_example = length-number_to_string 2_147_483_647 (omega arith)
