-- ===== src/Protocol/RoundTrip.antt =====
-- The manager reads back from a worker's report what the worker meant by it.
use file_sync_system.Common.{
  ℕ, suc, ◌+◌, ◌-◌, ◌≤◌, ◌<◌, ◌≡◌, ◌≢◌, ◌∙◌, refl, true, some, List, [], ◌∷◌, ◌++◌, arith, length,
  length-append, append-nil, All, if◌then◌else◌, ltb, Bool-cases, inl, inr,
}
use file_sync_system.Common.Text.{Text, codes, Free, is_free, Free-check, Free-append}
use file_sync_system.Manager.Report.{
  Output, done, extract_loop, extract_workers_output, line_delims, value_delims,
}
use file_sync_system.Manager.Scan.{is_substring}
use file_sync_system.Manager.Scan.Match.{Occurs, Occurs-behind, is_substring-separated}
use file_sync_system.Protocol.Lines.{
  IsToken, IsToken-check, IsErrorLine, unlines, source_line, target_line, operation_line,
  status_line, details_line, start_line, end_line, error_lines,
}
use file_sync_system.Worker.Number.{number_to_string}
use file_sync_system.Worker.Number.Decimal.{IsDigit, number_to_string-IsDigit}
use file_sync_system.Worker.Report.{Outcome, status, count_text, details, errors, report}

Free-digits : (s : Text) → All IsDigit s → Free line_delims s
Free-digits [] h = tt
Free-digits (c ∷ s) h = (ground (arith, h.0), Free-digits s h.1)

Free-count_text :
    (n : ℕ) (what : Text) → is_free line_delims what ≡ true → Free line_delims (count_text n what)
unfolding count_text
Free-count_text n what h = elim (Bool-cases (ltb 0 n)) [
  | inl more ↦ rw more (
      Free-append line_delims (number_to_string n) what
        (Free-digits (number_to_string n) (number_to_string-IsDigit n))
        (Free-check line_delims what h))
  | inr end ↦ rw end tt
]

Free-details : (o : Outcome) → Free line_delims (details o)
unfolding details
Free-details o =
    Free-append line_delims _ _ (Free-count_text o.files_copied (codes " files copied,") refl) (
      Free-append line_delims _ _ (Free-count_text o.files_deleted (codes " files deleted,") refl)
        (Free-count_text o.files_skipped (codes " files skipped") refl))

status_test : (o : Outcome) → (status o ≢ []) × (is_free value_delims (status o) ≡ true)
unfolding status
status_test o = ground arith

status-IsToken : (o : Outcome) → IsToken (status o)
status-IsToken o = IsToken-check (status o) (status_test o).0 (status_test o).1

length-unlines : (lines : List Text) → length lines ≤ length (unlines lines)
unfolding unlines
length-unlines [] = omega arith
length-unlines (line ∷ lines) =
    omega (arith, length-append {0} line (b'\n' ∷ unlines lines), length-unlines lines)

-- What the manager should read from the report of a worker with these arguments.
unfoldable pub reading : (source_dir target_dir operation : Text) → Outcome → ℕ → Output
reading source_dir target_dir operation o errors_found = record {
  source_dir = some source_dir;
  target_dir = some target_dir;
  status = some (status o);
  operation = some operation;
  details = some (b' ' ∷ details o);
  errors_found = errors_found;
}

-- The number of the errors that the report prints: none without the flag.
unfoldable pub printed_errors : Outcome → List Text → ℕ
printed_errors o lines = if o.error_flag then length lines else 0

-- A worker's buffer that holds these lines, one for each error.
pub record Holds (o : Outcome) (lines : List Text) : Type 0 where
  pub buffer : o.error_buffer ≡ unlines lines
  pub each : All IsErrorLine lines

ending : Text
ending = codes "\nEXEC_REPORT_END\n"

-- What stands behind the line of the details.
behind : Outcome → Text
unfolding ending
behind o =
    if o.error_flag
    then codes "ERRORS:" ++ (o.error_buffer ++ ending)
    else codes "EXEC_REPORT_END\n"

errors-behind : (o : Outcome) → errors o ++ ending ≡ b'\n' ∷ behind o
unfolding errors behind
errors-behind o = ground arith

-- The loop behind the line of the details.
behind_lines :
    (o : Outcome) (lines : List Text) (fuel : ℕ) (out : Output)
    → Holds o lines
    → out.errors_found ≡ 0
    → printed_errors o lines < suc fuel
    → extract_loop (suc (suc fuel)) (behind o) out
      ≡ done (record out { errors_found = printed_errors o lines })
unfolding behind printed_errors
behind_lines o lines fuel out holds none_yet h =
    ground (arith, holds.buffer, none_yet, end_line fuel out, error_lines fuel out lines holds.each)

length-behind :
    (o : Outcome) (lines : List Text) → Holds o lines → printed_errors o lines ≤ length (behind o)
unfolding behind printed_errors
length-behind o lines holds =
    ground (arith, holds.buffer, length-unlines lines, length-append {0} (unlines lines) ending)

le-length-append : {n : ℕ} (s t : Text) → n ≤ length t → n ≤ length (s ++ t)
le-length-append s t h = omega (arith, length-append {0} s t)

module _ (source_dir target_dir operation : Text) (o : Outcome) where
  -- The report, cut into its lines.
  abbrev from_details : Text
  from_details = codes "DETAILS: " ++ (details o ++ b'\n' ∷ behind o)

  abbrev from_status : Text
  from_status = codes "STATUS: " ++ (status o ++ b'\n' ∷ from_details)

  abbrev from_operation : Text
  from_operation = codes "OPERATION: " ++ (operation ++ b'\n' ∷ from_status)

  abbrev from_target : Text
  from_target = codes "TARGET DIR: " ++ (target_dir ++ b'\n' ∷ from_operation)

  abbrev from_source : Text
  from_source = codes "SOURCE DIR: " ++ (source_dir ++ b'\n' ∷ from_target)

  report-lines :
      report source_dir target_dir operation o ≡ codes "EXEC_REPORT_START\n" ++ from_source
  unfolding report ending
  report-lines = rw (← errors-behind o)

  length-report : length (behind o) + 7 ≤ length (report source_dir target_dir operation o)
  length-report =
      let tail : length (behind o) ≤ length from_source =
        le-length-append (codes "SOURCE DIR: ") _ (
          le-length-append source_dir _ (
            le-length-append (codes "\nTARGET DIR: ") _ (
              le-length-append target_dir _ (
                le-length-append (codes "\nOPERATION: ") _ (
                  le-length-append operation _ (
                    le-length-append (codes "\nSTATUS: ") _ (
                      le-length-append (status o) _ (
                        le-length-append (codes "\nDETAILS: ") _ (
                          le-length-append (details o) _
                            (le-length-append (b'\n' ∷ []) _ (omega arith))))))))))) in
      rw report-lines (omega (arith, tail))

  module _ (source : IsToken source_dir) (target : IsToken target_dir)
      (op : IsToken operation) where
    extract_loop-report :
        (fuel : ℕ) (lines : List Text) (out : Output)
        → Holds o lines
        → printed_errors o lines < suc fuel
        → out.errors_found ≡ 0
        → extract_loop
            (suc (suc (suc (suc (suc (suc (suc (suc fuel))))))))
            (report source_dir target_dir operation o)
            out
          ≡ done (reading source_dir target_dir operation o (printed_errors o lines))
    unfolding reading
    extract_loop-report fuel lines out holds h z = rw report-lines (
        start_line _ out from_source
        ∙ source_line _ _ source_dir from_target source
        ∙ target_line _ _ target_dir from_operation target
        ∙ operation_line _ _ operation from_status op
        ∙ status_line _ _ (status o) from_details (status-IsToken o)
        ∙ details_line _ _ (details o) (behind o) (Free-details o)
        ∙ behind_lines o lines fuel _ holds z h)

    -- The manager's reading of a worker's report: the two directories, the operation, the status
    -- and the details are those that the worker wrote, and as many errors are counted as lines
    -- were printed, whatever the fields held before.
    pub extract-report :
        (lines : List Text) (out : Output)
        → Holds o lines
        → extract_workers_output (report source_dir target_dir operation o) out
          ≡ done (reading source_dir target_dir operation o (printed_errors o lines))
    unfolding extract_workers_output
    extract-report lines out holds =
        let fuel = length (report source_dir target_dir operation o) - 7 in
        let e : suc (length (report source_dir target_dir operation o))
            ≡ suc (suc (suc (suc (suc (suc (suc (suc fuel))))))) =
          omega (arith, length-report) in
        rw e (
          extract_loop-report fuel lines (record out { errors_found = 0 }) holds
            (omega (arith, length-report, length-behind o lines holds)) refl)

  Occurs-report : Occurs ending (report source_dir target_dir operation o)
  unfolding report ending
  Occurs-report = Occurs-behind (codes "EXEC_REPORT_START\nSOURCE DIR: ") (
      Occurs-behind source_dir (
        Occurs-behind (codes "\nTARGET DIR: ") (
          Occurs-behind target_dir (
            Occurs-behind (codes "\nOPERATION: ") (
              Occurs-behind operation (
                Occurs-behind (codes "\nSTATUS: ") (
                  Occurs-behind (status o) (
                    Occurs-behind (codes "\nDETAILS: ") (
                      Occurs-behind (details o)
                        (record { before = errors o; behind = []; splits = rw append-nil }))))))))))

  -- A report is recognised as complete.
  pub is_substring-report :
      is_substring (report source_dir target_dir operation o) (codes "EXEC_REPORT_END") ≡ true
  unfolding ending
  is_substring-report =
      let o' = Occurs-report in
      rw o'.splits (
        is_substring-separated o'.before (codes "EXEC_REPORT_END") (codes "\n" ++ o'.behind) b'\n'
          (λ e. cc) refl)
