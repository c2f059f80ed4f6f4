-- ===== src/Protocol/Lines.antt =====
-- One line of a report in the manager's loop.
use file_sync_system.Common.{
  ℕ, zero, suc, ◌+◌, ◌<◌, ◌≡◌, ◌∙◌, append_assoc, List, All, length, ◌≢◌, refl, true, false, some,
  [], ◌∷◌, ◌++◌, arith,
}
use file_sync_system.Common.Text.{
  Text, codes, Free, is_free, Free-check, str_eq_refl, strtok, strtok-token, strtok-delimiter,
  str_eq,
}
use file_sync_system.Manager.Report.{
  Output, done, ◌>>=◌, count_errors, extract_field, extract_loop, line_delims, value_delims,
  newline, end_mark,
}

-- A text that the manager reads back whole behind a label: not empty, and with none of the
-- delimiters in it.
pub record IsToken (s : Text) : Type 0 where
  pub nonempty : s ≢ []
  pub free : Free value_delims s

pub IsToken-check : (s : Text) → s ≢ [] → is_free value_delims s ≡ true → IsToken s
IsToken-check s ne free = record { nonempty = ne; free = Free-check value_delims s free }

strtok-value :
    (s : Text) (rest : Text)
    → IsToken s
    → strtok value_delims (b' ' ∷ (s ++ b'\n' ∷ rest)) ≡ (some s, rest)
strtok-value [] rest h = absurd (h.nonempty refl)
strtok-value (c ∷ s) rest h =
    rw (strtok-delimiter value_delims b' ' _ refl)
      (strtok-token value_delims c s b'\n' rest h.free refl)

strtok-label :
    (label rest : Text)
    → label ≢ []
    → Free line_delims label
    → strtok line_delims (label ++ b':' ∷ rest) ≡ (some label, rest)
strtok-label [] rest ne free = absurd (ne refl)
strtok-label (c ∷ label) rest ne free = strtok-token line_delims c label b':' rest free refl

module _ (fuel : ℕ) (out : Output) where
  -- A round of the loop at a line with a label, and the round that finds nothing left.
  labelled :
      (label rest : Text)
      → label ≢ []
      → is_free line_delims label ≡ true
      → extract_loop (suc fuel) (label ++ b':' ∷ rest) out
        ≡ extract_field fuel label rest out >>= λ (rest', out'). extract_loop fuel rest' out'
  unfolding extract_loop
  labelled label rest ne free =
      ground (arith, strtok-label label rest ne (Free-check line_delims label free))

  pub last_round : extract_loop (suc fuel) [] out ≡ done out
  unfolding extract_loop strtok
  last_round = refl

  module _ (s rest : Text) (token : IsToken s) where
    pub source_line :
        extract_loop (suc fuel) (codes "SOURCE DIR: " ++ (s ++ b'\n' ∷ rest)) out
        ≡ extract_loop fuel rest (record out { source_dir = some s })
    unfolding extract_field str_eq
    source_line =
        labelled (codes "SOURCE DIR") (b' ' ∷ (s ++ b'\n' ∷ rest)) (λ e. cc) refl
        ∙ rw (strtok-value s rest token)

    pub target_line :
        extract_loop (suc fuel) (codes "TARGET DIR: " ++ (s ++ b'\n' ∷ rest)) out
        ≡ extract_loop fuel rest (record out { target_dir = some s })
    unfolding extract_field str_eq
    target_line =
        labelled (codes "TARGET DIR") (b' ' ∷ (s ++ b'\n' ∷ rest)) (λ e. cc) refl
        ∙ rw (strtok-value s rest token)

    pub operation_line :
        extract_loop (suc fuel) (codes "OPERATION: " ++ (s ++ b'\n' ∷ rest)) out
        ≡ extract_loop fuel rest (record out { operation = some s })
    unfolding extract_field str_eq
    operation_line =
        labelled (codes "OPERATION") (b' ' ∷ (s ++ b'\n' ∷ rest)) (λ e. cc) refl
        ∙ rw (strtok-value s rest token)

    pub status_line :
        extract_loop (suc fuel) (codes "STATUS: " ++ (s ++ b'\n' ∷ rest)) out
        ≡ extract_loop fuel rest (record out { status = some s })
    unfolding extract_field str_eq
    status_line =
        labelled (codes "STATUS") (b' ' ∷ (s ++ b'\n' ∷ rest)) (λ e. cc) refl
        ∙ rw (strtok-value s rest token)

  pub details_line :
      (s rest : Text)
      → Free line_delims s
      → extract_loop (suc fuel) (codes "DETAILS: " ++ (s ++ b'\n' ∷ rest)) out
        ≡ extract_loop fuel rest (record out { details = some (b' ' ∷ s) })
  unfolding extract_field str_eq
  details_line s rest free =
      labelled (codes "DETAILS") (b' ' ∷ (s ++ b'\n' ∷ rest)) (λ e. cc) refl
      ∙ rw (strtok-token line_delims b' ' s b'\n' rest (refl, free) refl)

  -- The first and the last line are no labels, and the loop passes over them.
  pub start_line :
      (rest : Text)
      → extract_loop (suc fuel) (codes "EXEC_REPORT_START\n" ++ rest) out
        ≡ extract_loop fuel rest out
  unfolding extract_loop extract_field str_eq strtok
  start_line rest = refl

pub end_line :
    (fuel : ℕ) (out : Output)
    → extract_loop (suc (suc fuel)) (codes "EXEC_REPORT_END\n") out ≡ done out
unfolding extract_loop extract_field str_eq strtok
end_line fuel out = refl

-- An error's line in the worker's buffer: what `strtok` with a newline gives back as one token.
pub record IsErrorLine (line : Text) : Type 0 where
  pub nonempty : line ≢ []
  pub free : Free newline line
  pub not_end : str_eq line end_mark ≡ false

unfoldable pub unlines : List Text → Text
unlines [] = []
unlines (line ∷ lines) = line ++ b'\n' ∷ unlines lines

abbrev ending : Text
ending = codes "\nEXEC_REPORT_END\n"

strtok-line :
    (line rest : Text)
    → IsErrorLine line
    → strtok newline (line ++ b'\n' ∷ rest) ≡ (some line, rest)
strtok-line [] rest h = absurd (h.nonempty refl)
strtok-line (c ∷ line) rest h = strtok-token newline c line b'\n' rest h.free refl

strtok-ending : strtok newline (unlines [] ++ ending) ≡ (some end_mark, [])
unfolding strtok unlines
strtok-ending = refl

strtok-unlines :
    (line : Text) (lines : List Text)
    → IsErrorLine line
    → strtok newline (unlines (line ∷ lines) ++ ending) ≡ (some line, unlines lines ++ ending)
unfolding unlines
strtok-unlines line lines h =
    rw (append_assoc line (b'\n' ∷ unlines lines) ending)
      (strtok-line line (unlines lines ++ ending) h)

-- The inner loop counts the lines of the worker's buffer, and leaves nothing over.
pub count_errors-unlines :
    (fuel : ℕ) (lines : List Text) (n : ℕ)
    → All IsErrorLine lines
    → length lines < fuel
    → count_errors fuel (unlines lines ++ ending) n ≡ done ([], n + length lines)
unfolding count_errors
count_errors-unlines zero lines n each h = absurd (omega arith)
count_errors-unlines (suc fuel) [] n each h = ground (arith, strtok-ending, str_eq_refl end_mark)
count_errors-unlines (suc fuel) (line ∷ lines) n each h = ground (
  arith,
  strtok-unlines line lines each.0,
  each.0.not_end,
  count_errors-unlines fuel lines (n + 1) each.1 (omega arith),
)

module _ (fuel : ℕ) (out : Output) where
  -- The errors are the last part of a report, and the loop ends behind them.
  pub error_lines :
      (lines : List Text)
      → All IsErrorLine lines
      → length lines < suc fuel
      → extract_loop (suc (suc fuel)) (codes "ERRORS:" ++ (unlines lines ++ ending)) out
        ≡ done (record out { errors_found = out.errors_found + length lines })
  unfolding extract_field str_eq
  error_lines lines each h =
      labelled (suc fuel) out (codes "ERRORS") (unlines lines ++ ending) (λ e. cc) refl
      ∙ rw (count_errors-unlines (suc fuel) lines out.errors_found each h)
          (last_round fuel (record out { errors_found = out.errors_found + length lines }))
