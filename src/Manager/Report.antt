-- ===== src/Manager/Report.antt =====
-- `extract_workers_output` (src/fss_manager.c): the manager's reading of a worker's report.
pub mod Termination
use file_sync_system.Common.{
  ℕ, zero, suc, ◌+◌, Bool, true, false, Option, none, some, [], ◌∷◌, if◌then◌else◌, length,
}
use file_sync_system.Common.Text.{Text, codes, str_eq, strtok}

-- What the function assigns through its pointers. A field that no line of the report sets keeps
-- what the caller had there; `none` is NULL.
pub record Output : Type 0 where
  pub source_dir : Option Text
  pub target_dir : Option Text
  pub status : Option Text
  pub operation : Option Text
  pub details : Option Text
  pub errors_found : ℕ

-- `null_deref` is `strcmp` of a NULL pointer.
pub data Parse {ℓ} (A : Type ℓ) : Type ℓ where
  done : A → Parse A
  null_deref : Parse A
  out_of_fuel : Parse A

infixl 5 ◌>>=◌
abbrev pub ◌>>=◌ {ℓ κ} : {A : Type ℓ} {B : Type κ} → Parse A → (A → Parse B) → Parse B
done a >>= f = f a
null_deref >>= f = null_deref
out_of_fuel >>= f = out_of_fuel

abbrev pub end_mark : Text
end_mark = codes "EXEC_REPORT_END"

-- The delimiters of the lines, and of the values where blanks are trimmed too.
abbrev pub line_delims : Text
line_delims = codes ":\n"

abbrev pub value_delims : Text
value_delims = codes " :\n"

abbrev pub newline : Text
newline = codes "\n"

-- The inner loop: a token for each error, up to the end of the report.
unfoldable pub count_errors : ℕ → Text → ℕ → Parse (Text × ℕ)
count_errors zero s n = out_of_fuel
count_errors (suc fuel) s n =
    let (str, rest) = strtok newline s in
    elim str [
      | none ↦ null_deref
      | some t ↦ elim (str_eq t end_mark) [
        | true ↦ done (rest, n)
        | false ↦ count_errors fuel rest (n + 1)
      ]
    ]

-- One round of the outer loop at the token `str`: the output, and the text left over.
unfoldable pub extract_field : ℕ → Text → Text → Output → Parse (Text × Output)
extract_field fuel str s out =
    if str_eq str (codes "SOURCE DIR")
    then (let (v, rest) = strtok value_delims s in done (rest, record out { source_dir = v }))
    else if str_eq str (codes "TARGET DIR")
    then (let (v, rest) = strtok value_delims s in done (rest, record out { target_dir = v }))
    else if str_eq str (codes "STATUS")
    then (let (v, rest) = strtok value_delims s in done (rest, record out { status = v }))
    else if str_eq str (codes "OPERATION")
    then (let (v, rest) = strtok value_delims s in done (rest, record out { operation = v }))
    else if str_eq str (codes "DETAILS")
    then (let (v, rest) = strtok line_delims s in done (rest, record out { details = v }))
    else if str_eq str (codes "ERRORS")
    then (do
      (rest, n) ← count_errors fuel s out.errors_found
      done (rest, record out { errors_found = n }))
    else done (s, out)

unfoldable pub extract_loop : ℕ → Text → Output → Parse Output
extract_loop zero s out = out_of_fuel
extract_loop (suc fuel) s out =
    let (str, rest) = strtok line_delims s in
    elim str [
      | none ↦ done out
      | some t ↦ extract_field fuel t rest out >>= λ (rest', out'). extract_loop fuel rest' out'
    ]

-- Each round of a loop uses up at least one byte, so that this fuel is enough.
unfoldable pub extract_workers_output : Text → Output → Parse Output
extract_workers_output buffer out =
    extract_loop (suc (length buffer)) buffer (record out { errors_found = 0 })
