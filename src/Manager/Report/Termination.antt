-- ===== src/Manager/Report/Termination.antt =====
-- The loops of `extract_workers_output` end: each round uses up bytes of the buffer.
use file_sync_system.Common.{
  ℕ, zero, suc, ◌+◌, ◌≤◌, ◌<◌, ◌≢◌, arith, length, Option-cases, inl, inr,
}
use file_sync_system.Common.Text.{Text, strtok, length-strtok, length-strtok_token}
use file_sync_system.Manager.Report.{
  Output, Parse, done, null_deref, out_of_fuel, ◌>>=◌, count_errors, extract_field, extract_loop,
  extract_workers_output, newline, line_delims, value_delims,
}

-- A step that ends, and leaves over no more than `n` bytes.
abbrev Ends {ℓ} : {A : Type ℓ} → ℕ → Parse (Text × A) → Type 0
Ends n (done (s, a)) = length s ≤ n
Ends n null_deref = Unit
Ends n out_of_fuel = ⊥

count_errors-Ends :
    (fuel : ℕ) (s : Text) (n bound : ℕ)
    → length s < fuel
    → length s ≤ bound
    → Ends bound (count_errors fuel s n)
unfolding count_errors
count_errors-Ends zero s n bound h b = absurd (omega arith)
count_errors-Ends (suc fuel) s n bound h b = elim (Option-cases (strtok newline s).0) [
  | inl end ↦ rw (end, count_errors, Ends) tt
  | inr (t, found) ↦
      let shorter = length-strtok_token newline s t found in
      rw (found, count_errors)
        (ground (arith, count_errors-Ends fuel (strtok newline s).1 (n + 1) bound, shorter))
]

extract_field-Ends :
    (fuel : ℕ) (str s : Text) (out : Output)
    → length s < fuel
    → Ends (length s) (extract_field fuel str s out)
unfolding extract_field
extract_field-Ends fuel str s out h = ground (
  arith,
  length-strtok line_delims s,
  length-strtok value_delims s,
  count_errors-Ends fuel s out.errors_found (length s) h,
)

bind-Ends :
    {A B : Type 0} (n : ℕ) (r : Parse (Text × A)) (k : Text × A → Parse B)
    → Ends n r
    → ((s : Text) (a : A) → length s ≤ n → k (s, a) ≢ out_of_fuel)
    → r >>= k ≢ out_of_fuel
bind-Ends n (done (s, a)) k e next = next s a e
bind-Ends n null_deref k e next = λ q. cc
bind-Ends n out_of_fuel k e next = absurd e

extract_loop-ends :
    (fuel : ℕ) (s : Text) (out : Output) → length s < fuel → extract_loop fuel s out ≢ out_of_fuel
unfolding extract_loop
extract_loop-ends zero s out h = absurd (omega arith)
extract_loop-ends (suc fuel) s out h = elim (Option-cases (strtok line_delims s).0) [
  | inl end ↦ rw (end, extract_loop) (λ e. cc)
  | inr (t, found) ↦
      let rest = (strtok line_delims s).1 in
      let shorter = length-strtok_token line_delims s t found in
      rw (found, extract_loop)
        (bind-Ends (length rest) (extract_field fuel t rest out) _
          (extract_field-Ends fuel t rest out (omega arith))
          (λ s' out' le. extract_loop-ends fuel s' out' (omega arith)))
]

-- The extraction ends on every buffer, with an output or at a NULL pointer.
pub extract_workers_output-ends :
    (buffer : Text) (out : Output) → extract_workers_output buffer out ≢ out_of_fuel
unfolding extract_workers_output
extract_workers_output-ends buffer out =
    extract_loop-ends (suc (length buffer)) buffer (record out { errors_found = 0 }) (omega arith)
