-- ===== src/Protocol/Errors.antt =====
-- The errors that the manager counts in the report of a worker with the operation `FULL` are the
-- files that the worker has skipped.
use file_sync_system.Common.{
  ℕ, ◌+◌, ◌≡◌, ◌⊎◌, ◌∙◌, refl, sym, ap, Bool, true, false, some, List, [], ◌∷◌, ◌++◌, arith, ltb,
  length, length-append, append_assoc, All, if◌then◌else◌, Bool-cases, inl, inr,
}
use file_sync_system.Common.Text.{Text, codes, Free, Free-append, Free-check, str_eq}
use file_sync_system.Manager.Report.{Output, done, newline, extract_workers_output}
use file_sync_system.Protocol.Lines.{IsToken, IsToken-check, IsErrorLine, unlines}
use file_sync_system.Protocol.RoundTrip.{Holds, printed_errors, reading, extract-report}
use file_sync_system.Worker.Copy.{
  Done, returned, out_of_fuel, ◌>>=◌, delete_file, synchronize_files,
}
use file_sync_system.Worker.Files.{FileSystem}
use file_sync_system.Worker.Main.{
  is_dots, error_line, skip_file, count_copied, count_deleted, delete_step, delete_all, copy_step,
  copy_all, full_opened, full, start,
}
use file_sync_system.Worker.Report.{Outcome, report}

All-append {ℓ} :
    {A : Type 0} (P : A → Type ℓ) (xs ys : List A) → All P xs → All P ys → All P (xs ++ ys)
All-append P [] ys h k = k
All-append P (x ∷ xs) ys h k = (h.0, All-append P xs ys h.1 k)

unlines-append : (xs ys : List Text) → unlines (xs ++ ys) ≡ unlines xs ++ unlines ys
unfolding unlines
unlines-append [] ys = refl
unlines-append (x ∷ xs) ys =
    rw (unlines-append xs ys) (sym (append_assoc x (b'\n' ∷ unlines xs) (unlines ys)))

error_line-IsErrorLine :
    (name message : Text)
    → Free newline name
    → Free newline message
    → IsErrorLine (error_line name message)
unfolding error_line str_eq
error_line-IsErrorLine name message n m = record {
  nonempty = λ e. cc;
  free = Free-append newline (codes "- File ") _ (Free-check newline (codes "- File ") refl) (
      Free-append newline name _ n
        (Free-append newline (codes ": ") message (Free-check newline (codes ": ") refl) m));
  not_end = refl;
}

-- The buffer has a line for each file that was skipped, the flag tells whether there is one, and
-- `n` files have been counted.
pub record Accounts (n : ℕ) (o : Outcome) : Type 0 where
  pub lines : List Text
  pub holds : Holds o lines
  pub skipped : o.files_skipped ≡ length lines
  pub flag : o.error_flag ≡ ltb 0 (length lines)
  pub counted : o.files_copied + o.files_deleted + o.files_skipped ≡ n

start-Accounts : Accounts 0 start
unfolding unlines
start-Accounts = record {
  lines = [];
  holds = record { buffer = refl; each = tt };
  skipped = refl;
  flag = refl;
  counted = refl;
}

skip_file-Accounts :
    (n : ℕ) (name message : Text) (o : Outcome)
    → Accounts n o
    → Free newline name
    → Free newline message
    → Accounts (n + 1) (skip_file name message o)
unfolding skip_file unlines
skip_file-Accounts n name message o a f m =
    let line = error_line name message in
    let more = length-append a.lines (line ∷ []) in
    record {
      lines = a.lines ++ line ∷ [];
      holds = record {
        buffer = rw (a.holds.buffer, unlines-append a.lines (line ∷ [])) refl;
        each =
            All-append IsErrorLine a.lines (line ∷ []) a.holds.each
              (error_line-IsErrorLine name message f m, tt);
      };
      skipped = omega (arith, a.skipped, more);
      flag = ground (arith, more);
      counted = omega (arith, a.counted);
    }

printed_errors-Accounts :
    (n : ℕ) (o : Outcome) (a : Accounts n o) → printed_errors o a.lines ≡ o.files_skipped
unfolding printed_errors
printed_errors-Accounts n o a = ground (arith, a.flag, a.skipped)

-- How many of these entries are files to be counted.
unfoldable pub entry : Text → ℕ
entry name = if is_dots name then 0 else 1

unfoldable pub files : List Text → ℕ
files [] = 0
files (name ∷ names) = entry name + files names

Done-cases {ℓ} : {A : Type ℓ} (r : Done A) → (r ≡ out_of_fuel) ⊎ ((a : A) × (r ≡ returned a))
Done-cases (returned a) = inr (a, refl)
Done-cases out_of_fuel = inl refl

Accounts-eq : {n m : ℕ} {o : Outcome} → n ≡ m → Accounts n o → Accounts m o
Accounts-eq e a = rw (← e) a

module _ (fs : FileSystem) (message : (s : fs.State) → Free newline (fs.strerror s)) where
  count_deleted-Accounts :
      (n : ℕ) (name : Text) (o : Outcome) (r : Bool × fs.State)
      → Accounts n o
      → Free newline name
      → Accounts (n + 1) (count_deleted fs name o r).0
  unfolding count_deleted
  count_deleted-Accounts n name o (true, s) a f = record {
    lines = a.lines;
    holds = record { buffer = a.holds.buffer; each = a.holds.each };
    skipped = a.skipped;
    flag = a.flag;
    counted = omega (arith, a.counted);
  }
  count_deleted-Accounts n name o (false, s) a f =
      skip_file-Accounts n name (fs.strerror s) o a f (message s)

  count_copied-Accounts :
      (n : ℕ) (name : Text) (o : Outcome) (r : Bool × fs.State)
      → Accounts n o
      → Free newline name
      → Accounts (n + 1) (count_copied fs name o r).0
  unfolding count_copied
  count_copied-Accounts n name o (true, s) a f = record {
    lines = a.lines;
    holds = record { buffer = a.holds.buffer; each = a.holds.each };
    skipped = a.skipped;
    flag = a.flag;
    counted = omega (arith, a.counted);
  }
  count_copied-Accounts n name o (false, s) a f =
      skip_file-Accounts n name (fs.strerror s) o a f (message s)

  delete_step-Accounts :
      (target_dir name : Text) (n : ℕ) (w : Outcome × fs.State)
      → Accounts n w.0
      → Free newline name
      → Accounts (n + entry name) (delete_step fs target_dir name w).0
  unfolding delete_step entry
  delete_step-Accounts target_dir name n (o, s) a f = elim (Bool-cases (is_dots name)) [
    | inl dots ↦ rw dots (Accounts-eq (omega arith) a)
    | inr real ↦ rw real (count_deleted-Accounts n name o (delete_file fs target_dir name s) a f)
  ]

  delete_all-Accounts :
      (target_dir : Text) (names : List Text) (n : ℕ) (w : Outcome × fs.State)
      → Accounts n w.0
      → All (Free newline) names
      → Accounts (n + files names) (delete_all fs target_dir names w).0
  unfolding delete_all files
  delete_all-Accounts target_dir [] n w a f = Accounts-eq (omega arith) a
  delete_all-Accounts target_dir (name ∷ names) n w a f = Accounts-eq (omega arith) (
      delete_all-Accounts target_dir names (n + entry name) (delete_step fs target_dir name w)
        (delete_step-Accounts target_dir name n w a f.0) f.1)

  copy_step-Accounts :
      (fuel : ℕ) (source_dir target_dir name : Text) (n : ℕ) (w w' : Outcome × fs.State)
      → Accounts n w.0
      → Free newline name
      → copy_step fs fuel source_dir target_dir name w ≡ returned w'
      → Accounts (n + entry name) w'.0
  unfolding copy_step entry
  copy_step-Accounts fuel source_dir target_dir name n (o, s) w' a f e =
      elim (Bool-cases (is_dots name)) [
        | inl dots ↦
            let same : (o, s) ≡ w' = ground (arith, rw dots at e) in
            rw (dots, ← same) (Accounts-eq (omega arith) a)
        | inr real ↦
            rw real (go (synchronize_files fs fuel source_dir target_dir name s) (rw real at e))
      ]
    where
      go :
          (r : Done (Bool × fs.State))
          → r >>= (λ x. returned (count_copied fs name o x)) ≡ returned w'
          → Accounts (n + 1) w'.0
      go (returned x) h =
          let same : count_copied fs name o x ≡ w' = ground arith in
          rw (← same) (count_copied-Accounts n name o x a f)
      go out_of_fuel h = cc

  copy_all-Accounts :
      (fuel : ℕ) (source_dir target_dir : Text) (names : List Text) (n : ℕ)
      (w w' : Outcome × fs.State)
      → Accounts n w.0
      → All (Free newline) names
      → copy_all fs fuel source_dir target_dir names w ≡ returned w'
      → Accounts (n + files names) w'.0
  unfolding copy_all files
  copy_all-Accounts fuel source_dir target_dir [] n w w' a f e =
      let same : w ≡ w' = ground arith in rw (← same) (Accounts-eq (omega arith) a)
  copy_all-Accounts fuel source_dir target_dir (name ∷ names) n w w' a f e =
      elim (Done-cases (copy_step fs fuel source_dir target_dir name w)) [
        | inl out ↦ cc (rw out at e)
        | inr (x, got) ↦ Accounts-eq (omega arith) (
            copy_all-Accounts fuel source_dir target_dir names (n + entry name) x w'
              (copy_step-Accounts fuel source_dir target_dir name n w x a f.0 got) f.1
              (rw got at e))
      ]

  -- A `FULL` that opens both directories and ends counts every entry but `.` and `..` of the two
  -- directories once, as a file that it copied, deleted or skipped, and the manager reads from its
  -- report as many errors as files were skipped, and the arguments, the status and the details as
  -- the worker wrote them. The arguments are tokens, and no name of an entry and no message of
  -- `strerror` has a newline.
  pub full-reading :
      (fuel : ℕ) (source_dir target_dir : Text) (s s' : fs.State) (o : Outcome) (out : Output)
      (sources targets : List Text)
      → IsToken source_dir
      → IsToken target_dir
      → (fs.opendir source_dir s).0 ≡ some sources
      → (fs.opendir target_dir (fs.opendir source_dir s).1).0 ≡ some targets
      → All (Free newline) sources
      → All (Free newline) targets
      → full fs fuel source_dir target_dir s ≡ returned (o, s')
      → (o.files_copied + o.files_deleted + o.files_skipped ≡ files targets + files sources)
        × (extract_workers_output (report source_dir target_dir (codes "FULL") o) out
            ≡ done (reading source_dir target_dir (codes "FULL") o o.files_skipped))
  unfolding full full_opened
  full-reading fuel source_dir target_dir s s' o out sources targets src tgt e e' f f' ends =
      let s₂ = (fs.opendir target_dir (fs.opendir source_dir s).1).1 in
      let d = delete_all fs target_dir targets (start, s₂) in
      let before = delete_all-Accounts target_dir targets 0 (start, s₂) start-Accounts f' in
      let a =
        copy_all-Accounts fuel source_dir target_dir sources (0 + files targets) d (o, s') before f
          (rw (e, e', full_opened) at ends) in
      (
        omega (arith, a.counted),
        extract-report source_dir target_dir (codes "FULL") o src tgt
              (IsToken-check (codes "FULL") (λ e. cc) refl) a.lines out a.holds
            ∙ ap (λ k. done (reading source_dir target_dir (codes "FULL") o k))
                (printed_errors-Accounts _ o a),
      )
