-- ===== src/Worker/Main.antt =====
-- `main` of src/worker_process.c between the test of its arguments and the report: the four
-- operations over the file system, with the counters and the buffer of the errors.
pub mod Full
pub mod Single
use file_sync_system.Common.{
  ℕ, ◌+◌, Bool, true, false, Option, none, some, List, [], ◌∷◌, ◌++◌, ◌||◌, if◌then◌else◌,
}
use file_sync_system.Common.Text.{Text, codes, str_eq}
use file_sync_system.Worker.Copy.{
  Done, returned, out_of_fuel, ◌>>=◌, path, delete_file, synchronize_files,
}
use file_sync_system.Worker.Files.{FileSystem}
use file_sync_system.Worker.Report.{Outcome}

abbrev pub start : Outcome
start = record {
  error_buffer = [];
  files_copied = 0;
  files_skipped = 0;
  files_deleted = 0;
  error_flag = false;
}

-- The entries `.` and `..`.
unfoldable pub is_dots : Text → Bool
is_dots name = str_eq name (codes ".") || str_eq name (codes "..")

-- A line of the buffer, without its newline.
unfoldable pub error_line : (filename message : Text) → Text
error_line filename message = codes "- File " ++ (filename ++ (codes ": " ++ message))

-- The branch of a failed call.
unfoldable pub skip_file : (filename message : Text) → Outcome → Outcome
skip_file filename message o = record o {
  error_buffer = o.error_buffer ++ (error_line filename message ++ b'\n' ∷ []);
  files_skipped = o.files_skipped + 1;
  error_flag = true;
}

-- The branch of a directory that cannot be opened.
unfoldable pub no_directory : (message : Text) → Outcome → Outcome
no_directory message o = record o {
  error_buffer = o.error_buffer ++ (message ++ b'\n' ∷ []);
  error_flag = true;
}

-- How the program ends: with a report, or by `exit(-1)` on an unknown operation.
pub data End {ℓ} (S : Type ℓ) : Type ℓ where
  reported : Outcome → S → End S
  wrong_operation : End S

module _ (fs : FileSystem) where
  -- The counters after a call, from whether it succeeded.
  unfoldable pub count_deleted : Text → Outcome → Bool × fs.State → Outcome × fs.State
  count_deleted filename o (true, s) = (record o { files_deleted = o.files_deleted + 1 }, s)
  count_deleted filename o (false, s) = (skip_file filename (fs.strerror s) o, s)

  unfoldable pub count_copied : Text → Outcome → Bool × fs.State → Outcome × fs.State
  count_copied filename o (true, s) = (record o { files_copied = o.files_copied + 1 }, s)
  count_copied filename o (false, s) = (skip_file filename (fs.strerror s) o, s)

  -- The loop over the target directory, and its body.
  unfoldable pub delete_step : Text → Text → Outcome × fs.State → Outcome × fs.State
  delete_step target_dir name (o, s) =
      if is_dots name then (o, s) else count_deleted name o (delete_file fs target_dir name s)

  unfoldable pub delete_all : Text → List Text → Outcome × fs.State → Outcome × fs.State
  delete_all target_dir [] w = w
  delete_all target_dir (name ∷ names) w =
      delete_all target_dir names (delete_step target_dir name w)

  -- The loop over the source directory, and its body.
  unfoldable pub copy_step :
      ℕ → (source_dir target_dir name : Text) → Outcome × fs.State → Done (Outcome × fs.State)
  copy_step fuel source_dir target_dir name (o, s) =
      if is_dots name
      then returned (o, s)
      else synchronize_files fs fuel source_dir target_dir name s >>= λ r.
          returned (count_copied name o r)

  unfoldable pub copy_all :
      ℕ
      → (source_dir target_dir : Text) → List Text
      → Outcome × fs.State
      → Done (Outcome × fs.State)
  copy_all fuel source_dir target_dir [] w = returned w
  copy_all fuel source_dir target_dir (name ∷ names) w =
      copy_step fuel source_dir target_dir name w >>= copy_all fuel source_dir target_dir names

  -- `FULL`, on what the two calls of `opendir` gave.
  unfoldable pub full_opened :
      ℕ
      → (source_dir target_dir : Text) → (source_names target_names : Option (List Text)) → fs.State
      → Done (Outcome × fs.State)
  full_opened fuel source_dir target_dir (some sources) (some targets) s =
      copy_all fuel source_dir target_dir sources (delete_all target_dir targets (start, s))
  full_opened fuel source_dir target_dir none targets s =
      returned (no_directory (fs.strerror s) start, s)
  full_opened fuel source_dir target_dir (some sources) none s =
      returned (no_directory (fs.strerror s) start, s)

  unfoldable pub full : ℕ → (source_dir target_dir : Text) → fs.State → Done (Outcome × fs.State)
  full fuel source_dir target_dir s =
      let (sources, s₁) = fs.opendir source_dir s in
      let (targets, s₂) = fs.opendir target_dir s₁ in
      full_opened fuel source_dir target_dir sources targets s₂

  -- `ADDED`: the file that is created, and emptied, is the one in the source directory.
  unfoldable pub added :
      ℕ → (source_dir target_dir filename : Text) → fs.State → Done (Outcome × fs.State)
  added fuel source_dir target_dir filename s =
      let (fd, s') = fs.open_write (path source_dir filename) s in
      elim fd [
        | none ↦ returned (count_copied filename start (false, s'))
        | some _ ↦ synchronize_files fs fuel source_dir target_dir filename s' >>= λ r.
            returned (count_copied filename start r)
      ]

  unfoldable pub modified :
      ℕ → (source_dir target_dir filename : Text) → fs.State → Done (Outcome × fs.State)
  modified fuel source_dir target_dir filename s =
      synchronize_files fs fuel source_dir target_dir filename s >>= λ r.
      returned (count_copied filename start r)

  unfoldable pub deleted : (target_dir filename : Text) → fs.State → Outcome × fs.State
  deleted target_dir filename s =
      count_deleted filename start (delete_file fs target_dir filename s)

  unfoldable pub main :
      ℕ → (source_dir target_dir filename operation : Text) → fs.State → Done (End fs.State)
  main fuel source_dir target_dir filename operation s =
      if str_eq operation (codes "FULL")
      then (full fuel source_dir target_dir s >>= λ (o, s'). returned (reported o s'))
      else if str_eq operation (codes "ADDED")
      then (added fuel source_dir target_dir filename s >>= λ (o, s'). returned (reported o s'))
      else if str_eq operation (codes "MODIFIED")
      then (modified fuel source_dir target_dir filename s >>= λ (o, s'). returned (reported o s'))
      else if str_eq operation (codes "DELETED")
      then (let (o, s') = deleted target_dir filename s in returned (reported o s'))
      else returned wrong_operation
