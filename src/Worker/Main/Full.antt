-- ===== src/Worker/Main/Full.antt =====
-- What the operation `FULL` leaves in the two directories.
use file_sync_system.Common.{
  ℕ, ◌+◌, ◌<◌, ◌≡◌, ◌∙◌, refl, sym, Bool, true, false, some, List, [], ◌∷◌, arith, length, All,
  Bool-cases, inl, inr,
}
use file_sync_system.Common.Text.{Text, str_eq, eq_of_str_eq}
use file_sync_system.Worker.Copy.{path, Done, returned, synchronize_files, delete_file}
use file_sync_system.Worker.Copy.Faithful.{Keeps, Copies, synchronize_files-Copies}
use file_sync_system.Worker.Files.{FileSystem, IsPosix}
use file_sync_system.Worker.Main.{
  is_dots, skip_file, count_copied, count_deleted, delete_step, delete_all, copy_step, copy_all,
  full_opened, full, start,
}
use file_sync_system.Worker.Report.{Outcome}

-- `Target` are the names in the target directory that may be removed or written, in the state `s₀`
-- with paths that are apart from one another.
module _ (fs : FileSystem) (posix : IsPosix fs) (fuel : ℕ) (source_dir target_dir : Text)
    (Target : Text → Type 0) (s₀ : fs.State)
    (within : (n m : Text)
      → Target n
      → Target m
      → str_eq n m ≡ false
      → posix.Apart s₀ (path target_dir n) (path target_dir m)) where
  open posix use {content, Apart}

  -- A path that is apart from those of the target directory.
  abbrev pub Outside : Text → Type 0
  Outside x = (m : Text) → Target m → Apart s₀ x (path target_dir m)

  -- An entry of the source directory that is to be copied is a file outside the target directory,
  -- shorter than the fuel.
  abbrev pub IsSource : Text → Type 0
  IsSource n =
      is_dots n ≡ false
      → Target n
        × Outside (path source_dir n)
        × (t : Text) × (content s₀ (path source_dir n) ≡ some t)
        × (length t < fuel)

  abbrev pub IsTarget : Text → Type 0
  IsTarget n = is_dots n ≡ false → Target n

  -- The target's file holds what the source's file held.
  abbrev pub Synced : fs.State → Text → Type 0
  Synced s n = is_dots n ≡ false → content s (path target_dir n) ≡ content s₀ (path source_dir n)

  -- The files outside the target directory are as they were, and what was apart is.
  record Still (s : fs.State) : Type 0 where
    same : (x : Text) → Outside x → content s x ≡ content s₀ x
    keeps : Keeps fs posix s₀ s

  -- A run from `o` and `s` that ends, keeps the files outside, and if no error is flagged, has
  -- synchronised these entries and kept those that were.
  record Runs (o : Outcome) (s : fs.State) (names : List Text) (run : Done (Outcome × fs.State))
      : Type 0 where
    outcome : Outcome
    after : fs.State
    ends : run ≡ returned (outcome, after)
    still : Still after
    clean : outcome.error_flag ≡ false → o.error_flag ≡ false
    all_synced : outcome.error_flag ≡ false → All (Synced after) names
    kept : outcome.error_flag ≡ false → (m : Text) → Target m → Synced s m → Synced after m

  module _ (s : fs.State) (o : Outcome) (name : Text) (still : Still s)
      (real : is_dots name ≡ false) (aim : Target name) where
    module _ (t : Text) (e : content s₀ (path source_dir name) ≡ some t)
        (k : Copies fs posix s
          (path target_dir name)
          t
          (synchronize_files fs fuel source_dir target_dir name s)) where
      copied-Still : Still k.after
      copied-Still = record {
        same = λ x out. k.elsewhere x (still.keeps x _ (out name aim)) ∙ still.same x out;
        keeps = λ x y a. k.keeps x y (still.keeps x y a);
      }

      copied_kept : k.success ≡ true → (m : Text) → Target m → Synced s m → Synced k.after m
      copied_kept done m aim_m h real' = elim (Bool-cases (str_eq m name)) [
        | inl eq ↦ rw (eq_of_str_eq m name eq) (k.holds done ∙ sym e)
        | inr differ ↦
            k.elsewhere (path target_dir m)
              (still.keeps _ _ (within m name aim_m aim (ground (arith, differ))))
            ∙ h real'
      ]

      copied-Runs : Runs o s (name ∷ []) (copy_step fs fuel source_dir target_dir name (o, s))
      unfolding copy_step count_copied skip_file
      copied-Runs = elim (Bool-cases k.success) [
        | inl done ↦ record {
          outcome = record o { files_copied = o.files_copied + 1 };
          after = k.after;
          ends = rw real (rw k.ends (rw done refl));
          still = copied-Still;
          clean = λ f. f;
          all_synced = λ f. (λ _. k.holds done ∙ sym e, tt);
          kept = λ f. copied_kept done;
        }
        | inr failed ↦ record {
          outcome = skip_file name (fs.strerror k.after) o;
          after = k.after;
          ends = rw real (rw k.ends (rw failed refl));
          still = copied-Still;
          clean = λ f. cc;
          all_synced = λ f. cc;
          kept = λ f. cc;
        }
      ]

  copy_step-Runs :
      (s : fs.State) (o : Outcome) (name : Text)
      → Still s
      → IsSource name
      → Runs o s (name ∷ []) (copy_step fs fuel source_dir target_dir name (o, s))
  copy_step-Runs s o name still source = elim (Bool-cases (is_dots name)) [
    | inl dots ↦ record {
      outcome = o;
      after = s;
      ends = unfold copy_step in rw dots refl;
      still = still;
      clean = λ f. f;
      all_synced = λ f. (λ real. cc, tt);
      kept = λ f m aim h. h;
    }
    | inr real ↦
        let (aim, out, t, e, h) = source real in
        copied-Runs s o name still real aim t e (
          synchronize_files-Copies fs posix fuel source_dir target_dir name s t
            (still.keeps _ _ (out name aim)) (still.same _ out ∙ e) h)
  ]

  copy_all-Runs :
      (names : List Text) (o : Outcome) (s : fs.State)
      → Still s
      → All IsSource names
      → Runs o s names (copy_all fs fuel source_dir target_dir names (o, s))
  unfolding copy_all
  copy_all-Runs [] o s still sources = record {
    outcome = o;
    after = s;
    ends = refl;
    still = still;
    clean = λ f. f;
    all_synced = λ f. tt;
    kept = λ f m aim h. h;
  }
  copy_all-Runs (name ∷ names) o s still sources =
      let one = copy_step-Runs s o name still sources.0 in
      let rest = copy_all-Runs names one.outcome one.after one.still sources.1 in
      record {
        outcome = rest.outcome;
        after = rest.after;
        ends = rw one.ends rest.ends;
        still = rest.still;
        clean = λ f. one.clean (rest.clean f);
        all_synced = λ f. (
          λ real. rest.kept f name (sources.0 real).0 (one.all_synced (rest.clean f)).0 real,
          rest.all_synced f,
        );
        kept = λ f m aim h. rest.kept f m aim (one.kept (rest.clean f) m aim h);
      }

  delete_step-Still :
      (name : Text) (o : Outcome) (s : fs.State)
      → IsTarget name
      → Still s
      → Still (delete_step fs target_dir name (o, s)).1
  unfolding delete_step delete_file
  delete_step-Still name o s target still = elim (Bool-cases (is_dots name)) [
    | inl dots ↦ rw dots still
    | inr real ↦
        let p = path target_dir name in
        rw real (
          counted (fs.unlink p s) (record {
            same = λ x out.
                posix.content-unlink_ne p x s (still.keeps x p (out name (target real)))
                ∙ still.same x out;
            keeps = λ x y a. posix.unlink-Apart p x y s (still.keeps x y a);
          }))
  ]
    where
      counted : (r : Bool × fs.State) → Still r.1 → Still (count_deleted fs name o r).1
      counted (true, s') h = unfold count_deleted in h
      counted (false, s') h = unfold count_deleted in h

  delete_all-Still :
      (names : List Text) (w : Outcome × fs.State)
      → All IsTarget names
      → Still w.1
      → Still (delete_all fs target_dir names w).1
  unfolding delete_all
  delete_all-Still [] w targets still = still
  delete_all-Still (name ∷ names) w targets still =
      delete_all-Still names (delete_step fs target_dir name w) targets.1
        (delete_step-Still name w.0 w.1 targets.0 still)

  -- `FULL` ends, with both directories opened, once the fuel exceeds the length of every file that
  -- is to be copied. It leaves every file as it was whose path is apart from those of the target
  -- directory, and if it flags no error, then every entry of the source directory but `.` and `..`
  -- has in the target directory a file of the same name with what the source's file held. Two paths
  -- are apart if they lead to different files and neither leads through the other; the paths of the
  -- entries in the target directory are apart from one another, for the names in both listings, and
  -- those of the source's entries are apart from them.
  pub full-Synced :
      (sources targets : List Text)
      → (fs.opendir source_dir s₀).0 ≡ some sources
      → (fs.opendir target_dir (fs.opendir source_dir s₀).1).0 ≡ some targets
      → All IsSource sources
      → All IsTarget targets
      → (o : Outcome) × (s' : fs.State) × (full fs fuel source_dir target_dir s₀ ≡ returned (o, s'))
        × ((x : Text) → Outside x → content s' x ≡ content s₀ x)
        × (o.error_flag ≡ false → All (Synced s') sources)
  unfolding full full_opened
  full-Synced sources targets e e' each aims =
      let s₁ = (fs.opendir source_dir s₀).1 in
      let s₂ = (fs.opendir target_dir s₁).1 in
      let d = delete_all fs target_dir targets (start, s₂) in
      let still =
        delete_all-Still targets (start, s₂) aims
          (record {
            same = λ x out.
                posix.content-opendir target_dir x s₁ ∙ posix.content-opendir source_dir x s₀;
            keeps = λ x y a.
                posix.opendir-Apart target_dir x y s₁ (posix.opendir-Apart source_dir x y s₀ a);
          }) in
      let runs = copy_all-Runs sources d.0 d.1 still each in
      (
        runs.outcome,
        runs.after,
        rw (e, e', full_opened) runs.ends,
        runs.still.same,
        runs.all_synced,
      )
