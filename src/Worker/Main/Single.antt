-- ===== src/Worker/Main/Single.antt =====
-- What the operations on one file, `ADDED` and `MODIFIED`, leave in the two directories.
use file_sync_system.Common.{ℕ, ◌<◌, ◌≡◌, ◌∙◌, refl, false, some, [], length, Bool-cases, inl, inr}
use file_sync_system.Common.Text.{Text, codes, str_eq}
use file_sync_system.Worker.Copy.{path, returned, ◌>>=◌, synchronize_files}
use file_sync_system.Worker.Copy.Faithful.{synchronize_files-Copies}
use file_sync_system.Worker.Files.{FileSystem, IsPosix}
use file_sync_system.Worker.Main.{reported, skip_file, count_copied, added, modified, main, start}
use file_sync_system.Worker.Report.{Outcome}

module _ (fs : FileSystem) (posix : IsPosix fs) (fuel : ℕ) (source_dir target_dir filename : Text)
    (s : fs.State)
    (apart : posix.Apart s (path source_dir filename) (path target_dir filename)) where
  open posix use {content}

  -- A run that reports, and if it flags no error leaves `t` in the target's file; the source's
  -- file holds `t` in any case.
  pub record Reports (operation t : Text) : Type 0 where
    pub outcome : Outcome
    pub after : fs.State
    pub ends :
        main fs fuel source_dir target_dir filename operation s ≡ returned (reported outcome after)
    pub source : content after (path source_dir filename) ≡ some t
    pub target : outcome.error_flag ≡ false → content after (path target_dir filename) ≡ some t

  -- `MODIFIED` reports, and keeps the source's file; if it flags no error, the target's file holds
  -- what the source's file holds. The source's file is there, and the two paths are apart: they lead
  -- to different files, and neither leads through the other.
  pub modified-Reports :
      (t : Text)
      → content s (path source_dir filename) ≡ some t
      → length t < fuel
      → Reports (codes "MODIFIED") t
  unfolding main modified str_eq count_copied skip_file
  modified-Reports t e h =
      let k = synchronize_files-Copies fs posix fuel source_dir target_dir filename s t apart e h in
      elim (Bool-cases k.success) [
        | inl done ↦ record {
          outcome = record start { files_copied = 1 };
          after = k.after;
          ends = rw k.ends (rw done refl);
          source = k.elsewhere (path source_dir filename) apart ∙ e;
          target = λ f. k.holds done;
        }
        | inr failed ↦ record {
          outcome = skip_file filename (fs.strerror k.after) start;
          after = k.after;
          ends = rw k.ends (rw failed refl);
          source = k.elsewhere (path source_dir filename) apart ∙ e;
          target = λ f. cc;
        }
      ]

  added-opened :
      (fd : ℕ)
      → (fs.open_write (path source_dir filename) s).0 ≡ some fd
      → added fs fuel source_dir target_dir filename s
        ≡ synchronize_files fs fuel source_dir target_dir filename
            (fs.open_write (path source_dir filename) s).1
          >>= λ r. returned (count_copied fs filename start r)
  unfolding added
  added-opened fd opened = rw (opened, added)

  -- `ADDED` empties the file in the source directory whose addition it was to copy, whenever it
  -- can be opened for writing: the source's file is empty when it reports, and if it flags no
  -- error so is the target's. The two paths are apart.
  pub added-Reports :
      (fd : ℕ)
      → (fs.open_write (path source_dir filename) s).0 ≡ some fd
      → 0 < fuel
      → Reports (codes "ADDED") []
  unfolding main str_eq count_copied skip_file
  added-Reports fd opened h =
      let p = path source_dir filename in
      let s₁ = (fs.open_write p s).1 in
      let e : content s₁ p ≡ some [] = posix.content-open_write p fd s opened in
      let apart₁ = posix.open_write-Apart p p (path target_dir filename) s apart in
      let k =
        synchronize_files-Copies fs posix fuel source_dir target_dir filename s₁ [] apart₁ e h in
      elim (Bool-cases k.success) [
        | inl done ↦ record {
          outcome = record start { files_copied = 1 };
          after = k.after;
          ends = rw (added-opened fd opened) (rw k.ends (rw done refl));
          source = k.elsewhere p apart₁ ∙ e;
          target = λ f. k.holds done;
        }
        | inr failed ↦ record {
          outcome = skip_file filename (fs.strerror k.after) start;
          after = k.after;
          ends = rw (added-opened fd opened) (rw k.ends (rw failed refl));
          source = k.elsewhere p apart₁ ∙ e;
          target = λ f. cc;
        }
      ]
