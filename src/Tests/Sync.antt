-- ===== src/Tests/Sync.antt =====
-- The worker (src/worker_process.c), run on a file system in memory.
use file_sync_system.Common.{
  ◌+◌, ◌≡◌, ◌≢◌, ◌++◌, ap, refl, true, false, none, some, [], ◌∷◌, arith, All,
}
use file_sync_system.Common.Text.{Text, codes, str_eq, str_eq_refl, Free, Free-check}
use file_sync_system.Manager.Report.{Output, done, newline, extract_workers_output}
use file_sync_system.Protocol.Errors.{entry, files, full-reading}
use file_sync_system.Protocol.Lines.{IsToken-check}
use file_sync_system.Protocol.RoundTrip.{reading}
use file_sync_system.Tests.Disk.{Disk, lookup, memory, memory-IsPosix}
use file_sync_system.Worker.Copy.{
  path, returned, copy_loop, copy_opened, delete_file, synchronize_files,
}
use file_sync_system.Worker.Copy.Faithful.{Copies, synchronize_files-Copies}
use file_sync_system.Worker.Main.{
  is_dots, error_line, skip_file, count_copied, count_deleted, delete_step, delete_all, copy_step,
  copy_all, full_opened, full, added, modified, deleted, main,
}
use file_sync_system.Worker.Main.Full.{Outside, IsSource, Synced, full-Synced}
use file_sync_system.Worker.Main.Single.{Reports, modified-Reports, added-Reports}
use file_sync_system.Worker.Report.{Outcome, report}

-- The source directory `a` has the file `x`, and the listing has a `y` that is not there.
abbrev two_names : Disk
two_names = record {
  listing = codes "." ∷ codes "x" ∷ codes ".." ∷ codes "y" ∷ [];
  files = (codes "a/x", some (codes "hi")) ∷ (codes "b/x", some (codes "old")) ∷ [];
  reading = [];
  writing = [];
}

abbrev one_name : Disk
one_name = record two_names { listing = codes "." ∷ codes "x" ∷ [] }

append_cancel : (a b c : Text) → a ++ b ≡ a ++ c → b ≡ c
append_cancel [] b c h = h
append_cancel (x ∷ a) b c h = append_cancel a b c (ground arith)

path_injective : (dir a b : Text) → path dir a ≡ path dir b → a ≡ b
path_injective dir a b h = let e = append_cancel dir (b'/' ∷ a) (b'/' ∷ b) h in ground arith

apart : (n m : Text) → path (codes "a") n ≢ path (codes "b") m
apart n m e = ground arith

-- Every name may be written.
abbrev AnyName : Text → Type 0
AnyName n = Unit {0}

within_b :
    (n m : Text)
    → AnyName n
    → AnyName m
    → str_eq n m ≡ false
    → memory-IsPosix.Apart one_name (path (codes "b") n) (path (codes "b") m)
unfolding memory-IsPosix
within_b n m _ _ differ e =
    cc (differ, ap (λ u. str_eq u m) (path_injective (codes "b") n m e), str_eq_refl m)

only_x :
    All
      (IsSource memory memory-IsPosix 3 (codes "a") (codes "b") AnyName one_name within_b)
      one_name.listing
unfolding is_dots str_eq memory-IsPosix
only_x =
    (λ real. cc, (λ real. (tt, (λ m _. apart (codes "x") m), codes "hi", refl, omega arith), tt))

worker : Unit {0}
unfolding str_eq copy_loop copy_opened delete_file synchronize_files is_dots error_line skip_file
    count_copied count_deleted delete_step delete_all copy_step copy_all full_opened full added
    modified deleted main
worker = tt

full-Synced_example :
    (o : Outcome) × (s' : Disk) × (full memory 3 (codes "a") (codes "b") one_name
      ≡ returned (o, s'))
    × ((x : Text)
        → Outside memory memory-IsPosix 3 (codes "a") (codes "b") AnyName one_name within_b x
        → lookup s'.files x ≡ lookup one_name.files x)
    × (o.error_flag ≡ false
        → All
            (Synced memory memory-IsPosix 3 (codes "a") (codes "b") AnyName one_name within_b s')
            one_name.listing)
unfolding memory-IsPosix
full-Synced_example =
    full-Synced memory memory-IsPosix 3 (codes "a") (codes "b") AnyName one_name within_b
      one_name.listing one_name.listing refl refl only_x (λ _. tt, (λ _. tt, tt))

differ : memory-IsPosix.Apart one_name (codes "a/x") (codes "b/x")
unfolding memory-IsPosix
differ = apart (codes "x") (codes "x")

x_there : memory-IsPosix.content one_name (codes "a/x") ≡ some (codes "hi")
unfolding memory-IsPosix str_eq
x_there = refl

synchronize_files-Copies_example :
    Copies memory memory-IsPosix one_name
      (codes "b/x")
      (codes "hi")
      (synchronize_files memory 3 (codes "a") (codes "b") (codes "x") one_name)
synchronize_files-Copies_example =
    synchronize_files-Copies memory memory-IsPosix 3 (codes "a") (codes "b") (codes "x") one_name
      (codes "hi") differ x_there (omega arith)

modified-Reports_example :
    Reports memory memory-IsPosix 3
      (codes "a")
      (codes "b")
      (codes "x")
      one_name
      differ
      (codes "MODIFIED")
      (codes "hi")
modified-Reports_example =
    modified-Reports memory memory-IsPosix 3 (codes "a") (codes "b") (codes "x") one_name differ
      (codes "hi") x_there (omega arith)

added-Reports_example :
    Reports memory memory-IsPosix 3
      (codes "a")
      (codes "b")
      (codes "x")
      one_name
      differ
      (codes "ADDED")
      []
added-Reports_example =
    added-Reports memory memory-IsPosix 3 (codes "a") (codes "b") (codes "x") one_name differ 4 refl
      (omega arith)

-- `x` is copied, and there is no `y` to delete and none to copy.
skipped_y : Outcome
skipped_y = record {
  error_buffer = codes "- File y: No such file or directory\n- File y: No such file or directory\n";
  files_copied = 1;
  files_skipped = 2;
  files_deleted = 1;
  error_flag = true;
}

after_full : Disk
after_full = record {
  listing = two_names.listing;
  files =
      (codes "b/y", some [])
      ∷ (codes "b/x", some (codes "hi"))
      ∷ (codes "b/x", some [])
      ∷ (codes "b/y", none)
      ∷ (codes "b/x", none)
      ∷ two_names.files;
  reading = [];
  writing = codes "b/y";
}

run_full : full memory 3 (codes "a") (codes "b") two_names ≡ returned (skipped_y, after_full)
unfolding worker skipped_y after_full
run_full = refl

names-Free : All (Free newline) two_names.listing
names-Free = (
  Free-check newline (codes ".") refl,
  (
    Free-check newline (codes "x") refl,
    (Free-check newline (codes "..") refl, (Free-check newline (codes "y") refl, tt)),
  ),
)

empty_output : Output
empty_output = record {
  source_dir = none;
  target_dir = none;
  status = none;
  operation = none;
  details = none;
  errors_found = 0;
}

full-reading_example :
    (1 + 1 + 2 ≡ 4)
    × (extract_workers_output (report (codes "a") (codes "b") (codes "FULL") skipped_y) empty_output
        ≡ done (reading (codes "a") (codes "b") (codes "FULL") skipped_y 2))
unfolding skipped_y files entry worker
full-reading_example =
    full-reading memory (λ s. Free-check newline (codes "No such file or directory") refl) 3
      (codes "a") (codes "b") two_names after_full skipped_y empty_output two_names.listing
      two_names.listing (IsToken-check (codes "a") (λ e. cc) refl)
      (IsToken-check (codes "b") (λ e. cc) refl) refl refl names-Free names-Free run_full
