-- ===== src/Worker/Files.antt =====
-- The system calls of src/worker_process.c on files, over an unknown state of the file system, and
-- what the worker relies on, as POSIX describes it.
use file_sync_system.Common.{ℕ, ◌≤◌, ◌<◌, ◌≡◌, Bool, Option, some, List, [], ◌++◌, length}
use file_sync_system.Common.Text.{Text}

-- The result of `read`: a negative number, or the bytes read, none at the end of the file.
pub data Bytes : Type 0 where
  failed : Bytes
  bytes : Text → Bytes

pub record FileSystem : Type 1 where
  pub State : Type 0
  -- The names that `readdir` gives on the opened directory until it gives NULL.
  pub opendir : Text → State → Option (List Text) × State
  -- Whether `unlink` returned 0.
  pub unlink : Text → State → Bool × State
  -- `open` for reading, and with `O_CREAT | O_WRONLY | O_TRUNC`; `none` is a negative number.
  pub open_read : Text → State → Option ℕ × State
  pub open_write : Text → State → Option ℕ × State
  pub read : ℕ → ℕ → State → Bytes × State
  -- The number of the bytes written, `none` if it is negative.
  pub write : ℕ → Text → State → Option ℕ × State
  pub close : ℕ → State → State
  -- `strerror(errno)`
  pub strerror : State → Text

-- The paths lead to directories and regular files, through links or not, and nothing but these calls
-- changes the files. `content s p` is the regular file that the path `p` leads to. `Reads s fd p t`:
-- the descriptor is open for reading that file and `t` is still to be read. `Writes s fd q`: the
-- descriptor is open for writing at the end of that file.
-- `Apart s p q`: the two paths lead to no common entry of a directory and to no common file, and
-- neither leads through the entry of the other. Two texts that differ need not be apart, as `d/x`
-- and `./d/x`. Paths that are apart stay so, since no call adds a link or a directory or moves one.
pub record IsPosix (fs : FileSystem) : Type 1 where
  pub content : fs.State → Text → Option Text
  pub Reads : fs.State → ℕ → Text → Text → Type 0
  pub Writes : fs.State → ℕ → Text → Type 0
  pub Apart : fs.State → Text → Text → Type 0
  pub opendir-Apart : (p x y : Text) (s : fs.State) → Apart s x y → Apart (fs.opendir p s).1 x y
  pub unlink-Apart : (p x y : Text) (s : fs.State) → Apart s x y → Apart (fs.unlink p s).1 x y
  pub open_read-Apart : (p x y : Text) (s : fs.State) → Apart s x y → Apart (fs.open_read p s).1 x y
  pub open_write-Apart :
      (p x y : Text) (s : fs.State) → Apart s x y → Apart (fs.open_write p s).1 x y
  pub read-Apart :
      (fd n : ℕ) (x y : Text) (s : fs.State) → Apart s x y → Apart (fs.read fd n s).1 x y
  pub write-Apart :
      (fd : ℕ) (b x y : Text) (s : fs.State) → Apart s x y → Apart (fs.write fd b s).1 x y
  pub close-Apart : (fd : ℕ) (x y : Text) (s : fs.State) → Apart s x y → Apart (fs.close fd s) x y
  pub content-opendir : (p q : Text) (s : fs.State) → content (fs.opendir p s).1 q ≡ content s q
  pub content-unlink_ne :
      (p q : Text) (s : fs.State) → Apart s q p → content (fs.unlink p s).1 q ≡ content s q
  pub content-open_read : (p q : Text) (s : fs.State) → content (fs.open_read p s).1 q ≡ content s q
  pub open_read-Reads :
      (p t : Text) (fd : ℕ) (s : fs.State)
      → (fs.open_read p s).0 ≡ some fd
      → content s p ≡ some t
      → Reads (fs.open_read p s).1 fd p t
  pub content-open_write_ne :
      (p q : Text) (s : fs.State) → Apart s q p → content (fs.open_write p s).1 q ≡ content s q
  pub content-open_write :
      (p : Text) (fd : ℕ) (s : fs.State)
      → (fs.open_write p s).0 ≡ some fd
      → content (fs.open_write p s).1 p ≡ some []
  pub open_write-Writes :
      (p : Text) (fd : ℕ) (s : fs.State)
      → (fs.open_write p s).0 ≡ some fd
      → Writes (fs.open_write p s).1 fd p
  pub open_write-Reads :
      (p q t : Text) (fd : ℕ) (s : fs.State)
      → Apart s p q
      → Reads s fd p t
      → Reads (fs.open_write q s).1 fd p t
  pub content-read :
      (fd n : ℕ) (q : Text) (s : fs.State) → content (fs.read fd n s).1 q ≡ content s q
  pub read-Reads :
      (fd n : ℕ) (p t b : Text) (s : fs.State)
      → Reads s fd p t
      → (fs.read fd n s).0 ≡ bytes b
      → (rest : Text) × (t ≡ b ++ rest) × Reads (fs.read fd n s).1 fd p rest
  pub read_end :
      (fd n : ℕ) (p t : Text) (s : fs.State)
      → 0 < n
      → Reads s fd p t
      → (fs.read fd n s).0 ≡ bytes []
      → t ≡ []
  pub read-Writes :
      (fd n w : ℕ) (q : Text) (s : fs.State) → Writes s w q → Writes (fs.read fd n s).1 w q
  pub content-write :
      (w k : ℕ) (q c b : Text) (s : fs.State)
      → Writes s w q
      → content s q ≡ some c
      → (fs.write w b s).0 ≡ some k
      → length b ≤ k
      → content (fs.write w b s).1 q ≡ some (c ++ b)
  pub content-write_ne :
      (w : ℕ) (p q b : Text) (s : fs.State)
      → Writes s w q
      → Apart s p q
      → content (fs.write w b s).1 p ≡ content s p
  pub write-Writes :
      (w : ℕ) (q b : Text) (s : fs.State) → Writes s w q → Writes (fs.write w b s).1 w q
  pub write-Reads :
      (w fd : ℕ) (p q t b : Text) (s : fs.State)
      → Writes s w q
      → Apart s p q
      → Reads s fd p t
      → Reads (fs.write w b s).1 fd p t
  pub content-close : (fd : ℕ) (q : Text) (s : fs.State) → content (fs.close fd s) q ≡ content s q
