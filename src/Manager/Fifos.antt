-- ===== src/Manager/Fifos.antt =====
-- The named pipes that `main` (src/fss_manager.c) creates first, over an unknown state of the
-- working directory.
pub mod Ready
use file_sync_system.Common.{◌≡◌, ◌≢◌, Bool, true, false, Option, some, none}
use file_sync_system.Common.Text.{Text, codes}

-- The result of `mkfifo`: 0, or a negative number with `EEXIST` or another number in `errno`.
pub data Made : Type 0 where
  created : Made
  exists : Made
  failed : Made

-- The system calls. What `unlink` returns is not read.
pub record Directory : Type 1 where
  pub State : Type 0
  pub mkfifo : Text → State → Made × State
  pub unlink : Text → State → State

-- What the name of an entry stands for.
pub data Entry : Type 0 where
  fifo : Entry
  file : Entry

-- What POSIX says of the calls on names, where the directory may be written and holds pipes and
-- regular files: a name that has no entry gets one, a name that has one is refused, and `unlink`
-- takes the entry away.
pub record IsPosix (dir : Directory) : Type 1 where
  pub entry : dir.State → Text → Option Entry
  pub mkfifo_new : (p : Text) (s : dir.State) → entry s p ≡ none → (dir.mkfifo p s).0 ≡ created
  pub mkfifo_old :
      (p : Text) (e : Entry) (s : dir.State) → entry s p ≡ some e → (dir.mkfifo p s).0 ≡ exists
  pub entry-mkfifo_new :
      (p : Text) (s : dir.State) → entry s p ≡ none → entry (dir.mkfifo p s).1 p ≡ some fifo
  pub entry-mkfifo_ne :
      (p q : Text) (s : dir.State) → q ≢ p → entry (dir.mkfifo p s).1 q ≡ entry s q
  pub entry-unlink : (p : Text) (s : dir.State) → entry (dir.unlink p s) p ≡ none
  pub entry-unlink_ne : (p q : Text) (s : dir.State) → q ≢ p → entry (dir.unlink p s) q ≡ entry s q

abbrev pub fss_in : Text
fss_in = codes "fss_in"

abbrev pub fss_out : Text
fss_out = codes "fss_out"

module _ (dir : Directory) where
  -- The creation of a pipe; `false` is an exit. `undo` is done before the second exit.
  unfoldable pub create_fifo : Text → (undo : dir.State → dir.State) → dir.State → Bool × dir.State
  create_fifo name undo s =
      let (made, s₁) = dir.mkfifo name s in
      elim made [
        | created ↦ (true, s₁)
        | failed ↦ (false, s₁)
        | exists ↦
            let (again, s₂) = dir.mkfifo name (dir.unlink name s₁) in
            elim again [
              | created ↦ (true, s₂)
              | exists ↦ (false, undo s₂)
              | failed ↦ (false, undo s₂)
            ]
      ]

  -- If the second pipe cannot be made again, the first one is removed.
  unfoldable pub create_second : Bool × dir.State → Bool × dir.State
  create_second (false, s) = (false, s)
  create_second (true, s) = create_fifo fss_out (dir.unlink fss_in) s

  unfoldable pub create_fifos : dir.State → Bool × dir.State
  create_fifos s = create_second (create_fifo fss_in (λ s. s) s)
