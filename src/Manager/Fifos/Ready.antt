-- ===== src/Manager/Fifos/Ready.antt =====
-- The named pipes are there when the manager goes on, whatever their names stood for before.
use file_sync_system.Common.{◌≡◌, ◌≢◌, ◌∙◌, refl, ap, Bool, true, some, Option-cases, inl, inr}
use file_sync_system.Common.Text.{Text}
use file_sync_system.Manager.Fifos.{
  Directory, fifo, IsPosix, fss_in, fss_out, create_fifo, create_second, create_fifos,
}

module _ (dir : Directory) (posix : IsPosix dir) where
  open posix use {entry}

  -- The pipe has been made.
  record Piped (name : Text) (s : dir.State) (r : Bool × dir.State) : Type 0 where
    after : dir.State
    ends : r ≡ (true, after)
    is_fifo : entry after name ≡ some fifo
    others : (q : Text) → q ≢ name → entry after q ≡ entry s q

  create_fifo-Piped :
      (name : Text) (undo : dir.State → dir.State) (s : dir.State)
      → Piped name s (create_fifo dir name undo s)
  unfolding create_fifo
  create_fifo-Piped name undo s = elim (Option-cases (entry s name)) [
    | inl new ↦ record {
      after = (dir.mkfifo name s).1;
      ends = rw (create_fifo, posix.mkfifo_new name s new) refl;
      is_fifo = posix.entry-mkfifo_new name s new;
      others = λ q ne. posix.entry-mkfifo_ne name q s ne;
    }
    | inr (e, old) ↦
        let s₁ = dir.unlink name (dir.mkfifo name s).1 in
        let gone = posix.entry-unlink name (dir.mkfifo name s).1 in
        record {
          after = (dir.mkfifo name s₁).1;
          ends =
              rw (create_fifo, posix.mkfifo_old name e s old, posix.mkfifo_new name s₁ gone) refl;
          is_fifo = posix.entry-mkfifo_new name s₁ gone;
          others = λ q ne.
              posix.entry-mkfifo_ne name q s₁ ne
              ∙ posix.entry-unlink_ne name q (dir.mkfifo name s).1 ne
              ∙ posix.entry-mkfifo_ne name q s ne;
        }
  ]

  -- In a directory that may be written and holds pipes and regular files, `main` goes on with a pipe at each of the two names,
  -- whether there were none, pipes or other files before, and leaves the other names as they are.
  pub create_fifos-ready :
      (s : dir.State)
      → (after : dir.State) × (create_fifos dir s ≡ (true, after))
        × (entry after fss_in ≡ some fifo)
        × (entry after fss_out ≡ some fifo)
        × ((q : Text) → q ≢ fss_in → q ≢ fss_out → entry after q ≡ entry s q)
  unfolding create_fifos create_second
  create_fifos-ready s =
      let first = create_fifo-Piped fss_in (λ s. s) s in
      let second = create_fifo-Piped fss_out (dir.unlink fss_in) first.after in
      (
        second.after,
        ap (create_second dir) first.ends ∙ second.ends,
        second.others fss_in (λ e. cc) ∙ first.is_fifo,
        second.is_fifo,
        λ q ne ne'. second.others q ne' ∙ first.others q ne,
      )
