-- ===== src/Tests/Fifos.antt =====
-- The named pipes of the manager (src/fss_manager.c), in a directory that is a function of names.
use file_sync_system.Common.{
  ◌≡◌, ◌≢◌, ◌∙◌, refl, sym, ap, true, Option, some, none, if◌then◌else◌, Bool-cases, inl, inr,
}
use file_sync_system.Common.Text.{Text, str_eq, str_eq_refl, eq_of_str_eq}
use file_sync_system.Manager.Fifos.{
  Made, created, exists, Directory, Entry, fifo, file, IsPosix, fss_in, fss_out, create_fifos,
}
use file_sync_system.Manager.Fifos.Ready.{create_fifos-ready}

abbrev pub Names : Type 0
Names = Text → Option Entry

abbrev pub with_entry : Names → Text → Option Entry → Names
with_entry s p e q = if str_eq p q then e else s q

abbrev pub made : Text → Names → Option Entry → Made × Names
made p s none = (created, with_entry s p (some fifo))
made p s (some _) = (exists, s)

abbrev pub make : Text → Names → Made × Names
make p s = made p s (s p)

abbrev pub names_directory : Directory
names_directory = record { State = Names; mkfifo = make; unlink = λ p s. with_entry s p none }

with_entry_ne : (s : Names) (p q : Text) (e : Option Entry) → q ≢ p → with_entry s p e q ≡ s q
with_entry_ne s p q e ne = elim (Bool-cases (str_eq p q)) [
  | inl same ↦ absurd (ne (sym (eq_of_str_eq p q same)))
  | inr other ↦ rw other refl
]

make_ne : (s : Names) (p q : Text) (o : Option Entry) → q ≢ p → (made p s o).1 q ≡ s q
make_ne s p q none ne = (with_entry_ne s p q (some fifo) ne)
make_ne s p q (some x) ne = refl

names-IsPosix : IsPosix names_directory
names-IsPosix = record {
  entry = λ s p. s p;
  mkfifo_new = λ p s new. ap (λ o. (made p s o).0) new;
  mkfifo_old = λ p e s old. ap (λ o. (made p s o).0) old;
  entry-mkfifo_new = λ p s new. ap (λ o. (made p s o).1 p) new ∙ rw (str_eq_refl p) refl;
  entry-mkfifo_ne = λ p q s ne. make_ne s p q (s p) ne;
  entry-unlink = λ p s. rw (str_eq_refl p) refl;
  entry-unlink_ne = λ p q s ne. with_entry_ne s p q none ne;
}

-- A pipe of an earlier run, and a file.
abbrev pub left_over : Names
left_over = with_entry (with_entry (λ q. none) fss_in (some fifo)) fss_out (some file)

create_fifos-ready_example :
    (after : Names) × (create_fifos names_directory left_over ≡ (true, after))
    × (names-IsPosix.entry after fss_in ≡ some fifo)
    × (names-IsPosix.entry after fss_out ≡ some fifo)
    × ((q : Text)
        → q ≢ fss_in
        → q ≢ fss_out
        → names-IsPosix.entry after q ≡ names-IsPosix.entry left_over q)
create_fifos-ready_example = create_fifos-ready names_directory names-IsPosix left_over
