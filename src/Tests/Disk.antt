-- ===== src/Tests/Disk.antt =====
-- A file system in memory that keeps what the worker relies on.
use file_sync_system.Common.{
  ℕ, zero, suc, ◌<◌, ◌≡◌, ◌≢◌, ◌∙◌, refl, sym, ap, Bool, true, false, Option, none, some, List, [],
  ◌∷◌, ◌++◌, arith, length, if◌then◌else◌, Bool-cases, inl, inr,
}
use file_sync_system.Common.Text.{Text, codes, str_eq, str_eq_refl, eq_of_str_eq}
use file_sync_system.Worker.Files.{FileSystem, IsPosix, bytes}

abbrev pub take : ℕ → Text → Text
take zero t = []
take (suc n) [] = []
take (suc n) (c ∷ t) = c ∷ take n t

abbrev pub drop : ℕ → Text → Text
drop zero t = t
drop (suc n) [] = []
drop (suc n) (c ∷ t) = drop n t

pub take-drop : (n : ℕ) (t : Text) → t ≡ take n t ++ drop n t
take-drop zero t = refl
take-drop (suc n) [] = refl
take-drop (suc n) (c ∷ t) = ap (λ u. c ∷ u) (take-drop n t)

pub take_nothing : (n : ℕ) (t : Text) → 0 < n → take n t ≡ [] → t ≡ []
take_nothing zero t h e = absurd (omega arith)
take_nothing (suc n) [] h e = refl
take_nothing (suc n) (c ∷ t) h e = cc

abbrev pub Entries : Type 0
Entries = List (Text × Option Text)

-- The latest entry of a path counts.
abbrev pub lookup : Entries → Text → Option Text
lookup [] p = none
lookup ((q, c) ∷ rest) p = let r = lookup rest p in if str_eq p q then c else r

pub lookup_self : (files : Entries) (p : Text) (c : Option Text) → lookup ((p, c) ∷ files) p ≡ c
lookup_self files p c = rw (str_eq_refl p) refl

pub lookup_ne :
    (files : Entries) (p q : Text) (c : Option Text)
    → p ≢ q
    → lookup ((q, c) ∷ files) p ≡ lookup files p
lookup_ne files p q c ne = elim (Bool-cases (str_eq p q)) [
  | inl same ↦ absurd (ne (eq_of_str_eq p q same))
  | inr differ ↦ rw differ refl
]

-- Both directories have the same listing. One file is read at a time, and one is written.
pub record Disk : Type 0 where
  pub listing : List Text
  pub files : Entries
  pub reading : Text
  pub writing : Text

abbrev pub is_there : Option Text → Bool
is_there none = false
is_there (some t) = true

abbrev pub contents : Option Text → Text
contents none = []
contents (some t) = t

abbrev pub opened : Option Text → Disk → Option ℕ × Disk
opened none s = (none, s)
opened (some t) s = (some 3, record s { reading = t })

abbrev pub memory : FileSystem
memory = record {
  State = Disk;
  opendir = λ p s. (some s.listing, s);
  unlink = λ p s. (is_there (lookup s.files p), record s { files = (p, none) ∷ s.files });
  open_read = λ p s. opened (lookup s.files p) s;
  open_write = λ p s. (some 4, record s { files = (p, some []) ∷ s.files; writing = p });
  read = λ fd n s. (bytes (take n s.reading), record s { reading = drop n s.reading });
  write = λ fd b s. (
    some (length b),
    record s { files = (s.writing, some (contents (lookup s.files s.writing) ++ b)) ∷ s.files },
  );
  close = λ fd s. s;
  strerror = λ s. codes "No such file or directory";
}

pub opened-files : (c : Option Text) (s : Disk) → (opened c s).1.files ≡ s.files
opened-files none s = refl
opened-files (some t) s = refl

pub opened-reading :
    (c : Option Text) (t : Text) (fd : ℕ) (s : Disk)
    → (opened c s).0 ≡ some fd
    → c ≡ some t
    → (opened c s).1.reading ≡ t
opened-reading none t fd s h e = cc
opened-reading (some u) t fd s h e = ground arith

pub bytes_injective : {a b : Text} → bytes a ≡ bytes b → a ≡ b
bytes_injective e = ground arith

unfoldable pub memory-IsPosix : IsPosix memory
memory-IsPosix = record {
  content = λ s p. lookup s.files p;
  Reads = λ s fd p t. s.reading ≡ t;
  Writes = λ s fd q. s.writing ≡ q;
  Apart = λ s p q. p ≢ q;
  opendir-Apart = λ p x y s a. a;
  unlink-Apart = λ p x y s a. a;
  open_read-Apart = λ p x y s a. a;
  open_write-Apart = λ p x y s a. a;
  read-Apart = λ fd n x y s a. a;
  write-Apart = λ fd b x y s a. a;
  close-Apart = λ fd x y s a. a;
  content-opendir = λ p q s. refl;
  content-unlink_ne = λ p q s ne. lookup_ne s.files q p none ne;
  content-open_read = λ p q s. ap (λ f. lookup f q) (opened-files (lookup s.files p) s);
  open_read-Reads = λ p t fd s h e. opened-reading (lookup s.files p) t fd s h e;
  content-open_write_ne = λ p q s ne. lookup_ne s.files q p (some []) ne;
  content-open_write = λ p fd s h. lookup_self s.files p (some []);
  open_write-Writes = λ p fd s h. refl;
  open_write-Reads = λ p q t fd s ne h. h;
  content-read = λ fd n q s. refl;
  read-Reads = λ fd n p t b s h e. (
    drop n t,
    take-drop n t ∙ ap (λ u. u ++ drop n t) (sym (ap (take n) h) ∙ bytes_injective e),
    ap (drop n) h,
  );
  read_end = λ fd n p t s h r e. take_nothing n t h (sym (ap (take n) r) ∙ bytes_injective e);
  read-Writes = λ fd n w q s h. h;
  content-write = λ w k q c b s h e k' le. rw h (rw (str_eq_refl q, e) refl);
  content-write_ne = λ w p q b s h ne.
      lookup_ne s.files p s.writing (some (contents (lookup s.files s.writing) ++ b))
        (λ same. ne (same ∙ h));
  write-Writes = λ w q b s h. h;
  write-Reads = λ w fd p q t b s h ne r. r;
  content-close = λ fd q s. refl;
}
