-- ===== src/Worker/Copy/Faithful.antt =====
-- What `synchronize_files` leaves in the files.
use file_sync_system.Common.{
  ℕ, zero, suc, ◌≤◌, ◌<◌, ◌≡◌, ◌⊎◌, ◌∙◌, inl, inr, refl, sym, ap, Bool, true, false, some, [], ◌∷◌,
  ◌++◌, arith, ltb, length, length-append, append_assoc, append-nil, Bool-cases, Option-cases,
}
use file_sync_system.Common.Text.{Text}
use file_sync_system.Worker.Copy.{
  path, max_bytes_read, Done, returned, short, close_both, copy_loop, copy_opened,
  synchronize_files,
}
use file_sync_system.Worker.Files.{FileSystem, Bytes, failed, bytes, IsPosix}

Bytes-cases : (b : Bytes) → (b ≡ failed) ⊎ ((x : Text) × (b ≡ bytes x))
Bytes-cases failed = inl refl
Bytes-cases (bytes x) = inr (x, refl)

module _ (fs : FileSystem) (posix : IsPosix fs) where
  open posix use {content, Reads, Writes, Apart}

  -- What is apart stays so.
  abbrev pub Keeps : fs.State → fs.State → Type 0
  Keeps s s' = (x y : Text) → Apart s x y → Apart s' x y

  -- A run that ends, and changes no file that is apart from `q`; if it succeeds, `q` holds `t`.
  pub record Copies (s : fs.State) (q t : Text) (run : Done (Bool × fs.State)) : Type 0 where
    pub success : Bool
    pub after : fs.State
    pub ends : run ≡ returned (success, after)
    pub holds : success ≡ true → content after q ≡ some t
    pub elsewhere : (x : Text) → Apart s x q → content after x ≡ content s x
    pub keeps : Keeps s after

  content-close_both :
      (r w : ℕ) (x : Text) (s : fs.State) → content (close_both fs r w s) x ≡ content s x
  content-close_both r w x s = posix.content-close w x (fs.close r s) ∙ posix.content-close r x s

  close_both-Keeps : (r w : ℕ) (s : fs.State) → Keeps s (close_both fs r w s)
  close_both-Keeps r w s x y a =
      posix.close-Apart w x y (fs.close r s) (posix.close-Apart r x y s a)

  Copies-after :
      (s s' : fs.State) (q t t' : Text) (run run' : Done (Bool × fs.State))
      → run ≡ run'
      → t' ≡ t
      → ((x : Text) → Apart s x q → content s' x ≡ content s x)
      → Keeps s s'
      → Copies s' q t' run'
      → Copies s q t run
  Copies-after s s' q t t' run run' e et same stays k = record {
    success = k.success;
    after = k.after;
    ends = e ∙ k.ends;
    holds = λ f. k.holds f ∙ ap some et;
    elsewhere = λ x ne. k.elsewhere x (stays x q ne) ∙ same x ne;
    keeps = λ x y ne. k.keeps x y (stays x y ne);
  }

  -- A write that is not short adds the bytes to the file.
  write_whole :
      (w : ℕ) (q c b : Text) (s : fs.State)
      → Writes s w q
      → content s q ≡ some c
      → short fs (fs.write w b s).0 b ≡ false
      → content (fs.write w b s).1 q ≡ some (c ++ b)
  write_whole w q c b s writes e h = elim (Option-cases (fs.write w b s).0) [
    | inl bad ↦ cc (rw bad at h)
    | inr (k, got) ↦ posix.content-write w k q c b s writes e got (ltb-false k b (rw got at h))
  ]
    where
      ltb-false : (k : ℕ) (b : Text) → ltb k (length b) ≡ false → length b ≤ k
      ltb-false k b h = ground arith

  module _ (p q : Text) (r w : ℕ) where
    copy_loop-Copies :
        (fuel : ℕ) (s : fs.State) (t c : Text)
        → Apart s p q
        → Reads s r p t
        → Writes s w q
        → content s q ≡ some c
        → length t < fuel
        → Copies s q (c ++ t) (copy_loop fs fuel r w s)
    unfolding copy_loop
    copy_loop-Copies zero s t c apart reads writes e h = absurd (omega arith)
    copy_loop-Copies (suc fuel) s t c apart reads writes e h =
        let s' = (fs.read r max_bytes_read s).1 in
        elim (Bytes-cases (fs.read r max_bytes_read s).0) [
          | inl bad ↦ record {
            success = false;
            after = close_both fs r w s';
            ends = rw (bad, copy_loop) refl;
            holds = λ f. cc;
            elsewhere = λ x ne. content-close_both r w x s' ∙ posix.content-read r _ x s;
            keeps = λ x y ne. close_both-Keeps r w s' x y (posix.read-Apart r _ x y s ne);
          }
          | inr ([], end) ↦ record {
            success = true;
            after = close_both fs r w s';
            ends = rw (end, copy_loop) refl;
            holds = λ f.
                let nothing : [] ≡ t =
                  sym (posix.read_end r max_bytes_read p t s (omega arith) reads end) in
                content-close_both r w q s'
                ∙ posix.content-read r max_bytes_read q s
                ∙ e
                ∙ ap some (sym (append-nil c) ∙ ap (λ u. c ++ u) nothing);
            elsewhere = λ x ne. content-close_both r w x s' ∙ posix.content-read r _ x s;
            keeps = λ x y ne. close_both-Keeps r w s' x y (posix.read-Apart r _ x y s ne);
          }
          | inr (b ∷ more, got) ↦
              let buff = b ∷ more in
              let s'' = (fs.write w buff s').1 in
              let (rest, te, reads') = posix.read-Reads r max_bytes_read p t buff s reads got in
              let writes' = posix.read-Writes r max_bytes_read w q s writes in
              let e' : content s' q ≡ some c = posix.content-read r max_bytes_read q s ∙ e in
              let same = λ (x : Text) (ne : Apart s x q).
                posix.content-write_ne w x q buff s' writes'
                  (posix.read-Apart r max_bytes_read x q s ne)
                ∙ posix.content-read r max_bytes_read x s in
              let stays : Keeps s s'' = λ x y ne.
                posix.write-Apart w buff x y s' (posix.read-Apart r max_bytes_read x y s ne) in
              elim (Bool-cases (short fs (fs.write w buff s').0 buff)) [
                | inl cut ↦ record {
                  success = false;
                  after = close_both fs r w s'';
                  ends = rw (got, copy_loop) (rw (cut, copy_loop) refl);
                  holds = λ f. cc;
                  elsewhere = λ x ne. content-close_both r w x s'' ∙ same x ne;
                  keeps = λ x y ne. close_both-Keeps r w s'' x y (stays x y ne);
                }
                | inr whole ↦
                    Copies-after s s'' q (c ++ t) ((c ++ buff) ++ rest) _
                      (copy_loop fs fuel r w s'') (rw (got, copy_loop) (rw (whole, copy_loop) refl))
                      (append_assoc c buff rest ∙ ap (λ u. c ++ u) (sym te)) same stays
                      (copy_loop-Copies fuel s'' rest (c ++ buff) (stays p q apart)
                        (posix.write-Reads w r p q rest buff s' writes'
                          (posix.read-Apart r max_bytes_read p q s apart) reads')
                        (posix.write-Writes w q buff s' writes')
                        (write_whole w q c buff s' writes' e' whole)
                        (omega (arith, ap length te, length-append {0} buff rest)))
              ]
        ]

  -- `synchronize_files` ends once the fuel exceeds the length of the source file. If it succeeds
  -- the target file holds what the source file held, and in any case no file changes that is apart
  -- from it. The source file is there, and the two paths are apart: they lead to different files,
  -- and neither leads through the other.
  pub synchronize_files-Copies :
      (fuel : ℕ) (source_dir target_dir filename : Text) (s : fs.State) (t : Text)
      → Apart s (path source_dir filename) (path target_dir filename)
      → content s (path source_dir filename) ≡ some t
      → length t < fuel
      → Copies s
          (path target_dir filename)
          t
          (synchronize_files fs fuel source_dir target_dir filename s)
  unfolding synchronize_files copy_opened
  synchronize_files-Copies fuel source_dir target_dir filename s t apart e h =
      let p = path source_dir filename in
      let q = path target_dir filename in
      let s₁ = (fs.open_read p s).1 in
      let s₂ = (fs.open_write q s₁).1 in
      let same = λ (x : Text) (ne : Apart s x q).
        posix.content-open_write_ne q x s₁ (posix.open_read-Apart p x q s ne)
        ∙ posix.content-open_read p x s in
      let stays : Keeps s s₂ =
        λ x y ne. posix.open_write-Apart q x y s₁ (posix.open_read-Apart p x y s ne) in
      elim (Option-cases (fs.open_read p s).0) [
        | inl bad ↦ record {
          success = false;
          after = s₂;
          ends = rw (bad, copy_opened) refl;
          holds = λ f. cc;
          elsewhere = same;
          keeps = stays;
        }
        | inr (r, opened) ↦ elim (Option-cases (fs.open_write q s₁).0) [
          | inl bad ↦ record {
            success = false;
            after = s₂;
            ends = rw (opened, bad, copy_opened) refl;
            holds = λ f. cc;
            elsewhere = same;
            keeps = stays;
          }
          | inr (w, created) ↦
              Copies-after s s₂ q t t _ (copy_loop fs fuel r w s₂)
                (rw (opened, created, copy_opened) refl) refl same stays
                (copy_loop-Copies p q r w fuel s₂ t [] (stays p q apart)
                  (posix.open_write-Reads p q t r s₁ (posix.open_read-Apart p p q s apart)
                    (posix.open_read-Reads p t r s opened e))
                  (posix.open_write-Writes q w s₁ created) (posix.content-open_write q w s₁ created)
                  h)
        ]
      ]
