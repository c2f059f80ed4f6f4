-- ===== src/Manager/Scan/Match.antt =====
-- What `is_substring` and `is_full_command` decide.
use file_sync_system.Common.{
  ℕ, true, false, [], ◌∷◌, ◌++◌, ◌≡◌, ◌≢◌, inl, inr, refl, sym, ap, ◌∙◌, arith, ◌==◌, Bool-cases,
  append_assoc, ==_iff,
}
use file_sync_system.Common.Text.{Text, has}
use file_sync_system.Manager.Scan.{substring_loop, is_substring, is_full_command}

-- `sub` stands in `str` behind `before` and in front of `behind`.
pub record Occurs (sub str : Text) : Type 0 where
  pub before : Text
  pub behind : Text
  pub splits : str ≡ before ++ (sub ++ behind)

pub Occurs-behind : {sub str : Text} (front : Text) → Occurs sub str → Occurs sub (front ++ str)
Occurs-behind front o = record {
  before = front ++ o.before;
  behind = o.behind;
  splits = ap (λ s. front ++ s) o.splits ∙ sym (append_assoc front o.before _);
}

substring_loop-Occurs :
    (sub str done left : Text)
    → done ++ left ≡ sub
    → substring_loop sub str left ≡ true
    → Occurs sub (done ++ str)
unfolding substring_loop
substring_loop-Occurs sub [] done left e h = cc
substring_loop-Occurs sub (c ∷ str) done [] e h =
    Occurs-behind done (Occurs-behind (c ∷ []) (substring_loop-Occurs sub str [] sub refl h))
substring_loop-Occurs sub (c ∷ str) done (d ∷ []) e h = elim (Bool-cases (c == d)) [
  | inl same ↦ record {
    before = [];
    behind = str;
    splits = rw ((==_iff c d).0 same, ← e) (sym (append_assoc done (d ∷ []) str));
  }
  | inr differ ↦ Occurs-behind done (
      Occurs-behind (c ∷ [])
        (substring_loop-Occurs sub str [] sub refl (rw (differ, substring_loop) at h)))
]
substring_loop-Occurs sub (c ∷ str) done (d ∷ f ∷ left) e h = elim (Bool-cases (c == d)) [
  | inl same ↦ rw append_assoc at (
      substring_loop-Occurs sub str (done ++ (c ∷ [])) (f ∷ left)
        (rw (append_assoc, (==_iff c d).0 same) e) (rw (same, substring_loop) at h))
  | inr differ ↦ Occurs-behind done (
      Occurs-behind (c ∷ [])
        (substring_loop-Occurs sub str [] sub refl (rw (differ, substring_loop) at h)))
]

-- Whenever `is_substring` answers true, the text does occur.
pub is_substring-Occurs : (str sub : Text) → is_substring str sub ≡ true → Occurs sub str
unfolding is_substring
is_substring-Occurs str sub h = substring_loop-Occurs sub str [] sub refl h

substring_loop-prefix :
    (sub left behind : Text) → left ≢ [] → substring_loop sub (left ++ behind) left ≡ true
unfolding substring_loop
substring_loop-prefix sub [] behind ne = absurd (ne refl)
substring_loop-prefix sub (c ∷ []) behind ne = ground arith
substring_loop-prefix sub (c ∷ d ∷ left) behind ne =
    ground (arith, substring_loop-prefix sub (d ∷ left) behind)

substring_loop-separated :
    (sub front left behind : Text) (mark : ℕ)
    → sub ≢ []
    → has mark sub ≡ false
    → has mark left ≡ false
    → substring_loop sub (front ++ mark ∷ (sub ++ behind)) left ≡ true
unfolding substring_loop
substring_loop-separated sub [] [] behind mark ne out out' = substring_loop-prefix sub sub behind ne
substring_loop-separated sub [] (d ∷ []) behind mark ne out out' =
    ground (arith, substring_loop-prefix sub sub behind)
substring_loop-separated sub [] (d ∷ e ∷ left) behind mark ne out out' =
    ground (arith, substring_loop-prefix sub sub behind)
substring_loop-separated sub (c ∷ front) [] behind mark ne out out' =
    substring_loop-separated sub front sub behind mark ne out out
substring_loop-separated sub (c ∷ front) (d ∷ []) behind mark ne out out' =
    ground (arith, substring_loop-separated sub front sub behind mark)
substring_loop-separated sub (c ∷ front) (d ∷ e ∷ left) behind mark ne out out' = ground (
  arith,
  substring_loop-separated sub front sub behind mark,
  substring_loop-separated sub front (e ∷ left) behind mark,
)

-- A text is found behind a byte that does not occur in it, whatever stands in front of that byte.
pub is_substring-separated :
    (front sub behind : Text) (mark : ℕ)
    → sub ≢ []
    → has mark sub ≡ false
    → is_substring (front ++ mark ∷ (sub ++ behind)) sub ≡ true
unfolding is_substring
is_substring-separated front sub behind mark ne out =
    substring_loop-separated sub front sub behind mark ne out out

-- `is_full_command` tells whether a newline has been read.
pub is_full_command-has : (buffer : Text) → is_full_command buffer ≡ has b'\n' buffer
unfolding is_full_command
is_full_command-has [] = refl
is_full_command-has (c ∷ buffer) = ground (arith, is_full_command-has buffer)
