-- ===== src/Common/Text.antt =====
-- C strings: their bytes without the terminating NUL, and the functions of `string.h` that the
-- program calls, as the C standard describes them.
use Prim.Native.Char.{code}
use Prim.Native.Nat.{ℕ, suc, ◌≤◌, ◌<◌}
use Prim.Native.String.{String}
use mathlib.Core.Path.{◌≡◌, refl}
use mathlib.Core.Bool.{Bool, true, false, ◌&&◌, ◌||◌}
use mathlib.Core.Option.{Option, none, some}
use mathlib.Core.List.{List, [], ◌∷◌, ◌++◌}
use native.Mathlib.Omega.{arith}
use file_sync_system.Common.Branch.{◌==◌, if◌then◌else◌}
use file_sync_system.Common.Lists.{length}

abbrev pub Text : Type 0
Text = List ℕ

-- The bytes of an ASCII literal.
abbrev pub codes : String → Text
codes String.[] = []
codes (String.◌∷◌ c s) = code c ∷ codes s

-- `strcmp(s, t) == 0`
unfoldable pub str_eq : Text → Text → Bool
str_eq [] [] = true
str_eq (c ∷ s) (d ∷ t) = (c == d) && str_eq s t
str_eq _ _ = false

-- Whether a byte occurs, as in `strchr(s, c) != NULL`.
abbrev pub has : ℕ → Text → Bool
has c [] = false
has c (d ∷ s) = (c == d) || has c s

-- The first loop of `strtok`: the text behind its leading delimiters.
unfoldable pub skip : Text → Text → Text
skip delims [] = []
skip delims (c ∷ s) = if has c delims then skip delims s else c ∷ s

-- The second loop of `strtok`: the bytes up to the next delimiter, and the text behind that.
unfoldable pub cut : Text → Text → Text × Text
cut delims [] = ([], [])
cut delims (c ∷ s) = let (t, r) = cut delims s in if has c delims then ([], s) else (c ∷ t, r)

strtok_from : Text → Text → Option Text × Text
strtok_from delims [] = (none, [])
strtok_from delims (c ∷ s) = let (t, r) = cut delims (c ∷ s) in (some t, r)

-- `strtok(NULL, delims)` with the text that the last call left over: the token, `none` for NULL,
-- and what is left over now. `strtok(s, delims)` starts anew from `s`.
unfoldable pub strtok : Text → Text → Option Text × Text
unfolding skip cut strtok_from
strtok delims s = strtok_from delims (skip delims s)

pub str_eq_refl : (s : Text) → str_eq s s ≡ true
unfolding str_eq
str_eq_refl [] = refl
str_eq_refl (c ∷ s) = ground (arith, str_eq_refl s)

pub eq_of_str_eq : (s t : Text) → str_eq s t ≡ true → s ≡ t
unfolding str_eq
eq_of_str_eq [] [] h = refl
eq_of_str_eq [] (d ∷ t) h = cc
eq_of_str_eq (c ∷ s) [] h = cc
eq_of_str_eq (c ∷ s) (d ∷ t) h = ground (arith, eq_of_str_eq s t)

pub has-append : (c : ℕ) (s t : Text) → has c (s ++ t) ≡ (has c s || has c t)
has-append c [] t = refl
has-append c (d ∷ s) t = ground (arith, has-append c s t)

-- No byte of the text is among the delimiters.
abbrev pub Free : Text → Text → Type 0
Free delims [] = Unit
Free delims (c ∷ s) = (has c delims ≡ false) × Free delims s

abbrev pub is_free : Text → Text → Bool
is_free delims [] = true
is_free delims (c ∷ s) = elim (has c delims) [ true ↦ false | false ↦ is_free delims s ]

-- At a literal the test is `refl`.
pub Free-check : (delims s : Text) → is_free delims s ≡ true → Free delims s
Free-check delims [] h = tt
Free-check delims (c ∷ s) h = ground (arith, Free-check delims s)

pub Free-append : (delims s t : Text) → Free delims s → Free delims t → Free delims (s ++ t)
Free-append delims [] t f g = g
Free-append delims (c ∷ s) t f g = (f.0, Free-append delims s t f.1 g)

module _ (delims : Text) where
  pub cut-append :
      (s : Text) (d : ℕ) (rest : Text)
      → Free delims s
      → has d delims ≡ true
      → cut delims (s ++ d ∷ rest) ≡ (s, rest)
  unfolding cut
  cut-append [] d rest f h = ground arith
  cut-append (c ∷ s) d rest f h = ground (arith, cut-append s d rest f.1 h)

  -- A leading delimiter is passed over.
  pub strtok-delimiter :
      (d : ℕ) (s : Text) → has d delims ≡ true → strtok delims (d ∷ s) ≡ strtok delims s
  unfolding strtok
  strtok-delimiter d s h = ground arith

  -- A token that a delimiter ends.
  pub strtok-token :
      (c : ℕ) (s : Text) (d : ℕ) (rest : Text)
      → Free delims (c ∷ s)
      → has d delims ≡ true
      → strtok delims ((c ∷ s) ++ d ∷ rest) ≡ (some (c ∷ s), rest)
  unfolding strtok
  strtok-token c s d rest f h = ground (arith, cut-append s d rest f.1 h)

  length-skip : (s : Text) → length (skip delims s) ≤ length s
  unfolding skip
  length-skip [] = omega arith
  length-skip (c ∷ s) = ground (arith, length-skip s)

  length-cut : (s : Text) → length (cut delims s).1 ≤ length s
  unfolding cut
  length-cut [] = omega arith
  length-cut (c ∷ s) = ground (arith, length-cut s)

  length-cut_cons : (c : ℕ) (s : Text) → length (cut delims (c ∷ s)).1 < suc (length s)
  unfolding cut
  length-cut_cons c s = ground (arith, length-cut s)

  length-strtok_from :
      (s : Text)
      → (length (strtok_from delims s).1 ≤ length s)
        × ((t : Text)
            → (strtok_from delims s).0 ≡ some t
            → length (strtok_from delims s).1 < length s)
  unfolding strtok_from
  length-strtok_from [] = (omega arith, λ t h. cc)
  length-strtok_from (c ∷ s) = (omega (arith, length-cut_cons c s), λ t h. length-cut_cons c s)

  -- A call of `strtok` leaves over no more than it was given, and less if it finds a token.
  pub length-strtok : (s : Text) → length (strtok delims s).1 ≤ length s
  unfolding strtok
  length-strtok s = omega (arith, (length-strtok_from (skip delims s)).0, length-skip s)

  pub length-strtok_token :
      (s t : Text) → (strtok delims s).0 ≡ some t → length (strtok delims s).1 < length s
  unfolding strtok
  length-strtok_token s t h =
      omega (arith, (length-strtok_from (skip delims s)).1 t h, length-skip s)
