-- ===== src/Manager/Workers/Arrays.antt =====
-- Accesses to the arrays of the table that are in bounds.
use file_sync_system.Common.{
  ℕ, zero, suc, ◌≤◌, ◌<◌, ◌≡◌, ◌∙◌, refl, sym, ap, subst, some, ltb, Option-cases, List, [], ◌∷◌,
  arith, length, get_elem?, set, length-set, ◌==◌, if◌then◌else◌, Bool-cases, inl, inr, lt→ltb,
  get_elem?-lt, get_elem?-set_self, get_elem?-set_ne,
}
use file_sync_system.Manager.Run.{ok, not_null, Ends, read_at, write_at}
use file_sync_system.Manager.Workers.{swap_last}

module _ {ℓ} {A : Type ℓ} (xs : List A) (i : ℕ) where
  pub read_at-ok : (x : A) → get_elem? xs i ≡ some x → read_at xs i ≡ ok x
  unfolding read_at
  read_at-ok x e = ap not_null e

  pub write_at-ok : (x : A) → i < length xs → write_at xs i x ≡ ok (set xs i x)
  unfolding write_at
  write_at-ok x h = rw (lt→ltb i (length xs) h) refl

  pub write_at-Ends : (x : A) → Ends (λ ys. length ys ≡ length xs) (write_at xs i x)
  unfolding write_at Ends
  write_at-Ends x = elim (Bool-cases (ltb i (length xs))) [
    | inl inside ↦ rw inside (length-set xs i x)
    | inr outside ↦ rw outside tt
  ]

  pub get_elem?-set :
      (x : A) (j : ℕ)
      → i < length xs
      → get_elem? (set xs i x) j ≡ (if i == j then some x else get_elem? xs j)
  get_elem?-set x j h = elim (Bool-cases (i == j)) [
    | inl same ↦
        let e : i ≡ j = ground arith in rw (← e) (get_elem?-set_self xs i x h ∙ ground arith)
    | inr differ ↦ rw differ (get_elem?-set_ne xs x (λ e. ground arith))
  ]

module _ {A : Type 0} (xs : List A) (i : ℕ) where
  pub read_at-Ends : Ends (λ x. get_elem? xs i ≡ some x) (read_at xs i)
  unfolding read_at Ends
  read_at-Ends = elim (Option-cases (get_elem? xs i)) [
    | inl missing ↦ subst (Ends _) (sym (ap not_null missing)) tt
    | inr (x, e) ↦ subst (Ends _) (sym (read_at-ok xs i x e)) e
  ]

  -- The place `i` takes the last entry, and every other place before the last keeps its own.
  pub record Swapped (last : ℕ) : Type 0 where
    pub after : List A
    pub ends : swap_last xs i last ≡ ok after
    pub width : length after ≡ length xs
    pub entries : (j : ℕ) → j < last → get_elem? after j ≡ get_elem? xs (if j == i then last else j)

  module _ (last : ℕ) (temp x : A) where
    ends_at :
        get_elem? xs i ≡ some temp
        → get_elem? xs last ≡ some x
        → i < length xs
        → last < length xs
        → swap_last xs i last ≡ ok (set (set xs i x) last temp)
    unfolding swap_last
    ends_at e e' h k =
        let wide : last < length (set xs i x) = omega (arith, length-set xs i x) in
        rw
          (
            read_at-ok xs i temp e,
            read_at-ok xs last x e',
            write_at-ok xs i x h,
            write_at-ok (set xs i x) last temp wide,
          )
          refl

    entry_at :
        (j : ℕ)
        → get_elem? xs last ≡ some x
        → j < last
        → i < length xs
        → last < length xs
        → get_elem? (set (set xs i x) last temp) j ≡ get_elem? xs (if j == i then last else j)
    entry_at j e' lt h k =
        get_elem?-set_ne (set xs i x) temp (λ (q : last ≡ j). omega arith)
        ∙ ground (arith, get_elem?-set xs i x j h)

  pub swap_last-Swapped : (last : ℕ) → i ≤ last → last < length xs → Swapped last
  unfolding swap_last
  swap_last-Swapped last h k =
      let (temp, e) = get_elem?-lt xs i (omega arith) in
      let (x, e') = get_elem?-lt xs last k in
      record {
        after = set (set xs i x) last temp;
        ends = ends_at last temp x e e' (omega arith) k;
        width = length-set (set xs i x) last temp ∙ length-set xs i x;
        entries = λ j lt. entry_at last temp x j e' lt (omega arith) k;
      }

-- A write of a small number keeps the entries small.
pub below-set :
    (n : ℕ) (xs : List ℕ) (i v : ℕ)
    → ((j p : ℕ) → get_elem? xs j ≡ some p → p < n)
    → v < n
    → (j p : ℕ) → get_elem? (set xs i v) j ≡ some p
    → p < n
below-set n [] i v h k j p e = h j p e
below-set n (x ∷ xs) zero v h k zero p e = ground arith
below-set n (x ∷ xs) zero v h k (suc j) p e = h (suc j) p e
below-set n (x ∷ xs) (suc i) v h k zero p e = h zero p e
below-set n (x ∷ xs) (suc i) v h k (suc j) p e = below-set n xs i v (λ l q. h (suc l) q) k j p e
