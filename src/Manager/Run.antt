-- ===== src/Manager/Run.antt =====
-- How a part of `main` of src/fss_manager.c ends, and accesses to its arrays.
use file_sync_system.Common.{
  ℕ, ◌≡◌, refl, ap, subst, Option, none, some, List, length, get_elem?, set, ltb, if◌then◌else◌,
}
use file_sync_system.ListNode as L
use file_sync_system.Manager.Report as P
use file_sync_system.MemStore as S

-- `exited` is `exit(-1)`, `aborted` a failed `assert`, `fault` an access through NULL or out of
-- bounds.
pub data Run {ℓ} (A : Type ℓ) : Type ℓ where
  ok : A → Run A
  exited : Run A
  aborted : Run A
  fault : Run A
  out_of_fuel : Run A

module _ {ℓ κ} {A : Type ℓ} {B : Type κ} where
  infixl 5 ◌>>=◌
  abbrev pub ◌>>=◌ : (first : Run A) (rest : A → Run B) → Run B
  exited >>= rest = exited
  aborted >>= rest = aborted
  fault >>= rest = fault
  out_of_fuel >>= rest = out_of_fuel
  ok a >>= rest = rest a

  -- Both parts of a run that gives a value give one.
  pub >>=-eq-ok :
      (first : Run A) (rest : A → Run B) {value : B}
      → (first >>= rest) ≡ ok value
      → (a : A) × (first ≡ ok a) × (rest a ≡ ok value)
  >>=-eq-ok exited rest e = cc
  >>=-eq-ok aborted rest e = cc
  >>=-eq-ok fault rest e = cc
  >>=-eq-ok out_of_fuel rest e = cc
  >>=-eq-ok (ok a) rest e = (a, refl, e)

pub ok_injective {ℓ} : {A : Type ℓ} {a b : A} → ok a ≡ ok b → a ≡ b
ok_injective {A} {a} e = ap (λ (r : Run A). elim r [ ok x ↦ x | _ ↦ a ]) e

module _ {ℓ} {A : Type ℓ} where
  -- The run does not run out of fuel, and a value that it gives has the property.
  unfoldable pub Ends : (A → Type 0) → Run A → Type 0
  Ends P (ok a) = P a
  Ends P exited = Unit
  Ends P aborted = Unit
  Ends P fault = Unit
  Ends P out_of_fuel = ⊥

  pub Ends-ok : (P : A → Type 0) (r : Run A) (a : A) → Ends P r → r ≡ ok a → P a
  unfolding Ends
  Ends-ok P (ok b) a h e = subst P (ok_injective e) h
  Ends-ok P exited a h e = cc
  Ends-ok P aborted a h e = cc
  Ends-ok P fault a h e = cc
  Ends-ok P out_of_fuel a h e = cc

pub bind-Ends {ℓ κ} :
    {A : Type ℓ} {B : Type κ} (P : A → Type 0) (Q : B → Type 0) (r : Run A) (f : A → Run B)
    → Ends P r
    → ((a : A) → P a → Ends Q (f a))
    → Ends Q (r >>= f)
unfolding Ends
bind-Ends P Q (ok a) f h k = k a h
bind-Ends P Q exited f h k = tt
bind-Ends P Q aborted f h k = tt
bind-Ends P Q fault f h k = tt
bind-Ends P Q out_of_fuel f h k = elim h [ ]

module _ {ℓ} {A : Type ℓ} where
  abbrev pub of_store : S.Run A → Run A
  of_store (S.ok a) = ok a
  of_store S.fault = fault
  of_store S.out_of_fuel = out_of_fuel

  abbrev pub of_table : L.Run A → Run A
  of_table (L.ok a) = ok a
  of_table L.fault = fault

  abbrev pub of_report : P.Parse A → Run A
  of_report (P.done a) = ok a
  of_report P.null_deref = fault
  of_report P.out_of_fuel = out_of_fuel

  -- A pointer that is used.
  abbrev pub not_null : Option A → Run A
  not_null none = fault
  not_null (some a) = ok a

  -- A system call whose failure ends the program.
  abbrev pub or_exit : Option A → Run A
  or_exit none = exited
  or_exit (some a) = ok a

  unfoldable pub read_at : List A → ℕ → Run A
  read_at xs i = not_null (get_elem? xs i)

  unfoldable pub write_at : List A → ℕ → A → Run (List A)
  write_at xs i x = if ltb i (length xs) then ok (set xs i x) else fault
