-- ===== src/MemStore/Invariant.antt =====
-- The store's invariant, and what an insertion does to it.
use native.Mathlib.Nat.{mod-lt}
use file_sync_system.Common.{
  ℕ, zero, suc, ◌+◌, ◌<◌, ◌≡◌, ◌∙◌, refl, some, List, [], ◌∷◌, Bool-cases, inl, inr, ◌==◌, arith,
  length, get_elem?, set, replicate, length-set, length-replicate, get_elem?-set_self,
  get_elem?-set_ne, get_elem?-replicate,
}
use file_sync_system.Common.Text.{Text}
use file_sync_system.Lnode.{DirInfo, Chain}
use file_sync_system.MemStore.{
  Slot, chain, indeterminate, MemStore, Run, ok, fault, out_of_fuel, ◌>>=◌, hash_loop, hash_code,
  create, pos, read_slot, link, insert, initial_size,
}

hash_loop-length : (value : Text) (hash i : ℕ) → (hash_loop value hash i).1 ≡ i + length value
unfolding hash_loop
hash_loop-length [] hash i = omega arith
hash_loop-length (c ∷ value) hash i = hash_loop-length value _ (i + 1) ∙ omega arith

-- The hash code of a text is its length.
pub hash_code-length : (value : Text) → hash_code value ≡ length value
unfolding hash_code
hash_code-length value = hash_loop-length value 5381 0 ∙ omega arith

-- The number of the values in the chains.
unfoldable pub entries : List Slot → ℕ
entries [] = 0
entries (chain c ∷ slots) = length c + entries slots
entries (indeterminate ∷ slots) = entries slots

abbrev pub HasChain : List Slot → ℕ → Type 0
HasChain slots i = (c : Chain) × (get_elem? slots i ≡ some (chain c))

-- Every slot is initialised, and the size counts the values.
pub record IsValid (mem : MemStore) : Type 0 where
  pub positive : 0 < mem.capacity
  pub width : length mem.hash_table ≡ mem.capacity
  pub initialised : (i : ℕ) → i < mem.capacity → HasChain mem.hash_table i
  pub counted : entries mem.hash_table ≡ mem.size

pub pos-lt : (mem : MemStore) (name : Text) → 0 < mem.capacity → pos mem name < mem.capacity
unfolding pos
pos-lt mem name h = mod-lt (hash_code name) h

pub entries-replicate : (n : ℕ) → entries (replicate n (chain [])) ≡ 0
unfolding entries
entries-replicate zero = refl
entries-replicate (suc n) = omega (arith, entries-replicate n)

-- A new store is valid and empty.
pub create-IsValid : IsValid create
unfolding create
create-IsValid = record {
  positive = omega arith;
  width = length-replicate initial_size (chain []);
  initialised = λ i h. ([], get_elem?-replicate initial_size i (chain []) h);
  counted = entries-replicate initial_size;
}

pub entries-set :
    (slots : List Slot) (i : ℕ) (c c' : Chain)
    → get_elem? slots i ≡ some (chain c)
    → entries (set slots i (chain c')) + length c ≡ entries slots + length c'
unfolding entries
entries-set [] i c c' h = cc
entries-set (chain d ∷ slots) zero c c' h = ground arith
entries-set (indeterminate ∷ slots) zero c c' h = cc
entries-set (chain d ∷ slots) (suc i) c c' h = omega (arith, entries-set slots i c c' h)
entries-set (indeterminate ∷ slots) (suc i) c c' h = omega (arith, entries-set slots i c c' h)

pub length-link : (c : Chain) (v : DirInfo) → length (link c v) ≡ suc (length c)
unfolding link
length-link [] v = refl
length-link (d ∷ c) v = refl

-- The store with the value linked in behind the slot's first node.
unfoldable pub inserted : MemStore → DirInfo → Chain → MemStore
inserted mem v c = record mem {
  hash_table = set mem.hash_table (pos mem v.target_dir) (chain (link c v));
  size = mem.size + 1;
}

-- Inversion of a chain of steps that succeeds.
pub >>=-ok {ℓ κ} :
    {A : Type ℓ} {B : Type κ} (r : Run A) (f : A → Run B) {b : B}
    → r >>= f ≡ ok b
    → (a : A) × (r ≡ ok a) × (f a ≡ ok b)
>>=-ok (ok a) f h = (a, refl, h)
>>=-ok fault f h = cc
>>=-ok out_of_fuel f h = cc

module _ (mem : MemStore) where
  pub read_slot-ok :
      (i : ℕ) (c : Chain) → get_elem? mem.hash_table i ≡ some (chain c) → read_slot mem i ≡ ok c
  unfolding read_slot
  read_slot-ok i c h = ground arith

  pub get_elem?-read_slot :
      (i : ℕ) (c : Chain) → read_slot mem i ≡ ok c → get_elem? mem.hash_table i ≡ some (chain c)
  unfolding read_slot
  get_elem?-read_slot i c h = ground arith

  -- An insertion that succeeds adds one value, and keeps the capacity.
  pub insert-counts :
      (v : DirInfo) (mem' : MemStore)
      → insert mem v ≡ ok mem'
      → (mem'.size ≡ mem.size + 1)
        × (mem'.capacity ≡ mem.capacity)
        × (entries mem'.hash_table ≡ entries mem.hash_table + 1)
  unfolding insert
  insert-counts v mem' h =
      let (c, e, q) = >>=-ok (read_slot mem (pos mem v.target_dir)) _ h in
      let at = get_elem?-read_slot _ c e in
      ground (
        arith,
        q,
        entries-set mem.hash_table (pos mem v.target_dir) c (link c v) at,
        length-link c v,
      )

  module _ (valid : IsValid mem) where
    pub slot : (name : Text) → HasChain mem.hash_table (pos mem name)
    slot name = valid.initialised (pos mem name) (pos-lt mem name valid.positive)

    pub insert-ok : (v : DirInfo) → insert mem v ≡ ok (inserted mem v (slot v.target_dir).0)
    unfolding insert inserted
    insert-ok v = rw (read_slot-ok _ _ (slot v.target_dir).1)

    pub HasChain-set :
        (i j : ℕ) (c : Chain) → i < mem.capacity → HasChain (set mem.hash_table j (chain c)) i
    HasChain-set i j c h = elim (Bool-cases (j == i)) [
      | inl same ↦ (c, ground (arith, get_elem?-set_self mem.hash_table j (chain c), valid.width))
      | inr differ ↦
          let (d, e) = valid.initialised i h in
          (d, get_elem?-set_ne mem.hash_table (chain c) (ground arith) ∙ e)
    ]

    pub inserted-IsValid : (v : DirInfo) → IsValid (inserted mem v (slot v.target_dir).0)
    unfolding inserted
    inserted-IsValid v =
        let i = pos mem v.target_dir in
        let (c, e) = slot v.target_dir in
        record {
          positive = valid.positive;
          width = length-set mem.hash_table i (chain (link c v)) ∙ valid.width;
          initialised = λ j h. HasChain-set j i (link c v) h;
          counted =
              omega (
                arith,
                entries-set mem.hash_table i c (link c v) e,
                length-link c v,
                valid.counted,
              );
        }
