-- ===== src/MemStore/Lookup.antt =====
-- What `find` gives back after `add`: the value is stored in the slot of its target's name, and is
-- looked up in the slot of its source's name.
use file_sync_system.Common.{
  Bool-cases, inl, inr, ◌∙◌, ap, Option, ℕ, suc, ◌+◌, ◌*◌, ◌%◌, ◌≤◌, ◌<◌, ◌≡◌, refl, true, false,
  some, none, List, [], ◌∷◌, ◌==◌, if◌then◌else◌, arith, length, get_elem?-set_self,
  get_elem?-set_ne,
}
use file_sync_system.Common.Text.{Text, str_eq, str_eq_refl}
use file_sync_system.Lnode.{DirInfo, Chain, lnode_create, lnode_add_next, lnode_find}
use file_sync_system.MemStore.{
  Slot, chain, MemStore, ok, ◌>>=◌, pos, read_slot, find, link, overloaded, add,
}
use file_sync_system.MemStore.Invariant.{
  IsValid, inserted, insert-ok, inserted-IsValid, slot, read_slot-ok, hash_code-length, pos-lt,
}

-- A chain with the value linked in: the value is found under its own name, if no earlier one is.
lnode_find-link_absent :
    (c : Chain) (v : DirInfo)
    → lnode_find c v.source_dir ≡ none
    → lnode_find (link c v) v.source_dir ≡ some v
unfolding link lnode_create lnode_add_next lnode_find
lnode_find-link_absent [] v h = ground (arith, str_eq_refl v.source_dir)
lnode_find-link_absent (d ∷ c) v h = ground (arith, str_eq_refl v.source_dir)

lnode_find-link_ne :
    (c : Chain) (v : DirInfo) (name : Text)
    → str_eq v.source_dir name ≡ false
    → lnode_find (link c v) name ≡ lnode_find c name
unfolding link lnode_create lnode_add_next lnode_find
lnode_find-link_ne [] v name h = ground arith
lnode_find-link_ne (d ∷ c) v name h = ground arith

lnode_find-link_known :
    (c : Chain) (v : DirInfo) (name : Text) (d : DirInfo)
    → lnode_find c name ≡ some d
    → (d' : DirInfo) × (lnode_find (link c v) name ≡ some d')
unfolding link lnode_create lnode_add_next lnode_find
lnode_find-link_known [] v name d h = cc
lnode_find-link_known (e ∷ c) v name d h = elim (Bool-cases (str_eq e.source_dir name)) [
  | inl first ↦ (e, rw first refl)
  | inr differ ↦ elim (Bool-cases (str_eq v.source_dir name)) [
    | inl new ↦ (v, rw (differ, new) refl)
    | inr old ↦ (d, rw (differ, old) (rw differ at h))
  ]
]

-- A store that takes one more value without a rehash.
abbrev pub HasRoom : MemStore → Type 0
HasRoom mem = (mem.size + 1) * 10 ≤ mem.capacity * 9

module _ (fresh : ℕ → ℕ → List Slot) (depth : ℕ) (mem : MemStore) (valid : IsValid mem)
    (room : HasRoom mem) (v : DirInfo) where
  old_chain : Chain
  old_chain = (slot mem valid v.target_dir).0

  add-inserted : add fresh (suc depth) mem v ≡ ok (inserted mem v old_chain)
  unfolding add overloaded inserted old_chain
  add-inserted = rw (insert-ok mem valid v) (ground arith)

  -- The store stays valid, with one value more.
  pub add-IsValid :
      (mem' : MemStore) × (add fresh (suc depth) mem v ≡ ok mem')
      × IsValid mem'
      × (mem'.size ≡ mem.size + 1)
      × (mem'.capacity ≡ mem.capacity)
  unfolding inserted old_chain
  add-IsValid = (inserted mem v old_chain, add-inserted, inserted-IsValid mem valid v, refl, refl)

  read_slot-inserted :
      (i : ℕ)
      → i < mem.capacity
      → read_slot (inserted mem v old_chain) i
        ≡ (if i == pos mem v.target_dir then ok (link old_chain v) else read_slot mem i)
  unfolding inserted read_slot
  read_slot-inserted i h = ground (
    arith,
    valid.width,
    get_elem?-set_self mem.hash_table i (chain (link old_chain v)),
    get_elem?-set_ne mem.hash_table {i = pos mem v.target_dir} {j = i} (chain (link old_chain v)),
  )

  same_pos :
      (a b : Text) → (pos mem a == pos mem b) ≡ (length a % mem.capacity == length b % mem.capacity)
  unfolding pos
  same_pos a b = rw (hash_code-length a, hash_code-length b)

  find-inserted :
      (name : Text)
      → find (inserted mem v old_chain) name ≡ (
          if pos mem name == pos mem v.target_dir
          then ok (lnode_find (link old_chain v) name)
          else find mem name)
  unfolding find pos inserted
  find-inserted name =
      ground (arith, read_slot-inserted (pos mem name) (pos-lt mem name valid.positive))

  find-old :
      (name : Text)
      → (pos mem name == pos mem v.target_dir) ≡ true
      → find mem name ≡ ok (lnode_find old_chain name)
  unfolding find old_chain
  find-old name same =
      ground
        (arith, read_slot-ok mem (pos mem v.target_dir) old_chain (slot mem valid v.target_dir).1)

  -- A new source is found again exactly if the lengths of the two names agree modulo the capacity.
  pub find-add :
      find mem v.source_dir ≡ ok none
      → (add fresh (suc depth) mem v >>= λ mem'. find mem' v.source_dir)
        ≡ ok (
            if length v.source_dir % mem.capacity == length v.target_dir % mem.capacity
            then some v
            else none)
  find-add new = rw add-inserted (
      ground (
        arith,
        find-inserted v.source_dir,
        find-old v.source_dir,
        same_pos v.source_dir v.target_dir,
        lnode_find-link_absent old_chain v,
      ))

  -- What is found under any other name does not change.
  pub find-add_ne :
      (name : Text)
      → str_eq v.source_dir name ≡ false
      → (add fresh (suc depth) mem v >>= λ mem'. find mem' name) ≡ find mem name
  find-add_ne name other =
      rw add-inserted
        (ground (arith, find-inserted name, find-old name, lnode_find-link_ne old_chain v name))

  -- What has been found under a name is found, or something newer is.
  pub find-add_known :
      (name : Text) (d : DirInfo)
      → find mem name ≡ ok (some d)
      → (d' : DirInfo) × ((add fresh (suc depth) mem v >>= λ mem'. find mem' name) ≡ ok (some d'))
  find-add_known name d known = elim (Bool-cases (pos mem name == pos mem v.target_dir)) [
    | inl same ↦
        let here : lnode_find old_chain name ≡ some d = ground (arith, find-old name same, known) in
        let (d', e) = lnode_find-link_known old_chain v name d here in
        (d', rw add-inserted (find-inserted name ∙ rw same (ap (λ o. ok o) e)))
    | inr apart ↦ (d, rw add-inserted (find-inserted name ∙ rw apart known))
  ]

  find-ends : (name : Text) → (o : Option DirInfo) × (find mem name ≡ ok o)
  unfolding find
  find-ends name =
      let (c, e) = slot mem valid name in
      (lnode_find c name, rw (read_slot-ok mem (pos mem name) c e) refl)

  -- A value whose two names have lengths that agree modulo the capacity is found.
  pub find-add_self :
      (length v.source_dir % mem.capacity) ≡ (length v.target_dir % mem.capacity)
      → (d : DirInfo) × ((add fresh (suc depth) mem v >>= λ mem'. find mem' v.source_dir)
          ≡ ok (some d))
  find-add_self same = let (o, e) = find-ends v.source_dir in go o e
    where
      equal : (length v.source_dir % mem.capacity == length v.target_dir % mem.capacity) ≡ true
      equal = ground (arith, same)

      go :
          (o : Option DirInfo)
          → find mem v.source_dir ≡ ok o
          → (d : DirInfo) × ((add fresh (suc depth) mem v >>= λ mem'. find mem' v.source_dir)
              ≡ ok (some d))
      go none absent = (v, find-add absent ∙ rw equal refl)
      go (some d) known = find-add_known v.source_dir d known
