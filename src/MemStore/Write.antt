-- ===== src/MemStore/Write.antt =====
-- A write through the pointer that `find` has returned.
use file_sync_system.Common.{
  ℕ, suc, length, length-set, ◌≡◌, ◌∙◌, refl, sym, ap, true, false, none, some, [], ◌∷◌, arith,
  if◌then◌else◌, Bool-cases, inl, inr, ◌==◌, get_elem?, set, get_elem?-set_self, get_elem?-set_ne,
  lt-get_elem?,
}
use file_sync_system.Common.Text.{Text, str_eq, eq_of_str_eq}
use file_sync_system.Lnode.{DirInfo, Chain, lnode_find, lnode_write}
use file_sync_system.MemStore.Invariant.{
  IsValid, HasChain-set, entries-set, >>=-ok, get_elem?-read_slot,
}
use file_sync_system.MemStore.{
  chain, indeterminate, MemStore, Run, ok, fault, out_of_fuel, ◌>>=◌, pos, read_slot, find, write,
}

module _ (change : DirInfo → DirInfo) (keeps : (v : DirInfo) → (change v).source_dir ≡ v.source_dir)
    (name : Text) where
  lnode_find-write :
      (c : Chain) (d : DirInfo)
      → lnode_find c name ≡ some d
      → lnode_find (lnode_write change c name) name ≡ some (change d)
  unfolding lnode_find lnode_write
  lnode_find-write [] d h = cc
  lnode_find-write (v ∷ c) d h = elim (Bool-cases (str_eq v.source_dir name)) [
    | inl same ↦
        let e : v ≡ d = ground (arith, rw same at h) in
        let same' : str_eq (change v).source_dir name ≡ true =
          ap (λ n. str_eq n name) (keeps v) ∙ same in
        rw (same, same') (ap (λ k. some (change k)) e)
    | inr differ ↦ rw (differ, differ) (lnode_find-write c d (rw differ at h))
  ]

  lnode_find-write_ne :
      (c : Chain) (other : Text)
      → str_eq name other ≡ false
      → lnode_find (lnode_write change c name) other ≡ lnode_find c other
  unfolding lnode_find lnode_write
  lnode_find-write_ne [] other h = refl
  lnode_find-write_ne (v ∷ c) other h = elim (Bool-cases (str_eq v.source_dir name)) [
    | inl same ↦
        let e = eq_of_str_eq v.source_dir name same in
        let no : str_eq v.source_dir other ≡ false = ap (λ n. str_eq n other) e ∙ h in
        let no' : str_eq (change v).source_dir other ≡ false =
          ap (λ n. str_eq n other) (keeps v) ∙ no in
        rw same (rw (no, no') refl)
    | inr differ ↦ rw (differ, lnode_find-write_ne c other h) refl
  ]

  read_slot-some :
      (mem : MemStore) (i : ℕ) (c : Chain)
      → read_slot mem i ≡ ok c
      → get_elem? mem.hash_table i ≡ some (chain c)
  unfolding read_slot
  read_slot-some mem i c h = ground arith

  -- The store after the write.
  pub record Written (mem : MemStore) (d : DirInfo) : Type 0 where
    pub after : MemStore
    pub ends : write change mem name ≡ ok after
    pub found : find after name ≡ ok (some (change d))
    pub lookup :
        (other : Text)
        → find after other ≡ (if str_eq name other then ok (some (change d)) else find mem other)

  read_slot-of :
      (mem : MemStore) (i : ℕ) (c : Chain)
      → get_elem? mem.hash_table i ≡ some (chain c)
      → read_slot mem i ≡ ok c
  unfolding read_slot
  read_slot-of mem i c e = rw (e, read_slot) refl

  in_chain :
      (r : Run Chain) (d : DirInfo)
      → r >>= (λ c. ok (lnode_find c name)) ≡ ok (some d)
      → (c : Chain) × (r ≡ ok c) × (lnode_find c name ≡ some d)
  in_chain (ok c) d h = (c, refl, ground arith)
  in_chain fault d h = cc
  in_chain out_of_fuel d h = cc

  module _ (mem : MemStore) (d : DirInfo) (c : Chain) (read : read_slot mem (pos mem name) ≡ ok c)
      (here : lnode_find c name ≡ some d) where
    after_write : MemStore
    after_write = record mem {
      hash_table = set mem.hash_table (pos mem name) (chain (lnode_write change c name));
    }

    read_written : read_slot after_write (pos mem name) ≡ ok (lnode_write change c name)
    unfolding after_write
    read_written = read_slot-of after_write (pos mem name) (lnode_write change c name) (
        get_elem?-set_self mem.hash_table (pos mem name) (chain (lnode_write change c name)) (
          lt-get_elem? mem.hash_table (pos mem name) (chain c)
            (read_slot-some mem (pos mem name) c read)))

    found_written : find after_write name ≡ ok (some (change d))
    unfolding find pos after_write
    found_written =
        ap (λ r. r >>= λ k. ok (lnode_find k name)) read_written
        ∙ ap (λ o. ok o) (lnode_find-write c d here)

    others_written :
        (other : Text) → str_eq name other ≡ false → find after_write other ≡ find mem other
    unfolding find pos after_write read_slot
    others_written other h = elim (Bool-cases (pos mem other == pos mem name)) [
      | inl same ↦
          let e : pos mem other ≡ pos mem name = ground arith in
          ap (λ i. read_slot after_write i >>= λ k. ok (lnode_find k other)) e
          ∙ ap (λ r. r >>= λ k. ok (lnode_find k other)) read_written
          ∙ ap (λ o. ok o) (lnode_find-write_ne c other h)
          ∙ sym (ap (λ r. r >>= λ k. ok (lnode_find k other)) read)
          ∙ sym (ap (λ i. read_slot mem i >>= λ k. ok (lnode_find k other)) e)
      | inr differ ↦
          ap
            (λ o.
              elim o as (λ _. Run Chain) [
                | none ↦ fault
                | some slot ↦ elim slot [ chain k ↦ ok k | indeterminate ↦ fault ]
              ]
              >>= λ k. ok (lnode_find k other))
            (get_elem?-set_ne mem.hash_table (chain (lnode_write change c name))
              (λ e. ground arith))
    ]

    lookup_written :
        (other : Text)
        → find after_write other
          ≡ (if str_eq name other then ok (some (change d)) else find mem other)
    lookup_written other = elim (Bool-cases (str_eq name other)) [
      | inl same ↦
          rw same
            (ap (λ n. find after_write n) (sym (eq_of_str_eq name other same)) ∙ found_written)
      | inr differ ↦ rw differ (others_written other differ)
    ]

    write_ends : write change mem name ≡ ok after_write
    unfolding write after_write
    write_ends =
        ap
          (λ r. r >>= λ k. ok (record mem {
            hash_table = set mem.hash_table (pos mem name) (chain (lnode_write change k name));
          }))
          read

  -- A write to a pair that is in the store changes what is found under its name, and nothing that is
  -- found under another. The write keeps the name of the pair.
  pub write-Written : (mem : MemStore) (d : DirInfo) → find mem name ≡ ok (some d) → Written mem d
  unfolding find
  write-Written mem d e =
      let (c, read, here) = in_chain (read_slot mem (pos mem name)) d e in
      record {
        after = after_write mem d c read here;
        ends = write_ends mem d c read here;
        found = found_written mem d c read here;
        lookup = lookup_written mem d c read here;
      }

length-lnode_write :
    (change : DirInfo → DirInfo) (c : Chain) (name : Text)
    → length (lnode_write change c name) ≡ length c
unfolding lnode_write
length-lnode_write change [] name = refl
length-lnode_write change (v ∷ c) name = elim (Bool-cases (str_eq v.source_dir name)) [
  | inl same ↦ rw same refl
  | inr differ ↦ rw differ (ap suc (length-lnode_write change c name))
]

-- A write keeps a store valid, its size and its capacity.
pub write-IsValid :
    (change : DirInfo → DirInfo) (mem mem' : MemStore) (name : Text)
    → IsValid mem
    → write change mem name ≡ ok mem'
    → IsValid mem' × (mem'.size ≡ mem.size) × (mem'.capacity ≡ mem.capacity)
unfolding write
write-IsValid change mem mem' name valid e =
    let (c, read, e') = >>=-ok (read_slot mem (pos mem name)) _ e in
    let at = get_elem?-read_slot mem _ c read in
    let c' = lnode_write change c name in
    let same : record mem { hash_table = set mem.hash_table (pos mem name) (chain c') } ≡ mem' =
      ground (arith, e') in
    rw (← same) (
      record {
        positive = valid.positive;
        width = length-set mem.hash_table (pos mem name) (chain c') ∙ valid.width;
        initialised = λ i h. HasChain-set mem valid i (pos mem name) c' h;
        counted = omega (
          arith,
          entries-set mem.hash_table (pos mem name) c c' at,
          length-lnode_write change c name,
          valid.counted,
        );
      },
      refl,
      refl,
    )
