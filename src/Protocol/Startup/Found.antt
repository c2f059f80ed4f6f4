-- ===== src/Protocol/Startup/Found.antt =====
-- The pairs that the store finds, as the first loop adds and changes them.
use file_sync_system.Common.{
  ℕ, suc, ◌≡◌, ◌∙◌, refl, ap, some, List, Bool-cases, inl, inr, length, ◌%◌,
}
use file_sync_system.Common.Text.{Text, str_eq}
use file_sync_system.Lnode.{DirInfo}
use file_sync_system.MemStore as Store
use file_sync_system.MemStore.{MemStore, Slot}
use file_sync_system.MemStore.Invariant.{IsValid}
use file_sync_system.MemStore.Lookup.{HasRoom, find-add_known, find-add_self}
use file_sync_system.MemStore.Write.{Written}

-- The store finds a pair under this name.
abbrev pub Found : MemStore → Text → Type 0
Found mem name = (d : DirInfo) × (Store.find mem name ≡ Store.ok (some d))

module _ (fresh : ℕ → ℕ → List Slot) (depth : ℕ) (mem mem' : MemStore) (valid : IsValid mem)
    (room : HasRoom mem) (v : DirInfo)
    (added : Store.add fresh (suc depth) mem v ≡ Store.ok mem') where
  pub add-Found : (name : Text) → Found mem name → Found mem' name
  add-Found name (d, known) =
      let (d', e) = find-add_known fresh depth mem valid room v name d known in (d', rw added at e)

  pub add-Found_self : length v.source_dir ≡ length v.target_dir → Found mem' v.source_dir
  add-Found_self same =
      let (d, e) = find-add_self fresh depth mem valid room v (ap (λ n. n % mem.capacity) same) in
      (d, rw added at e)

pub write-Found :
    (change : DirInfo → DirInfo) (keeps : (v : DirInfo) → (change v).source_dir ≡ v.source_dir)
    (source_dir : Text) (mem : MemStore) (d : DirInfo) (w : Written change keeps source_dir mem d)
    (name : Text)
    → Found mem name
    → Found w.after name
write-Found change keeps source_dir mem d w name (o, known) =
    elim (Bool-cases (str_eq source_dir name)) [
      | inl same ↦ (change d, w.lookup name ∙ rw same refl)
      | inr other ↦ (o, w.lookup name ∙ rw other known)
    ]
