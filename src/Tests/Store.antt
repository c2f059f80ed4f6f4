-- ===== src/Tests/Store.antt =====
-- The store of the pairs of directories (src/sync_info_mem_store.c), tried out.
use file_sync_system.Common.{
  ℕ, zero, suc, ◌+◌, ◌%◌, ◌<◌, ◌≡◌, ◌≢◌, refl, true, false, some, none, List, [], ◌∷◌, arith,
  length, replicate, ◌==◌, if◌then◌else◌, length-replicate, get_elem?-replicate,
}
use file_sync_system.Common.Text.{Text, codes, str_eq}
use file_sync_system.Lnode.{DirInfo, lnode_find, lnode_remove}
use file_sync_system.MemStore.{
  Slot, chain, MemStore, ok, ◌>>=◌, hash_code, create, find, add, remove, initial_size, insert,
  read_slot, pos, link, overloaded,
}
use file_sync_system.MemStore.Growth.{add-diverges}
use file_sync_system.MemStore.Invariant.{
  IsValid, HasChain, entries, entries-replicate, create-IsValid,
}
use file_sync_system.MemStore.Lookup.{HasRoom, add-IsValid, find-add}

abbrev zeroed : ℕ → ℕ → List Slot
zeroed depth n = replicate n (chain [])

abbrev pair : Text → Text → DirInfo
pair source target = record {
  source_dir = source;
  target_dir = target;
  status = [];
  last_sync_time = [];
  active_error_count = 0;
  is_active = true;
  is_in_workers = false;
}

abbrev docs : DirInfo
docs = pair (codes "docs") (codes "copy")

abbrev photos : DirInfo
photos = pair (codes "photos") (codes "p")

steps : Unit {0}
unfolding hash_code create find add remove insert read_slot pos link overloaded lnode_find
    lnode_remove str_eq
steps = tt

-- Names of one length: the pair is found.
docs_found : add zeroed 1 create docs >>= (λ m. find m (codes "docs")) ≡ ok (some docs)
unfolding steps
docs_found = refl

-- Names of other lengths: it is lost.
photos_lost : add zeroed 1 create photos >>= (λ m. find m (codes "photos")) ≡ ok none
unfolding steps
photos_lost = refl

-- The two names of the pair are in one slot, and `remove` with the text at another address keeps it.
docs_stay :
    (add zeroed 1 create docs >>= λ m.
    remove m (codes "docs") none >>= λ m'. find m' (codes "docs"))
    ≡ ok (some docs)
unfolding steps
docs_stay = refl

room : HasRoom create
unfolding create
room = omega arith

add-IsValid_example :
    (mem' : MemStore) × (add zeroed 1 create docs ≡ ok mem')
    × IsValid mem'
    × (mem'.size ≡ create.size + 1)
    × (mem'.capacity ≡ create.capacity)
add-IsValid_example = add-IsValid zeroed 0 create create-IsValid room docs

find-add_example :
    (add zeroed 1 create photos >>= λ mem'. find mem' photos.source_dir)
    ≡ ok (
        if length photos.source_dir % create.capacity == length photos.target_dir % create.capacity
        then some photos
        else none)
find-add_example = find-add zeroed 0 create create-IsValid room photos (unfold steps in refl)

-- A store with 173 values, all in its first slot.
crowded : MemStore
crowded = record {
  hash_table = chain (replicate 173 docs) ∷ replicate 192 (chain []);
  size = 173;
  capacity = initial_size;
}

crowded-HasChain : (i : ℕ) → i < crowded.capacity → HasChain crowded.hash_table i
unfolding crowded
crowded-HasChain zero h = (replicate 173 docs, refl)
crowded-HasChain (suc i) h = ([], get_elem?-replicate 192 i (chain []) (omega arith))

crowded-IsValid : IsValid crowded
unfolding crowded entries
crowded-IsValid = record {
  positive = omega arith;
  width = omega (arith, length-replicate 192 (chain []));
  initialised = crowded-HasChain;
  counted = omega (arith, length-replicate 173 docs, entries-replicate 192);
}

add-diverges_example : add zeroed 1000 crowded photos ≢ ok create
add-diverges_example =
    add-diverges zeroed 1000 crowded photos create crowded-IsValid (unfold crowded in refl)
      (unfold crowded in omega arith)
