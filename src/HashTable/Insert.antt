-- ===== src/HashTable/Insert.antt =====
-- `hash_table_insert` on valid tables, with memory from `malloc` that holds zeros.
use file_sync_system.Common.{
  ℕ, zero, suc, ◌%◌, ◌<◌, ◌≡◌, ◌≢◌, ◌∙◌, refl, sym, ap, Option, none, some, List, ◌==◌, arith,
  Bool-cases, inl, inr, length, get_elem?, get_elem?-lt, set, replicate, length-replicate,
  length-set, get_elem?-set_self, get_elem?-set_ne,
}
use file_sync_system.Common.Text.{Text}
use file_sync_system.HashTable.{
  HashTable, create, initial_capacity, slot, find, fill, with_slot, insert, insert_new,
}
use file_sync_system.HashTable.Keys.{Lacks, Placed, IsValid}
use file_sync_system.HashTable.Lookup.{slot-lt, find-slot, read_slot-some}
use file_sync_system.ListNode.{
  Pair, ListNode, null, wild, node, ok, new_pair, list_node_create, list_node_add, list_node_find,
}

get_elem?-replicate_inv :
    (n i : ℕ) (lst : ListNode) → get_elem? (replicate n null) i ≡ some lst → null ≡ lst
get_elem?-replicate_inv zero i lst e = cc
get_elem?-replicate_inv (suc n) zero lst e = ground arith
get_elem?-replicate_inv (suc n) (suc i) lst e = get_elem?-replicate_inv n i lst e

-- A new table is valid.
pub create-IsValid : IsValid create
unfolding create Placed
create-IsValid = record {
  shape = record { positive = omega arith; width = length-replicate initial_capacity null };
  placed = λ i lst e. rw (← get_elem?-replicate_inv initial_capacity i lst e) tt;
}

-- In a chain that ends with NULL a search comes to an end.
find-ok :
    (capacity i : ℕ) (lst : ListNode) (key : ℕ)
    → Placed capacity i lst
    → (o : Option Pair) × (list_node_find lst key ≡ ok o)
unfolding Placed list_node_find
find-ok capacity i null key h = (none, refl)
find-ok capacity i wild key h = absurd h
find-ok capacity i (node first next) key h = elim (Bool-cases (first.key == key)) [
  | inl same ↦ (some first, rw same refl)
  | inr differ ↦ let (o, e) = find-ok capacity i next key h.2 in (o, rw differ e)
]

fill-Placed :
    (capacity i : ℕ) (lst : ListNode) (key : ℕ) (value : Text)
    → Placed capacity i lst
    → key % capacity ≡ i
    → list_node_find lst key ≡ ok none
    → (after : ListNode) × (fill null lst key value ≡ ok after) × Placed capacity i after
unfolding Placed Lacks fill list_node_find list_node_add list_node_create
fill-Placed capacity i null key value h residue absent =
    (node (new_pair key value) null, refl, (residue, tt, tt))
fill-Placed capacity i wild key value h residue absent = absurd h
fill-Placed capacity i (node first next) key value h residue absent =
    let apart : key ≢ first.key = λ e. ground arith in
    (node first (node (new_pair key value) null), refl, (h.0, (apart, tt), (residue, tt, tt)))

set-Placed :
    (capacity pos : ℕ) (after : ListNode) (table : List ListNode)
    → pos < length table
    → Placed capacity pos after
    → ((i : ℕ) (lst : ListNode) → get_elem? table i ≡ some lst → Placed capacity i lst)
    → (i : ℕ) (lst : ListNode) → get_elem? (set table pos after) i ≡ some lst
    → Placed capacity i lst
set-Placed capacity pos after table h p placed i lst e = elim (Bool-cases (i == pos)) [
  | inl same ↦
      let at_pos : i ≡ pos = ground arith in
      let written : after ≡ lst = some_injective (
        sym (get_elem?-set_self table pos after h)
        ∙ ap (get_elem? (set table pos after)) (sym at_pos)
        ∙ e) in
      rw (at_pos, ← written) p
  | inr differ ↦
      let apart : pos ≢ i = λ q. ground arith in
      placed i lst (sym (get_elem?-set_ne table after apart) ∙ e)
]
  where
    some_injective : {a b : ListNode} → some a ≡ some b → a ≡ b
    some_injective q = ground arith

insert_new-IsValid :
    (map : HashTable) (key : ℕ) (value : Text)
    → IsValid map
    → find map key ≡ ok none
    → (map' : HashTable) × (insert_new null map key value ≡ ok map') × IsValid map'
unfolding insert_new slot
insert_new-IsValid map key value valid absent =
    let pos = slot map key in
    let inside = slot-lt map key valid.shape in
    let (lst, e) = get_elem?-lt map.table pos inside in
    let (after, filled, placed) =
      fill-Placed map.capacity pos lst key value (valid.placed pos lst e) refl
        (sym (find-slot map key lst e) ∙ absent) in
    (
      with_slot map pos after,
      rw (read_slot-some map pos lst e, filled) refl,
      record {
        shape = record {
          positive = valid.shape.positive;
          width = length-set map.table pos after ∙ valid.shape.width;
        };
        placed = set-Placed map.capacity pos after map.table inside placed valid.placed;
      },
    )

-- `hash_table_insert` on a valid table ends with a valid table, if the memory that `malloc` gives
-- holds zeros.
pub insert-IsValid :
    (map : HashTable) (key : ℕ) (value : Text)
    → IsValid map
    → (map' : HashTable) × (insert null map key value ≡ ok map') × IsValid map'
unfolding insert
insert-IsValid map key value valid =
    let (lst, e) = get_elem?-lt map.table (slot map key) (slot-lt map key valid.shape) in
    let (o, got) =
      find-ok map.capacity (slot map key) lst key (valid.placed (slot map key) lst e) in
    known o (find-slot map key lst e ∙ got)
  where
    known :
        (o : Option Pair)
        → find map key ≡ ok o
        → (map' : HashTable) × (insert null map key value ≡ ok map') × IsValid map'
    known (some p) found = (map, rw (found, insert) refl, valid)
    known none absent =
        let (map', ends, v) = insert_new-IsValid map key value valid absent in
        (map', rw (absent, insert) ends, v)
