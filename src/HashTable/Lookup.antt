-- ===== src/HashTable/Lookup.antt =====
-- What is found in the table of watches after an insertion.
use native.Mathlib.Nat.{mod-lt}
use file_sync_system.Common.{
  ℕ, ◌<◌, ◌≡◌, ◌≢◌, ◌∙◌, refl, sym, ap, none, some, ◌==◌, arith, Bool-cases, inl, inr, length,
  get_elem?, set, length-set, get_elem?-lt, get_elem?-set_self, get_elem?-set_ne,
}
use file_sync_system.Common.Text.{Text}
use file_sync_system.HashTable.{
  HashTable, read_slot, slot, find, fill, with_slot, insert_new, insert,
}
use file_sync_system.ListNode.{
  ListNode, null, wild, node, ok, fault, ◌>>=◌, new_pair, list_node_create, list_node_add,
  list_node_find,
}

-- The table has as many slots as its capacity says.
pub record IsTable (map : HashTable) : Type 0 where
  pub positive : 0 < map.capacity
  pub width : length map.table ≡ map.capacity

pub slot-lt : (map : HashTable) (key : ℕ) → IsTable map → slot map key < length map.table
unfolding slot
slot-lt map key h = let r = mod-lt key h.positive in omega (arith, h.width)

-- The slot's first node.
pub IsFirst : ListNode → ℕ → Type 0
IsFirst null k = ⊥
IsFirst wild k = ⊥
IsFirst (node first next) k = first.key ≡ k

module _ (leftover : ListNode) (key : ℕ) (value : Text) where
  -- The chain `lst'` that a new node makes of the chain `lst`.
  pub record Filled (lst : ListNode) : Type 0 where
    pub after : ListNode
    pub ends : fill leftover lst key value ≡ ok after
    pub new : list_node_find after key ≡ ok (some (new_pair key value))
    pub first : (k : ℕ) → IsFirst lst k → list_node_find after k ≡ list_node_find lst k
    pub others :
        (k : ℕ) → k ≢ key → ¬ IsFirst lst k → list_node_find after k ≡ list_node_find leftover k

  pub fill-Filled : (lst : ListNode) → list_node_find lst key ≡ ok none → Filled lst
  unfolding fill list_node_create list_node_add list_node_find IsFirst
  fill-Filled null absent = record {
    after = node (new_pair key value) leftover;
    ends = refl;
    new = ground arith;
    first = λ k h. elim h [ ];
    others = λ k ne h. ground arith;
  }
  fill-Filled wild absent = cc
  fill-Filled (node first next) absent = elim (Bool-cases (first.key == key)) [
    | inl same ↦ cc (rw same at absent)
    | inr differ ↦ record {
      after = node first (node (new_pair key value) leftover);
      ends = refl;
      new = ground (arith, differ);
      first = λ k h. ground arith;
      others = λ k ne h. ground (arith, h);
    }
  ]

-- The table after the insertion of a key that was not there. The key is found with its value. A
-- key of another slot is found as before, and so is the key of the first node of the same slot. For
-- every other key of that slot the search goes on in what `malloc` left in the new node.
pub record Inserted (leftover : ListNode) (map : HashTable) (key : ℕ) (value : Text) : Type 0 where
  pub after : HashTable
  pub ends : insert leftover map key value ≡ ok after
  pub shape : IsTable after
  pub chain : ListNode
  pub in_slot : read_slot map (slot map key) ≡ ok chain
  pub new : find after key ≡ ok (some (new_pair key value))
  pub elsewhere : (k : ℕ) → slot map k ≢ slot map key → find after k ≡ find map k
  pub first : (k : ℕ) → slot map k ≡ slot map key → IsFirst chain k → find after k ≡ find map k
  pub others :
      (k : ℕ)
      → slot map k ≡ slot map key
      → k ≢ key
      → ¬ IsFirst chain k
      → find after k ≡ list_node_find leftover k

pub read_slot-some :
    (map : HashTable) (i : ℕ) (lst : ListNode)
    → get_elem? map.table i ≡ some lst
    → read_slot map i ≡ ok lst
unfolding read_slot
read_slot-some map i lst e = rw (e, read_slot) refl

pub find-slot :
    (map : HashTable) (k : ℕ) (lst : ListNode)
    → get_elem? map.table (slot map k) ≡ some lst
    → find map k ≡ list_node_find lst k
unfolding find
find-slot map k lst e =
    ap (λ r. r >>= λ l. list_node_find l k) (read_slot-some map (slot map k) lst e)

module _ (map : HashTable) (k i : ℕ) (lst : ListNode) where
  find-with_slot :
      i < length map.table → slot map k ≡ i → find (with_slot map i lst) k ≡ list_node_find lst k
  unfolding slot
  find-with_slot h e =
      find-slot (with_slot map i lst) k lst
        (ap (get_elem? (set map.table i lst)) e ∙ get_elem?-set_self map.table i lst h)

  find-with_slot_ne : slot map k ≢ i → find (with_slot map i lst) k ≡ find map k
  unfolding find read_slot slot
  find-with_slot_ne ne =
      ap (λ o. elim o [ none ↦ fault | some l ↦ ok l ] >>= λ l. list_node_find l k)
        (get_elem?-set_ne map.table lst (λ e. ne (sym e)))

-- `hash_table_insert` of a key that is not in the table.
pub insert-Inserted :
    (leftover : ListNode) (map : HashTable) (key : ℕ) (value : Text)
    → IsTable map
    → find map key ≡ ok none
    → Inserted leftover map key value
unfolding insert insert_new
insert-Inserted leftover map key value table absent =
    let i = slot map key in
    let inside = slot-lt map key table in
    let (lst, e) = get_elem?-lt map.table i inside in
    let f = fill-Filled leftover key value lst (sym (find-slot map key lst e) ∙ absent) in
    let read = read_slot-some map i lst e in
    record {
      after = with_slot map i f.after;
      ends = rw (absent, insert, insert_new) (rw (read, f.ends) refl);
      shape = record {
        positive = table.positive;
        width = length-set map.table i f.after ∙ table.width;
      };
      chain = lst;
      in_slot = read;
      new = find-with_slot map key i f.after inside refl ∙ f.new;
      elsewhere = λ k ne. find-with_slot_ne map k i f.after ne;
      first = λ k same h.
          find-with_slot map k i f.after inside same
          ∙ f.first k h
          ∙ sym (find-slot map k lst (ap (get_elem? map.table) same ∙ e));
      others = λ k same ne h. find-with_slot map k i f.after inside same ∙ f.others k ne h;
    }
