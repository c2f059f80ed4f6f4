-- ===== src/HashTable.antt =====
-- `hash_table` (include/hash_table.h, src/hash_table.c): the manager's table from the descriptors
-- of watches to directories. `malloc` is taken to succeed.
pub mod Lookup
pub mod Keys
pub mod Insert
pub mod Capacity
pub mod Rehash
use file_sync_system.Common.{
  ℕ, suc, ◌+◌, ◌-◌, ◌*◌, ◌%◌, ◌^◌, Bool, true, false, Option, none, some, List, [], ◌∷◌, ltb, ◌==◌,
  if◌then◌else◌, length, get_elem?, set, replicate,
}
use file_sync_system.Common.Text.{Text, str_eq}
use file_sync_system.ListNode.{
  Pair, ListNode, null, wild, node, Run, ok, fault, ◌>>=◌, list_node_create, list_node_add,
  list_node_find, list_node_remove, list_node_destroy,
}
use file_sync_system.MemStore.{prime_sizes, last_prime}

pub record HashTable : Type 0 where
  pub table : List ListNode
  pub size : ℕ
  pub capacity : ℕ

abbrev pub initial_capacity : ℕ
initial_capacity = 193

unfoldable pub create : HashTable
create = record { table = replicate initial_capacity null; size = 0; capacity = initial_capacity }

-- `map->table[pos]`
unfoldable pub read_slot : HashTable → ℕ → Run ListNode
read_slot map pos = elim (get_elem? map.table pos) [ none ↦ fault | some lst ↦ ok lst ]

-- `(uint)key % map->capacity`
unfoldable pub slot : HashTable → ℕ → ℕ
slot map key = key % map.capacity

unfoldable pub find : HashTable → ℕ → Run (Option Pair)
find map key = read_slot map (slot map key) >>= λ lst. list_node_find lst key

-- A node is put into a slot.
unfoldable pub fill : (leftover lst : ListNode) → ℕ → Text → Run ListNode
fill leftover null key value = ok (list_node_create leftover key value null)
fill leftover wild key value = list_node_add leftover wild key value
fill leftover (node first next) key value = list_node_add leftover (node first next) key value

abbrev with_slot : HashTable → ℕ → ListNode → HashTable
with_slot map pos lst = record map { table = set map.table pos lst }

unfoldable pub insert_new : (leftover : ListNode) → HashTable → ℕ → Text → Run HashTable
insert_new leftover map key value = read_slot map (slot map key) >>= λ lst.
    fill leftover lst key value >>= λ lst'. ok (with_slot map (slot map key) lst')

-- `leftover` is what `malloc` left at the place of the new node's `next`. The size is not counted.
unfoldable pub insert : (leftover : ListNode) → HashTable → ℕ → Text → Run HashTable
insert leftover map key value = find map key >>= λ found. elim found [
  | some _ ↦ ok map
  | none ↦ insert_new leftover map key value
]

-- `key % map->capacity` on `int`s: the remainder of a negative key is negative or 0.
unfoldable pub remove : HashTable → ℕ → Run HashTable
remove map key =
    let magnitude = (2 ^ 32 - key) % map.capacity in
    let pos =
      if ltb key (2 ^ 31)
      then some (key % map.capacity)
      else if magnitude == 0
      then some 0
      else none in
    elim pos [
      | none ↦ fault
      | some i ↦
          read_slot map i >>= λ lst. list_node_remove lst key >>= λ lst'. ok (with_slot map i lst')
    ]

destroy_slots : List ListNode → Run (List ListNode)
destroy_slots [] = ok []
destroy_slots (lst ∷ slots) =
    list_node_destroy lst >>= λ lst'. destroy_slots slots >>= λ slots'. ok (lst' ∷ slots')

unfoldable pub destroy : HashTable → Run HashTable
unfolding destroy_slots
destroy map = destroy_slots map.table >>= λ slots. ok (record map { table = slots })

-- The loop over a chain, and the loop over the slots; `none` is the -1 at the end.
unfoldable pub find_in_chain : Text → ListNode → Run (Option ℕ)
find_in_chain value null = ok none
find_in_chain value wild = fault
find_in_chain value (node first next) =
    let rest = find_in_chain value next in
    if str_eq value first.value then ok (some first.key) else rest

unfoldable pub find_in_slots : Text → List ListNode → Run (Option ℕ)
find_in_slots value [] = ok none
find_in_slots value (lst ∷ slots) = find_in_chain value lst >>= λ found. elim found [
  | some key ↦ ok (some key)
  | none ↦ find_in_slots value slots
]

-- The bits of -1.
abbrev pub minus_one : ℕ
minus_one = 2 ^ 32 - 1

unfoldable pub find_key : HashTable → Text → Run ℕ
find_key map value = find_in_slots value map.table >>= λ found. elim found [
  | some key ↦ ok key
  | none ↦ ok minus_one
]

abbrev is_bare : List ListNode → Bool
is_bare [] = true
is_bare (null ∷ slots) = is_bare slots
is_bare (wild ∷ slots) = false
is_bare (node first next ∷ slots) = false

-- The same for an argument that may be NULL, which `strcmp` cannot compare with a value.
unfoldable pub find_key_of : HashTable → Option Text → Run ℕ
find_key_of map none = if is_bare map.table then ok minus_one else fault
find_key_of map (some value) = find_key map value

-- `2 * a + 1`, an overflow beyond 31 bits.
unfoldable pub double_capacity : ℕ → Run ℕ
double_capacity a = if ltb (2 * a + 1) (2 ^ 31) then ok (2 * a + 1) else fault

-- The loop over the table of primes, and an access behind its end.
unfoldable pub capacity_loop : ℕ → List ℕ → Run ℕ
capacity_loop a [] = fault
capacity_loop a (p ∷ ps) =
    let rest = capacity_loop a ps in
    if ltb a p then ok p else if ltb last_prime a then double_capacity a else rest

unfoldable pub find_next_capacity : ℕ → Run ℕ
find_next_capacity a = capacity_loop a prime_sizes
