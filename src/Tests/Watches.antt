-- ===== src/Tests/Watches.antt =====
-- The table of watches (src/hash_table.c), tried out.
use file_sync_system.Common.{ℕ, ◌<◌, ◌≤◌, ◌≡◌, ◌≢◌, ◌⊎◌, refl, none, some, List, [], ◌∷◌, arith}
use file_sync_system.Common.Text.{codes, str_eq}
use file_sync_system.HashTable.{
  HashTable, create, read_slot, slot, find, fill, insert_new, insert, find_in_chain, find_in_slots,
  find_key, minus_one, find_next_capacity,
}
use file_sync_system.HashTable.Capacity.{IsLeast, find_next_capacity-IsLeast}
use file_sync_system.MemStore.{prime_sizes, last_prime}
use file_sync_system.HashTable.Insert.{create-IsValid, insert-IsValid}
use file_sync_system.HashTable.Rehash.{ends, rehash, Distinct, rehash-faults}
use file_sync_system.HashTable.Keys.{IsValid, find_key-find}
use file_sync_system.HashTable.Lookup.{Inserted, insert-Inserted}
use file_sync_system.ListNode.{
  Pair, null, wild, Run, ok, fault, ◌>>=◌, new_pair, list_node_create, list_node_add,
  list_node_find, list_node_remove,
}
use file_sync_system.ListNode.Destroy.{
  chain, Differ, rest_of, is_even, list_node_destroy-chain, list_node_remove-chain,
}
use file_sync_system.ListNode.{list_node_destroy}

-- Three slots.
abbrev small : HashTable
small = record { table = null ∷ null ∷ null ∷ []; size = 0; capacity = 3 }

table_steps : Unit {0}
unfolding read_slot slot find fill insert_new insert find_in_chain find_in_slots find_key
    list_node_create list_node_add list_node_find str_eq
table_steps = tt

three : Run HashTable
three = insert null small 1 (codes "a") >>= λ m.
    insert null m 4 (codes "b") >>= λ m. insert null m 7 (codes "c")

-- The third node of a slot takes the place of the second one.
second_lost : (three >>= λ m. find m 4) ≡ ok none
unfolding table_steps three
second_lost = refl

third_found : (three >>= λ m. find_key m (codes "c")) ≡ ok 7
unfolding table_steps three
third_found = refl

wild_next : (insert wild small 1 (codes "a") >>= λ m. find m 4) ≡ fault
unfolding table_steps
wild_next = refl

not_there : find create 5 ≡ ok none
unfolding table_steps create
not_there = refl

insert-Inserted_example : Inserted wild create 5 (codes "a")
insert-Inserted_example = insert-Inserted wild create 5 (codes "a") create-IsValid.shape not_there

insert-IsValid_example :
    (map : HashTable) × (insert null create 5 (codes "a") ≡ ok map) × IsValid map
insert-IsValid_example = insert-IsValid create 5 (codes "a") create-IsValid

filled : (map : HashTable) × (insert null create 5 (codes "a") ≡ ok map) × IsValid map
filled = insert-IsValid create 5 (codes "a") create-IsValid

find_key-find_example :
    ((k : ℕ) × (find_key filled.0 (codes "a") ≡ ok k)
      × (find filled.0 k ≡ ok (some (new_pair k (codes "a")))))
    ⊎ ((find_key filled.0 (codes "a") ≡ ok minus_one)
        × ((k : ℕ) → find filled.0 k ≢ ok (some (new_pair k (codes "a")))))
find_key-find_example = find_key-find filled.0 (codes "a") filled.2

abbrev pair_of : ℕ → Pair
pair_of k = new_pair k (codes "d")

abbrev pairs : List Pair
pairs = pair_of 1 ∷ pair_of 2 ∷ pair_of 3 ∷ []

list_node_destroy-chain_example : list_node_destroy (chain pairs) ≡ fault
unfolding is_even
list_node_destroy-chain_example = list_node_destroy-chain pairs

list_node_remove-chain_example :
    list_node_remove (chain pairs) 2 ≡ ok (chain (pair_of 1 ∷ pair_of 3 ∷ []))
unfolding Differ rest_of
list_node_remove-chain_example =
    list_node_remove-chain 2 (pair_of 1 ∷ []) (pair_of 2) (pair_of 3 ∷ []) refl
      ((λ e. omega (arith, e)), tt) ((λ e. omega (arith, e)), tt)

find_next_capacity-IsLeast_example :
    (200 < last_prime → (p : ℕ) × (find_next_capacity 200 ≡ ok p) × IsLeast 200 prime_sizes p)
    × (last_prime ≤ 200 → find_next_capacity 200 ≡ fault)
find_next_capacity-IsLeast_example = find_next_capacity-IsLeast 200

-- A table whose second slot holds a chain of two nodes.
abbrev two_nodes : HashTable
unfolding chain
two_nodes = record {
  table = null ∷ chain (pair_of 1 ∷ pair_of 4 ∷ []) ∷ null ∷ [];
  size = 2;
  capacity = 3;
}

rehash-faults_example : rehash wild 2 (λ n. []) two_nodes ≡ ends fault
unfolding Distinct Differ two_nodes
rehash-faults_example =
    rehash-faults wild 2 1 (λ n. []) (pair_of 1) (pair_of 4 ∷ []) (null ∷ []) two_nodes refl
      (((λ e. omega (arith, e)), tt), (tt, tt)) (omega arith)
