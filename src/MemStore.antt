-- ===== src/MemStore.antt =====
-- `sync_info_mem_store` (include/sync_info_mem_store.h, src/sync_info_mem_store.c): a hash table of
-- `dir_info` with separate chaining. `malloc` is taken to succeed.
pub mod Invariant
pub mod Lookup
pub mod Growth
pub mod Write
use file_sync_system.Common.{
  ℕ, zero, suc, ◌+◌, ◌-◌, ◌*◌, ◌%◌, ◌^◌, Bool, true, false, Option, none, some, List, [], ◌∷◌, ltb,
  leb, ◌==◌, if◌then◌else◌, length, get_elem?, set, replicate,
}
use file_sync_system.Common.Text.{Text}
use file_sync_system.Lnode.{
  DirInfo, Chain, lnode_create, lnode_add_next, lnode_remove, lnode_find, lnode_write,
  lnode_destroy,
}

-- A slot of the array: a pointer that has been written, or memory as `malloc` left it.
pub data Slot : Type 0 where
  chain : Chain → Slot
  indeterminate : Slot

pub record MemStore : Type 0 where
  pub hash_table : List Slot
  pub size : ℕ
  pub capacity : ℕ

-- `fault` is an access out of bounds or a use of an indeterminate pointer.
pub data Run {ℓ} (A : Type ℓ) : Type ℓ where
  ok : A → Run A
  fault : Run A
  out_of_fuel : Run A

infixl 5 ◌>>=◌
abbrev pub ◌>>=◌ {ℓ κ} : {A : Type ℓ} {B : Type κ} → Run A → (A → Run B) → Run B
ok a >>= f = f a
fault >>= f = fault
out_of_fuel >>= f = out_of_fuel

abbrev pub initial_size : ℕ
initial_size = 193

abbrev pub last_prime : ℕ
last_prime = 1_610_612_741

abbrev pub prime_sizes : List ℕ
prime_sizes =
    53 ∷ 97 ∷ 193 ∷ 389 ∷ 769 ∷ 1543 ∷ 3079 ∷ 6151 ∷ 12289 ∷ 24593 ∷ 49157 ∷ 98317 ∷ 196613 ∷ 393241
    ∷ 786433 ∷ 1572869 ∷ 3145739 ∷ 6291469 ∷ 12582917 ∷ 25165843 ∷ 50331653 ∷ 100663319 ∷ 201326611
    ∷ 402653189 ∷ 805306457 ∷ last_prime ∷ []

-- A `char` as it is added to a `uint`: a byte from 128 on is negative.
abbrev char_value : ℕ → ℕ
char_value c = if ltb c 128 then c else c + 2 ^ 32 - 256

-- The loop computes a hash, and counts the bytes.
pub hash_loop : Text → (hash i : ℕ) → ℕ × ℕ
hash_loop [] hash i = (hash, i)
hash_loop (c ∷ value) hash i =
    hash_loop value (((hash * 33) % 2 ^ 32 + char_value c) % 2 ^ 32) (i + 1)

-- The function returns the count.
unfoldable pub hash_code : Text → ℕ
unfolding hash_loop
hash_code value = let (hash, i) = hash_loop value 5381 0 in i

unfoldable pub create : MemStore
create = record {
  hash_table = replicate initial_size (chain []);
  size = 0;
  capacity = initial_size;
}

-- The slot of a directory's name.
unfoldable pub pos : MemStore → Text → ℕ
pos mem name = hash_code name % mem.capacity

unfoldable pub read_slot : MemStore → ℕ → Run Chain
read_slot mem i = elim (get_elem? mem.hash_table i) [
  | none ↦ fault
  | some slot ↦ elim slot [ chain c ↦ ok c | indeterminate ↦ fault ]
]

unfoldable pub find : MemStore → Text → Run (Option DirInfo)
find mem source_dir = read_slot mem (pos mem source_dir) >>= λ c. ok (lnode_find c source_dir)

-- A write through the pointer that `find` returned.
unfoldable pub write : (DirInfo → DirInfo) → MemStore → Text → Run MemStore
write change mem source_dir =
    let i = pos mem source_dir in
    read_slot mem i >>= λ c.
    ok (record mem { hash_table = set mem.hash_table i (chain (lnode_write change c source_dir)) })

-- The argument is an address, as for `lnode_remove`, beside the text at that address.
unfoldable pub remove : MemStore → Text → Option ℕ → Run MemStore
remove mem source_dir address =
    let i = pos mem source_dir in
    read_slot mem i >>= λ c.
    ok (record mem { hash_table = set mem.hash_table i (chain (lnode_remove c address)) })

-- The loop of `sync_info_mem_store_destroy` over the slots, from the slot `i` on.
unfoldable pub destroy_loop : (rounds i : ℕ) → MemStore → Run MemStore
destroy_loop zero i mem = ok mem
destroy_loop (suc rounds) i mem = read_slot mem i >>= λ c.
    destroy_loop rounds (suc i)
      (record mem { hash_table = set mem.hash_table i (chain (lnode_destroy c)) })

-- The array and the store are freed then.
unfoldable pub destroy : MemStore → Run (Unit {0})
destroy mem = destroy_loop mem.capacity 0 mem >>= λ _. ok tt

-- `hash_table[pos]` with the new value: a chain of its own, or behind the chain's first node.
unfoldable pub link : Chain → DirInfo → Chain
unfolding lnode_create lnode_add_next
link [] new_value = lnode_create new_value []
link (value ∷ next) new_value = lnode_add_next value next new_value

-- `sync_info_mem_store_add` up to its test for a rehash. The slot is the target's.
unfoldable pub insert : MemStore → DirInfo → Run MemStore
insert mem new_value =
    let i = pos mem new_value.target_dir in
    read_slot mem i >>= λ c. ok (record mem {
      hash_table = set mem.hash_table i (chain (link c new_value));
      size = mem.size + 1;
    })

-- `size / (double) capacity > 0.9`; the quotient of two `int`s is not near 0.9 but where it is
-- 9/10, which is the double 0.9.
unfoldable pub overloaded : MemStore → Bool
overloaded mem = ltb (mem.capacity * 9) (mem.size * 10)

-- The loop over `PRIME_SIZES` of `sync_info_mem_store_rehash`.
unfoldable pub next_capacity : ℕ → List ℕ → ℕ → ℕ
next_capacity capacity [] new_capacity = new_capacity
next_capacity capacity (p ∷ primes) new_capacity =
    if leb p capacity
    then (if p == last_prime then 2 * capacity else next_capacity capacity primes p)
    else new_capacity

-- The loops that move the values, over the call of `sync_info_mem_store_add`.
unfoldable pub move_chain : (MemStore → DirInfo → Run MemStore) → Chain → MemStore → Run MemStore
move_chain add [] mem = ok mem
move_chain add (value ∷ node) mem = add mem value >>= move_chain add node

unfoldable pub move_slots :
    (MemStore → DirInfo → Run MemStore) → List Slot → MemStore → Run MemStore
move_slots add [] mem = ok mem
move_slots add (chain c ∷ slots) mem = move_chain add c mem >>= move_slots add slots
move_slots add (indeterminate ∷ slots) mem = fault

-- `fresh depth n` is an array of `n` pointers as `malloc` hands it out at that depth of the
-- calls: the rehash does not write NULL into it. `sync_info_mem_store_add` and
-- `sync_info_mem_store_rehash` call one another; the depth is the fuel.
module _ (fresh : ℕ → ℕ → List Slot) where
  unfoldable pub rehash : ℕ → (MemStore → DirInfo → Run MemStore) → MemStore → Run MemStore
  rehash depth add mem =
      let capacity = next_capacity mem.capacity prime_sizes mem.capacity in
      move_slots add mem.hash_table
        (record { hash_table = fresh depth capacity; size = 0; capacity = capacity })

  unfoldable pub add : ℕ → MemStore → DirInfo → Run MemStore
  add zero mem new_value = out_of_fuel
  add (suc depth) mem new_value = insert mem new_value >>= λ mem'. elim (overloaded mem') [
    | true ↦ rehash depth (add depth) mem'
    | false ↦ ok mem'
  ]
