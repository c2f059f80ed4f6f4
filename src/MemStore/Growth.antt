-- ===== src/MemStore/Growth.antt =====
-- The rehash: it never finds a larger capacity, so that a store past its load factor rehashes
-- for ever.
use file_sync_system.Common.{
  ℕ, zero, suc, ◌+◌, ◌*◌, ◌≤◌, ◌<◌, ◌≡◌, ◌≢◌, ◌∙◌, refl, true, false, List, [], ◌∷◌, Bool-cases,
  inl, inr, arith, length,
}
use file_sync_system.Lnode.{DirInfo, Chain}
use file_sync_system.MemStore.{
  Slot, chain, indeterminate, MemStore, ok, insert, overloaded, next_capacity, prime_sizes,
  last_prime, initial_size, move_chain, move_slots, rehash, add,
}
use file_sync_system.MemStore.Invariant.{entries, insert-counts, >>=-ok, IsValid}

next_capacity-le_loop :
    (capacity : ℕ) (primes : List ℕ) (new_capacity : ℕ)
    → capacity < last_prime
    → new_capacity ≤ capacity
    → next_capacity capacity primes new_capacity ≤ capacity
unfolding next_capacity
next_capacity-le_loop capacity [] new_capacity h le = le
next_capacity-le_loop capacity (p ∷ primes) new_capacity h le =
    ground (arith, next_capacity-le_loop capacity primes p h)

-- Below the last prime of the table, the capacity that a rehash chooses is no larger.
pub next_capacity-le :
    (capacity : ℕ) → capacity < last_prime → next_capacity capacity prime_sizes capacity ≤ capacity
next_capacity-le capacity h = next_capacity-le_loop capacity prime_sizes capacity h (omega arith)

pub next_capacity-initial : next_capacity initial_size prime_sizes initial_size ≡ initial_size
unfolding next_capacity
next_capacity-initial = refl

-- `size / capacity > 0.9`
abbrev pub Over : ℕ → ℕ → Type 0
Over capacity size = capacity * 9 < size * 10

module _ (fresh : ℕ → ℕ → List Slot) (capacity : ℕ)
    (fixed : next_capacity capacity prime_sizes capacity ≡ capacity) where
  -- The call does not return, for every store of this capacity that counts no more than it holds
  -- and would be overloaded by one value more.
  abbrev NoReturn : ℕ → Type 0
  NoReturn depth =
      (mem : MemStore) (v : DirInfo) (r : MemStore)
      → mem.capacity ≡ capacity
      → mem.size ≤ entries mem.hash_table
      → Over capacity (mem.size + 1)
      → add fresh depth mem v ≢ ok r

  -- What a call of `add` that returns has done.
  record Added (mem r : MemStore) : Type 0 where
    capacity_kept : r.capacity ≡ capacity
    one_more : r.size ≡ mem.size + 1
    held : r.size ≤ entries r.hash_table

  overloaded-Over : (mem : MemStore) → overloaded mem ≡ true → Over mem.capacity mem.size
  unfolding overloaded
  overloaded-Over mem h = ground arith

  not-overloaded : (mem : MemStore) → overloaded mem ≡ false → ¬ Over mem.capacity mem.size
  unfolding overloaded
  not-overloaded mem h = ground arith

  add-Added :
      (depth : ℕ)
      → NoReturn depth
      → (mem : MemStore) (v : DirInfo) (r : MemStore) → mem.capacity ≡ capacity
      → mem.size ≤ entries mem.hash_table
      → add fresh depth mem v ≡ ok r
      → Added mem r × ¬ Over capacity r.size
  unfolding add
  add-Added zero never mem v r c s h = cc
  add-Added (suc depth) never mem v r c s h =
      let (mem', e, q) = >>=-ok (insert mem v) _ h in
      let (size, cap, held) = insert-counts mem v mem' e in
      elim (Bool-cases (overloaded mem')) [
        | inl full ↦ absurd (never mem v r c s (omega (arith, overloaded-Over mem' full)) h)
        | inr light ↦ ground (arith, q, size, cap, held, not-overloaded mem' light)
      ]

  module _ (depth : ℕ) (never : NoReturn depth) where
    move_chain-Added :
        (node : Chain) (mem r : MemStore)
        → mem.capacity ≡ capacity
        → mem.size ≤ entries mem.hash_table
        → ¬ Over capacity mem.size
        → move_chain (add fresh depth) node mem ≡ ok r
        → (r.capacity ≡ capacity)
          × (r.size ≡ mem.size + length node)
          × (r.size ≤ entries r.hash_table)
          × ¬ Over capacity r.size
    unfolding move_chain
    move_chain-Added [] mem r c s light h = ground (arith, light)
    move_chain-Added (v ∷ node) mem r c s light h =
        let (mem', e, q) = >>=-ok (add fresh depth mem v) _ h in
        let (a, light') = add-Added depth never mem v mem' c s e in
        ground (arith, light', move_chain-Added node mem' r a.capacity_kept a.held light' q)

    move_slots-no_return :
        (slots : List Slot) (mem r : MemStore)
        → mem.capacity ≡ capacity
        → mem.size ≤ entries mem.hash_table
        → ¬ Over capacity mem.size
        → Over capacity (mem.size + entries slots)
        → move_slots (add fresh depth) slots mem ≢ ok r
    unfolding move_slots entries
    move_slots-no_return [] mem r c s light over h = light (omega arith)
    move_slots-no_return (indeterminate ∷ slots) mem r c s light over h = cc
    move_slots-no_return (chain node ∷ slots) mem r c s light over h =
        let (mem', e, q) = >>=-ok (move_chain (add fresh depth) node mem) _ h in
        let (c', size, s', light') = move_chain-Added node mem mem' c s light e in
        move_slots-no_return slots mem' r c' s' light' (omega arith) q

    -- The new table counts its values from zero, and is full before they are all moved.
    rehash-no_return :
        (mem r : MemStore)
        → mem.capacity ≡ capacity
        → Over capacity (entries mem.hash_table)
        → rehash fresh depth (add fresh depth) mem ≢ ok r
    unfolding rehash
    rehash-no_return mem r c over h =
        let n = next_capacity mem.capacity prime_sizes mem.capacity in
        let same : n ≡ capacity = rw c fixed in
        move_slots-no_return mem.hash_table
          (record { hash_table = fresh depth n; size = 0; capacity = n }) r same (omega arith)
          (omega arith) (omega arith) h

  add-NoReturn : (depth : ℕ) → NoReturn depth
  unfolding add
  add-NoReturn zero mem v r c s over h = cc
  add-NoReturn (suc depth) mem v r c s over h =
      let (mem', e, q) = >>=-ok (insert mem v) _ h in
      let (size, cap, held) = insert-counts mem v mem' e in
      let stuck = rehash-no_return depth (add-NoReturn depth) mem' r (cap ∙ c) (omega arith) in
      elim (Bool-cases (overloaded mem')) [
        | inr light ↦ not-overloaded mem' light (omega arith)
        | inl full ↦ stuck (rw full at q)
      ]

-- The value that would take a store of the initial capacity past its load factor is never added:
-- the call does not return, however deep the calls may go and whatever `malloc` hands out.
pub add-diverges :
    (fresh : ℕ → ℕ → List Slot) (depth : ℕ) (mem : MemStore) (v : DirInfo) (r : MemStore)
    → IsValid mem
    → mem.capacity ≡ initial_size
    → Over initial_size (mem.size + 1)
    → add fresh depth mem v ≢ ok r
add-diverges fresh depth mem v r valid c over =
    add-NoReturn fresh initial_size next_capacity-initial depth mem v r c
      (omega (arith, valid.counted)) over
