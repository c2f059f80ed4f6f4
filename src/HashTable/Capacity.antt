-- ===== src/HashTable/Capacity.antt =====
-- `find_next_capacity` of src/hash_table.c on every capacity.
use file_sync_system.Common.{
  ℕ, ◌+◌, ◌*◌, ◌^◌, ◌≤◌, ◌<◌, ◌≡◌, refl, Bool, true, false, List, [], ◌∷◌, ◌++◌, ◌&&◌, ltb, leb,
  arith, Bool-cases, inl, inr, All,
}
use file_sync_system.HashTable.{capacity_loop, double_capacity, find_next_capacity}
use file_sync_system.ListNode.{ok, fault}
use file_sync_system.MemStore.{prime_sizes, last_prime}

all_above : ℕ → List ℕ → Bool
all_above p [] = true
all_above p (q ∷ qs) = leb p q && all_above p qs

ascending : List ℕ → Bool
unfolding all_above
ascending [] = true
ascending (p ∷ ps) = all_above p ps && ascending ps

-- The least number of the list above `a`.
pub IsLeast : ℕ → List ℕ → ℕ → Type 0
IsLeast a ps p = (a < p) × All (λ q. a < q → p ≤ q) ps

All-above : (a p : ℕ) (qs : List ℕ) → all_above p qs ≡ true → All (λ q. a < q → p ≤ q) qs
unfolding all_above
All-above a p [] h = tt
All-above a p (q ∷ qs) h = (λ l. ground (arith, h), All-above a p qs (ground (arith, h)))

capacity_loop-IsLeast :
    (a last : ℕ) (ps : List ℕ)
    → a < last
    → last ≤ last_prime
    → ascending (ps ++ last ∷ []) ≡ true
    → (p : ℕ) × (capacity_loop a (ps ++ last ∷ []) ≡ ok p) × IsLeast a (ps ++ last ∷ []) p
unfolding capacity_loop ascending IsLeast
capacity_loop-IsLeast a last [] h below up = (last, ground arith, (h, ((λ l. omega arith), tt)))
capacity_loop-IsLeast a last (q ∷ qs) h below up = elim (Bool-cases (ltb a q)) [
  | inl more ↦ (
    q,
    rw more refl,
    (ground arith, ((λ l. omega arith), All-above a q (qs ++ last ∷ []) (ground arith))),
  )
  | inr less ↦
      let (p, ends, least) = capacity_loop-IsLeast a last qs h below (ground arith) in
      let inside : ltb last_prime a ≡ false = ground arith in
      (p, rw (less, inside) ends, (least.0, ((λ l. ground arith), least.1)))
]

abbrev but_last : List ℕ
but_last =
    53 ∷ 97 ∷ 193 ∷ 389 ∷ 769 ∷ 1543 ∷ 3079 ∷ 6151 ∷ 12289 ∷ 24593 ∷ 49157 ∷ 98317 ∷ 196613 ∷ 393241
    ∷ 786433 ∷ 1572869 ∷ 3145739 ∷ 6291469 ∷ 12582917 ∷ 25165843 ∷ 50331653 ∷ 100663319 ∷ 201326611
    ∷ 402653189 ∷ 805306457 ∷ []

up : ascending prime_sizes ≡ true
unfolding ascending all_above
up = refl

at_last : capacity_loop last_prime prime_sizes ≡ fault
unfolding capacity_loop
at_last = refl

beyond : (a : ℕ) → ltb last_prime a ≡ true → capacity_loop a prime_sizes ≡ fault
unfolding capacity_loop double_capacity
beyond a h =
    let first : ltb a 53 ≡ false = ground arith in
    let wide : ltb (2 * a + 1) (2 ^ 31) ≡ false = ground arith in rw (first, h, wide) refl

-- `find_next_capacity` gives the least prime of the table above the capacity, if there is one. For
-- every other capacity it reads behind the table, at its last prime, or overflows an `int`.
pub find_next_capacity-IsLeast :
    (a : ℕ)
    → (a < last_prime → (p : ℕ) × (find_next_capacity a ≡ ok p) × IsLeast a prime_sizes p)
      × (last_prime ≤ a → find_next_capacity a ≡ fault)
unfolding find_next_capacity
find_next_capacity-IsLeast a = (
  (λ h. capacity_loop-IsLeast a last_prime but_last h (omega arith) up),
  λ h. elim (Bool-cases (ltb last_prime a)) [
    | inl above ↦ beyond a above
    | inr last ↦ let e : a ≡ last_prime = ground arith in rw e at_last
  ],
)
