-- ===== src/HashTable/Keys.antt =====
-- `hash_table_find_key` against `hash_table_find`, on the tables that insertions make.
use file_sync_system.Common.{
  ℕ, zero, suc, ◌+◌, ◌%◌, ◌≡◌, ◌≢◌, ◌⊎◌, ◌∙◌, refl, sym, ap, false, none, some, List, [], ◌∷◌, ◌==◌,
  arith, Bool-cases, inl, inr, get_elem?, get_elem?-lt,
}
use file_sync_system.Common.Text.{Text, str_eq, str_eq_refl, eq_of_str_eq}
use file_sync_system.HashTable.{
  HashTable, slot, find, find_in_chain, find_in_slots, find_key, minus_one,
}
use file_sync_system.HashTable.Lookup.{IsTable, slot-lt, find-slot}
use file_sync_system.ListNode.{Pair, ListNode, null, wild, node, ok, new_pair, list_node_find}

-- No node of the chain has the key.
unfoldable pub Lacks : ListNode → ℕ → Type 0
Lacks null k = Unit
Lacks wild k = Unit
Lacks (node first next) k = (first.key ≢ k) × Lacks next k

-- The chain ends with NULL, its keys belong to the slot `i`, and no key is there twice.
unfoldable pub Placed : (capacity i : ℕ) → ListNode → Type 0
unfolding Lacks
Placed capacity i null = Unit
Placed capacity i wild = ⊥
Placed capacity i (node first next) =
    (first.key % capacity ≡ i) × Lacks next first.key × Placed capacity i next

pub record IsValid (map : HashTable) : Type 0 where
  pub shape : IsTable map
  pub placed :
      (i : ℕ) (lst : ListNode) → get_elem? map.table i ≡ some lst → Placed map.capacity i lst

Lacks-find : (lst : ListNode) (k : ℕ) (p : Pair) → Lacks lst k → list_node_find lst k ≢ ok (some p)
unfolding Lacks list_node_find
Lacks-find null k p h e = cc
Lacks-find wild k p h e = cc
Lacks-find (node first next) k p h e = elim (Bool-cases (first.key == k)) [
  | inl same ↦ ground arith
  | inr differ ↦ Lacks-find next k p h.1 (rw differ at e)
]

module _ (value : Text) (capacity : ℕ) where
  -- What the search for a value in a chain gives.
  Searched : ℕ → ListNode → Type 0
  Searched i lst =
      ((k : ℕ) × (find_in_chain value lst ≡ ok (some k))
        × (list_node_find lst k ≡ ok (some (new_pair k value)))
        × (k % capacity ≡ i))
      ⊎ ((find_in_chain value lst ≡ ok none)
          × ((k : ℕ) → list_node_find lst k ≢ ok (some (new_pair k value))))

  behind :
      (first : Pair) (next : ListNode) (k : ℕ) (p : Pair)
      → Lacks next first.key
      → list_node_find next k ≡ ok (some p)
      → list_node_find (node first next) k ≡ ok (some p)
  unfolding list_node_find
  behind first next k p h there = elim (Bool-cases (first.key == k)) [
    | inl same ↦
        let e : first.key ≡ k = ground arith in absurd (Lacks-find next first.key p h (rw e there))
    | inr differ ↦ rw differ there
  ]

  elsewhere_too :
      (first : Pair) (next : ListNode) (k : ℕ)
      → str_eq value first.value ≡ false
      → ((k : ℕ) → list_node_find next k ≢ ok (some (new_pair k value)))
      → list_node_find (node first next) k ≢ ok (some (new_pair k value))
  unfolding list_node_find
  elsewhere_too first next k differ nowhere e = elim (Bool-cases (first.key == k)) [
    | inl same ↦ let v : first.value ≡ value = ground arith in cc (differ, v, str_eq_refl value)
    | inr other ↦ nowhere k (rw other at e)
  ]

  find_in_chain-Searched : (i : ℕ) (lst : ListNode) → Placed capacity i lst → Searched i lst
  unfolding Searched Placed find_in_chain list_node_find
  find_in_chain-Searched i null h = inr (refl, λ k e. cc)
  find_in_chain-Searched i wild h = absurd h
  find_in_chain-Searched i (node first next) h = elim (Bool-cases (str_eq value first.value)) [
    | inl same ↦
        let e = eq_of_str_eq value first.value same in
        inl (first.key, rw same refl, rw e (ground arith), h.0)
    | inr differ ↦ elim (find_in_chain-Searched i next h.2) [
      | inl (k, found, there, residue) ↦
          inl (k, rw differ found, behind first next k (new_pair k value) h.1 there, residue)
      | inr (none_found, nowhere) ↦
          inr (rw differ none_found, λ k e. elsewhere_too first next k differ nowhere e)
    ]
  ]

  Placed-eq : {i j : ℕ} (lst : ListNode) → i ≡ j → Placed capacity i lst → Placed capacity j lst
  Placed-eq lst e h = rw (← e) h

  later_too :
      (lst : ListNode) (slots : List ListNode)
      → ((k : ℕ) → list_node_find lst k ≢ ok (some (new_pair k value)))
      → ((j : ℕ) (l : ListNode) (k : ℕ)
          → get_elem? slots j ≡ some l
          → list_node_find l k ≢ ok (some (new_pair k value)))
      → (j : ℕ) (l : ListNode) (k : ℕ) → get_elem? (lst ∷ slots) j ≡ some l
      → list_node_find l k ≢ ok (some (new_pair k value))
  later_too lst slots nowhere later zero l k e there =
      let same : lst ≡ l = ground arith in nowhere k (rw same there)
  later_too lst slots nowhere later (suc j) l k e there = later j l k e there

  -- The same for slots, the first of them with the number `i`.
  SearchedSlots : ℕ → List ListNode → Type 0
  SearchedSlots i slots =
      ((k j : ℕ) × (lst : ListNode) × (find_in_slots value slots ≡ ok (some k))
        × (get_elem? slots j ≡ some lst)
        × (list_node_find lst k ≡ ok (some (new_pair k value)))
        × (k % capacity ≡ i + j))
      ⊎ ((find_in_slots value slots ≡ ok none)
          × ((j : ℕ) (lst : ListNode) (k : ℕ)
              → get_elem? slots j ≡ some lst
              → list_node_find lst k ≢ ok (some (new_pair k value))))

  find_in_slots-Searched :
      (i : ℕ) (slots : List ListNode)
      → ((j : ℕ) (lst : ListNode) → get_elem? slots j ≡ some lst → Placed capacity (i + j) lst)
      → SearchedSlots i slots
  unfolding SearchedSlots Searched find_in_slots
  find_in_slots-Searched i [] h = inr (refl, λ j lst k e. cc)
  find_in_slots-Searched i (lst ∷ slots) h =
      elim (find_in_chain-Searched i lst (Placed-eq lst (omega arith) (h 0 lst refl))) [
        | inl (k, found, there, residue) ↦
            inl (k, 0, lst, rw found refl, refl, there, omega (arith, residue))
        | inr (none_found, nowhere) ↦
            elim (find_in_slots-Searched (i + 1) slots
              (λ j l e. Placed-eq l (omega arith) (h (suc j) l e))) [
                | inl (k, j, l, found, e, there, residue) ↦
                    inl (k, suc j, l, rw none_found found, e, there, omega (arith, residue))
                | inr (none_later, later) ↦
                    inr (rw none_found none_later, later_too lst slots nowhere later)
              ]
      ]

-- `hash_table_find_key` on a valid table ends, and gives a key under which `hash_table_find` finds
-- the value, or -1 if there is none.
pub find_key-find :
    (map : HashTable) (value : Text)
    → IsValid map
    → ((k : ℕ) × (find_key map value ≡ ok k) × (find map k ≡ ok (some (new_pair k value))))
      ⊎ ((find_key map value ≡ ok minus_one)
          × ((k : ℕ) → find map k ≢ ok (some (new_pair k value))))
unfolding find_key slot SearchedSlots
find_key-find map value valid =
    elim (find_in_slots-Searched value map.capacity 0 map.table
      (λ j l e. Placed-eq value map.capacity l (omega arith) (valid.placed j l e))) [
        | inl (k, j, l, found, e, there, residue) ↦
            let here : slot map k ≡ j = omega (arith, residue) in
            inl (k, rw found refl, find-slot map k l (ap (get_elem? map.table) here ∙ e) ∙ there)
        | inr (none_found, nowhere) ↦ inr (
          rw none_found refl,
          λ k there.
              let (l, e) = get_elem?-lt map.table (slot map k) (slot-lt map k valid.shape) in
              nowhere (slot map k) l k e (sym (find-slot map k l e) ∙ there),
        )
      ]
