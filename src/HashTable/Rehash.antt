-- ===== src/HashTable/Rehash.antt =====
-- `hash_table_rehash` (src/hash_table.c), which no other part of the program calls.
use file_sync_system.Common.{
  ℕ, zero, suc, ◌<◌, ◌≡◌, refl, ap, List, [], ◌∷◌, ◌++◌, arith, length, replicate,
}
use file_sync_system.HashTable.{HashTable, insert, find_next_capacity}
use file_sync_system.ListNode.{
  Pair, ListNode, null, wild, node, Run, ok, fault, ◌>>=◌, list_node_remove,
}
use file_sync_system.ListNode.Destroy.{chain, Differ, rest_of, list_node_remove-chain}

-- How the loops end.
pub data Loop : Type 0 where
  ends : Run HashTable → Loop
  out_of_fuel : Loop

removed : Pair → ListNode → HashTable → Run (ListNode × HashTable)
removed p lst map = list_node_remove lst p.key >>= λ lst'. ok (lst', map)

-- `leftover` is what `malloc` left at the place of a new node's `next`.
module _ (leftover : ListNode) where
  -- The body of the loop over a chain: the node's pair is inserted and its node is removed.
  unfoldable pub move_node : Pair → ListNode → HashTable → Run (ListNode × HashTable)
  unfolding removed
  move_node p lst map = insert leftover map p.key p.value >>= removed p lst

  unfoldable pub move_chain : ℕ → ListNode → HashTable → Loop
  move_chain zero lst map = out_of_fuel
  move_chain (suc fuel) null map = ends (ok map)
  move_chain (suc fuel) wild map = ends fault
  move_chain (suc fuel) (node p next) map = elim (move_node p (node p next) map) [
    | ok (lst, map') ↦ move_chain fuel lst map'
    | fault ↦ ends fault
  ]

  unfoldable pub move_slots : ℕ → List ListNode → HashTable → Loop
  move_slots fuel [] map = ends (ok map)
  move_slots fuel (lst ∷ slots) map = elim (move_chain fuel lst map) [
    | ends r ↦ elim r [ ok map' ↦ move_slots fuel slots map' | fault ↦ ends fault ]
    | out_of_fuel ↦ out_of_fuel
  ]

  -- `fresh` gives what `malloc` left in an array of a length.
  unfoldable pub rehash : (fuel : ℕ) (fresh : ℕ → List ListNode) → HashTable → Loop
  rehash fuel fresh map = elim (find_next_capacity map.capacity) [
    | ok capacity ↦
        move_slots fuel map.table (record map { table = fresh capacity; capacity = capacity })
    | fault ↦ ends fault
  ]

  unfoldable pub Distinct : List Pair → Type 0
  Distinct [] = Unit
  Distinct (p ∷ ps) = Differ p.key ps × Distinct ps

  -- The rest of the loop behind its body.
  abbrev behind : ℕ → Run (ListNode × HashTable) → Loop
  behind fuel r = elim r [ ok (lst, map) ↦ move_chain fuel lst map | fault ↦ ends fault ]

  removed-faults :
      (fuel : ℕ) (p : Pair) (ps : List Pair)
      → Differ p.key ps
      → ((q : Pair) (qs : List Pair) (map : HashTable)
          → ps ≡ q ∷ qs
          → move_chain fuel (chain ps) map ≡ ends fault)
      → (r : Run HashTable) → behind fuel (r >>= removed p (chain (p ∷ ps))) ≡ ends fault
  unfolding removed rest_of Differ
  removed-faults fuel p ps d later fault = refl
  removed-faults fuel p [] d later (ok map) =
      rw (list_node_remove-chain p.key [] p [] refl tt tt) refl
  removed-faults fuel p (q ∷ qs) d later (ok map) =
      rw (list_node_remove-chain p.key [] p (q ∷ qs) refl tt d) (later q qs map refl)

  move_chain-faults :
      (fuel : ℕ) (p : Pair) (ps : List Pair) (map : HashTable)
      → Distinct (p ∷ ps)
      → length ps < fuel
      → move_chain fuel (chain (p ∷ ps)) map ≡ ends fault
  unfolding Distinct chain move_chain move_node
  move_chain-faults zero p ps map d h = absurd (omega arith)
  move_chain-faults (suc fuel) p [] map d h =
      removed-faults fuel p [] d.0 (λ q qs m e. cc) (insert leftover map p.key p.value)
  move_chain-faults (suc fuel) p (q ∷ ps) map d h =
      removed-faults fuel p (q ∷ ps) d.0
        (λ _ _ m _. move_chain-faults fuel q ps m d.1 (omega arith))
        (insert leftover map p.key p.value)

  move_slots-faults :
      (fuel n : ℕ) (p : Pair) (ps : List Pair) (slots : List ListNode) (map : HashTable)
      → Distinct (p ∷ ps)
      → length ps < fuel
      → move_slots fuel (replicate n null ++ chain (p ∷ ps) ∷ slots) map ≡ ends fault
  unfolding move_slots move_chain
  move_slots-faults fuel zero p ps slots map d h =
      ap
        (λ (r : Loop). elim r as (λ _. Loop) [
          | ends r ↦ elim r as (λ _. Loop) [
            | ok map' ↦ move_slots fuel slots map'
            | fault ↦ ends fault
          ]
          | out_of_fuel ↦ out_of_fuel
        ])
        (move_chain-faults fuel p ps map d h)
  move_slots-faults zero (suc n) p ps slots map d h = absurd (omega arith)
  move_slots-faults (suc fuel) (suc n) p ps slots map d h =
      move_slots-faults (suc fuel) n p ps slots map d h

  -- The rehash of a table that holds a node ends with an access that C does not define, whatever
  -- memory `malloc` gives: behind the last node of the first chain, if not before. The keys of that
  -- chain differ, and the fuel is a round for each of its nodes.
  pub rehash-faults :
      (fuel n : ℕ) (fresh : ℕ → List ListNode) (p : Pair) (ps : List Pair) (slots : List ListNode)
      (map : HashTable)
      → map.table ≡ replicate n null ++ chain (p ∷ ps) ∷ slots
      → Distinct (p ∷ ps)
      → length ps < fuel
      → rehash fuel fresh map ≡ ends fault
  unfolding rehash
  rehash-faults fuel n fresh p ps slots map table d h = go (find_next_capacity map.capacity)
    where
      go :
          (r : Run ℕ)
          → elim r as (λ _. Loop) [
            | ok capacity ↦
                move_slots fuel map.table
                  (record map { table = fresh capacity; capacity = capacity })
            | fault ↦ ends fault
          ]
            ≡ ends fault
      go fault = refl
      go (ok capacity) = rw table (move_slots-faults fuel n p ps slots _ d h)
