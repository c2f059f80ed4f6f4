-- ===== src/ListNode/Destroy.antt =====
-- What `list_node_remove` and `list_node_destroy` do to chains that end with NULL.
use file_sync_system.Common.{
  ℕ, zero, suc, ◌≡◌, ◌≢◌, refl, Bool, true, false, List, [], ◌∷◌, ◌++◌, ◌==◌, arith, if◌then◌else◌,
  Bool-cases, inl, inr, length, All,
}
use file_sync_system.ListNode.{
  Pair, ListNode, null, node, Run, ok, fault, ◌>>=◌, remove_loop, list_node_remove, destroy_loop,
  list_node_destroy,
}

-- The chain with these pairs.
unfoldable pub chain : List Pair → ListNode
chain [] = null
chain (p ∷ ps) = node p (chain ps)

-- Every second pair, from the second one on.
unfoldable pub seconds : List Pair → List Pair
seconds [] = []
seconds (p ∷ []) = []
seconds (p ∷ q ∷ ps) = q ∷ seconds ps

unfoldable pub is_even : ℕ → Bool
is_even zero = true
is_even (suc zero) = false
is_even (suc (suc n)) = is_even n

-- `list_node_destroy` of a chain with an even number of nodes frees every other node and leaves
-- the rest linked; with an odd number it ends with an access through NULL.
pub list_node_destroy-chain :
    (ps : List Pair)
    → list_node_destroy (chain ps)
      ≡ (if is_even (length ps) then ok (chain (seconds ps)) else fault)
unfolding list_node_destroy destroy_loop chain seconds is_even
list_node_destroy-chain [] = refl
list_node_destroy-chain (p ∷ []) = refl
list_node_destroy-chain (p ∷ q ∷ ps) = elim (Bool-cases (is_even (length ps))) [
  | inl even ↦ rw (list_node_destroy-chain ps, even) refl
  | inr odd ↦ rw (list_node_destroy-chain ps, odd) refl
]

unfoldable pub Differ : ℕ → List Pair → Type 0
Differ key ps = All (λ p. p.key ≢ key) ps

remove-absent :
    (key : ℕ) (ps : List Pair) → Differ key ps → remove_loop false (chain ps) key ≡ ok (chain ps)
unfolding Differ remove_loop chain
remove-absent key [] h = refl
remove-absent key (p ∷ ps) h = elim (Bool-cases (p.key == key)) [
  | inl same ↦ absurd (h.0 (ground arith))
  | inr differ ↦ rw (differ, remove-absent key ps h.1) refl
]

-- What removing a key leaves of a chain in which the node with that key stands between these pairs.
unfoldable pub rest_of : List Pair → List Pair → Run ListNode
rest_of before [] = fault
rest_of before (next ∷ behind) = ok (chain (before ++ next ∷ behind))

-- `list_node_remove` of a key that stands once in the chain removes its node if another one
-- follows, and ends with an access through NULL if the node is the last one.
pub list_node_remove-chain :
    (key : ℕ) (before : List Pair) (p : Pair) (behind : List Pair)
    → p.key ≡ key
    → Differ key before
    → Differ key behind
    → list_node_remove (chain (before ++ p ∷ behind)) key ≡ rest_of before behind
unfolding list_node_remove remove_loop chain rest_of Differ
list_node_remove-chain key [] p [] same d d' = rw same (ground arith)
list_node_remove-chain key [] p (n ∷ behind) same d d' =
    ground (arith, remove-absent key behind d'.1)
list_node_remove-chain key (b ∷ before) p behind same d d' = elim (Bool-cases (b.key == key)) [
  | inl bad ↦ absurd (d.0 (ground arith))
  | inr differ ↦ rw (differ, list_node_remove-chain key before p behind same d.1 d') (go behind)
]
  where
    go :
        (behind : List Pair)
        → rest_of before behind >>= (λ n. ok (node b n)) ≡ rest_of (b ∷ before) behind
    go [] = refl
    go (n ∷ behind) = refl
