-- ===== src/Lnode/Nodes/Segment.antt =====
-- The nodes of a chain on the heap, in order.
use file_sync_system.Common.{
  ℕ, suc, ◌≡◌, ◌≢◌, ◌∙◌, refl, Bool, true, false, ◌||◌, Option, none, some, List, [], ◌∷◌, arith,
  ◌==◌, if◌then◌else◌,
}
use file_sync_system.Heap.{Ptr, null, Heap}
use file_sync_system.Lnode.{DirInfo, Chain}
use file_sync_system.Lnode.Nodes.{Lnode, lnode}

-- The address and the value of each node.
abbrev pub Cells : Type 0
Cells = List (Ptr × DirInfo)

abbrev pub first : Cells → Ptr
first [] = null
first ((p, _) ∷ xs) = p

abbrev pub has : Ptr → Cells → Bool
has a [] = false
has a ((p, _) ∷ xs) = (a == p) || has a xs

abbrev pub values : Cells → Chain
values [] = []
values ((_, v) ∷ xs) = v ∷ values xs

-- Each node is live, at an address of its own, and points to the next one; the last one to NULL.
abbrev pub Segment : Heap Lnode → Cells → Type 0
Segment h [] = Unit
Segment h ((p, v) ∷ xs) =
    (p ≢ null) × (has p xs ≡ false) × (h p ≡ some (lnode v (first xs))) × Segment h xs

-- The cells without the one at an address, and its number.
abbrev pub without : Ptr → Cells → Cells
without a [] = []
without a ((p, v) ∷ xs) = if p == a then xs else (p, v) ∷ without a xs

abbrev pub number_of : Ptr → Cells → Option ℕ
number_of a [] = none
number_of a ((p, _) ∷ xs) =
    if p == a then some 0 else elim (number_of a xs) [ none ↦ none | some i ↦ some (suc i) ]

pub has-without : (a b : Ptr) (xs : Cells) → has a xs ≡ false → has a (without b xs) ≡ false
has-without a b [] h = refl
has-without a b ((p, v) ∷ xs) h = ground (arith, has-without a b xs)

-- A heap that agrees on the nodes has the same chain.
pub Segment-same :
    (h h' : Heap Lnode) (xs : Cells)
    → ((a : Ptr) → has a xs ≡ true → h' a ≡ h a)
    → Segment h xs
    → Segment h' xs
Segment-same h h' [] same s = tt
Segment-same h h' ((p, v) ∷ xs) same s = (
  s.0,
  s.1,
  same p (ground arith) ∙ s.2,
  Segment-same h h' xs (λ a e. same a (ground (arith, e))) s.3,
)

-- An address without a live node is that of no node of a chain.
pub not-has : (h : Heap Lnode) (xs : Cells) (a : Ptr) → Segment h xs → h a ≡ none → has a xs ≡ false
not-has h [] a s unused = refl
not-has h ((p, v) ∷ xs) a s unused = ground (arith, not-has h xs a s.3, s.2)
