-- ===== src/Queue/Segment.antt =====
-- The nodes of a queue on the heap, in order, and how writes elsewhere and at their ends change
-- them.
use file_sync_system.Common.{
  ◌≡◌, ◌≢◌, ◌∙◌, refl, sym, Bool, true, false, ◌||◌, Option, none, some, List, [], ◌∷◌, ◌++◌, arith,
  ◌==◌,
}
use file_sync_system.Common.Text.{Text}
use file_sync_system.Heap.{Ptr, null, Heap, put, put_self, put_ne}
use file_sync_system.Queue.{QNode, q_node, Queue}

-- The address and the action of each node.
abbrev pub Cells : Type 0
Cells = List (Ptr × Text)

abbrev pub first : Cells → Ptr
first [] = null
first ((p, _) ∷ xs) = p

abbrev pub last : Cells → Ptr
last [] = null
last ((p, _) ∷ []) = p
last (_ ∷ x ∷ xs) = last (x ∷ xs)

abbrev pub has : Ptr → Cells → Bool
has a [] = false
has a ((p, _) ∷ xs) = (a == p) || has a xs

-- Each node is live, at an address of its own, and points to the next one; the last one to NULL.
abbrev pub Segment : Heap QNode → Cells → Type 0
Segment h [] = Unit
Segment h ((p, a) ∷ xs) =
    (p ≢ null) × (has p xs ≡ false) × (h p ≡ some (q_node a (first xs))) × Segment h xs

pub record IsQueue (h : Heap QNode) (q : Queue) (xs : Cells) : Type 0 where
  pub chain : Segment h xs
  pub head : q.head ≡ first xs
  pub tail : q.tail ≡ last xs

abbrev pub actions : Cells → List Text
actions [] = []
actions ((_, a) ∷ xs) = a ∷ actions xs

pub actions-append : (xs ys : Cells) → actions (xs ++ ys) ≡ actions xs ++ actions ys
actions-append [] ys = refl
actions-append ((p, a) ∷ xs) ys = λ i. a ∷ actions-append xs ys i

abbrev pub last_action : Cells → Text
last_action [] = []
last_action ((_, a) ∷ []) = a
last_action (_ ∷ x ∷ xs) = last_action (x ∷ xs)

has-append : (a : Ptr) (xs ys : Cells) → has a (xs ++ ys) ≡ (has a xs || has a ys)
has-append a [] ys = refl
has-append a ((p, _) ∷ xs) ys = ground (arith, has-append a xs ys)

has-last : (p : Ptr) (b : Text) (xs : Cells) → has (last ((p, b) ∷ xs)) ((p, b) ∷ xs) ≡ true
has-last p b [] = ground arith
has-last p b ((q, c) ∷ xs) = ground (arith, has-last q c xs)

pub last-append : (xs : Cells) (p : Ptr) (b : Text) → last (xs ++ (p, b) ∷ []) ≡ p
last-append [] p b = refl
last-append (x ∷ []) p b = refl
last-append (x ∷ y ∷ xs) p b = last-append (y ∷ xs) p b

module _ (h : Heap QNode) where
  -- A live address is not that of a fresh node.
  pub not-has : (xs : Cells) (a : Ptr) → Segment h xs → h a ≡ none → has a xs ≡ false
  not-has [] a s unused = refl
  not-has ((p, b) ∷ xs) a s unused = ground (arith, not-has xs a s.3, s.2)

  -- A write elsewhere leaves the nodes alone.
  pub Segment-put :
      (xs : Cells) (a : Ptr) (c : Option QNode)
      → Segment h xs
      → has a xs ≡ false
      → Segment (put h a c) xs
  unfolding put
  Segment-put [] a c s out = tt
  Segment-put ((p, b) ∷ xs) a c s out = ground (arith, Segment-put xs a c s.3)

  pub last-node :
      (p : Ptr) (b : Text) (xs : Cells)
      → Segment h ((p, b) ∷ xs)
      → (last ((p, b) ∷ xs) ≢ null)
        × (h (last ((p, b) ∷ xs)) ≡ some (q_node (last_action ((p, b) ∷ xs)) null))
  last-node p b [] s = (s.0, s.2)
  last-node p b ((q, c) ∷ xs) s = last-node q c xs s.3

  pub ne_of_live :
      (p fresh : Ptr) (b : Text) (next : Ptr)
      → h p ≡ some (q_node b next)
      → h fresh ≡ none
      → p ≢ fresh
  ne_of_live p fresh b next live unused = ground (arith, live, unused)

  -- A fresh node behind the last one.
  pub Segment-link :
      (p : Ptr) (b : Text) (xs : Cells) (fresh : Ptr) (a : Text)
      → Segment h ((p, b) ∷ xs)
      → fresh ≢ null
      → h fresh ≡ none
      → Segment
          (put
            (put h fresh (some (q_node a null)))
            (last ((p, b) ∷ xs))
            (some (q_node (last_action ((p, b) ∷ xs)) fresh)))
          ((p, b) ∷ xs ++ (fresh, a) ∷ [])
  Segment-link p b [] fresh a s ne unused =
      let apart : p ≢ fresh = ne_of_live p fresh b null s.2 unused in
      (
        s.0,
        ground (arith, apart),
        put_self _ p _,
        (ne, refl, put_ne _ p fresh _ (λ e. apart (sym e)) ∙ put_self h fresh _, tt),
      )
  Segment-link p b ((q, c) ∷ xs) fresh a s ne unused =
      let apart : p ≢ fresh = ne_of_live p fresh b q s.2 unused in
      let inner : p ≢ last ((q, c) ∷ xs) = λ e. cc (has-last q c xs, s.1, e) in
      (
        s.0,
        has-append p ((q, c) ∷ xs) ((fresh, a) ∷ []) ∙ ground (arith, apart, s.1),
        put_ne _ (last ((q, c) ∷ xs)) p _ inner ∙ put_ne h fresh p _ apart ∙ s.2,
        Segment-link q c xs fresh a s.3 ne unused,
      )
