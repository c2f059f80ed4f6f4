-- ===== src/Lnode/Nodes/Chained.antt =====
-- The functions on nodes at addresses (src/lnode.c) do to the chain what the functions on lists do.
use file_sync_system.Common.{
  ℕ, zero, suc, ◌<◌, ◌≡◌, ◌≢◌, ◌∙◌, refl, sym, ap, true, false, Option, none, some, [], ◌∷◌, arith,
  ◌==◌, Bool-cases, inl, inr, length, if◌then◌else◌,
}
use file_sync_system.Common.Text.{Text, str_eq}
use file_sync_system.Heap.{
  Ptr, null, Heap, ok, put, put_self, put_ne, init, load-ok, store-ok, free-ok,
}
use file_sync_system.Lnode.{DirInfo, Chain, lnode_find, lnode_remove}
use file_sync_system.Lnode.Nodes.{Lnode, lnode, variable, create, add_next, remove, find, destroy}
use file_sync_system.Lnode.Nodes.Remove.{remove-Removed, values-without}
use file_sync_system.Lnode.Nodes.Segment.{
  Cells, first, has, values, Segment, not-has, without, number_of, Segment-same,
}

-- The heap holds the chain from this address on, in these nodes.
pub record Holds (h : Heap Lnode) (root : Ptr) (xs : Cells) (c : Chain) : Type 0 where
  pub chain : Segment h xs
  pub head : root ≡ first xs
  pub content : values xs ≡ c

-- Any record.
abbrev blank : DirInfo
blank = record {
  source_dir = [];
  target_dir = [];
  status = [];
  last_sync_time = [];
  active_error_count = 0;
  is_active = false;
  is_in_workers = false;
}

-- `lnode_remove` on the variable of a caller, with a round for each node and one more: the variable
-- then holds the chain of the list without the value at the address, the node of that value has
-- been freed, and no other node of the heap that is not of the chain has changed.
pub remove-Holds :
    (fuel : ℕ) (root : Ptr) (h : Heap Lnode) (xs : Cells) (c : Chain) (owner : Ptr)
    → Holds h root xs c
    → length xs < fuel
    → (root' : Ptr) × (h' : Heap Lnode) × (remove fuel root variable owner h ≡ ok root' h')
      × Holds h' root' (without owner xs) (lnode_remove c (number_of owner xs))
      × (h' owner ≡ (if has owner xs then none else h owner))
      × ((a : Ptr) → has a xs ≡ false → h' a ≡ h a)
remove-Holds fuel root h xs c owner is enough =
    let r = remove-Removed owner fuel root variable h blank xs is.chain is.head tt enough in
    (
      r.after,
      r.heap,
      r.ends,
      record {
        chain = r.chain;
        head = r.linked;
        content =
            values-without owner xs ∙ ap (λ k. lnode_remove k (number_of owner xs)) is.content;
      },
      r.freed,
      λ a no. r.frame a no tt,
    )

not_null : (p : Ptr) → p ≢ null → (p == null) ≡ false
not_null p ne = ground arith

-- The record that a pointer points to.
abbrev at : Heap Lnode → Ptr → Option DirInfo
at h p = if p == null then none else elim (h p) [ none ↦ none | some n ↦ some n.value ]

-- `lnode_find` reads the chain only, and points to the record that the list has under the name.
pub find-at :
    (fuel : ℕ) (h : Heap Lnode) (xs : Cells) (name : Text)
    → Segment h xs
    → length xs < fuel
    → (q : Ptr) × (find fuel (first xs) name h ≡ ok q h) × (at h q ≡ lnode_find (values xs) name)
unfolding find lnode_find
find-at zero h xs name s enough = absurd (omega (arith, enough))
find-at (suc fuel) h [] name s enough = (null, refl, refl)
find-at (suc fuel) h ((p, v) ∷ xs) name s enough = elim (Bool-cases (str_eq v.source_dir name)) [
  | inl here ↦ (
    p,
    rw (not_null p s.0) (rw (load-ok h p _ s.0 s.2, here) refl),
    rw (not_null p s.0, s.2, here) refl,
  )
  | inr differ ↦
      let (q, ends, e) = find-at fuel h xs name s.3 (omega (arith, enough)) in
      (q, rw (not_null p s.0) (rw (load-ok h p _ s.0 s.2, differ) ends), rw differ e)
]

-- `lnode_add_next` puts a fresh node behind the first one.
pub add_next-Segment :
    (fresh : Ptr) (h : Heap Lnode) (p : Ptr) (v new_value : DirInfo) (xs : Cells)
    → Segment h ((p, v) ∷ xs)
    → fresh ≢ null
    → h fresh ≡ none
    → (h' : Heap Lnode) × (add_next fresh p new_value h ≡ ok tt h')
      × Segment h' ((p, v) ∷ (fresh, new_value) ∷ xs)
unfolding add_next create init
add_next-Segment fresh h p v new_value xs s ne unused =
    let apart : p ≢ fresh = ground (arith, s.2, unused) in
    let g = put h fresh (some (lnode new_value (first xs))) in
    let live : g p ≡ some (lnode v (first xs)) = put_ne h fresh p _ apart ∙ s.2 in
    let new : has fresh xs ≡ false = not-has h xs fresh s.3 unused in
    let h' = put g p (some (lnode v fresh)) in
    (
      h',
      rw (load-ok h p _ s.0 s.2, not_null fresh ne) (store-ok g p _ s.0 live (lnode v fresh)),
      (
        s.0,
        ground (arith, apart, s.1),
        put_self g p _,
        (
          ne,
          new,
          put_ne g p fresh _ (λ e. apart (sym e)) ∙ put_self h fresh _,
          Segment-same h h' xs
              (λ a inside.
                put_ne g p a _ (λ e. cc (e, inside, s.1))
                ∙ put_ne h fresh a _ (λ e. cc (e, inside, new)))
              s.3,
        ),
      ),
    )

-- `lnode_destroy` frees the nodes of the chain and nothing else, and leaves NULL.
pub destroy-null :
    (fuel : ℕ) (h : Heap Lnode) (xs : Cells)
    → Segment h xs
    → length xs < fuel
    → (h' : Heap Lnode) × (destroy fuel (first xs) h ≡ ok null h')
      × ((a : Ptr) → h' a ≡ (if has a xs then none else h a))
unfolding destroy put
destroy-null zero h xs s enough = absurd (omega (arith, enough))
destroy-null (suc fuel) h [] s enough = (h, refl, λ a. refl)
destroy-null (suc fuel) h ((p, v) ∷ xs) s enough =
    let elsewhere =
      λ (a : Ptr) (inside : has a xs ≡ true). put_ne h p a none (λ q. cc (q, inside, s.1)) in
    let (h', ends, freed) =
      destroy-null fuel (put h p none) xs (Segment-same h (put h p none) xs elsewhere s.3)
        (omega (arith, enough)) in
    (
      h',
      rw (not_null p s.0) (rw (load-ok h p _ s.0 s.2) (rw (free-ok h p _ s.0 s.2) ends)),
      λ a. freed a ∙ ground arith,
    )
