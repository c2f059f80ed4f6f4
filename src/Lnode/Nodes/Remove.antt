-- ===== src/Lnode/Nodes/Remove.antt =====
-- `lnode_remove` (src/lnode.c) takes one node out of a chain on the heap.
use file_sync_system.Common.{
  ℕ, zero, suc, ◌<◌, ◌≡◌, ◌≢◌, ◌∙◌, refl, sym, ap, true, false, Option, none, some, [], ◌∷◌, arith,
  ◌==◌, Bool-cases, inl, inr, length, if◌then◌else◌,
}
use file_sync_system.Heap.{
  Ptr, null, Heap, Run, ok, put, put_self, put_ne, load-ok, store-ok, free-ok,
}
use file_sync_system.Lnode.{DirInfo, lnode_remove}
use file_sync_system.Lnode.Nodes.{
  Lnode, lnode, Link, variable, next_of, read_link, write_link, remove,
}
use file_sync_system.Lnode.Nodes.Segment.{
  Cells, first, has, values, Segment, without, number_of, has-without, Segment-same,
}

-- The link holds `q`; it is the variable, with the value `root`, or in a node with the value `v`.
abbrev pub Points : (root : Ptr) → Heap Lnode → Link → DirInfo → Ptr → Type 0
Points root h variable v q = root ≡ q
Points root h (next_of p) v q = (p ≢ null) × (h p ≡ some (lnode v q))

-- The link is in none of the nodes.
abbrev pub Outside : Link → Cells → Type 0
Outside variable xs = Unit
Outside (next_of p) xs = has p xs ≡ false

abbrev pub Apart : Link → Ptr → Type 0
Apart variable a = Unit
Apart (next_of p) a = a ≢ p

-- A link in a node leaves the variable alone.
abbrev pub Kept : Link → (root after : Ptr) → Type 0
Kept variable root after = Unit
Kept (next_of p) root after = after ≡ root

-- The chain without the node that holds the array, which has been freed; nothing else has changed
-- but the link to it.
pub record Removed (root : Ptr) (link : Link) (h : Heap Lnode) (v : DirInfo) (xs : Cells)
    (owner : Ptr) (r : Run Lnode Ptr) : Type 0 where
  pub after : Ptr
  pub heap : Heap Lnode
  pub ends : r ≡ ok after heap
  pub chain : Segment heap (without owner xs)
  pub linked : Points after heap link v (first (without owner xs))
  pub kept : Kept link root after
  pub freed : heap owner ≡ (if has owner xs then none else h owner)
  pub frame : (a : Ptr) → has a xs ≡ false → Apart link a → heap a ≡ h a

module _ (root : Ptr) (h : Heap Lnode) (v : DirInfo) where
  read_link-ok : (link : Link) (q : Ptr) → Points root h link v q → read_link root link h ≡ ok q h
  unfolding read_link
  read_link-ok variable q e = ap (λ p. ok p h) e
  read_link-ok (next_of p) q e = rw (load-ok h p _ e.0 e.1) refl

  record Relinked (link : Link) (next : Ptr) : Type 0 where
    after : Ptr
    heap : Heap Lnode
    ends : write_link root link next h ≡ ok after heap
    points : Points after heap link v next
    kept : Kept link root after
    frame : (a : Ptr) → Apart link a → heap a ≡ h a

  write_link-Relinked : (link : Link) (q next : Ptr) → Points root h link v q → Relinked link next
  unfolding write_link
  write_link-Relinked variable q next e = record {
    after = next;
    heap = h;
    ends = refl;
    points = refl;
    kept = tt;
    frame = λ a _. refl;
  }
  write_link-Relinked (next_of p) q next e = record {
    after = root;
    heap = put h p (some (lnode v next));
    ends = rw (load-ok h p _ e.0 e.1) (rw (store-ok h p _ e.0 e.1 (lnode v next)) refl);
    points = (e.0, put_self h p _);
    kept = refl;
    frame = λ a ne. put_ne h p a _ ne;
  }

Outside-Apart :
    (link : Link) (xs : Cells) (a : Ptr) → Outside link xs → has a xs ≡ true → Apart link a
Outside-Apart variable xs a out e = tt
Outside-Apart (next_of p) xs a out e = λ same. cc (same, out, e)

Outside-tail :
    (link : Link) (p : Ptr) (u : DirInfo) (xs : Cells)
    → Outside link ((p, u) ∷ xs)
    → Outside link xs
Outside-tail variable p u xs out = tt
Outside-tail (next_of q) p u xs out = ground (arith, out)

Kept-refl : (link : Link) (root : Ptr) → Kept link root root
Kept-refl variable root = tt
Kept-refl (next_of p) root = refl

Kept-of : (link : Link) (root after : Ptr) → after ≡ root → Kept link root after
Kept-of variable root after e = tt
Kept-of (next_of p) root after e = e

-- A write elsewhere leaves the link alone.
Points-put :
    (root : Ptr) (h : Heap Lnode) (link : Link) (v : DirInfo) (q a : Ptr) (c : Option Lnode)
    → Points root h link v q
    → Apart link a
    → Points root (put h a c) link v q
Points-put root h variable v q a c e apart = e
Points-put root h (next_of p) v q a c e apart =
    (e.0, put_ne h a p c (λ same. apart (sym same)) ∙ e.1)

-- A link in front of a node that stays.
Points-past :
    (root after : Ptr) (h h' : Heap Lnode) (link : Link) (v : DirInfo) (p : Ptr) (xs : Cells)
    → ((a : Ptr) → has a xs ≡ false → a ≢ p → h' a ≡ h a)
    → after ≡ root
    → Points root h link v p
    → Outside link xs
    → Apart link p
    → Points after h' link v p
Points-past root after h h' variable v p xs frame kept e out apart = kept ∙ e
Points-past root after h h' (next_of q) v p xs frame kept e out apart =
    (e.0, frame q out (λ same. apart (sym same)) ∙ e.1)

not_null : (p : Ptr) → p ≢ null → (p == null) ≡ false
not_null p ne = ground arith

module _ (owner : Ptr) where
  remove-end :
      (fuel : ℕ) (root : Ptr) (link : Link) (h : Heap Lnode) (v : DirInfo)
      → Points root h link v null
      → remove (suc fuel) root link owner h ≡ ok root h
  unfolding remove
  remove-end fuel root link h v e = rw (read_link-ok root h v link null e) refl

  remove-here :
      (fuel : ℕ) (root : Ptr) (link : Link) (h : Heap Lnode) (v u : DirInfo) (p q : Ptr)
      (r : Relinked root h v link q)
      → Points root h link v p
      → p ≢ null
      → h p ≡ some (lnode u q)
      → r.heap p ≡ h p
      → (p == owner) ≡ true
      → remove (suc fuel) root link owner h ≡ ok r.after (put r.heap p none)
  unfolding remove
  remove-here fuel root link h v u p q r e ne live same here =
      rw (read_link-ok root h v link p e, not_null p ne)
        (rw (load-ok h p _ ne live, here)
          (rw r.ends (rw (free-ok r.heap p _ ne (same ∙ live)) refl)))

  remove-past :
      (fuel : ℕ) (root : Ptr) (link : Link) (h : Heap Lnode) (v u : DirInfo) (p q : Ptr)
      → Points root h link v p
      → p ≢ null
      → h p ≡ some (lnode u q)
      → (p == owner) ≡ false
      → remove (suc fuel) root link owner h ≡ remove fuel root (next_of p) owner h
  unfolding remove
  remove-past fuel root link h v u p q e ne live differ =
      rw (read_link-ok root h v link p e, not_null p ne) (rw (load-ok h p _ ne live, differ) refl)

  module _ (fuel : ℕ) (root : Ptr) (link : Link) (h : Heap Lnode) (v u : DirInfo) (p : Ptr)
      (xs : Cells) (s : Segment h ((p, u) ∷ xs)) (e : Points root h link v p)
      (out : Outside link ((p, u) ∷ xs)) where
    apart : Apart link p
    apart = Outside-Apart link ((p, u) ∷ xs) p out (ground arith)

    here-Removed :
        (p == owner) ≡ true
        → Removed root link h v ((p, u) ∷ xs) owner (remove (suc fuel) root link owner h)
    here-Removed here =
        let r = write_link-Relinked root h v link p (first xs) e in
        let same : owner ≡ p = ground (arith, here) in
        let hit : (owner == p) ≡ true = ground (arith, same) in
        let rest = Outside-tail link p u xs out in
        record {
          after = r.after;
          heap = put r.heap p none;
          ends = remove-here fuel root link h v u p (first xs) r e s.0 s.2 (r.frame p apart) here;
          chain = rw here (
              Segment-same h (put r.heap p none) xs
                (λ a inside.
                  put_ne r.heap p a none (λ q. cc (q, inside, s.1))
                  ∙ r.frame a (Outside-Apart link xs a rest inside))
                s.3);
          linked = rw here (Points-put r.after r.heap link v (first xs) p none r.points apart);
          kept = r.kept;
          freed = rw hit (ap (put r.heap p none) same ∙ put_self r.heap p none);
          frame = λ a no free. put_ne r.heap p a none (λ q. ground (arith, no)) ∙ r.frame a free;
        }

    past-Removed :
        (p == owner) ≡ false
        → Removed root (next_of p) h u xs owner (remove fuel root (next_of p) owner h)
        → Removed root link h v ((p, u) ∷ xs) owner (remove (suc fuel) root link owner h)
    past-Removed differ r =
        let miss : (owner == p) ≡ false = ground (arith, differ) in
        record {
          after = r.after;
          heap = r.heap;
          ends = remove-past fuel root link h v u p (first xs) e s.0 s.2 differ ∙ r.ends;
          chain = rw differ (s.0, has-without p owner xs s.1, r.linked.1, r.chain);
          linked = rw differ (
              Points-past root r.after h r.heap link v p xs r.frame r.kept e
                (Outside-tail link p u xs out) apart);
          kept = Kept-of link root r.after r.kept;
          freed = rw miss r.freed;
          frame = λ a no free. r.frame a (ground (arith, no)) (ground (arith, no));
        }

  -- `lnode_remove` through a link to a chain, which stands in none of its nodes, with a round for
  -- each node and one more: it takes out the node that holds the array at the address, if one does,
  -- and frees it; the nodes that are left are the chain, the link holds its first one, and
  -- everything else on the heap is as before.
  pub remove-Removed :
      (fuel : ℕ) (root : Ptr) (link : Link) (h : Heap Lnode) (v : DirInfo) (xs : Cells)
      → Segment h xs
      → Points root h link v (first xs)
      → Outside link xs
      → length xs < fuel
      → Removed root link h v xs owner (remove fuel root link owner h)
  remove-Removed zero root link h v xs s e out enough = absurd (omega (arith, enough))
  remove-Removed (suc fuel) root link h v [] s e out enough = record {
    after = root;
    heap = h;
    ends = remove-end fuel root link h v e;
    chain = tt;
    linked = e;
    kept = Kept-refl link root;
    freed = refl;
    frame = λ a _ _. refl;
  }
  remove-Removed (suc fuel) root link h v ((p, u) ∷ xs) s e out enough =
      elim (Bool-cases (p == owner)) [
        | inl here ↦ here-Removed fuel root link h v u p xs s e out here
        | inr differ ↦
            past-Removed fuel root link h v u p xs s e out differ (
              remove-Removed fuel root (next_of p) h u xs s.3 (s.0, s.2) s.1
                (omega (arith, enough)))
      ]

-- The list without the value of that number.
pub values-without :
    (owner : Ptr) (xs : Cells)
    → values (without owner xs) ≡ lnode_remove (values xs) (number_of owner xs)
unfolding lnode_remove
values-without owner [] = refl
values-without owner ((p, v) ∷ xs) = elim (Bool-cases (p == owner)) [
  | inl here ↦ rw here refl
  | inr differ ↦ rw differ (ap (λ c. v ∷ c) (values-without owner xs) ∙ past (number_of owner xs))
]
  where
    past :
        (o : Option ℕ)
        → v ∷ lnode_remove (values xs) o
          ≡ lnode_remove
              (v ∷ values xs)
              (elim o as (λ _. Option ℕ) [ none ↦ none | some i ↦ some (suc i) ])
    past none = refl
    past (some i) = refl
