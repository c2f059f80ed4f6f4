-- ===== src/Queue/Fifo.antt =====
-- The queue on the heap is a first-in first-out list of actions.
use file_sync_system.Common.{
  if◌then◌else◌, ◌↔◌, ◌≡◌, ◌≢◌, refl, ◌∙◌, sym, true, false, none, some, List, [], ◌∷◌, ◌++◌, arith,
  ◌==◌,
}
use file_sync_system.Common.Text.{Text}
use file_sync_system.Heap.{
  Ptr, null, Heap, put, Run, ok, exited, init, put_ne, put_self, load-ok, store-ok, free-ok,
}
use file_sync_system.Queue.{
  QNode, q_node, Queue, handle, create, is_empty, link_last, push_action, pop_action,
}
use file_sync_system.Queue.Segment.{
  Cells, first, last, ne_of_live, Segment, IsQueue, actions, actions-append, Segment-put, last-node,
  last_action, last-append, Segment-link,
}

-- The heap holds a queue of these actions.
pub Represents : Heap QNode → Queue → List Text → Type 0
Represents h q acts = (xs : Cells) × IsQueue h q xs × (actions xs ≡ acts)

-- A run that ends normally in a queue of these actions.
abbrev pub Leaves : Run QNode Queue → List Text → Type 0
Leaves r acts = (q : Queue) × (h : Heap QNode) × (r ≡ ok q h) × Represents h q acts

not_null : (p : Ptr) → p ≢ null → (p == null) ≡ false
not_null p ne = ground arith

module _ (h : Heap QNode) (q : Queue) (qn : Ptr) where
  link_last-empty : q.tail ≡ null → link_last qn q h ≡ ok (handle qn qn) h
  unfolding link_last
  link_last-empty e = rw e

  link_last-live :
      (b : Text) (next : Ptr)
      → q.tail ≢ null
      → h q.tail ≡ some (q_node b next)
      → link_last qn q h ≡ ok (handle q.head qn) (put h q.tail (some (q_node b qn)))
  unfolding link_last
  link_last-live b next ne live =
      rw (not_null q.tail ne) (rw (load-ok h q.tail _ ne live) (rw (store-ok h q.tail _ ne live)))

push_action-init :
    (h : Heap QNode) (q : Queue) (fresh : Ptr) (a : Text)
    → fresh ≢ null
    → push_action fresh true q a h ≡ link_last fresh q (put h fresh (some (q_node a null)))
unfolding push_action init
push_action-init h q fresh a ne = rw (not_null fresh ne)

push-cells :
    (h : Heap QNode) (q : Queue) (xs : Cells) (fresh : Ptr) (a : Text)
    → IsQueue h q xs
    → fresh ≢ null
    → h fresh ≡ none
    → (q' : Queue) × (h' : Heap QNode) × (push_action fresh true q a h ≡ ok q' h')
      × IsQueue h' q' (xs ++ (fresh, a) ∷ [])
push-cells h q [] fresh a is ne unused =
    let g = put h fresh (some (q_node a null)) in
    (
      handle fresh fresh,
      g,
      push_action-init h q fresh a ne ∙ link_last-empty g q fresh is.tail,
      record { chain = (ne, refl, put_self h fresh _, tt); head = refl; tail = refl },
    )
push-cells h q ((p, b) ∷ xs) fresh a is ne unused =
    let g = put h fresh (some (q_node a null)) in
    let (ne', live) = last-node h p b xs is.chain in
    let apart = ne_of_live h (last ((p, b) ∷ xs)) fresh _ null live unused in
    let live' : g (last ((p, b) ∷ xs)) ≡ some (q_node (last_action ((p, b) ∷ xs)) null) =
      put_ne h fresh (last ((p, b) ∷ xs)) _ apart ∙ live in
    (
      handle q.head fresh,
      put g (last ((p, b) ∷ xs)) (some (q_node (last_action ((p, b) ∷ xs)) fresh)),
      push_action-init h q fresh a ne
          ∙ rw (← is.tail) (link_last-live g q fresh _ null (rw is.tail ne') (rw is.tail live')),
      record {
        chain = Segment-link h p b xs fresh a is.chain ne unused;
        head = is.head;
        tail = sym (last-append ((p, b) ∷ xs) fresh a);
      },
    )

pub pop-cells :
    (h : Heap QNode) (q : Queue) (p : Ptr) (a : Text) (xs : Cells)
    → IsQueue h q ((p, a) ∷ xs)
    → (q' : Queue) × (pop_action q h ≡ ok (a, q') (put h p none)) × IsQueue (put h p none) q' xs
unfolding pop_action
pop-cells h q p a xs is =
    let s = is.chain in
    let live : h q.head ≡ some (q_node a (first xs)) = rw is.head s.2 in
    let ne : q.head ≢ null = rw is.head s.0 in
    (
      handle (first xs) (if first xs == null then null else q.tail),
      rw (not_null q.head ne)
          (rw (load-ok h q.head _ ne live) (rw (free-ok h q.head _ ne live) (rw is.head))),
      record {
        chain = Segment-put h xs p none s.3 s.1;
        head = refl;
        tail = tail-first xs q.tail s is.tail;
      },
    )
  where
    tail-first :
        (ys : Cells) (t : Ptr)
        → Segment h ((p, a) ∷ ys)
        → t ≡ last ((p, a) ∷ ys)
        → (if first ys == null then null else t) ≡ last ys
    tail-first [] t s e = refl
    tail-first ((b, c) ∷ ys) t s e = rw (not_null b s.3.0) e

module _ (h : Heap QNode) (q : Queue) where
  -- A push at a fresh address adds the action at the end.
  pub push_action-append :
      (acts : List Text) (fresh : Ptr) (a : Text)
      → Represents h q acts
      → fresh ≢ null
      → h fresh ≡ none
      → Leaves (push_action fresh true q a h) (acts ++ a ∷ [])
  unfolding Represents
  push_action-append acts fresh a (xs, is, e) ne unused =
      let (q', h', run, is') = push-cells h q xs fresh a is ne unused in
      (q', h', run, (xs ++ (fresh, a) ∷ [], is', actions-append xs ((fresh, a) ∷ []) ∙ rw e))

  -- A pop takes the first action, frees its node and leaves the rest.
  pub pop_action-cons :
      (a : Text) (acts : List Text)
      → Represents h q (a ∷ acts)
      → (q' : Queue) × (h' : Heap QNode) × (pop_action q h ≡ ok (a, q') h') × Represents h' q' acts
  unfolding Represents
  pop_action-cons a acts ([], is, e) = cc
  pop_action-cons a acts ((p, b) ∷ xs, is, e) =
      let (q', run, is') = pop-cells h q p b xs is in
      (q', put h p none, run ∙ ground (arith, e), (xs, is', ground (arith, e)))

  -- On an empty queue a pop gives the empty text and changes nothing.
  pub pop_action-nil : Represents h q [] → pop_action q h ≡ ok ([], q) h
  unfolding pop_action Represents
  pop_action-nil ([], is, e) = rw is.head
  pop_action-nil ((p, b) ∷ xs, is, e) = cc

  pub is_empty_iff : (acts : List Text) → Represents h q acts → (is_empty q ≡ true) ↔ (acts ≡ [])
  unfolding is_empty Represents
  is_empty_iff acts ([], is, e) = ground (arith, is.head, e)
  is_empty_iff acts ((p, b) ∷ xs, is, e) = ground (arith, is.head, is.chain.0, e)

-- Without memory for the node the program exits.
pub push_action-null :
    (h : Heap QNode) (q : Queue) (a : Text) → push_action null true q a h ≡ exited
unfolding push_action
push_action-null h q a = refl

pub empty-Represents : (h : Heap QNode) → Represents h (handle null null) []
unfolding Represents
empty-Represents h = ([], record { chain = tt; head = refl; tail = refl }, refl)

pub singleton-Represents :
    (h : Heap QNode) (p : Ptr) (a : Text)
    → p ≢ null
    → h p ≡ some (q_node a null)
    → Represents h (handle p p) (a ∷ [])
unfolding Represents
singleton-Represents h p a ne live =
    ((p, a) ∷ [], record { chain = (ne, refl, live, tt); head = refl; tail = refl }, refl)

-- A new queue is empty.
pub create-Represents : (h : Heap QNode) → Leaves (create true h) []
unfolding create
create-Represents h = (handle null null, h, refl, empty-Represents h)
