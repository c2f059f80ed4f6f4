-- ===== src/Queue/Destroy.antt =====
-- The loop of `queue_destroy` (src/queue.c). The `free` behind it is not modelled: the queue itself
-- is no node of the heap.
use file_sync_system.Common.{
  ℕ, zero, suc, ◌≤◌, ◌≡◌, ◌∙◌, refl, true, false, none, [], ◌∷◌, arith, if◌then◌else◌, length,
}
use file_sync_system.Heap.{Ptr, Heap, put, Cmd, ok, out_of_fuel, and_then}
use file_sync_system.Queue.{QNode, Queue, is_empty, pop_action}
use file_sync_system.Queue.Fifo.{pop-cells}
use file_sync_system.Queue.Segment.{Cells, has, IsQueue}

-- The loop, on the number of its rounds. A text is a value, so that `free(x)` changes nothing.
unfoldable pub destroy_loop : ℕ → Queue → Cmd QNode Queue
destroy_loop zero pq h = if is_empty pq then ok pq h else out_of_fuel
destroy_loop (suc fuel) pq h = elim (is_empty pq) [
  | true ↦ ok pq h
  | false ↦ and_then (pop_action pq h) λ (x, pq'). destroy_loop fuel pq'
]

-- All nodes are freed, and nothing else.
pub record Emptied (fuel : ℕ) (h : Heap QNode) (q : Queue) (xs : Cells) : Type 0 where
  pub queue : Queue
  pub heap : Heap QNode
  pub ends : destroy_loop fuel q h ≡ ok queue heap
  pub empty : IsQueue heap queue []
  pub nodes : (a : Ptr) → heap a ≡ (if has a xs then none else h a)

step :
    (fuel : ℕ) (h : Heap QNode) (q : Queue)
    → is_empty q ≡ false
    → destroy_loop (suc fuel) q h ≡ and_then (pop_action q h) (λ (x, q'). destroy_loop fuel q')
unfolding destroy_loop
step fuel h q e = rw (destroy_loop, e) refl

-- The loop of `queue_destroy`, on a queue with so many actions as the fuel allows: it ends, leaves
-- an empty queue, and has freed the queue's nodes and changed nothing else.
pub destroy_loop-Emptied :
    (fuel : ℕ) (h : Heap QNode) (q : Queue) (xs : Cells)
    → IsQueue h q xs
    → length xs ≤ fuel
    → Emptied fuel h q xs
unfolding destroy_loop is_empty put
destroy_loop-Emptied zero h q [] is enough = record {
  queue = q;
  heap = h;
  ends = rw is.head refl;
  empty = is;
  nodes = λ a. refl;
}
destroy_loop-Emptied (suc fuel) h q [] is enough = record {
  queue = q;
  heap = h;
  ends = rw is.head refl;
  empty = is;
  nodes = λ a. refl;
}
destroy_loop-Emptied zero h q (x ∷ xs) is enough = absurd (omega arith)
destroy_loop-Emptied (suc fuel) h q ((p, b) ∷ xs) is enough =
    let (q', e, is') = pop-cells h q p b xs is in
    let r = destroy_loop-Emptied fuel (put h p none) q' xs is' (omega arith) in
    let more : is_empty q ≡ false = ground (arith, is.head, is.chain.0) in
    record {
      queue = r.queue;
      heap = r.heap;
      ends = step fuel h q more ∙ rw e r.ends;
      empty = r.empty;
      nodes = λ a. r.nodes a ∙ ground arith;
    }
