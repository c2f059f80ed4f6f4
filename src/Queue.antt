-- ===== src/Queue.antt =====
-- The queue of waiting actions (include/queue.h, src/queue.c), on the heap. The action of a node
-- is the text that the node's own buffer holds.
pub mod Segment
pub mod Fifo
pub mod Client
pub mod Destroy
use file_sync_system.Common.{Bool, true, false, [], ◌==◌, if◌then◌else◌}
use file_sync_system.Common.Text.{Text}
use file_sync_system.Heap.{
  Ptr, null, Heap, Run, Cmd, ok, exited, pure, ◌>>=◌, ◌>>◌, load, store, init, free,
}

pub record QNode : Type 0 where
  pub action : Text
  pub next : Ptr

abbrev pub q_node : Text → Ptr → QNode
q_node a q = record { action = a; next = q }

pub record Queue : Type 0 where
  pub head : Ptr
  pub tail : Ptr

abbrev pub handle : Ptr → Ptr → Queue
handle h t = record { head = h; tail = t }

-- The `queue` itself is no node: a function that changes one returns the new value.
-- `made` tells whether the `malloc` succeeds.
unfoldable pub create : (made : Bool) → Cmd QNode Queue
create made h = if made then ok (handle null null) h else exited

unfoldable pub is_empty : Queue → Bool
is_empty pq = pq.head == null

-- The new node becomes the only one, or the successor of the last one.
unfoldable pub link_last : Ptr → Queue → Cmd QNode Queue
link_last qn pq = if pq.tail == null then pure (handle qn qn) else (do
  last ← load pq.tail
  store pq.tail (record last { next = qn })
  pure (record pq { tail = qn }))

-- `fresh` is the address of the new node, NULL if the first `malloc` fails; `made` tells whether
-- the second one, for the copy of the text, succeeds.
unfoldable pub push_action : (fresh : Ptr) (made : Bool) → Queue → Text → Cmd QNode Queue
push_action fresh made pq new_action =
    if fresh == null
    then (λ h. exited)
    else if made
    then (do init fresh (q_node new_action null); link_last fresh pq)
    else (λ h. exited)

unfoldable pub pop_action : Queue → Cmd QNode (Text × Queue)
pop_action pq = if pq.head == null then pure ([], pq) else (do
  temp ← load pq.head
  free pq.head
  pure (temp.action, handle temp.next (if temp.next == null then null else pq.tail)))
