-- ===== src/Tests/Actions.antt =====
-- The queue of actions (src/queue.c), tried out.
use file_sync_system.Common.{◌≡◌, ◌≢◌, refl, some, none, List, [], ◌∷◌, arith, ◌==◌, if◌then◌else◌}
use file_sync_system.Common.Text.{codes}
use file_sync_system.Heap.{Ptr, null, Heap, put, load, store, init, free}
use file_sync_system.Queue.{QNode, q_node, handle, create, link_last, push_action, pop_action}
use file_sync_system.Queue.Destroy.{Emptied, destroy_loop-Emptied}
use file_sync_system.Queue.Segment.{IsQueue}
use file_sync_system.Queue.Client.{Malloc, Call, push, pop, run, run_list}
use file_sync_system.Queue.Fifo.{Represents, singleton-Represents}

abbrev no_nodes : Heap QNode
no_nodes p = none

-- The first free address of two.
abbrev two_cells : Heap QNode → Ptr
two_cells h = elim (h 1) [ none ↦ 1 | some _ ↦ elim (h 2) [ none ↦ 2 | some _ ↦ 0 ] ]

small_unused : (h : Heap QNode) → two_cells h ≢ null → h (two_cells h) ≡ none
small_unused h ne = ground arith

abbrev small : Malloc
small = record { fresh = two_cells; unused = small_unused }

abbrev calls : List Call
calls = push (codes "a") ∷ push (codes "b") ∷ pop ∷ push (codes "c") ∷ pop ∷ pop ∷ pop ∷ []

queue_steps : Unit {0}
unfolding put load store init free create link_last push_action pop_action run run_list
queue_steps = tt

popped : run_list calls [] ≡ codes "a" ∷ codes "b" ∷ codes "c" ∷ [] ∷ []
unfolding queue_steps
popped = refl

abbrev one_node : Heap QNode
one_node p = if p == 5 then some (q_node (codes "a") null) else none

one-Represents : Represents one_node (handle 5 5) (codes "a" ∷ [])
one-Represents = singleton-Represents one_node 5 (codes "a") (omega arith) refl

one-IsQueue : IsQueue one_node (handle 5 5) ((5, codes "a") ∷ [])
one-IsQueue = record { chain = (omega arith, refl, refl, tt); head = refl; tail = refl }

destroy_loop-Emptied_example : Emptied 1 one_node (handle 5 5) ((5, codes "a") ∷ [])
destroy_loop-Emptied_example =
    destroy_loop-Emptied 1 one_node (handle 5 5) ((5, codes "a") ∷ []) one-IsQueue (omega arith)
