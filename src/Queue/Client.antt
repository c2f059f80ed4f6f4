-- ===== src/Queue/Client.antt =====
-- A client of the queue: any sequence of pushes and pops, with a `malloc` that may fail.
use file_sync_system.Common.{◌≡◌, ◌≢◌, ◌⊎◌, true, none, List, [], ◌∷◌, ◌++◌}
use file_sync_system.Common.Text.{Text}
use file_sync_system.Heap.{Ptr, null, Heap, Run, Cmd, ok, exited, pure, and_then}
use file_sync_system.Queue.{QNode, Queue, push_action, pop_action}

-- `malloc` gives NULL, or an address that holds no live node.
pub record Malloc : Type 0 where
  pub fresh : Heap QNode → Ptr
  pub unused : (h : Heap QNode) → fresh h ≢ null → h (fresh h) ≡ none

pub data Call : Type 0 where
  push : Text → Call
  pop : Call

module _ (m : Malloc) where
  -- The calls on the queue of the heap, with what each pop returned.
  unfoldable pub run : List Call → Queue → Cmd QNode (List Text)
  run [] q h = ok [] h
  run (push a ∷ calls) q h = and_then (push_action (m.fresh h) true q a h) (λ q'. run calls q')
  run (pop ∷ calls) q h =
      and_then (pop_action q h) λ (a, q') h'. and_then (run calls q' h') λ out. pure (a ∷ out)

-- The same calls on a list.
unfoldable pub run_list : List Call → List Text → List Text
run_list [] acts = []
run_list (push a ∷ calls) acts = run_list calls (acts ++ a ∷ [])
run_list (pop ∷ calls) [] = [] ∷ run_list calls []
run_list (pop ∷ calls) (a ∷ acts) = a ∷ run_list calls acts

-- A run that returns this, or that has stopped because `malloc` failed.
abbrev pub Outcome : Malloc → Run QNode (List Text) → List Text → Type 0
Outcome m r out =
    ((h : Heap QNode) × (r ≡ ok out h)) ⊎ ((r ≡ exited) × ((g : Heap QNode) × (m.fresh g ≡ null)))
