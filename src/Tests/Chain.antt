-- ===== src/Tests/Chain.antt =====
-- A chain of two nodes (src/lnode.c), from which the second one is removed.
use file_sync_system.Common.{
  ◌≡◌, refl, false, true, none, some, [], ◌∷◌, arith, ◌==◌, if◌then◌else◌,
}
use file_sync_system.Common.Text.{Text, codes}
use file_sync_system.Heap.{Ptr, null, Heap, ok}
use file_sync_system.Lnode.{DirInfo, lnode_remove}
use file_sync_system.Lnode.Nodes.{Lnode, lnode, variable, remove}
use file_sync_system.Lnode.Nodes.Chained.{Holds, remove-Holds}
use file_sync_system.Lnode.Nodes.Segment.{Cells, has}

abbrev pair_of : Text → DirInfo
pair_of name = record {
  source_dir = name;
  target_dir = name;
  status = [];
  last_sync_time = [];
  active_error_count = 0;
  is_active = true;
  is_in_workers = false;
}

abbrev two_nodes : Heap Lnode
two_nodes p =
    if p == 5
    then some (lnode (pair_of (codes "/a")) 7)
    else if p == 7
    then some (lnode (pair_of (codes "/b")) null)
    else none

abbrev cells : Cells
cells = (5, pair_of (codes "/a")) ∷ (7, pair_of (codes "/b")) ∷ []

two_nodes-Holds : Holds two_nodes 5 cells (pair_of (codes "/a") ∷ pair_of (codes "/b") ∷ [])
two_nodes-Holds = record {
  chain = (omega arith, refl, refl, (omega arith, refl, refl, tt));
  head = refl;
  content = refl;
}

remove-Holds_example :
    (root : Ptr) × (h : Heap Lnode) × (remove 3 5 variable 7 two_nodes ≡ ok root h)
    × Holds h root ((5, pair_of (codes "/a")) ∷ []) (pair_of (codes "/a") ∷ [])
    × (h 7 ≡ none)
    × ((a : Ptr) → has a cells ≡ false → h a ≡ two_nodes a)
unfolding lnode_remove
remove-Holds_example =
    remove-Holds 3 5 two_nodes cells (pair_of (codes "/a") ∷ pair_of (codes "/b") ∷ []) 7
      two_nodes-Holds (omega arith)
