-- ===== src/Lnode.antt =====
-- `dir_info` and `lnode` (include/lnode.h, src/lnode.c): what the manager knows of a pair of
-- directories, and the chains of the store. A store owns the nodes of its chains, so that a
-- pointer to a node is the list of the values from there on; NULL is the empty list.
pub mod Nodes
use file_sync_system.Common.{ℕ, zero, suc, Bool, Option, none, some, List, [], ◌∷◌, if◌then◌else◌}
use file_sync_system.Common.Text.{Text, str_eq}

pub record DirInfo : Type 0 where
  pub source_dir : Text
  pub target_dir : Text
  pub status : Text
  pub last_sync_time : Text
  pub active_error_count : ℕ
  pub is_active : Bool
  pub is_in_workers : Bool

abbrev pub Chain : Type 0
Chain = List DirInfo

unfoldable pub lnode_create : DirInfo → Chain → Chain
lnode_create value next = value ∷ next

-- A node is its value and its successor.
unfoldable pub lnode_set_value : DirInfo × Chain → DirInfo → DirInfo × Chain
lnode_set_value (value, next) new_value = (new_value, next)

unfoldable pub lnode_set_next : DirInfo × Chain → Chain → DirInfo × Chain
lnode_set_next (value, next) new_next = (value, new_next)

unfoldable pub lnode_get_value : DirInfo × Chain → DirInfo
lnode_get_value (value, next) = value

unfoldable pub lnode_get_next : DirInfo × Chain → Chain
lnode_get_next (value, next) = next

-- On the node with this value and this successor.
unfoldable pub lnode_add_next : DirInfo → Chain → DirInfo → Chain
unfolding lnode_create
lnode_add_next value next new_value = value ∷ lnode_create new_value next

-- The loop compares addresses and not texts: `some i` is the address of the array in the chain's
-- node number `i`, `none` any other address.
unfoldable pub lnode_remove : Chain → Option ℕ → Chain
lnode_remove [] source_dir = []
lnode_remove (value ∷ node) none = value ∷ lnode_remove node none
lnode_remove (value ∷ node) (some zero) = node
lnode_remove (value ∷ node) (some (suc i)) = value ∷ lnode_remove node (some i)

-- `none` is a read through NULL.
unfoldable pub lnode_remove_head : Chain → Option Chain
lnode_remove_head [] = none
lnode_remove_head (value ∷ node) = some node

unfoldable pub lnode_find : Chain → Text → Option DirInfo
lnode_find [] source_dir = none
lnode_find (value ∷ node) source_dir =
    if str_eq value.source_dir source_dir then some value else lnode_find node source_dir

-- A write through the pointer that `lnode_find` returned.
unfoldable pub lnode_write : (DirInfo → DirInfo) → Chain → Text → Chain
lnode_write change [] source_dir = []
lnode_write change (value ∷ node) source_dir =
    if str_eq value.source_dir source_dir
    then change value ∷ node
    else value ∷ lnode_write change node source_dir

-- What the pointer to the chain holds when all nodes have been freed.
unfoldable pub lnode_destroy : Chain → Chain
lnode_destroy [] = []
lnode_destroy (value ∷ node) = lnode_destroy node
