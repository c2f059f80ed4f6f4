-- ===== src/Lnode/Nodes.antt =====
-- The functions of src/lnode.c on nodes at addresses.
pub mod Segment
pub mod Remove
pub mod Chained
use file_sync_system.Common.{ℕ, zero, suc, Bool, true, false, if◌then◌else◌, ◌==◌}
use file_sync_system.Common.Text.{Text, str_eq}
use file_sync_system.Heap.{
  Ptr, null, Cmd, out_of_fuel, exited, pure, ◌>>=◌, ◌>>◌, load, store, init, free,
}
use file_sync_system.Lnode.{DirInfo}

pub record Lnode : Type 0 where
  pub value : DirInfo
  pub next : Ptr

abbrev pub lnode : DirInfo → Ptr → Lnode
lnode v p = record { value = v; next = p }

-- What an `lnode**` points to: the variable of the caller, or the field of a node.
pub data Link : Type 0 where
  variable : Link
  next_of : Ptr → Link

-- `fresh` is the address that `malloc` gives, NULL if it fails.
unfoldable pub create : (fresh : Ptr) → DirInfo → Ptr → Cmd Lnode Ptr
create fresh value next =
    if fresh == null then (λ h. exited) else (do init fresh (lnode value next); pure fresh)

unfoldable pub add_next : (fresh : Ptr) → Ptr → DirInfo → Cmd Lnode (Unit {0})
add_next fresh node new_value = do
  n ← load node
  new_node ← create fresh new_value n.next
  store node (record n { next = new_node })

-- `*node`; `root` is the value of the caller's variable.
unfoldable pub read_link : (root : Ptr) → Link → Cmd Lnode Ptr
read_link root variable = pure root
read_link root (next_of p) = do n ← load p; pure n.next

-- `*node = next`; the result is the value of the caller's variable.
unfoldable pub write_link : (root : Ptr) → Link → Ptr → Cmd Lnode Ptr
write_link root variable next = pure next
write_link root (next_of p) next = do n ← load p; store p (record n { next = next }); pure root

-- The loop compares the address of an array with `source_dir`: `owner` is the node in which the
-- array at that address stands, or NULL.
unfoldable pub remove : (fuel : ℕ) (root : Ptr) → Link → (owner : Ptr) → Cmd Lnode Ptr
remove zero root node owner = λ h. out_of_fuel
remove (suc fuel) root node owner = do
  p ← read_link root node
  if p == null then pure root else (do
    n ← load p
    if p == owner
        then (do root' ← write_link root node n.next; free p; pure root')
        else remove fuel root (next_of p) owner)

-- The pointer to the record of the directory, which is that of its node.
unfoldable pub find : (fuel : ℕ) → Ptr → Text → Cmd Lnode Ptr
find zero node source_dir = λ h. out_of_fuel
find (suc fuel) node source_dir = if node == null then pure null else (do
  n ← load node
  if str_eq n.value.source_dir source_dir then pure node else find fuel n.next source_dir)

-- Called with the variable that holds `root`.
unfoldable pub destroy : (fuel : ℕ) (root : Ptr) → Cmd Lnode Ptr
destroy zero root = λ h. out_of_fuel
destroy (suc fuel) root =
    if root == null then pure null else (do n ← load root; free root; destroy fuel n.next)
