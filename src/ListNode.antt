-- ===== src/ListNode.antt =====
-- `list_node` (include/list_node.h, src/list_node.c): the chains of the table of watches. `malloc`
-- is taken to succeed. A `key` is given as the bits of the `int`, below 2 ^ 32.
pub mod Destroy
use file_sync_system.Common.{ℕ, Bool, true, false, Option, none, some, ◌==◌, if◌then◌else◌}
use file_sync_system.Common.Text.{Text}

pub record Pair : Type 0 where
  pub key : ℕ
  pub value : Text

-- A `list_node *`, which owns what it points to. `wild` is a pointer to nothing of the program's.
pub data ListNode : Type 0 where
  null : ListNode
  wild : ListNode
  node : Pair → (next : ListNode) → ListNode

-- `fault` is an access through NULL or a wild pointer.
pub data Run {ℓ} (A : Type ℓ) : Type ℓ where
  ok : A → Run A
  fault : Run A

infixl 5 ◌>>=◌
abbrev pub ◌>>=◌ {ℓ κ} : {A : Type ℓ} {B : Type κ} → Run A → (A → Run B) → Run B
ok a >>= f = f a
fault >>= f = fault

abbrev pub new_pair : ℕ → Text → Pair
new_pair key new_value = record { key = key; value = new_value }

-- The function does not assign `next`: the node keeps what `malloc` left there.
unfoldable pub list_node_create : (leftover : ListNode) → ℕ → Text → (next : ListNode) → ListNode
list_node_create leftover key new_value next = node (new_pair key new_value) leftover

unfoldable pub list_node_add : (leftover lst : ListNode) → ℕ → Text → Run ListNode
list_node_add leftover null key new_value = fault
list_node_add leftover wild key new_value = fault
list_node_add leftover (node value next) key new_value =
    ok (node value (list_node_create leftover key new_value next))

unfoldable pub list_node_find : ListNode → ℕ → Run (Option Pair)
list_node_find null key = ok none
list_node_find wild key = fault
list_node_find (node value next) key =
    let rest = list_node_find next key in if value.key == key then ok (some value) else rest

-- What the pointer that `lst` points at holds when the loop ends. With `removed`, the loop is about
-- to step through that pointer, without a test, since it has just removed the node before.
unfoldable pub remove_loop : (removed : Bool) → ListNode → ℕ → Run ListNode
remove_loop true null key = fault
remove_loop true wild key = fault
remove_loop true (node value next) key = remove_loop false next key >>= λ n. ok (node value n)
remove_loop false null key = ok null
remove_loop false wild key = fault
remove_loop false (node value next) key =
    let without = remove_loop true next key in
    let rest = remove_loop false next key in
    if value.key == key then without else rest >>= λ n. ok (node value n)

unfoldable pub list_node_remove : ListNode → ℕ → Run ListNode
list_node_remove lst key = remove_loop false lst key

-- The same for the nodes that are to be freed.
unfoldable pub destroy_loop : (removed : Bool) → ListNode → Run ListNode
destroy_loop true null = fault
destroy_loop true wild = fault
destroy_loop true (node value next) = destroy_loop false next >>= λ n. ok (node value n)
destroy_loop false null = ok null
destroy_loop false wild = fault
destroy_loop false (node value next) = destroy_loop true next

unfoldable pub list_node_destroy : ListNode → Run ListNode
list_node_destroy lst = destroy_loop false lst
