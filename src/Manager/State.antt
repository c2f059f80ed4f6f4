-- ===== src/Manager/State.antt =====
-- The state of the second loop of `main` (src/fss_manager.c), and what the system gives to it.
use file_sync_system.Common.{ℕ, Bool, Option, List, [], ◌∷◌, ◌++◌}
use file_sync_system.Common.Text.{Text}
use file_sync_system.HashTable.{HashTable}
use file_sync_system.ListNode.{ListNode}
use file_sync_system.Manager.Collect.{Arrivals, Desk}
use file_sync_system.Manager.Config.{Job}
use file_sync_system.MemStore.{Slot}

-- `spawned` are the calls of `execl`, `unwatched` those of `inotify_rm_watch`.
pub record State : Type 0 where
  pub desk : Desk
  pub inotify_map : HashTable
  pub workers_queue : List Text
  pub shutdown_flag : Bool
  pub spawned : List Job
  pub unwatched : List ℕ

-- What `poll` finds on the two descriptors: nothing, bytes from inotify, pieces of text from the
-- FIFO, or no input at all in spite of an event.
pub data Input : Type 0 where
  quiet : Input
  notified : List ℕ → Input
  commanded : List Text → Input
  hung_up : Input

-- `buffer` is the array with what earlier reads left in it; `stale_status` and `stale_in_workers`
-- stand in the fields of `new_value` that are not assigned.
pub record Supply : Type 0 where
  pub arrivals : Arrivals
  pub input : Input
  pub buffer : List ℕ
  pub time : Text
  pub child_pid : Option ℕ
  pub pipe_fd : ℕ
  pub watch_fd : ℕ
  pub leftover : ListNode
  pub fresh : ℕ → ℕ → List Slot
  pub depth : ℕ
  pub stale_status : Text
  pub stale_in_workers : Bool

-- What a round has decided to do: `skipped` is `continue`, `started` sets `workers_flag`.
pub data Decision : Type 0 where
  skipped : Decision
  nothing : Decision
  started : Job → Decision

-- A message to the console.
unfoldable pub say : Text → State → State
say message s = record s { desk = record s.desk { out = s.desk.out ++ message ∷ [] } }
