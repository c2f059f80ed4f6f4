-- ===== src/Manager/Dispatch/Cancel.antt =====
-- `cancel`, and the commands behind it.
use file_sync_system.Common.{ℕ, ◌≡◌, ◌≢◌, true, false, some, [], ◌∷◌, ◌++◌, if◌then◌else◌}
use file_sync_system.Common.Text.{Text, codes, str_eq}
use file_sync_system.HashTable as Watches
use file_sync_system.Lnode.{DirInfo}
use file_sync_system.Manager.Collect.{stamped}
use file_sync_system.Manager.Command.{Request}
use file_sync_system.Manager.Dispatch.{perform, not_monitored}
use file_sync_system.Manager.Run.{ok, of_table}
use file_sync_system.Manager.State.{State, Supply, nothing, say}
use file_sync_system.MemStore as Store

-- A pair that is monitored, by a watch that could be added, and no worker is at it.
pub record Monitored (s : State) (name : Text) : Type 0 where
  pub fd : ℕ
  pub info : DirInfo
  pub watched : of_table (Watches.find_key s.inotify_map name) ≡ ok fd
  pub was_added : fd ≢ Watches.minus_one
  pub found : Store.find s.desk.mem name ≡ Store.ok (some info)
  pub active : info.is_active ≡ true
  pub free : info.is_in_workers ≡ false

-- The state after `cancel`.
pub record Cancelled (su : Supply) (s : State) (name : Text) : Type 0 where
  pub after : State
  pub fd : ℕ
  pub ends : perform su (Request.cancel (some name)) s ≡ ok (nothing, after)
  pub removed : after.unwatched ≡ s.unwatched ++ fd ∷ []
  pub map_kept : after.inotify_map ≡ s.inotify_map
  pub info : DirInfo
  pub known : Store.find s.desk.mem name ≡ Store.ok (some info)
  pub lookup :
      (other : Text)
      → Store.find after.desk.mem other ≡ (
          if str_eq name other
          then Store.ok (some (record info { is_active = false }))
          else Store.find s.desk.mem other)
  pub sync :
      (su' : Supply)
      → perform su' (Request.sync (some name)) after
        ≡ ok (nothing, say (stamped su'.time (not_monitored name)) after)
  pub again :
      (su' : Supply)
      → perform su' (Request.cancel (some name)) after
        ≡ ok (nothing, say (stamped su'.time (codes "Directory not monitored\n")) after)
