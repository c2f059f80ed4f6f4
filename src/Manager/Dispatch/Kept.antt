-- ===== src/Manager/Dispatch/Kept.antt =====
-- What a command of the console leaves alone.
use file_sync_system.Common.{ℕ, ◌≡◌, Option, List, arith}
use file_sync_system.Common.Text.{Text}
use file_sync_system.Manager.Command.{Request, parse_command}
use file_sync_system.Manager.Dispatch.{
  watch, begin, on_add, status_lines, on_status, on_sync, on_cancel, on_shutdown, perform, gather,
  command,
}
use file_sync_system.Manager.Event.{notify, on_found}
use file_sync_system.Manager.Run.{ok, >>=-eq-ok, not_null}
use file_sync_system.Manager.State.{State, Supply, Decision, say}

-- The queue, the workers and what has been started stay as they are.
pub record Kept (s s' : State) : Type 0 where
  pub queue : s'.workers_queue ≡ s.workers_queue
  pub workers : s'.desk.workers ≡ s.desk.workers
  pub spawned : s'.spawned ≡ s.spawned

module _ (su : Supply) (d : Decision) (s s' : State) where
  begin-Kept : (a b : Text) → begin su a b s ≡ ok (d, s') → Kept s s'
  unfolding begin watch say
  begin-Kept a b e = ground arith

  on_status-Kept : (a : Option Text) → on_status su a s ≡ ok (d, s') → Kept s s'
  unfolding on_status status_lines say
  on_status-Kept a e = ground arith

  on_cancel-Kept : (a : Option Text) → on_cancel su a s ≡ ok (d, s') → Kept s s'
  unfolding on_cancel say
  on_cancel-Kept a e = ground arith

  on_sync-Kept : (a : Option Text) → on_sync su a s ≡ ok (d, s') → Kept s s'
  unfolding on_sync say watch
  on_sync-Kept a e = ground arith

  on_add-Kept : (a b : Option Text) → on_add su a b s ≡ ok (d, s') → Kept s s'
  unfolding on_add begin watch say
  on_add-Kept a b e = ground arith

  perform-Kept : (r : Request) → perform su r s ≡ ok (d, s') → Kept s s'
  unfolding perform on_shutdown say
  perform-Kept (Request.add a b) e = on_add-Kept a b e
  perform-Kept (Request.status a) e = on_status-Kept a e
  perform-Kept (Request.sync a) e = on_sync-Kept a e
  perform-Kept (Request.cancel a) e = on_cancel-Kept a e
  perform-Kept Request.shutdown e = ground arith
  perform-Kept Request.wrong e = ground arith

  -- A command leaves the queue and the workers alone, and starts nothing by itself.
  pub command-Kept : (pieces : List Text) → command su pieces s ≡ ok (d, s') → Kept s s'
  unfolding command
  command-Kept pieces e =
      let (buffer, _, e₁) = >>=-eq-ok (gather su pieces) _ e in
      let (r, _, e₂) = >>=-eq-ok (not_null (parse_command buffer)) _ e₁ in perform-Kept r e₂

  pub notify-Kept : (input buffer : List ℕ) → notify input buffer s ≡ ok (d, s') → Kept s s'
  unfolding notify on_found
  notify-Kept input buffer e = ground arith
