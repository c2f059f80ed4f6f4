-- ===== src/Manager/Dispatch.antt =====
-- The commands of the console in the second loop of `main` (src/fss_manager.c).
pub mod Kept
pub mod Cancel
use file_sync_system.Common.{
  ℕ, ◌+◌, ◌==◌, Bool, true, false, Option, none, some, List, [], ◌∷◌, ◌++◌, if◌then◌else◌,
}
use file_sync_system.Common.Text.{Text, codes}
use file_sync_system.HashTable as Watches
use file_sync_system.Lnode.{DirInfo}
use file_sync_system.Manager.Collect.{stamped}
use file_sync_system.Manager.Command.{Request, parse_command}
use file_sync_system.Manager.Config.{Job}
use file_sync_system.Manager.Run.{Run, ok, out_of_fuel, ◌>>=◌, of_store, of_table, not_null}
use file_sync_system.Manager.Scan.{is_full_command}
use file_sync_system.Manager.State.{State, Supply, Decision, nothing, started, say}
use file_sync_system.MemStore as Store
use file_sync_system.MemStore.{MemStore}
use file_sync_system.Worker.Number.{number_to_string}

abbrev with_mem : State → MemStore → State
with_mem s mem = record s { desk = record s.desk { mem = mem } }

abbrev pub arrow : Text → Text → Text
arrow source_dir target_dir = source_dir ++ (codes " -> " ++ target_dir)

unfoldable pub full_job : (source_dir target_dir : Text) → Job
full_job source_dir target_dir = record {
  source_dir = source_dir;
  target_dir = target_dir;
  filename = codes "all";
  operation = codes "FULL";
}

-- `new_value`
unfoldable pub new_value : Supply → (source_dir target_dir : Text) → DirInfo
new_value su source_dir target_dir = record {
  source_dir = source_dir;
  target_dir = target_dir;
  status = su.stale_status;
  last_sync_time = [];
  active_error_count = 0;
  is_active = true;
  is_in_workers = su.stale_in_workers;
}

unfoldable pub not_monitored : Text → Text
not_monitored source_dir = codes "Directory " ++ (source_dir ++ codes " not monitored\n")

module _ (su : Supply) where
  abbrev pub answer : Text → State → Run (Decision × State)
  answer message s = ok (nothing, say (stamped su.time message) s)

  -- A watch on the directory is put into the table.
  unfoldable pub watch : Text → State → Run State
  watch source_dir s =
      of_table (Watches.insert su.leftover s.inotify_map su.watch_fd source_dir) >>= λ map.
      ok (record s { inotify_map = map })

  -- `add` on a pair that is monitored from now on.
  unfoldable pub begin : (source_dir target_dir : Text) → State → Run (Decision × State)
  begin source_dir target_dir s = watch source_dir s >>= λ s'. ok (
    started (full_job source_dir target_dir),
    say (stamped su.time (codes "Added directory " ++ (arrow source_dir target_dir ++ codes "\n")))
        s',
  )

  unfoldable pub on_add : (source_dir target_dir : Option Text) → State → Run (Decision × State)
  on_add source target s = not_null source >>= λ source_dir.
      of_store (Store.find s.desk.mem source_dir) >>= λ dir_value. elim dir_value [
        | none ↦ not_null target >>= λ target_dir.
            of_store (Store.add su.fresh su.depth s.desk.mem (new_value su source_dir target_dir))
            >>= λ mem. begin source_dir target_dir (with_mem s mem)
        | some d ↦
            if d.is_active
            then answer (codes "File is already monitored\n") s
            else not_null target >>= λ target_dir.
                of_store (
                  Store.write (λ v. record v { is_active = true; target_dir = target_dir })
                    s.desk.mem source_dir)
                >>= λ mem. begin source_dir target_dir (with_mem s mem)
      ]

  unfoldable pub status_lines : Text → DirInfo → State → State
  status_lines source_dir d s = say (codes "\tStatus: " ++ (d.status ++ codes "\n")) (
      say (codes "\tErrors: " ++ (number_to_string d.active_error_count ++ codes "\n")) (
        say (codes "\tLast Sync:" ++ (d.last_sync_time ++ codes "\n")) (
          say
            (codes "\tIs Active: "
              ++ ((if d.is_active then codes "yes" else codes "no") ++ codes "\n"))
            (say (codes "\tTarget: " ++ (d.target_dir ++ codes "\n")) (
              say (codes "\tDirectory: " ++ (source_dir ++ codes "\n")) (
                say (stamped su.time (codes "Status requested for " ++ (source_dir ++ codes "\n")))
                  s))))))

  unfoldable pub on_status : Option Text → State → Run (Decision × State)
  on_status source s = not_null source >>= λ source_dir.
      of_store (Store.find s.desk.mem source_dir) >>= λ status_info. elim status_info [
        | none ↦ answer (not_monitored source_dir) s
        | some d ↦ ok (nothing, status_lines source_dir d s)
      ]

  unfoldable pub on_sync : Option Text → State → Run (Decision × State)
  on_sync source s = not_null source >>= λ source_dir.
      of_store (Store.find s.desk.mem source_dir) >>= λ info. elim info [
        | none ↦ answer (not_monitored source_dir) s
        | some d ↦
            if d.is_in_workers
            then answer (codes "Sync already in progress " ++ (source_dir ++ codes "\n")) s
            else if d.is_active
            then (watch source_dir s >>= λ s'. ok (
              started (full_job source_dir d.target_dir),
              say
                  (stamped su.time
                    (codes "Syncing directory: " ++ (arrow source_dir d.target_dir ++ codes "\n")))
                  s',
            ))
            else answer (not_monitored source_dir) s
      ]

  -- `wd` is -1 if no watch has the name, and also if a watch could not be added for it.
  unfoldable pub on_cancel : Option Text → State → Run (Decision × State)
  on_cancel source s = of_table (Watches.find_key_of s.inotify_map source) >>= λ wd.
      if wd == Watches.minus_one
      then answer (codes "Directory not monitored\n") s
      else (not_null source >>= λ source_dir.
          of_store (Store.find s.desk.mem source_dir) >>= not_null >>= λ d.
          if d.is_active
          then (of_store (Store.write (λ v. record v { is_active = false }) s.desk.mem source_dir)
              >>= λ mem.
                  answer (codes "Monitoring stopped for " ++ (source_dir ++ codes "\n"))
                    (record (with_mem s mem) { unwatched = s.unwatched ++ wd ∷ [] }))
          else answer (codes "Directory not monitored\n") s)

  unfoldable pub on_shutdown : State → State
  on_shutdown s =
      record (say (codes "[" ++ (su.time ++ codes " ]Waiting for all active workers to finish.\n"))
        (say (stamped su.time (codes "Shuting down manager...\n")) s)) { shutdown_flag = true }

  unfoldable pub perform : Request → State → Run (Decision × State)
  perform (Request.add source target) s = on_add source target s
  perform (Request.status source) s = on_status source s
  perform (Request.sync source) s = on_sync source s
  perform (Request.cancel source) s = on_cancel source s
  perform Request.shutdown s = ok (nothing, on_shutdown s)
  perform Request.wrong s = ok (nothing, say (codes "Wrong command given\n") s)

  -- The pieces that `read` gives up to one with a newline; the loop waits for ever without one.
  unfoldable pub gather : List Text → Run Text
  gather [] = out_of_fuel
  gather (piece ∷ pieces) =
      let rest = gather pieces >>= λ text. ok (piece ++ text) in
      if is_full_command piece then ok piece else rest

  unfoldable pub command : List Text → State → Run (Decision × State)
  command pieces s =
      gather pieces >>= λ buffer. not_null (parse_command buffer) >>= λ r. perform r s
