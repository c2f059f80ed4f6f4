-- ===== src/Protocol/Startup/Start.antt =====
-- The start of a worker where there is room in the table and in the store.
use file_sync_system.Common.{
  false, none, ◌%◌, ◌==◌, length, ℕ, suc, ◌+◌, ◌*◌, ◌≤◌, ◌<◌, ◌≡◌, refl, sym, subst, some, [], ◌∷◌,
  ◌++◌, arith, lt→ltb,
}
use file_sync_system.Common.Text.{Text}
use file_sync_system.HashTable.{HashTable}
use file_sync_system.HashTable.Insert.{insert-IsValid}
use file_sync_system.HashTable.Keys as Keys
use file_sync_system.ListNode.{null}
use file_sync_system.Manager.Collect.{Arrivals, Desk}
use file_sync_system.Manager.Command.Words.{IsWord}
use file_sync_system.Manager.Config.{
  Supply, Config, new_dir, full_job, pair_text, start_worker, start_or_push,
}
use file_sync_system.Manager.Config.Waiting.{parse_pair-pair_text}
use file_sync_system.Manager.Run.{ok}
use file_sync_system.Manager.Workers.Release.{IsTable}
use file_sync_system.Manager.Workers.Sharing.{launch-Launched}
use file_sync_system.MemStore as Store
use file_sync_system.MemStore.Invariant.{IsValid}
use file_sync_system.MemStore.Lookup.{HasRoom, add-IsValid, find-add}
use file_sync_system.Protocol.Startup.Found.{Found, add-Found, add-Found_self}
use file_sync_system.Protocol.Startup.Report.{Empty}
use file_sync_system.Protocol.Startup.Passed.{Passed}

-- The tables are valid, with room for `n` workers more, and one place behind them.
pub record Fit (limit n : ℕ) (d : Desk) (map : HashTable) : Type 0 where
  pub table : IsTable limit d.workers
  pub empty : Empty d.workers.buffers
  pub store : IsValid d.mem
  pub keys : Keys.IsValid map
  pub room : d.workers.num_of_current_workers + n < limit
  pub space : (d.mem.size + n) * 10 ≤ d.mem.capacity * 9

-- What a round is given: `fork` gives a child, and `malloc` zeros in a new node of the table of
-- watches, whose field `next` the code does not assign. The recursion of the store has a step.
pub record Served (su : Supply) : Type 0 where
  pub child : ℕ
  pub forked : su.child_pid ≡ some child
  pub zeros : su.leftover ≡ null
  pub below : ℕ
  pub steps : su.depth ≡ suc below

pub Passed-Fit :
    (limit n gone : ℕ) (a : Arrivals) (d : Desk) (map : HashTable)
    → Fit limit n d map
    → (p : Passed limit gone a d) → Fit limit n p.after map
Passed-Fit limit n gone a d map f p = record {
  table = p.table;
  empty = p.empty;
  store = p.store;
  keys = f.keys;
  room = omega (arith, f.room, p.fewer);
  space = rw (p.size, p.capacity) f.space;
}

-- A worker more.
pub record Begun (limit n : ℕ) (su : Supply) (s t : Text) (c : Config) : Type 0 where
  pub desk : Desk
  pub map : HashTable
  pub ends :
      start_or_push limit su (pair_text s t) c
      ≡ ok (record c { desk = desk; inotify_map = map; spawned = c.spawned ++ full_job s t ∷ [] })
  pub fit : Fit limit n desk map
  pub one_more : desk.workers.num_of_current_workers ≡ c.desk.workers.num_of_current_workers + 1
  pub found : (name : Text) → Found c.desk.mem name → Found desk.mem name
  pub added : Store.add su.fresh su.depth c.desk.mem (new_dir s t) ≡ Store.ok desk.mem

pub start-Begun :
    (limit n : ℕ) (su : Supply) (s t : Text) (c : Config)
    → IsWord s
    → IsWord t
    → Served su
    → Fit limit (suc n) c.desk c.inotify_map
    → Begun limit n su s t c
unfolding start_or_push start_worker new_dir
start-Begun limit n su s t c ws wt v f =
    let (map', inserted, keys) = insert-IsValid c.inotify_map su.watch_fd s f.keys in
    let room : HasRoom c.desk.mem = omega (arith, f.space) in
    let (mem', added, store, size, capacity) =
      add-IsValid su.fresh v.below c.desk.mem f.store room (new_dir s t) in
    let l =
      launch-Launched limit c.desk.workers v.child su.pipe_fd f.table (omega (arith, f.room)) in
    record {
      desk = record c.desk { mem = mem'; workers = l.after };
      map = map';
      ends =
          rw
            (
              lt→ltb c.desk.workers.num_of_current_workers limit (omega (arith, f.room)),
              parse_pair-pair_text s t ws wt,
              v.forked,
              v.zeros,
              inserted,
              v.steps,
              added,
              l.ends,
            )
            refl;
      fit = record {
        table = l.shape;
        empty = subst Empty (sym l.texts_kept) f.empty;
        store = store;
        keys = keys;
        room = omega (arith, f.room, l.one_more);
        space = omega (arith, f.space, size, capacity);
      };
      one_more = l.one_more;
      found = add-Found su.fresh v.below c.desk.mem mem' f.store room (new_dir s t) added;
      added = rw v.steps added;
    }

module _ (limit n : ℕ) (su : Supply) (s t : Text) (c : Config) (v : Served su)
    (f : Fit limit (suc n) c.desk c.inotify_map) (b : Begun limit n su s t c) where
  added_below : Store.add su.fresh (suc v.below) c.desk.mem (new_dir s t) ≡ Store.ok b.desk.mem
  added_below = rw (← v.steps) b.added

  room : HasRoom c.desk.mem
  room = omega (arith, f.space)

  -- A pair with names of one length is found.
  pub begun-Found : length s ≡ length t → Found b.desk.mem s
  unfolding new_dir
  begun-Found same =
      add-Found_self su.fresh v.below c.desk.mem b.desk.mem f.store room (new_dir s t) added_below
        same

  -- A new pair with names whose lengths differ, modulo the capacity, is not found.
  pub begun_unknown :
      Store.find c.desk.mem s ≡ Store.ok none
      → (length s % c.desk.mem.capacity == length t % c.desk.mem.capacity) ≡ false
      → Store.find b.desk.mem s ≡ Store.ok none
  unfolding new_dir
  begun_unknown new differ =
      let e = find-add su.fresh v.below c.desk.mem f.store room (new_dir s t) new in
      rw (added_below, differ) at e
