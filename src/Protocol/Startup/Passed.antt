-- ===== src/Protocol/Startup/Passed.antt =====
-- The passage over the workers in which one worker's whole report arrives.
use file_sync_system.Common.{
  ℕ, ◌+◌, ◌<◌, ◌≡◌, ◌≢◌, ◌∙◌, refl, sym, ap, true, some, List, [], arith, ◌==◌, Bool-cases, inl,
  inr, length, get_elem?, set, length-set, get_elem?-set_self, get_elem?-set_ne, lt-get_elem?,
}
use file_sync_system.Common.Text.{Text}
use file_sync_system.Lnode.{DirInfo}
use file_sync_system.Manager.Collect.{
  Arrivals, Desk, reported, record_report, first_report, collect,
}
use file_sync_system.Manager.Run.{ok}
use file_sync_system.Manager.Workers.{Workers}
use file_sync_system.Manager.Workers.Release.{IsTable, release-Released}
use file_sync_system.MemStore as Store
use file_sync_system.MemStore.Invariant.{IsValid}
use file_sync_system.MemStore.Write.{write-Written, write-IsValid}
use file_sync_system.Protocol.Delivery.{record_of}
use file_sync_system.Protocol.RoundTrip.{printed_errors}
use file_sync_system.Protocol.Startup.Collect.{collect-one}
use file_sync_system.Manager.Config.{Job}
use file_sync_system.Protocol.Startup.Found.{Found, write-Found}
use file_sync_system.Protocol.Startup.Report.{
  Empty, Whole, whole, the_report, received, received-IsTable, taken, idle_behind, buffer_of,
}
use file_sync_system.Protocol.Startup.Poll.{polled}
use file_sync_system.Worker.Report.{status}

-- A pass that ends, with `gone` workers less.
pub record Passed (limit gone : ℕ) (a : Arrivals) (d : Desk) : Type 0 where
  pub after : Desk
  pub ends : collect first_report a d ≡ ok after
  pub table : IsTable limit after.workers
  pub fewer : after.workers.num_of_current_workers + gone ≡ d.workers.num_of_current_workers
  pub empty : Empty after.workers.buffers
  pub store : IsValid after.mem
  pub size : after.mem.size ≡ d.mem.size
  pub capacity : after.mem.capacity ≡ d.mem.capacity
  pub found : (name : Text) → Found d.mem name → Found after.mem name

some_injective : {A : Type 0} (a b : A) → some a ≡ some b → a ≡ b
some_injective a b e = ground (arith, e)

Empty-set :
    (buffers : List Text) (p q : ℕ) (text : Text)
    → Empty buffers
    → p ≡ q
    → Empty (set (set buffers p text) q [])
Empty-set buffers p q text empty same k t e = elim (Bool-cases (k == q)) [
  | inl at ↦
      let at_q : k ≡ q = ground arith in
      let inside : q < length (set (set buffers p text) q []) =
        omega (arith, lt-get_elem? (set (set buffers p text) q []) k t e) in
      let inside' : q < length (set buffers p text) =
        omega (arith, length-set (set buffers p text) q []) in
      some_injective t [] (
        sym e
        ∙ ap (get_elem? (set (set buffers p text) q [])) at_q
        ∙ get_elem?-set_self (set buffers p text) q [] inside')
  | inr apart ↦
      let ne : q ≢ k = λ h. ground arith in
      let ne' : p ≢ k = λ h. ne (sym same ∙ h) in
      empty k t (
        sym (get_elem?-set_ne buffers text ne')
        ∙ sym (get_elem?-set_ne (set buffers p text) [] ne)
        ∙ e)
]

module _ (limit : ℕ) (a : Arrivals) (d : Desk) (table : IsTable limit d.workers)
    (free : d.workers.num_of_current_workers < limit) (empty : Empty d.workers.buffers)
    (spawned : List Job) (w : Whole a d spawned) (known : Found d.mem w.source_dir) where
  abbrev before : Desk
  before = polled a d

  text : Text
  text = whole limit a d table free empty spawned w

  got : ℕ → Workers
  got = received limit a d table free empty spawned w

  -- The change of the pair's record.
  abbrev change : DirInfo → DirInfo
  change = reported true (printed_errors w.outcome w.lines) a.time (status w.outcome)

  -- The treatment of the report in the first loop.
  treated :
      (mem' : Store.MemStore) (w' : Workers)
      → Store.write change d.mem w.source_dir ≡ Store.ok mem'
      → first_report a.time
          (the_report limit a d table free empty spawned w)
          (record before { workers = w' })
        ≡ ok (record before { mem = mem'; workers = w' })
  unfolding first_report record_report record_of polled whole
  treated mem' w' e = rw (known.1, e) refl

  -- The pass ends, the worker has left the table, and its report is in the store.
  pub arrival-Passed : IsValid d.mem → Passed limit 1 a d
  unfolding received polled whole reported got text
  arrival-Passed valid =
      let (p, at, content) = buffer_of limit a d table free empty spawned w in
      let write = write-Written change (λ v. refl) w.source_dir d.mem known.0 known.1 in
      let (valid', size, capacity) =
        write-IsValid change d.mem write.after w.source_dir valid write.ends in
      let r =
        release-Released limit (got p) (received-IsTable limit a d table free empty spawned w p)
          w.place w.only.used free in
      let same : p ≡ r.pointer = some_injective p r.pointer (sym at ∙ r.pointed) in
      let after : Desk = record before { mem = write.after; workers = r.after } in
      record {
        after = after;
        ends =
            collect-one first_report a limit d after w.place text table w.only
              (taken limit a d table free empty spawned w p at content
                ∙ rw (treated write.after (got p) write.ends, r.ends) refl)
              r.shape (omega (arith, r.one_less))
              (idle_behind limit a d table free empty spawned w p r.after r.one_less r.fds);
        table = r.shape;
        fewer = r.one_less;
        empty = rw r.cleared (Empty-set d.workers.buffers p r.pointer text empty same);
        store = valid';
        size = size;
        capacity = capacity;
        found = λ name. write-Found change (λ v. refl) w.source_dir d.mem known.0 write name;
      }
