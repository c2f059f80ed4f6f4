-- ===== src/Manager/Collect/Reports.antt =====
-- What the manager does with a report ends, and leaves the workers alone.
use file_sync_system.Common.{◌≡◌, ◌≢◌, refl, Bool, true, Option, none, some, get_elem?}
use file_sync_system.Common.Text.{Text, codes, str_eq}
use file_sync_system.Lnode.{DirInfo, Chain}
use file_sync_system.Manager.Collect.{
  Desk, reported, Report, complete, record_report, first_report, second_report,
}
use file_sync_system.Manager.Report.{Output, end_mark, extract_workers_output}
use file_sync_system.Manager.Report as P
use file_sync_system.Manager.Run.{
  Run, exited, Ends, bind-Ends, of_store, of_report, not_null, or_exit,
}
use file_sync_system.MemStore as Store
use file_sync_system.MemStore.{MemStore}

abbrev pub Any {ℓ} : {A : Type ℓ} → A → Type 0
Any a = Unit

-- Nothing but the store and the output changes.
abbrev pub SameWorkers : Desk → Desk → Type 0
SameWorkers d d' = d'.workers ≡ d.workers

slot_of-Ends :
    (o : Option Store.Slot)
    → elim o as (λ _. Store.Run Chain) [
      | none ↦ Store.fault
      | some slot ↦ elim slot [ Store.chain c ↦ Store.ok c | Store.indeterminate ↦ Store.fault ]
    ]
      ≢ Store.out_of_fuel
slot_of-Ends none = λ e. cc
slot_of-Ends (some (Store.chain c)) = λ e. cc
slot_of-Ends (some Store.indeterminate) = λ e. cc

slot-Ends :
    {A : Type 0} (f : Chain → A) (r : Store.Run Chain)
    → r ≢ Store.out_of_fuel
    → Ends Any (of_store (Store.◌>>=◌ r (λ c. Store.ok (f c))))
unfolding Ends
slot-Ends f (Store.ok c) h = tt
slot-Ends f Store.fault h = tt
slot-Ends f Store.out_of_fuel h = elim (h refl) [ ]

find-Ends : (mem : MemStore) (name : Text) → Ends Any (of_store (Store.find mem name))
unfolding Store.find Store.read_slot
find-Ends mem name =
    slot-Ends _ (Store.read_slot mem (Store.pos mem name))
      (slot_of-Ends (get_elem? mem.hash_table (Store.pos mem name)))

write-Ends :
    (change : DirInfo → DirInfo) (mem : MemStore) (name : Text)
    → Ends Any (of_store (Store.write change mem name))
unfolding Store.write Store.read_slot
write-Ends change mem name =
    slot-Ends _ (Store.read_slot mem (Store.pos mem name))
      (slot_of-Ends (get_elem? mem.hash_table (Store.pos mem name)))

pub output-Ends : (r : P.Parse Output) → r ≢ P.out_of_fuel → Ends Any (of_report r)
unfolding Ends
output-Ends (P.done out) h = tt
output-Ends P.null_deref h = tt
output-Ends P.out_of_fuel h = elim (h refl) [ ]

not_null-Ends {ℓ} : {A : Type ℓ} (o : Option A) → Ends Any (not_null o)
unfolding Ends
not_null-Ends none = tt
not_null-Ends (some a) = tt

pub or_exit-Ends {ℓ} : {A : Type ℓ} (o : Option A) → Ends Any (or_exit o)
unfolding Ends
or_exit-Ends none = tt
or_exit-Ends (some a) = tt

pub complete-Ends : (out : Output) → Ends Any (complete out)
unfolding complete Ends
complete-Ends out =
    bind-Ends Any Any (not_null out.source_dir) _ (not_null-Ends out.source_dir) λ source_dir _.
      bind-Ends Any Any (not_null out.target_dir) _ (not_null-Ends out.target_dir) λ target_dir _.
        bind-Ends Any Any (not_null out.operation) _ (not_null-Ends out.operation) λ operation _.
          bind-Ends Any Any (not_null out.status) _ (not_null-Ends out.status) λ status _.
            bind-Ends Any Any (not_null out.details) _ (not_null-Ends out.details) λ details _. tt

record_report-Ends :
    (is_full : Bool) (time : Text) (r : Report) (mem : MemStore)
    → Ends Any (record_report is_full time r mem)
unfolding record_report
record_report-Ends is_full time r mem =
    bind-Ends Any Any (of_store (Store.find mem r.source_dir)) _ (find-Ends mem r.source_dir)
      recorded
  where
    recorded :
        (o : Option DirInfo)
        → Unit {0}
        → Ends Any (elim o as (λ _. Run MemStore) [
          | none ↦ exited
          | some _ ↦
              of_store
                (Store.write (reported is_full r.errors_found time r.status) mem r.source_dir)
        ])
    recorded none _ = unfold Ends in tt
    recorded (some _) _ = write-Ends _ mem r.source_dir

pub first_report-Ends :
    (time : Text) (r : Report) (d : Desk) → Ends (SameWorkers d) (first_report time r d)
unfolding first_report Ends
first_report-Ends time r d =
    bind-Ends Any _ (record_report true time r d.mem) _ (record_report-Ends true time r d.mem)
      (λ mem _. refl)

pub second_report-Ends :
    (time : Text) (r : Report) (d : Desk) → Ends (SameWorkers d) (second_report time r d)
unfolding second_report Ends
second_report-Ends time r d =
    let is_full = str_eq r.operation (codes "FULL") in
    bind-Ends Any _ (record_report is_full time r d.mem) _ (record_report-Ends is_full time r d.mem)
      (λ mem _. refl)
