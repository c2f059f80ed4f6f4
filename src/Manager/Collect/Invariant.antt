-- ===== src/Manager/Collect/Invariant.antt =====
-- The passage over the workers ends, and leaves a table.
use file_sync_system.Common.{
  ℕ, zero, suc, ◌+◌, ◌≤◌, ◌<◌, ◌≡◌, ◌∙◌, refl, ap, Bool, false, List, [], ◌∷◌, arith, ltb,
  Bool-cases, inl, inr, length, ltb→lt,
}
use file_sync_system.Common.Text.{Text}
use file_sync_system.Manager.Collect.{
  Arrivals, Desk, poll, Report, complete, finish, take_input, collect_place, collect_from, collect,
}
use file_sync_system.Manager.Collect.Reports.{
  Any, SameWorkers, output-Ends, or_exit-Ends, complete-Ends,
}
use file_sync_system.Manager.Report.{end_mark, extract_workers_output}
use file_sync_system.Manager.Report.Termination.{extract_workers_output-ends}
use file_sync_system.Manager.Run.{Run, Ends, bind-Ends, of_report, or_exit, read_at}
use file_sync_system.Manager.Scan.{is_substring}
use file_sync_system.Manager.Workers.{PollFd, Workers, receive, release}
use file_sync_system.Manager.Workers.Arrays.{read_at-Ends}
use file_sync_system.Manager.Workers.Invariant.{Shrinks, receive-Ends, release-Shrinks}
use file_sync_system.Manager.Workers.Release.{IsTable}

pub length-poll :
    (ready : ℕ → Bool) (n : ℕ) (fds : List PollFd) → length (poll ready n fds) ≡ length fds
unfolding poll
length-poll ready zero fds = refl
length-poll ready (suc n) [] = refl
length-poll ready (suc n) (place ∷ fds) = ap suc (length-poll ready n fds)

-- A table with at most `n` workers.
pub record AtMost (limit n : ℕ) (d : Desk) : Type 0 where
  pub table : IsTable limit d.workers
  pub fewer : d.workers.num_of_current_workers ≤ n

-- The treatment of a report leaves the workers alone.
module _ (limit : ℕ) (report : (time : Text) → Report → Desk → Run Desk) (a : Arrivals)
    (keeps : (time : Text) (r : Report) (d : Desk) → Ends (SameWorkers d) (report time r d)) where
  finish-AtMost :
      (i n : ℕ) (content : Text) (d : Desk)
      → i < n
      → IsTable limit d.workers
      → d.workers.num_of_current_workers ≡ n
      → Ends (AtMost limit n) (finish report a i content d)
  unfolding finish Ends
  finish-AtMost i n content d used table count =
      bind-Ends Any _ (of_report (extract_workers_output content a.before)) _
        (output-Ends _ (extract_workers_output-ends content a.before))
        λ out _. bind-Ends Any _ (complete out) _ (complete-Ends out) λ r _.
          bind-Ends (SameWorkers d) _ (report a.time r d) _ (keeps a.time r d) λ d' same.
            bind-Ends (Shrinks limit d'.workers) _ (release i d'.workers) _
              (release-Shrinks limit d'.workers (rw same table) i (rw same (omega arith)))
              λ workers s. record {
                table = s.table;
                fewer = omega (arith, s.fewer, ap (λ (w : Workers). w.num_of_current_workers) same);
              }

  take_input-AtMost :
      (i n : ℕ) (buffer : Text) (d : Desk)
      → i < n
      → IsTable limit d.workers
      → d.workers.num_of_current_workers ≡ n
      → Ends (AtMost limit n) (take_input report a i buffer d)
  unfolding take_input Ends
  take_input-AtMost i n buffer d used table count =
      bind-Ends _ _ (receive i buffer d.workers) _ (receive-Ends limit d.workers table i buffer)
        λ (content, workers) (table', same).
          let d' = record d { workers = workers } in
          elim (Bool-cases (is_substring content end_mark)) [
            | inl whole ↦ rw whole (finish-AtMost i n content d' used table' (same ∙ count))
            | inr part ↦ rw part (record { table = table'; fewer = omega arith })
          ]

  collect_place-AtMost :
      (i n : ℕ) (d : Desk)
      → i < n
      → IsTable limit d.workers
      → d.workers.num_of_current_workers ≡ n
      → Ends (AtMost limit n) (collect_place report a i d)
  unfolding collect_place Ends
  collect_place-AtMost i n d used table count =
      bind-Ends _ _ (read_at d.workers.fds_array i) _ (read_at-Ends d.workers.fds_array i)
        λ place _. elim (Bool-cases place.revents) [
          | inl set ↦ rw set (
              bind-Ends Any _ (or_exit (a.arrived place.fd)) _ (or_exit-Ends (a.arrived place.fd))
                (λ buffer _. take_input-AtMost i n buffer d used table count))
          | inr clear ↦ rw clear (record { table = table; fewer = omega arith })
        ]

  collect_from-AtMost :
      (fuel i n : ℕ) (d : Desk)
      → AtMost limit n d
      → n ≤ i + fuel
      → Ends (AtMost limit n) (collect_from report a fuel i d)
  unfolding collect_from Ends
  collect_from-AtMost zero i n d h enough =
      let over : ltb i d.workers.num_of_current_workers ≡ false = ground (arith, h.fewer) in
      rw over h
  collect_from-AtMost (suc fuel) i n d h enough =
      let num = d.workers.num_of_current_workers in
      elim (Bool-cases (ltb i num)) [
        | inl more ↦ rw more (
            bind-Ends (AtMost limit num) _ (collect_place report a i d) _
              (collect_place-AtMost i num d (ltb→lt _ _ more) h.table refl)
              (λ d' h'.
                collect_from-AtMost fuel (i + 1) n d'
                  (record { table = h'.table; fewer = omega (arith, h.fewer, h'.fewer) })
                  (omega arith)))
        | inr over ↦ rw over h
      ]

  -- The passage over the workers never runs out of its fuel, and if it returns, the table of workers
  -- is one of the same limit, with no more workers than before.
  pub collect-Ends :
      (d : Desk)
      → IsTable limit d.workers
      → Ends (AtMost limit d.workers.num_of_current_workers) (collect report a d)
  unfolding collect
  collect-Ends d table =
      let n = d.workers.num_of_current_workers in
      collect_from-AtMost n 0 n _
        (record {
          table = record {
            pids = table.pids;
            fds = length-poll a.ready n d.workers.fds_array ∙ table.fds;
            pointers = table.pointers;
            room = table.room;
            owned = table.owned;
          };
          fewer = omega arith;
        })
        (omega arith)
