-- ===== src/Protocol/Startup/Collect.antt =====
-- The passage over the workers when none has written, and when one has written its whole report.
use file_sync_system.Common.{
  ℕ, zero, suc, ◌+◌, ◌-◌, ◌≤◌, ◌<◌, ◌≡◌, ◌∙◌, refl, ap, true, false, some, arith, ltb, Bool-cases,
  inl, inr, get_elem?, get_elem?-lt, lt→ltb,
}
use file_sync_system.Common.Text.{Text}
use file_sync_system.Manager.Collect.{
  Arrivals, Desk, Report, take_input, collect_place, collect_from, collect,
}
use file_sync_system.Manager.Run.{exited, Run, ok, ◌>>=◌}
use file_sync_system.Manager.Workers.{PollFd, Workers}
use file_sync_system.Manager.Workers.Arrays.{read_at-ok}
use file_sync_system.Manager.Workers.Release.{IsTable}
use file_sync_system.Protocol.Startup.Poll.{
  polled, polled-IsTable, polled-revents, polled-others, place-poll, Only,
}

-- From the place `i` on, no place in use has input.
abbrev pub IdleFrom : ℕ → Workers → Type 0
IdleFrom i w =
    (j : ℕ) (place : PollFd)
    → i ≤ j
    → j < w.num_of_current_workers
    → get_elem? w.fds_array j ≡ some place
    → place.revents ≡ false

module _ (report : (time : Text) → Report → Desk → Run Desk) (a : Arrivals) (limit : ℕ) where
  collect_place-idle :
      (i : ℕ) (d : Desk) (place : PollFd)
      → get_elem? d.workers.fds_array i ≡ some place
      → place.revents ≡ false
      → collect_place report a i d ≡ ok d
  unfolding collect_place
  collect_place-idle i d place e clear = rw (read_at-ok d.workers.fds_array i place e, clear) refl

  collect_place-set :
      (i : ℕ) (d : Desk) (place : PollFd) (buffer : Text)
      → get_elem? d.workers.fds_array i ≡ some place
      → place.revents ≡ true
      → a.arrived place.fd ≡ some buffer
      → collect_place report a i d ≡ take_input report a i buffer d
  unfolding collect_place
  collect_place-set i d place buffer e set got =
      rw (read_at-ok d.workers.fds_array i place e, set, got) refl

  collect_from-step :
      (fuel i : ℕ) (d : Desk)
      → i < d.workers.num_of_current_workers
      → collect_from report a (suc fuel) i d
        ≡ (collect_place report a i d >>= collect_from report a fuel (i + 1))
  unfolding collect_from
  collect_from-step fuel i d h = rw (collect_from, lt→ltb i d.workers.num_of_current_workers h) refl

  collect_from-idle :
      (fuel i : ℕ) (d : Desk)
      → IsTable limit d.workers
      → IdleFrom i d.workers
      → d.workers.num_of_current_workers ≤ i + fuel
      → collect_from report a fuel i d ≡ ok d
  unfolding collect_from
  collect_from-idle zero i d table idle h =
      let over : ltb i d.workers.num_of_current_workers ≡ false = ground arith in rw over refl
  collect_from-idle (suc fuel) i d table idle h =
      elim (Bool-cases (ltb i d.workers.num_of_current_workers)) [
        | inr over ↦ rw over refl
        | inl more ↦
            let used : i < d.workers.num_of_current_workers = ground arith in
            let (place, e) =
              get_elem?-lt d.workers.fds_array i (omega (arith, table.fds, table.room)) in
            rw (more, collect_place-idle i d place e (idle i place (omega arith) used e))
              (collect_from-idle fuel (i + 1) d table (λ j p le. idle j p (omega arith))
                (omega arith))
      ]

  -- The places before `i + m` are passed over.
  collect_from-skip :
      (m total fuel i : ℕ) (d : Desk)
      → total ≡ m + fuel
      → IsTable limit d.workers
      → i + m ≤ d.workers.num_of_current_workers
      → ((j : ℕ) (place : PollFd)
          → i ≤ j
          → j < i + m
          → get_elem? d.workers.fds_array j ≡ some place
          → place.revents ≡ false)
      → collect_from report a total i d ≡ collect_from report a fuel (i + m) d
  collect_from-skip zero total fuel i d e table h idle =
      ap (λ n. collect_from report a n i d) (omega (arith, e))
      ∙ ap (λ k. collect_from report a fuel k d) (omega arith)
  collect_from-skip (suc m) zero fuel i d e table h idle = absurd (omega (arith, e))
  collect_from-skip (suc m) (suc total) fuel i d e table h idle =
      let (place, at) = get_elem?-lt d.workers.fds_array i (omega (arith, table.fds, table.room)) in
      collect_from-step total i d (omega arith)
      ∙ rw (collect_place-idle i d place at (idle i place (omega arith) (omega arith) at)) (
          collect_from-skip m total fuel (i + 1) d (omega (arith, e)) table (omega arith)
            (λ j p le lt. idle j p (omega arith) (omega arith))
          ∙ ap (λ k. collect_from report a fuel k d) (omega arith))

  -- Nothing has been written.
  pub collect-quiet :
      (d : Desk)
      → IsTable limit d.workers
      → ((fd : ℕ) → a.ready fd ≡ false)
      → collect report a d ≡ ok (polled a d)
  unfolding collect polled
  collect-quiet d table silent =
      collect_from-idle d.workers.num_of_current_workers 0 (polled a d)
        (polled-IsTable a limit d table)
        (λ j place le lt e.
          let (old, _, same) = polled-revents a d j place lt e in same ∙ silent old.fd)
        (omega arith)

  -- The passage comes to the place that has input.
  reaches :
      (d : Desk) (i : ℕ) (text : Text)
      → IsTable limit d.workers
      → Only a d i text
      → collect report a d ≡ (
          take_input report a i text (polled a d)
          >>= collect_from report a (d.workers.num_of_current_workers - i - 1) (i + 1))
  unfolding collect polled
  reaches d i text table o =
      let n = d.workers.num_of_current_workers in
      let left = n - i - 1 in
      let from_zero : 0 + i ≡ i = omega arith in
      let enough : n ≡ i + suc left = omega (arith, o.used) in
      collect_from-skip i n (suc left) 0 (polled a d) enough (polled-IsTable a limit d table)
        (omega (arith, o.used))
        (λ j place le lt e.
          polled-others a d i text j place o (omega (arith, o.used)) (omega arith) e)
      ∙ collect_from-step left (0 + i) (polled a d) (omega (arith, o.used))
      ∙ ap (λ k. collect_place report a k (polled a d) >>= collect_from report a left (k + 1))
          from_zero
      ∙ ap (λ r. r >>= collect_from report a left (i + 1))
          (collect_place-set i (polled a d) _ text
            (place-poll a n d.workers.fds_array i o.place o.used o.at_place) o.ready o.input)

  pub collect-one :
      (d d' : Desk) (i : ℕ) (text : Text)
      → IsTable limit d.workers
      → Only a d i text
      → take_input report a i text (polled a d) ≡ ok d'
      → IsTable limit d'.workers
      → d'.workers.num_of_current_workers ≤ d.workers.num_of_current_workers
      → IdleFrom (i + 1) d'.workers
      → collect report a d ≡ ok d'
  collect-one d d' i text table o taken table' fewer idle =
      let left = d.workers.num_of_current_workers - i - 1 in
      reaches d i text table o
      ∙ ap (λ r. r >>= collect_from report a left (i + 1)) taken
      ∙ collect_from-idle left (i + 1) d' table' idle (omega (arith, o.used, fewer))

  pub collect-exits :
      (d : Desk) (i : ℕ) (text : Text)
      → IsTable limit d.workers
      → Only a d i text
      → take_input report a i text (polled a d) ≡ exited
      → collect report a d ≡ exited
  collect-exits d i text table o taken =
      reaches d i text table o
      ∙ ap (λ r. r >>= collect_from report a (d.workers.num_of_current_workers - i - 1) (i + 1))
          taken
