-- ===== src/Manager/Workers/Release.antt =====
-- What the end of a worker does to the table.
use file_sync_system.Common.{
  ℕ, ◌+◌, ◌-◌, ◌≤◌, ◌<◌, ◌≡◌, ◌∙◌, refl, sym, ap, some, List, [], arith, length, get_elem?, set,
  length-set, ◌==◌, if◌then◌else◌, Bool-cases, inl, inr, get_elem?-lt, lt-get_elem?,
  get_elem?-set_self, get_elem?-set_ne,
}
use file_sync_system.Manager.Run.{ok, fault, write_at}
use file_sync_system.Manager.Workers.{Workers, swap_buffer, release}
use file_sync_system.Manager.Workers.Arrays.{read_at-ok, write_at-ok, below-set, swap_last-Swapped}

-- The arrays have `limit` places, no more of them are in use, and each pointer is that of a buffer.
pub record IsTable (limit : ℕ) (w : Workers) : Type 0 where
  pub pids : length w.workers_pid ≡ limit
  pub fds : length w.fds_array ≡ limit
  pub pointers : length w.workers_buffer ≡ limit
  pub room : w.num_of_current_workers ≤ limit
  pub owned : (i p : ℕ) → get_elem? w.workers_buffer i ≡ some p → p < length w.buffers

module _ (limit : ℕ) (w : Workers) (table : IsTable limit w) (i : ℕ)
    (used : i < w.num_of_current_workers) where
  open w use {num_of_current_workers}

  abbrev last : ℕ
  last = num_of_current_workers - 1

  swap_buffer-ends :
      (p q : ℕ)
      → get_elem? w.workers_buffer i ≡ some p
      → get_elem? w.workers_buffer last ≡ some q
      → swap_buffer w.workers_buffer i num_of_current_workers
        ≡ write_at (set w.workers_buffer i q) num_of_current_workers p
  unfolding swap_buffer
  swap_buffer-ends p q e e' =
      rw
        (
          read_at-ok w.workers_buffer i p e,
          read_at-ok w.workers_buffer last q e',
          write_at-ok w.workers_buffer i q (lt-get_elem? w.workers_buffer i p e),
        )
        refl

  beyond :
      (xs : List ℕ) (p : ℕ)
      → length xs ≡ num_of_current_workers
      → write_at xs num_of_current_workers p ≡ fault
  unfolding write_at
  beyond xs p h = ground arith

  -- The table after the call.
  pub record Released : Type 0 where
    pub after : Workers
    pub ends : release i w ≡ ok after
    pub shape : IsTable limit after
    pub one_less : after.num_of_current_workers + 1 ≡ num_of_current_workers
    pub pids :
        (j : ℕ)
        → j < last
        → get_elem? after.workers_pid j ≡ get_elem? w.workers_pid (if j == i then last else j)
    pub fds :
        (j : ℕ)
        → j < last
        → get_elem? after.fds_array j ≡ get_elem? w.fds_array (if j == i then last else j)
    pub pointer : ℕ
    pub pointed : get_elem? w.workers_buffer i ≡ some pointer
    pub cleared : after.buffers ≡ set w.buffers pointer []
    pub shared : ℕ
    pub at_place : get_elem? after.workers_buffer i ≡ some shared
    pub at_next :
        get_elem? after.workers_buffer (if i == last then num_of_current_workers else last)
        ≡ some shared

  module _ (p q : ℕ) (e : get_elem? w.workers_buffer i ≡ some p)
      (e' : get_elem? w.workers_buffer last ≡ some q) (free : num_of_current_workers < limit) where
    after_buffers : List ℕ
    after_buffers = set (set w.workers_buffer i q) num_of_current_workers p

    wide : num_of_current_workers < length (set w.workers_buffer i q)
    wide = omega (arith, length-set w.workers_buffer i q, table.pointers)

    shares_place : get_elem? after_buffers i ≡ some q
    unfolding after_buffers
    shares_place =
        get_elem?-set_ne (set w.workers_buffer i q) p
          (λ (x : num_of_current_workers ≡ i). omega arith)
        ∙ get_elem?-set_self w.workers_buffer i q (lt-get_elem? w.workers_buffer i p e)

    shares_next :
        get_elem? after_buffers (if i == last then num_of_current_workers else last) ≡ some q
    unfolding after_buffers
    shares_next = elim (Bool-cases (i == last)) [
      | inl same ↦
          let at_last : i ≡ last = ground arith in
          rw same (
            get_elem?-set_self (set w.workers_buffer i q) num_of_current_workers p wide
            ∙ sym e
            ∙ ap (get_elem? w.workers_buffer) at_last
            ∙ e')
      | inr differ ↦ rw differ (
          get_elem?-set_ne (set w.workers_buffer i q) p
            (λ (x : num_of_current_workers ≡ last). omega arith)
          ∙ get_elem?-set_ne w.workers_buffer q (λ (x : i ≡ last). ground arith)
          ∙ e')
    ]

    owned_after : (j r : ℕ) → get_elem? after_buffers j ≡ some r → r < length (set w.buffers p [])
    unfolding after_buffers
    owned_after =
        let n = length (set w.buffers p []) in
        let same = length-set w.buffers p [] in
        let old = λ (j r : ℕ) (h : get_elem? w.workers_buffer j ≡ some r).
          rw (← same) at table.owned j r h in
        below-set n (set w.workers_buffer i q) num_of_current_workers p
          (below-set n w.workers_buffer i q old (old last q e')) (old i p e)

  -- With a free place in the table, the worker in the place `i` leaves it.
  pub release-Released : num_of_current_workers < limit → Released
  unfolding release after_buffers
  release-Released free =
      let a = swap_last-Swapped w.workers_pid i last (omega arith) (omega (arith, table.pids)) in
      let b = swap_last-Swapped w.fds_array i last (omega arith) (omega (arith, table.fds)) in
      let (p, e) = get_elem?-lt w.workers_buffer i (omega (arith, table.pointers)) in
      let (q, e') = get_elem?-lt w.workers_buffer last (omega (arith, table.pointers)) in
      record {
        after = record {
          num_of_current_workers = last;
          workers_pid = a.after;
          fds_array = b.after;
          workers_buffer = after_buffers p q e e' free;
          buffers = set w.buffers p [];
        };
        ends =
            rw
              (
                read_at-ok w.workers_buffer i p e,
                write_at-ok w.buffers p [] (table.owned i p e),
                a.ends,
                b.ends,
                swap_buffer-ends p q e e',
                write_at-ok (set w.workers_buffer i q) num_of_current_workers p
                    (wide p q e e' free),
              )
              refl;
        shape = record {
          pids = a.width ∙ table.pids;
          fds = b.width ∙ table.fds;
          pointers =
              length-set (set w.workers_buffer i q) num_of_current_workers p
              ∙ length-set w.workers_buffer i q
              ∙ table.pointers;
          room = omega arith;
          owned = owned_after p q e e' free;
        };
        one_less = omega arith;
        pids = a.entries;
        fds = b.entries;
        pointer = p;
        pointed = e;
        cleared = refl;
        shared = q;
        at_place = shares_place p q e e' free;
        at_next = shares_next p q e e' free;
      }

  -- With all places in use, the buffer's pointer is written behind the end of its array.
  pub release-overruns : num_of_current_workers ≡ limit → release i w ≡ fault
  unfolding release
  release-overruns full =
      let a = swap_last-Swapped w.workers_pid i last (omega arith) (omega (arith, table.pids)) in
      let b = swap_last-Swapped w.fds_array i last (omega arith) (omega (arith, table.fds)) in
      let (p, e) = get_elem?-lt w.workers_buffer i (omega (arith, table.pointers)) in
      let (q, e') = get_elem?-lt w.workers_buffer last (omega (arith, table.pointers)) in
      rw
        (
          read_at-ok w.workers_buffer i p e,
          write_at-ok w.buffers p [] (table.owned i p e),
          a.ends,
          b.ends,
          swap_buffer-ends p q e e',
          beyond (set w.workers_buffer i q) p
              (length-set w.workers_buffer i q ∙ table.pointers ∙ sym full),
        )
        refl
