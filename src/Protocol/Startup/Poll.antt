-- ===== src/Protocol/Startup/Poll.antt =====
-- What `poll` finds in the table of workers, and the worker that alone has written.
use file_sync_system.Common.{
  ℕ, zero, suc, ◌<◌, ◌≡◌, ◌≢◌, ◌∙◌, refl, ap, true, false, some, List, [], ◌∷◌, arith, get_elem?,
}
use file_sync_system.Common.Text.{Text}
use file_sync_system.Manager.Collect.{Arrivals, Desk, poll}
use file_sync_system.Manager.Collect.Invariant.{length-poll}
use file_sync_system.Manager.Workers.{PollFd}
use file_sync_system.Manager.Workers.Release.{IsTable}

module _ (a : Arrivals) where
  -- What `poll` leaves in a place.
  poll-place :
      (n : ℕ) (fds : List PollFd) (j : ℕ) (place : PollFd)
      → j < n
      → get_elem? (poll a.ready n fds) j ≡ some place
      → (old : PollFd) × (get_elem? fds j ≡ some old)
        × (place ≡ record old { revents = a.ready old.fd })
  unfolding poll
  poll-place zero fds j place h e = absurd (omega arith)
  poll-place (suc n) [] j place h e = cc
  poll-place (suc n) (f ∷ fds) zero place h e = (f, refl, ground arith)
  poll-place (suc n) (f ∷ fds) (suc j) place h e = poll-place n fds j place (omega arith) e

  pub place-poll :
      (n : ℕ) (fds : List PollFd) (j : ℕ) (old : PollFd)
      → j < n
      → get_elem? fds j ≡ some old
      → get_elem? (poll a.ready n fds) j ≡ some (record old { revents = a.ready old.fd })
  unfolding poll
  place-poll zero fds j old h e = absurd (omega arith)
  place-poll (suc n) [] j old h e = cc
  place-poll (suc n) (f ∷ fds) zero old h e = ground arith
  place-poll (suc n) (f ∷ fds) (suc j) old h e = place-poll n fds j old (omega arith) e

  -- What `poll` makes of the places in use.
  unfoldable pub polled : Desk → Desk
  polled d = record d {
    workers = record d.workers {
      fds_array = poll a.ready d.workers.num_of_current_workers d.workers.fds_array;
    };
  }

  pub polled-IsTable :
      (limit : ℕ) (d : Desk) → IsTable limit d.workers → IsTable limit (polled d).workers
  unfolding polled
  polled-IsTable limit d table = record {
    pids = table.pids;
    fds = length-poll a.ready d.workers.num_of_current_workers d.workers.fds_array ∙ table.fds;
    pointers = table.pointers;
    room = table.room;
    owned = table.owned;
  }

  pub polled-revents :
      (d : Desk) (j : ℕ) (place : PollFd)
      → j < d.workers.num_of_current_workers
      → get_elem? (polled d).workers.fds_array j ≡ some place
      → (old : PollFd) × (get_elem? d.workers.fds_array j ≡ some old)
        × (place.revents ≡ a.ready old.fd)
  unfolding polled
  polled-revents d j place h e =
      let (old, at, same) =
        poll-place d.workers.num_of_current_workers d.workers.fds_array j place h e in
      (old, at, ap (λ (p : PollFd). p.revents) same)

  -- One place has input, and no other.
  pub record Only (d : Desk) (i : ℕ) (text : Text) : Type 0 where
    pub used : i < d.workers.num_of_current_workers
    pub place : PollFd
    pub at_place : get_elem? d.workers.fds_array i ≡ some place
    pub ready : a.ready place.fd ≡ true
    pub others :
        (j : ℕ) (other : PollFd)
        → j < d.workers.num_of_current_workers
        → j ≢ i
        → get_elem? d.workers.fds_array j ≡ some other
        → a.ready other.fd ≡ false
    pub input : a.arrived place.fd ≡ some text

  pub polled-others :
      (d : Desk) (i : ℕ) (text : Text) (j : ℕ) (place : PollFd)
      → Only d i text
      → j < d.workers.num_of_current_workers
      → j ≢ i
      → get_elem? (polled d).workers.fds_array j ≡ some place
      → place.revents ≡ false
  polled-others d i text j place o lt ne e =
      let (old, at, same) = polled-revents d j place lt e in same ∙ o.others j old lt ne at
