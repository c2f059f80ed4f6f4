-- ===== src/Tests/Workers.antt =====
-- The table of workers of the manager (src/fss_manager.c), with two workers.
use file_sync_system.Common.{
  ℕ, zero, suc, ◌<◌, ◌≡◌, refl, false, some, List, [], ◌∷◌, ◌++◌, arith, All, get_elem?,
}
use file_sync_system.Common.Text.{Text, codes}
use file_sync_system.Manager.Run.{ok, fault}
use file_sync_system.Manager.Workers.{PollFd, Workers, receive, release, launch}
use file_sync_system.Manager.Workers.Release.{IsTable, release-overruns}
use file_sync_system.Manager.Workers.Sharing.{Holds, release-launch-receive}

abbrev pub place_of : ℕ → PollFd
place_of fd = record { fd = fd; revents = false }

-- Two workers and room for one more.
abbrev pub two_of_three : Workers
two_of_three = record {
  num_of_current_workers = 2;
  workers_pid = 100 ∷ 101 ∷ 0 ∷ [];
  fds_array = place_of 7 ∷ place_of 8 ∷ place_of 0 ∷ [];
  workers_buffer = 0 ∷ 1 ∷ 2 ∷ [];
  buffers = codes "one" ∷ codes "two" ∷ [] ∷ [];
}

abbrev full_table : Workers
full_table = record two_of_three {
  workers_pid = 100 ∷ 101 ∷ [];
  fds_array = place_of 7 ∷ place_of 8 ∷ [];
  workers_buffer = 0 ∷ 1 ∷ [];
}

small_pointer :
    (n : ℕ) (xs : List ℕ) → All (λ p. p < n) xs → (i p : ℕ) → get_elem? xs i ≡ some p → p < n
small_pointer n [] h i p e = cc
small_pointer n (x ∷ xs) h zero p e = ground (arith, h.0)
small_pointer n (x ∷ xs) h (suc i) p e = small_pointer n xs h.1 i p e

pub two_of_three-IsTable : IsTable 3 two_of_three
two_of_three-IsTable = record {
  pids = refl;
  fds = refl;
  pointers = refl;
  room = omega arith;
  owned = small_pointer 3 (0 ∷ 1 ∷ 2 ∷ []) (omega arith);
}

full_table-IsTable : IsTable 2 full_table
full_table-IsTable = record {
  pids = refl;
  fds = refl;
  pointers = refl;
  room = omega arith;
  owned = small_pointer 3 (0 ∷ 1 ∷ []) (omega arith);
}

release-launch-receive_example :
    (w₁ w₂ w₃ : Workers) × (old : Text) × (release 0 two_of_three ≡ ok w₁)
    × (launch 102 9 w₁ ≡ ok w₂)
    × Holds w₂ 0 old
    × (receive 1 (codes "three") w₂ ≡ ok (old ++ codes "three", w₃))
    × Holds w₃ 0 (old ++ codes "three")
release-launch-receive_example =
    release-launch-receive 3 two_of_three 0 102 9 (codes "three") two_of_three-IsTable (omega arith)
      (omega arith)

release-overruns_example : release 1 full_table ≡ fault
release-overruns_example = release-overruns 2 full_table full_table-IsTable 1 (omega arith) refl
