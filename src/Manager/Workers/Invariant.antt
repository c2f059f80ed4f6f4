-- ===== src/Manager/Workers/Invariant.antt =====
-- The table of workers stays one, whatever is done to it.
use file_sync_system.Common.{
  ℕ, zero, suc, ◌+◌, ◌≤◌, ◌<◌, ◌≡◌, ◌∙◌, refl, sym, ap, subst, true, some, List, [], ◌++◌, arith,
  ltb, Bool-cases, inl, inr, length, get_elem?, length-replicate, ltb→lt,
}
use file_sync_system.Common.Text.{Text}
use file_sync_system.Manager.Run.{ok, ok_injective, Ends, bind-Ends, read_at, write_at}
use file_sync_system.Manager.Workers.{PollFd, Workers, count_from, create, receive, release, launch}
use file_sync_system.Manager.Workers.Arrays.{read_at-Ends, write_at-Ends}
use file_sync_system.Manager.Workers.Release.{IsTable, release-Released, release-overruns}
use file_sync_system.Manager.Workers.Sharing.{launch-Launched}

-- A table, and no more workers than before.
pub record Shrinks (limit : ℕ) (w w' : Workers) : Type 0 where
  pub table : IsTable limit w'
  pub fewer : w'.num_of_current_workers ≤ w.num_of_current_workers

module _ (limit : ℕ) (w : Workers) (table : IsTable limit w) where
  pub release-Shrinks :
      (i : ℕ) → i < w.num_of_current_workers → Ends (Shrinks limit w) (release i w)
  unfolding Ends
  release-Shrinks i used = elim (Bool-cases (ltb w.num_of_current_workers limit)) [
    | inl free ↦
        let r = release-Released limit w table i used (ltb→lt _ _ free) in
        subst (Ends (Shrinks limit w)) (sym r.ends)
          (record { table = r.shape; fewer = omega (arith, r.one_less) })
    | inr full ↦
        let all_used : w.num_of_current_workers ≡ limit = ground (arith, table.room) in
        subst (Ends (Shrinks limit w)) (sym (release-overruns limit w table i used all_used)) tt
  ]

  pub receive-Ends :
      (i : ℕ) (text : Text)
      → Ends
          (λ (_, w'). IsTable limit w' × (w'.num_of_current_workers ≡ w.num_of_current_workers))
          (receive i text w)
  unfolding receive Ends
  receive-Ends i text =
      bind-Ends _ _ (read_at w.workers_buffer i) _ (read_at-Ends w.workers_buffer i) λ p at.
        bind-Ends _ _ (read_at w.buffers p) _ (read_at-Ends w.buffers p) λ old content.
          bind-Ends _ _ (write_at w.buffers p (old ++ text)) _
            (write_at-Ends w.buffers p (old ++ text))
            λ buffers width. (
              record {
                pids = table.pids;
                fds = table.fds;
                pointers = table.pointers;
                room = table.room;
                owned = λ j q e. rw width (table.owned j q e);
              },
              refl,
            )

-- A worker that is started where there is room.
pub launch-IsTable :
    (limit : ℕ) (w w' : Workers) (pid fd : ℕ)
    → IsTable limit w
    → ltb w.num_of_current_workers limit ≡ true
    → launch pid fd w ≡ ok w'
    → IsTable limit w'
launch-IsTable limit w w' pid fd table room e =
    let l = launch-Launched limit w pid fd table (ltb→lt _ _ room) in
    subst (IsTable limit) (ok_injective (sym l.ends ∙ e)) l.shape

length-count_from : (k n : ℕ) → length (count_from k n) ≡ n
unfolding count_from
length-count_from k zero = refl
length-count_from k (suc n) = ap suc (length-count_from (suc k) n)

count_from-lt : (k n i q : ℕ) → get_elem? (count_from k n) i ≡ some q → q < k + n
unfolding count_from
count_from-lt k zero i q e = cc
count_from-lt k (suc n) zero q e = ground arith
count_from-lt k (suc n) (suc i) q e = omega (arith, count_from-lt (suc k) n i q e)

-- The table before any worker has been started.
pub create-IsTable :
    (limit : ℕ) (pids : List ℕ) (fds : List PollFd)
    → length pids ≡ limit
    → length fds ≡ limit
    → IsTable limit (create limit pids fds)
unfolding create
create-IsTable limit pids fds p f = record {
  pids = p;
  fds = f;
  pointers = length-count_from 0 limit;
  room = omega arith;
  owned = λ i q e. omega (arith, length-replicate {A = Text} limit [], count_from-lt 0 limit i q e);
}
