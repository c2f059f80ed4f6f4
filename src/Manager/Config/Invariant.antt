-- ===== src/Manager/Config/Invariant.antt =====
-- The table of workers in the first loop: no more workers than places.
use file_sync_system.Common.{
  ℕ, zero, suc, ◌≡◌, Option, none, some, List, [], ◌∷◌, ltb, Bool-cases, inl, inr,
}
use file_sync_system.Common.Text.{Text}
use file_sync_system.HashTable as Watches
use file_sync_system.Manager.Collect.{collect, first_report}
use file_sync_system.Manager.Collect.Invariant.{collect-Ends}
use file_sync_system.Manager.Collect.Reports.{first_report-Ends}
use file_sync_system.Manager.Config.{
  scan, Supply, Config, new_dir, parse_pair, pair_text, start_worker, start_or_push, next_pair,
  choose, config_round, is_going, config_loop,
}
use file_sync_system.Manager.Run.{
  Run, ok, ok_injective, >>=-eq-ok, Ends-ok, or_exit, of_store, of_table,
}
use file_sync_system.Manager.Workers.{launch}
use file_sync_system.Manager.Workers.Invariant.{launch-IsTable}
use file_sync_system.Manager.Workers.Release.{IsTable}
use file_sync_system.MemStore as Store

module _ (worker_limit : ℕ) (su : Supply) where
  abbrev Sound : Config → Type 0
  Sound c = IsTable worker_limit c.desk.workers

  start_or_push-Sound :
      (buffer : Text) (c c' : Config)
      → start_or_push worker_limit su buffer c ≡ ok c'
      → Sound c
      → Sound c'
  unfolding start_or_push start_worker
  start_or_push-Sound buffer c c' e table =
      elim (Bool-cases (ltb c.desk.workers.num_of_current_workers worker_limit)) [
        | inl room ↦
            let ((s, t), _, e₁) = >>=-eq-ok (parse_pair buffer) _ (rw room at e) in
            let (pid, _, e₂) = >>=-eq-ok (or_exit su.child_pid) _ e₁ in
            let (map, _, e₃) =
              >>=-eq-ok (of_table (Watches.insert su.leftover c.inotify_map su.watch_fd s)) _ e₂ in
            let (mem, _, e₄) =
              >>=-eq-ok (of_store (Store.add su.fresh su.depth c.desk.mem (new_dir s t))) _ e₃ in
            let (workers, launched, e₅) = >>=-eq-ok (launch pid su.pipe_fd c.desk.workers) _ e₄ in
            rw (← ok_injective e₅) (
              launch-IsTable worker_limit c.desk.workers workers pid su.pipe_fd table room launched)
        | inr full ↦ rw (← ok_injective (rw full at e)) table
      ]

  next_pair-Sound : (c c' : Config) → next_pair worker_limit su c ≡ ok c' → Sound c → Sound c'
  unfolding next_pair
  next_pair-Sound c c' e table = go (scan (scan c.scanner).1).0 e
    where
      go :
          (s2 : Option Text)
          → elim s2 as (λ _. Run Config) [
            | none ↦ ok (record c { scanner = (scan (scan (scan c.scanner).1).1).1 })
            | some w ↦
                start_or_push worker_limit su
                  (pair_text (elim (scan c.scanner).0 as (λ _. Text) [ none ↦ [] | some w ↦ w ]) w)
                  (record c { scanner = (scan (scan c.scanner).1).1 })
          ]
            ≡ ok c'
          → Sound c'
      go none e = rw (← ok_injective e) table
      go (some w) e =
          start_or_push-Sound _ (record c { scanner = (scan (scan c.scanner).1).1 }) c' e table

  choose-Sound : (c c' : Config) → choose worker_limit su c ≡ ok c' → Sound c → Sound c'
  unfolding choose
  choose-Sound c c' e table = go c.workers_queue e
    where
      full :
          (q : List Text)
          → next_pair worker_limit su (record c { workers_queue = q }) ≡ ok c'
          → Sound c'
      full q e = next_pair-Sound (record c { workers_queue = q }) c' e table

      go :
          (q : List Text)
          → choose worker_limit su (record c { workers_queue = q }) ≡ ok c'
          → Sound c'
      go [] e = elim (Bool-cases (ltb c.desk.workers.num_of_current_workers worker_limit)) [
        | inl room ↦ full [] (rw room at e)
        | inr none_free ↦ full [] (rw none_free at e)
      ]
      go (buffer ∷ rest) e =
          elim (Bool-cases (ltb c.desk.workers.num_of_current_workers worker_limit)) [
            | inl room ↦
                start_or_push-Sound buffer (record c { workers_queue = rest }) c' (rw room at e)
                  table
            | inr none_free ↦ full (buffer ∷ rest) (rw none_free at e)
          ]

  pub config_round-Sound :
      (c c' : Config) → config_round worker_limit su c ≡ ok c' → Sound c → Sound c'
  unfolding config_round
  config_round-Sound c c' e table =
      let (desk, collected, e') = >>=-eq-ok (collect first_report su.arrivals c.desk) _ e in
      choose-Sound (record c { desk = desk }) c' e'
        (Ends-ok _ _ desk
          (collect-Ends worker_limit first_report su.arrivals first_report-Ends c.desk table)
          collected).table

-- From a table of `worker_limit` places, the loop over the configuration file ends with one, so that
-- no more workers than places are there.
pub config_loop-IsTable :
    (fuel worker_limit : ℕ) (su : ℕ → Supply) (c c' : Config)
    → IsTable worker_limit c.desk.workers
    → config_loop fuel worker_limit su c ≡ ok c'
    → IsTable worker_limit c'.desk.workers
unfolding config_loop
config_loop-IsTable zero worker_limit su c c' table e = elim (Bool-cases (is_going c)) [
  | inl going ↦ cc (rw going at e)
  | inr over ↦ rw (← ok_injective (rw over at e)) table
]
config_loop-IsTable (suc fuel) worker_limit su c c' table e = elim (Bool-cases (is_going c)) [
  | inl going ↦
      let (c₁, e₁, e₂) = >>=-eq-ok (config_round worker_limit (su fuel) c) _ (rw going at e) in
      config_loop-IsTable fuel worker_limit su c₁ c'
        (config_round-Sound worker_limit (su fuel) c c₁ e₁ table) e₂
  | inr over ↦ rw (← ok_injective (rw over at e)) table
]
