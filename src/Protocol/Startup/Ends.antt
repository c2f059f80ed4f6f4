-- ===== src/Protocol/Startup/Ends.antt =====
-- The loop over the configuration file ends, and has started a worker for each pair of words.
use file_sync_system.Common.{
  ℕ, zero, suc, ◌+◌, ◌≤◌, ◌≡◌, refl, true, false, ◌⊎◌, inl, inr, arith, Bool-cases,
}
use file_sync_system.Manager.Config.{Supply, Config, is_empty, config_round, is_going, config_loop}
use file_sync_system.Manager.Run.{Run, ok, exited, aborted, fault, out_of_fuel}
use file_sync_system.Protocol.Startup.Report.{Whole}
use file_sync_system.Protocol.Startup.Round.{
  Smooth, Silent, unread, weight, idle-Nearer, arrival-Nearer,
}
use file_sync_system.Protocol.Startup.Start.{Served}

-- What holds of the state that a run gives.
abbrev pub Then : (Config → Type 0) → Run Config → Type 0
Then P (ok c) = P c
Then P exited = Unit
Then P aborted = Unit
Then P fault = Unit
Then P out_of_fuel = Unit

-- In each round of the loop `fork` gives a child and `malloc` zeros, and either one worker's whole
-- report arrives, of a pair whose names hold no colon, or nothing has been written. Behind the end of the file, nothing arrives in `idle` rounds.
unfoldable pub Peaceful : (fuel worker_limit : ℕ) → (ℕ → Supply) → (idle : ℕ) → Config → Type 0
Peaceful zero worker_limit su idle c = Unit
Peaceful (suc fuel) worker_limit su idle c = elim (is_going c) [
  | false ↦ Unit
  | true ↦
      Served (su fuel)
      × ((Whole (su fuel).arrivals c.desk c.spawned
            × Then (Peaceful fuel worker_limit su idle) (config_round worker_limit (su fuel) c))
          ⊎ (Silent (su fuel)
              × (rest : ℕ) × (rest + 1 ≡ idle + unread c.scanner.eof)
              × Then (Peaceful fuel worker_limit su rest) (config_round worker_limit (su fuel) c)))
]

-- The end of the loop.
pub record Done (worker_limit : ℕ) (r : Run Config) : Type 0 where
  pub after : Config
  pub ends : r ≡ ok after
  pub smooth : Smooth worker_limit after
  pub over : is_going after ≡ false

module _ (worker_limit : ℕ) (su : ℕ → Supply) where
  -- With nothing left the loop does not go on.
  weight-zero : (c : Config) → Smooth worker_limit c → weight c ≤ 0 → is_going c ≡ false
  unfolding weight is_going is_empty
  weight-zero c smooth h = rw smooth.queue (ground arith)

  loop_over :
      (fuel : ℕ) (c : Config)
      → Smooth worker_limit c
      → is_going c ≡ false
      → Done worker_limit (config_loop fuel worker_limit su c)
  unfolding config_loop
  loop_over zero c smooth over = record {
    after = c;
    ends = rw over refl;
    smooth = smooth;
    over = over;
  }
  loop_over (suc fuel) c smooth over = record {
    after = c;
    ends = rw over refl;
    smooth = smooth;
    over = over;
  }

  round_before :
      (fuel : ℕ) (c c' : Config)
      → is_going c ≡ true
      → config_round worker_limit (su fuel) c ≡ ok c'
      → Done worker_limit (config_loop fuel worker_limit su c')
      → Done worker_limit (config_loop (suc fuel) worker_limit su c)
  unfolding config_loop
  round_before fuel c c' going e d = rw (going, e) d

  pub config_loop-Done :
      (fuel idle : ℕ) (c : Config)
      → Smooth worker_limit c
      → Peaceful fuel worker_limit su idle c
      → weight c + idle ≤ fuel
      → Done worker_limit (config_loop fuel worker_limit su c)
  unfolding config_loop Peaceful
  config_loop-Done zero idle c smooth peace enough =
      loop_over zero c smooth (weight-zero c smooth (omega (arith, enough)))
  config_loop-Done (suc fuel) idle c smooth peace enough = elim (Bool-cases (is_going c)) [
    | inr over ↦ loop_over (suc fuel) c smooth over
    | inl going ↦
        let (served, events) = rw (Peaceful, going) at peace in
        elim events [
          | inl (whole, peace') ↦
              let n = arrival-Nearer worker_limit (su fuel) served c smooth whole in
              round_before fuel c n.after going n.ends (
                config_loop-Done fuel idle n.after n.smooth (rw n.ends at peace')
                  (omega (arith, enough, n.less)))
          | inr (silent, rest, count, peace') ↦
              let n = idle-Nearer worker_limit (su fuel) served c smooth silent in
              round_before fuel c n.after going n.ends (
                config_loop-Done fuel rest n.after n.smooth (rw n.ends at peace')
                  (omega (arith, enough, n.less, count)))
        ]
  ]
