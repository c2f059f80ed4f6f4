-- ===== src/Tests/Args.antt =====
-- The arguments of the manager (src/fss_manager.c).
use file_sync_system.Common.{ℕ, ◌%◌, ◌≡◌, refl, some, List, [], ◌∷◌, arith, ltb, if◌then◌else◌}
use file_sync_system.Common.Text.{Text, codes}
use file_sync_system.Manager.Args.{read_args}
use file_sync_system.Manager.Args.Settled.{
  Flag, log, config, limit, encode, logfile_of, config_file_of, limit_of, names_log, names_config,
  Proper, read_args-encode,
}
use file_sync_system.Manager.Run.{ok}

-- A number of one digit.
abbrev digit : Text → ℕ
digit [] = 0
digit (c ∷ text) = if ltb 47 c then c % 48 else 0

abbrev flags : List Flag
flags = limit (codes "3") ∷ config (codes "pairs.txt") ∷ log (codes "log.txt") ∷ []

flags-Proper : Proper digit flags
unfolding Proper names_log names_config
flags-Proper = (omega arith, (refl, (refl, tt)))

read_args-encode_example :
    read_args digit (encode flags)
    ≡ ok (record {
      logfile = some (codes "log.txt");
      config_file = some (codes "pairs.txt");
      worker_limit = 3;
    })
unfolding logfile_of config_file_of limit_of
read_args-encode_example = read_args-encode digit flags flags-Proper
