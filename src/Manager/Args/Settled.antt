-- ===== src/Manager/Args/Settled.antt =====
-- The options of the manager, in any order.
use file_sync_system.Common.{
  ℕ, ◌+◌, ◌*◌, ◌≡◌, ◌≢◌, ◌∙◌, refl, Bool, true, false, Option, some, List, [], ◌∷◌, ltb, ◌==◌,
  length, if◌then◌else◌, arith, Bool-cases, inl, inr,
}
use file_sync_system.Common.Text.{Text, codes, str_eq}
use file_sync_system.Manager.Args.{
  Settings, is_unset, default_workers_limit, take_option, options_loop, has_too_many, read_args,
}
use file_sync_system.Manager.Run.{ok, exited}

pub data Flag : Type 0 where
  log : Text → Flag
  config : Text → Flag
  limit : Text → Flag

unfoldable pub encode : List Flag → List Text
encode [] = []
encode (log name ∷ flags) = codes "-l" ∷ name ∷ encode flags
encode (config name ∷ flags) = codes "-c" ∷ name ∷ encode flags
encode (limit text ∷ flags) = codes "-n" ∷ text ∷ encode flags

-- Whether a file is named, and the settings that the flags mean: a name that is given, or the one
-- before, and the last limit.
unfoldable pub names_log : List Flag → Bool
names_log [] = false
names_log (log name ∷ flags) = true
names_log (_ ∷ flags) = names_log flags

unfoldable pub names_config : List Flag → Bool
names_config [] = false
names_config (config name ∷ flags) = true
names_config (_ ∷ flags) = names_config flags

module _ (atoi : Text → ℕ) where
  unfoldable pub logfile_of : Option Text → List Flag → Option Text
  logfile_of before [] = before
  logfile_of before (log name ∷ flags) = some name
  logfile_of before (_ ∷ flags) = logfile_of before flags

  unfoldable pub config_file_of : Option Text → List Flag → Option Text
  config_file_of before [] = before
  config_file_of before (config name ∷ flags) = some name
  config_file_of before (_ ∷ flags) = config_file_of before flags

  unfoldable pub limit_of : ℕ → List Flag → ℕ
  limit_of before [] = before
  limit_of before (limit text ∷ flags) = limit_of (atoi text) flags
  limit_of before (_ ∷ flags) = limit_of before flags

  -- Each file is named once at most, and no limit is 0.
  unfoldable pub Proper : List Flag → Type 0
  Proper [] = Unit
  Proper (log name ∷ flags) = (names_log flags ≡ false) × Proper flags
  Proper (config name ∷ flags) = (names_config flags ≡ false) × Proper flags
  Proper (limit text ∷ flags) = (atoi text ≢ 0) × Proper flags

  kept_log :
      (flags : List Flag) (before : Option Text)
      → names_log flags ≡ false
      → logfile_of before flags ≡ before
  unfolding names_log logfile_of
  kept_log [] before h = refl
  kept_log (log name ∷ flags) before h = cc
  kept_log (config name ∷ flags) before h = kept_log flags before h
  kept_log (limit text ∷ flags) before h = kept_log flags before h

  kept_config :
      (flags : List Flag) (before : Option Text)
      → names_config flags ≡ false
      → config_file_of before flags ≡ before
  unfolding names_config config_file_of
  kept_config [] before h = refl
  kept_config (log name ∷ flags) before h = kept_config flags before h
  kept_config (config name ∷ flags) before h = cc
  kept_config (limit text ∷ flags) before h = kept_config flags before h

  loop-encode :
      (flags : List Flag) (st : Settings)
      → Proper flags
      → (names_log flags ≡ true → st.logfile ≡ some [])
      → (names_config flags ≡ true → st.config_file ≡ some [])
      → options_loop atoi (encode flags) st
        ≡ ok (record {
          logfile = logfile_of st.logfile flags;
          config_file = config_file_of st.config_file flags;
          worker_limit = limit_of st.worker_limit flags;
        })
  unfolding Proper names_log names_config logfile_of config_file_of limit_of encode options_loop
      take_option is_unset str_eq
  loop-encode [] st p l c = refl
  loop-encode (log name ∷ flags) st p l c = rw (l refl) (
      loop-encode flags (record st { logfile = some name }) p.1 (λ h. cc (h, p.0)) c
      ∙ rw (kept_log flags (some name) p.0) refl)
  loop-encode (config name ∷ flags) st p l c = rw (c refl) (
      loop-encode flags (record st { config_file = some name }) p.1 l (λ h. cc (h, p.0))
      ∙ rw (kept_config flags (some name) p.0) refl)
  loop-encode (limit text ∷ flags) st p l c =
      let some_places : (atoi text == 0) ≡ false = ground (arith, p.0) in
      rw some_places (loop-encode flags (record st { worker_limit = atoi text }) p.1 l c)

  length-encode : (flags : List Flag) → length (encode flags) ≡ 2 * length flags
  unfolding encode
  length-encode [] = refl
  length-encode (log name ∷ flags) = omega (arith, length-encode flags)
  length-encode (config name ∷ flags) = omega (arith, length-encode flags)
  length-encode (limit text ∷ flags) = omega (arith, length-encode flags)

  -- The manager reads its flags in any order: with at most three of them the settings are the names
  -- that are given and the last limit, or an empty name and the default, and with more it exits. Each
  -- file is named once at most, and no limit is 0.
  pub read_args-encode :
      (flags : List Flag)
      → Proper flags
      → read_args atoi (encode flags) ≡ (
          if ltb 3 (length flags)
          then exited
          else ok (record {
            logfile = logfile_of (some []) flags;
            config_file = config_file_of (some []) flags;
            worker_limit = limit_of default_workers_limit flags;
          }))
  unfolding read_args has_too_many
  read_args-encode flags p = elim (Bool-cases (ltb 3 (length flags))) [
    | inl many ↦
        let over : ltb 7 (length (encode flags) + 1) ≡ true = ground (arith, length-encode flags) in
        rw (many, over) refl
    | inr few ↦
        let fits : ltb 7 (length (encode flags) + 1) ≡ false =
          ground (arith, length-encode flags) in
        rw (few, fits) (loop-encode flags _ p (λ h. refl) (λ h. refl))
  ]
