-- ===== src/Manager/Program/Ended.antt =====
-- What holds when `main` of src/fss_manager.c returns.
use file_sync_system.Common.{
  ℕ, zero, suc, ◌≡◌, ◌∙◌, refl, ap, Bool, true, false, Option, none, some, List, [], ◌∷◌, ◌++◌,
  if◌then◌else◌, All, not, arith, length, Bool-cases, inl, inr,
}
use file_sync_system.Common.Text.{Text, codes}
use file_sync_system.Manager.Args.{Settings, has_too_many, read_args}
use file_sync_system.Manager.Collect.{stamped}
use file_sync_system.Manager.Command.Words.{IsWord}
use file_sync_system.Manager.Config.{Job, config_loop}
use file_sync_system.Manager.Config.Waiting.{pairs}
use file_sync_system.Manager.Fifos.{Directory, create_fifos}
use file_sync_system.Manager.Loop.{loop, round, goes_on}
use file_sync_system.Manager.Loop.Invariant.{Reach, here, next}
use file_sync_system.Manager.Phases.{first_state, second_state, phases-Running}
use file_sync_system.Manager.Program.{World, open_files, serve_until_shutdown, run, main}
use file_sync_system.Manager.Run.{Run, ok, exited, ok_injective, >>=-eq-ok, not_null, or_exit}
use file_sync_system.Manager.State.{State, Supply, say}

-- A loop that ends has made rounds, and its test is false then.
loop-Reach :
    (fuel worker_limit : ℕ) (su : ℕ → Supply) (s s' : State)
    → loop fuel worker_limit su s ≡ ok s'
    → Reach worker_limit s s' × (goes_on s' ≡ false)
unfolding loop
loop-Reach zero worker_limit su s s' e = cc
loop-Reach (suc fuel) worker_limit su s s' e =
    let (s₁, e₁, e₂) = >>=-eq-ok (round worker_limit (su fuel) s) _ e in
    elim (Bool-cases (goes_on s₁)) [
      | inl going ↦
          let (steps, over) = loop-Reach fuel worker_limit su s₁ s' (rw going at e₂) in
          (next (su fuel) s s₁ s' e₁ steps, over)
      | inr over ↦
          let same = ok_injective (rw over at e₂) in
          rw (← same) (next (su fuel) s s₁ s₁ e₁ (here s₁), over)
    ]

-- `main` has returned.
pub record Ended (w : World) (argv : List Text) (s : State) : Type 0 where
  pub settings : Settings
  pub read : read_args w.atoi argv ≡ ok settings
  pub file : Text
  pub named : settings.config_file ≡ some file
  pub words : List Text
  pub ends_with_word : Bool
  pub input : w.config_input file ≡ some (words, ends_with_word)
  pub later : List Job
  pub spawned : s.spawned ≡ pairs words ++ later
  pub shutdown : s.shutdown_flag ≡ true
  pub none_waits : s.workers_queue ≡ []
  pub none_runs : s.desk.workers.num_of_current_workers ≡ 0
  pub before : List Text
  pub last_message :
      s.desk.out ≡ before ++ stamped w.end_time (codes "Manager shutdown complete\n") ∷ []

or_exit-some : {A : Type 0} (o : Option A) (a : A) → or_exit o ≡ ok a → o ≡ some a
or_exit-some none a e = cc
or_exit-some (some b) a e = ap some (ok_injective e)

not_null-some : {A : Type 0} (o : Option A) (a : A) → not_null o ≡ ok a → o ≡ some a
not_null-some none a e = cc
not_null-some (some b) a e = ap some (ok_injective e)

-- The configuration file has been opened.
record Opened (w : World) (config_file : Option Text) (words : List Text) (b : Bool) : Type 0 where
  file : Text
  named : config_file ≡ some file
  input : w.config_input file ≡ some (words, b)

-- The test of the second loop has been false.
ended :
    (w : World) (argv : List Text) (st : Settings)
    → read_args w.atoi argv ≡ ok st
    → (words : List Text) (b : Bool) → Opened w st.config_file words b
    → (later : List Job) (s : State) → s.spawned ≡ pairs words ++ later
    → goes_on s ≡ false
    → Ended w argv (say (stamped w.end_time (codes "Manager shutdown complete\n")) s)
unfolding say goes_on
ended w argv st read words b o later s spawned over = record {
  settings = st;
  read = read;
  file = o.file;
  named = o.named;
  words = words;
  ends_with_word = b;
  input = o.input;
  later = later;
  spawned = spawned;
  shutdown = ground (arith, over);
  none_waits = empty s.workers_queue (ground (arith, over));
  none_runs = ground (arith, over);
  before = s.desk.out;
  last_message = refl;
}
  where
    empty :
        (q : List Text)
        → not (elim q as (λ _. Bool) [ [] ↦ true | task ∷ rest ↦ false ]) ≡ false
        → q ≡ []
    empty [] e = refl
    empty (task ∷ rest) e = cc

module _ (dir : Directory) (w : World) (pids_width : (n : ℕ) → length (w.pids n) ≡ n)
    (fds_width : (n : ℕ) → length (w.fds n) ≡ n)
    (input_words : (c : Text) (words : List Text) (b : Bool)
      → w.config_input c ≡ some (words, b)
      → All IsWord words) where
  open_files-Opened :
      (c l : Option Text) (words : List Text) (b : Bool)
      → open_files dir w c l ≡ ok (words, b)
      → Opened w c words b
  unfolding open_files
  open_files-Opened c l words b e =
      let (c', named, e₁) = >>=-eq-ok (not_null c) _ e in
      let (l', _, e₂) = >>=-eq-ok (not_null l) _ e₁ in
      let ((words', b'), got, e₃) = >>=-eq-ok (or_exit (w.config_input c')) _ e₂ in
      elim (Bool-cases (w.logfile_output l')) [
        | inl opened ↦ record {
          file = c';
          named = not_null-some c c' named;
          input = or_exit-some (w.config_input c') (words, b) (got ∙ rw opened at e₃);
        }
        | inr failed ↦ cc (rw failed at e₃)
      ]

  if_ok : (b : Bool) (r : Run State) (s : State) → (if b then r else exited) ≡ ok s → r ≡ ok s
  if_ok b r s e = ground (arith, e)

  run-Ended : (argv : List Text) (s : State) → run dir w argv ≡ ok s → Ended w argv s
  unfolding run serve_until_shutdown
  run-Ended argv s e =
      let (st, read, e₁) = >>=-eq-ok (read_args w.atoi argv) _ e in
      let (fd, _, e₂) = >>=-eq-ok (or_exit w.inotify_fd) _ e₁ in
      let ((words, b), opened, e₃) = >>=-eq-ok (open_files dir w st.config_file st.logfile) _ e₂ in
      let e₃' = if_ok (w.has_memory st.worker_limit) _ s e₃ in
      let first =
        first_state st.worker_limit (w.pids st.worker_limit) (w.fds st.worker_limit) words b in
      let (c, ran, e₄) =
        >>=-eq-ok (config_loop w.first_rounds st.worker_limit w.first_supplies first) _ e₃' in
      let (_, _, e₅) = >>=-eq-ok (or_exit w.in_fd) _ e₄ in
      let (_, _, e₆) = >>=-eq-ok (or_exit w.out_fd) _ e₅ in
      let (s', looped, e₇) =
        >>=-eq-ok (loop w.second_rounds st.worker_limit w.second_supplies (second_state c)) _ e₆ in
      let (steps, over) =
        loop-Reach w.second_rounds st.worker_limit w.second_supplies (second_state c) s' looped in
      let o = open_files-Opened st.config_file st.logfile words b opened in
      let good = input_words o.file words b o.input in
      let r =
        phases-Running w.first_rounds st.worker_limit w.first_supplies (w.pids st.worker_limit)
          (w.fds st.worker_limit) words b c s' (pids_width st.worker_limit)
          (fds_width st.worker_limit) good ran steps in
      rw (← ok_injective e₇) (ended w argv st read words b o r.later s' r.spawned over)

  -- If `main` returns, the settings were read from its arguments, a worker has been started for each
  -- pair of the configuration file, in their order and before any other, the flag of the shutdown is
  -- set, no task waits, no worker is in the table, and the last output is the message that the
  -- shutdown is complete. The words of a configuration file are not empty and hold no blank and no
  -- newline, and an array that `malloc` gives has the length asked for.
  pub main-Ended :
      (argv : List Text) (before : dir.State) (s : State)
      → main dir w argv before ≡ ok s
      → Ended w argv s
  unfolding main
  main-Ended argv before s e = elim (Bool-cases (has_too_many argv)) [
    | inl many ↦ cc (rw many at e)
    | inr few ↦
        let e' = rw few at e in
        elim (Bool-cases (create_fifos dir before).0) [
          | inl made ↦ run-Ended argv s (rw made at e')
          | inr failed ↦ cc (rw failed at e')
        ]
  ]
