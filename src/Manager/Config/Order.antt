-- ===== src/Manager/Config/Order.antt =====
-- The workers that the configuration phase starts, and their order.
use file_sync_system.Common.{
  ℕ, zero, suc, ◌≡◌, ◌∙◌, refl, sym, ap, Bool, true, false, List, [], ◌∷◌, ◌++◌, append-nil, ltb,
  ◌&&◌, ◌||◌, All, arith, Bool-cases, inl, inr,
}
use file_sync_system.Common.Text.{Text}
use file_sync_system.Manager.Collect.{collect, first_report}
use file_sync_system.Manager.Command.Words.{IsWord}
use file_sync_system.Manager.Config.{
  scan, is_empty, Supply, Config, full_job, pair_text, start_or_push, next_pair, choose,
  config_round, is_going, config_loop,
}
use file_sync_system.Manager.Config.Waiting.{
  pairs, queue_of, jobs_of, Words, Ordered, queue_of-snoc, jobs_of-snoc, Words-snoc,
  Started-Ordered,
}
use file_sync_system.Manager.Run.{ok, >>=-eq-ok, ok_injective}

module _ (worker_limit : ℕ) (su : Supply) where
  -- The first pair is started, or a pair behind those that wait is queued.
  start_or_push-Ordered :
      (given : List Text) (s t : Text) (ps : List (Text × Text)) (c c' : Config)
      → IsWord s
      → IsWord t
      → start_or_push worker_limit su (pair_text s t) c ≡ ok c'
      → (ltb c.desk.workers.num_of_current_workers worker_limit ≡ true → ps ≡ [])
      → c.workers_queue ≡ queue_of ps
      → All Words ps
      → c.spawned ++ (jobs_of ps ++ full_job s t ∷ pairs c.scanner.words) ≡ pairs given
      → All IsWord c.scanner.words
      → (c.scanner.eof ≡ true → c.scanner.words ≡ [])
      → Ordered given c'
  unfolding start_or_push jobs_of
  start_or_push-Ordered given s t ps c c' ws wt e free q good order words ended =
      elim (Bool-cases (ltb c.desk.workers.num_of_current_workers worker_limit)) [
        | inl room ↦
            let none_wait = free room in
            Started-Ordered worker_limit su given s t [] c c' ws wt (rw room at e)
              (q ∙ ap queue_of none_wait) tt (rw none_wait at order) words ended
        | inr full ↦
            let same = ok_injective (rw full at e) in
            rw (← same) (record {
              waiting = ps ++ (s, t) ∷ [];
              queued = ap (λ l. l ++ pair_text s t ∷ []) q ∙ sym (queue_of-snoc ps s t);
              sound = Words-snoc ps s t good ws wt;
              order = rw (jobs_of-snoc ps s t (pairs c.scanner.words)) order;
              words = words;
              ended = ended;
            })
      ]

  -- The same for a round that reads from the file.
  next_pair-Ordered :
      (given ws : List Text) (b f : Bool) (ps : List (Text × Text)) (c c' : Config)
      → next_pair worker_limit su
          (record c { scanner = record { words = ws; ends_with_word = b; eof = f } })
        ≡ ok c'
      → (ltb c.desk.workers.num_of_current_workers worker_limit ≡ true → ps ≡ [])
      → c.workers_queue ≡ queue_of ps
      → All Words ps
      → c.spawned ++ (jobs_of ps ++ pairs ws) ≡ pairs given
      → All IsWord ws
      → (f ≡ true → ws ≡ [])
      → Ordered given c'
  unfolding next_pair scan pairs is_empty
  next_pair-Ordered given [] b f ps c c' e free q good order words ended =
      rw (← ok_injective e) (record {
        waiting = ps;
        queued = q;
        sound = good;
        order = order;
        words = tt;
        ended = λ _. refl;
      })
  next_pair-Ordered given (w ∷ []) b f ps c c' e free q good order words ended =
      rw (← ok_injective e) (record {
        waiting = ps;
        queued = q;
        sound = good;
        order = order;
        words = tt;
        ended = λ _. refl;
      })
  next_pair-Ordered given (s ∷ t ∷ ws) b f ps c c' e free q good order words ended =
      start_or_push-Ordered given s t ps _ c' words.0 words.1.0 e free q good order words.1.1
        (λ h. behind ws h)
    where
      behind : (ws : List Text) → ((f || (b && false)) || (b && is_empty ws)) ≡ true → ws ≡ []
      behind [] h = refl
      behind (w ∷ ws) h = ground (arith, ended)

  choose-Ordered :
      (given : List Text) (ps : List (Text × Text)) (c c' : Config)
      → choose worker_limit su (record c { workers_queue = queue_of ps }) ≡ ok c'
      → All Words ps
      → c.spawned ++ (jobs_of ps ++ pairs c.scanner.words) ≡ pairs given
      → All IsWord c.scanner.words
      → (c.scanner.eof ≡ true → c.scanner.words ≡ [])
      → Ordered given c'
  unfolding choose start_or_push queue_of jobs_of
  choose-Ordered given [] c c' e good order words ended =
      let c₀ = record c { workers_queue = [] } in
      let e' : next_pair worker_limit su c₀ ≡ ok c' =
        elim (Bool-cases (ltb c.desk.workers.num_of_current_workers worker_limit)) [
          | inl room ↦ rw room at e
          | inr full ↦ rw full at e
        ] in
      next_pair-Ordered given c.scanner.words c.scanner.ends_with_word c.scanner.eof [] c₀ c' e'
        (λ _. refl) refl tt order words ended
  choose-Ordered given ((s, t) ∷ ps) c c' e good order words ended =
      elim (Bool-cases (ltb c.desk.workers.num_of_current_workers worker_limit)) [
        | inl room ↦
            Started-Ordered worker_limit su given s t ps (record c { workers_queue = queue_of ps })
              c' good.0.0 good.0.1 (rw room at e) refl good.1 order words ended
        | inr full ↦
            next_pair-Ordered given c.scanner.words c.scanner.ends_with_word c.scanner.eof
              ((s, t) ∷ ps) (record c { workers_queue = queue_of ((s, t) ∷ ps) }) c' (rw full at e)
              (λ room. cc (room, full)) refl good order words ended
      ]

  config_round-Ordered :
      (given : List Text) (c c' : Config)
      → config_round worker_limit su c ≡ ok c'
      → Ordered given c
      → Ordered given c'
  unfolding config_round
  config_round-Ordered given c c' e o =
      let (desk, _, e') = >>=-eq-ok (collect first_report su.arrivals c.desk) _ e in
      let same : choose worker_limit su
            (record c { desk = desk; workers_queue = queue_of o.waiting })
          ≡ choose worker_limit su (record c { desk = desk }) =
        ap (λ q. choose worker_limit su (record c { desk = desk; workers_queue = q }))
          (sym o.queued) in
      choose-Ordered given o.waiting (record c { desk = desk }) c' (same ∙ e') o.sound o.order
        o.words o.ended

all_started :
    (given : List Text) (c : Config)
    → Ordered given c
    → is_going c ≡ false
    → c.spawned ≡ pairs given
unfolding is_going is_empty queue_of jobs_of pairs
all_started given c o over = go o.waiting o.queued o.order
  where
    go :
        (ps : List (Text × Text))
        → c.workers_queue ≡ queue_of ps
        → c.spawned ++ (jobs_of ps ++ pairs c.scanner.words) ≡ pairs given
        → c.spawned ≡ pairs given
    go [] q order = sym (append-nil c.spawned) ∙ rw (o.ended (ground (arith, over))) at order
    go ((s, t) ∷ ps) q order = ground (arith, rw q at over)

-- A loop that has ended has started everything.
config_loop-Ordered :
    (given : List Text) (fuel worker_limit : ℕ) (su : ℕ → Supply) (c c' : Config)
    → config_loop fuel worker_limit su c ≡ ok c'
    → Ordered given c
    → c'.spawned ≡ pairs given
unfolding config_loop
config_loop-Ordered given zero worker_limit su c c' e o = elim (Bool-cases (is_going c)) [
  | inl going ↦ cc (rw going at e)
  | inr over ↦ rw (← ok_injective (rw over at e)) (all_started given c o over)
]
config_loop-Ordered given (suc fuel) worker_limit su c c' e o = elim (Bool-cases (is_going c)) [
  | inl going ↦
      let (c₁, e₁, e₂) = >>=-eq-ok (config_round worker_limit (su fuel) c) _ (rw going at e) in
      config_loop-Ordered given fuel worker_limit su c₁ c' e₂
        (config_round-Ordered worker_limit (su fuel) given c c₁ e₁ o)
  | inr over ↦ rw (← ok_injective (rw over at e)) (all_started given c o over)
]

-- The loop over the configuration file, from an empty queue and before anything has been started:
-- when it ends, a worker has been started for each pair of words of the file, in their order, and
-- for nothing else. A last word without a second one is passed over.
pub config_loop-pairs :
    (fuel worker_limit : ℕ) (su : ℕ → Supply) (c c' : Config)
    → All IsWord c.scanner.words
    → c.scanner.eof ≡ false
    → c.workers_queue ≡ []
    → c.spawned ≡ []
    → config_loop fuel worker_limit su c ≡ ok c'
    → c'.spawned ≡ pairs c.scanner.words
unfolding queue_of jobs_of
config_loop-pairs fuel worker_limit su c c' words eof empty none_yet e =
    config_loop-Ordered c.scanner.words fuel worker_limit su c c' e (record {
      waiting = [];
      queued = empty;
      sound = tt;
      order = ap (λ l. l ++ pairs c.scanner.words) none_yet;
      words = words;
      ended = λ h. cc (h, eof);
    })
