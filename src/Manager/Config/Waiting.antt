-- ===== src/Manager/Config/Waiting.antt =====
-- What the configuration phase has started, what waits in its queue and what is left of the file.
use file_sync_system.Common.{
  ℕ, ◌≡◌, ◌∙◌, refl, sym, ap, true, List, [], ◌∷◌, ◌++◌, append_assoc, All,
}
use file_sync_system.Common.Text.{Text}
use file_sync_system.HashTable as Watches
use file_sync_system.Manager.Command.Words.{IsWord, strtok-word}
use file_sync_system.Manager.Config.{
  Job, Supply, Config, new_dir, full_job, parse_pair, pair_text, start_worker,
}
use file_sync_system.Manager.Run.{ok, >>=-eq-ok, ok_injective, of_store, of_table, or_exit}
use file_sync_system.Manager.Workers.{launch}
use file_sync_system.MemStore as Store

-- The jobs that a list of words means, two words for each.
unfoldable pub pairs : List Text → List Job
pairs [] = []
pairs (w ∷ []) = []
pairs (s ∷ t ∷ words) = full_job s t ∷ pairs words

unfoldable pub queue_of : List (Text × Text) → List Text
queue_of [] = []
queue_of ((s, t) ∷ ps) = pair_text s t ∷ queue_of ps

unfoldable pub jobs_of : List (Text × Text) → List Job
jobs_of [] = []
jobs_of ((s, t) ∷ ps) = full_job s t ∷ jobs_of ps

abbrev pub Words : Text × Text → Type 0
Words (s, t) = IsWord s × IsWord t

-- What has been started, what waits in the queue and what is left in the file, one behind the
-- other, are the jobs of `given`.
pub record Ordered (given : List Text) (c : Config) : Type 0 where
  pub waiting : List (Text × Text)
  pub queued : c.workers_queue ≡ queue_of waiting
  pub sound : All Words waiting
  pub order : c.spawned ++ (jobs_of waiting ++ pairs c.scanner.words) ≡ pairs given
  pub words : All IsWord c.scanner.words
  pub ended : c.scanner.eof ≡ true → c.scanner.words ≡ []

pub parse_pair-pair_text :
    (s t : Text) → IsWord s → IsWord t → parse_pair (pair_text s t) ≡ ok (s, t)
unfolding parse_pair pair_text
parse_pair-pair_text s t ws wt = rw (strtok-word s (t ++ b' ' ∷ []) ws, strtok-word t [] wt) refl

-- A worker that has been started for a pair.
record Started (s t : Text) (c c' : Config) : Type 0 where
  spawned : c'.spawned ≡ c.spawned ++ full_job s t ∷ []
  queue : c'.workers_queue ≡ c.workers_queue
  scanner : c'.scanner ≡ c.scanner

pub queue_of-snoc :
    (ps : List (Text × Text)) (s t : Text)
    → queue_of (ps ++ (s, t) ∷ []) ≡ queue_of ps ++ pair_text s t ∷ []
unfolding queue_of
queue_of-snoc [] s t = refl
queue_of-snoc ((a, b) ∷ ps) s t = ap (λ q. pair_text a b ∷ q) (queue_of-snoc ps s t)

pub jobs_of-snoc :
    (ps : List (Text × Text)) (s t : Text) (js : List Job)
    → jobs_of (ps ++ (s, t) ∷ []) ++ js ≡ jobs_of ps ++ full_job s t ∷ js
unfolding jobs_of
jobs_of-snoc [] s t js = refl
jobs_of-snoc ((a, b) ∷ ps) s t js = ap (λ l. full_job a b ∷ l) (jobs_of-snoc ps s t js)

pub Words-snoc :
    (ps : List (Text × Text)) (s t : Text)
    → All Words ps
    → IsWord s
    → IsWord t
    → All Words (ps ++ (s, t) ∷ [])
Words-snoc [] s t h ws wt = ((ws, wt), tt)
Words-snoc (p ∷ ps) s t h ws wt = (h.0, Words-snoc ps s t h.1 ws wt)

module _ (worker_limit : ℕ) (su : Supply) where
  start_worker-Started :
      (s t : Text) (c c' : Config)
      → IsWord s
      → IsWord t
      → start_worker worker_limit su (pair_text s t) c ≡ ok c'
      → Started s t c c'
  unfolding start_worker
  start_worker-Started s t c c' ws wt e =
      let e₁ = rw (parse_pair-pair_text s t ws wt) at e in
      let (pid, _, e₂) = >>=-eq-ok (or_exit su.child_pid) _ e₁ in
      let (map, _, e₃) =
        >>=-eq-ok (of_table (Watches.insert su.leftover c.inotify_map su.watch_fd s)) _ e₂ in
      let (mem, _, e₄) =
        >>=-eq-ok (of_store (Store.add su.fresh su.depth c.desk.mem (new_dir s t))) _ e₃ in
      let (workers, _, e₅) = >>=-eq-ok (launch pid su.pipe_fd c.desk.workers) _ e₄ in
      let same = ok_injective e₅ in
      record {
        spawned = sym (ap (λ k. k.spawned) same);
        queue = sym (ap (λ k. k.workers_queue) same);
        scanner = sym (ap (λ k. k.scanner) same);
      }

  -- A pair in front of those that wait is started.
  pub Started-Ordered :
      (given : List Text) (s t : Text) (ps : List (Text × Text)) (c c' : Config)
      → IsWord s
      → IsWord t
      → start_worker worker_limit su (pair_text s t) c ≡ ok c'
      → c.workers_queue ≡ queue_of ps
      → All Words ps
      → c.spawned ++ full_job s t ∷ (jobs_of ps ++ pairs c.scanner.words) ≡ pairs given
      → All IsWord c.scanner.words
      → (c.scanner.eof ≡ true → c.scanner.words ≡ [])
      → Ordered given c'
  Started-Ordered given s t ps c c' ws wt e q good order words ended =
      let st = start_worker-Started s t c c' ws wt e in
      record {
        waiting = ps;
        queued = st.queue ∙ q;
        sound = good;
        order = rw (st.spawned, st.scanner, append_assoc) order;
        words = rw st.scanner words;
        ended = rw st.scanner ended;
      }
