-- ===== src/Manager/Loop/Branch.antt =====
-- The two ways of a round of the second loop.
use file_sync_system.Common.{
  ℕ, ◌≡◌, ◌⊎◌, ◌∙◌, refl, sym, ap, Bool, true, false, List, [], ◌∷◌, ltb, Bool-cases, inl, inr,
  ltb→lt,
}
use file_sync_system.Common.Text.{Text}
use file_sync_system.Manager.Loop.{serve, pop_or_serve}
use file_sync_system.Manager.Loop.Lost.{pop_or_serve-drops}
use file_sync_system.Manager.Run.{ok, ok_injective}
use file_sync_system.Manager.State.{State, Supply}

List-cases {ℓ} : {A : Type ℓ} (xs : List A) → (xs ≡ []) ⊎ ((x : A) × (ys : List A) × (xs ≡ x ∷ ys))
List-cases [] = inl refl
List-cases (x ∷ xs) = inr (x, xs, refl)

module _ (worker_limit : ℕ) (su : Supply) (s s' : State) where
  abbrev pub has_room : Bool
  has_room = ltb s.desk.workers.num_of_current_workers worker_limit

  -- A task is taken from the queue and goes nowhere, or the input is served.
  pub data Branch : Type 0 where
    popped :
        (task : Text) (rest : List Text)
        → has_room ≡ true
        → s.workers_queue ≡ task ∷ rest
        → s' ≡ record s { workers_queue = rest }
        → Branch
    served :
        (has_room ≡ true → s.workers_queue ≡ []) → serve worker_limit su su.input s ≡ ok s' → Branch

  served_full : has_room ≡ false → pop_or_serve worker_limit su s ≡ serve worker_limit su su.input s
  unfolding pop_or_serve
  served_full full = rw full refl

  served_empty :
      has_room ≡ true
      → s.workers_queue ≡ []
      → pop_or_serve worker_limit su s ≡ serve worker_limit su su.input s
  unfolding pop_or_serve
  served_empty room empty =
      ap (λ q. pop_or_serve worker_limit su (record s { workers_queue = q })) empty
      ∙ rw room refl
      ∙ sym (ap (λ q. serve worker_limit su su.input (record s { workers_queue = q })) empty)

  pub pop_or_serve-Branch : pop_or_serve worker_limit su s ≡ ok s' → Branch
  pop_or_serve-Branch e = elim (Bool-cases has_room) [
    | inl room ↦ elim (List-cases s.workers_queue) [
      | inl empty ↦ served (λ _. empty) (sym (served_empty room empty) ∙ e)
      | inr (task, rest, waits) ↦ popped task rest room waits (
          sym (
            ok_injective
              (sym (pop_or_serve-drops worker_limit su s task rest (ltb→lt _ _ room) waits) ∙ e)))
    ]
    | inr full ↦ served (λ room. cc (room, full)) (sym (served_full full) ∙ e)
  ]
