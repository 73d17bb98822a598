-- ===== src/Hire/Burnt.antt =====
-- What becomes of an idempotency key after a day: the lookup no longer finds its row, and the
-- unique index still does.
use carbon_contractors_com.Prelude.{
  ℕ, ◌+◌, ◌/◌, ◌∙◌, ◌⊎◌, ◌<◌, ◌≡◌, refl, Bool, true, false, List, [], ◌∷◌, none, some, String, All,
  arith, leb, any, first, lower, if◌then◌else◌, update, ap, inl, inr,
}
use carbon_contractors_com.Schema.{TaskRecord, lapsed}
use carbon_contractors_com.World.Ensures.{begin-quiet}
use carbon_contractors_com.World.{World, Result, ok, err, numeric_overflow, unique_violation}
use carbon_contractors_com.World.Calm.{
  IsCalm, Calms, IsThrown, Anything, Calms-bind, Calms-draw, Calms-query, Calms-date_now,
  Calms-update_tasks, Calms-attempt, Calms-pure,
}
use carbon_contractors_com.Tasks.Transitions.{
  move_row, lapse_expired_offers, or_zero, is_expired_offer,
}
use carbon_contractors_com.Tasks.Queries.{newest_first, place}
use carbon_contractors_com.Tasks.Creation.{
  CreateTaskInput, amount_limit, new_row, collides, insert_on, insert_task, create_task, holds_key,
  is_replayable, find_task_by_idempotency_key,
}

first-none :
    {A : Type 0} (p : A → Bool) (xs : List A) → All (λ x. p x ≡ false) xs → first p xs ≡ none
first-none p [] h = refl
first-none p (x ∷ xs) (h, hs) = rw (h, first-none p xs hs) refl

All-if :
    {A : Type 0} (P : A → Type 0) (b : Bool) (xs ys : List A)
    → All P xs
    → All P ys
    → All P (if b then xs else ys)
All-if P true xs ys h k = h
All-if P false xs ys h k = k

All-place :
    (P : TaskRecord → Type 0) (t : TaskRecord) (ts : List TaskRecord)
    → P t
    → All P ts
    → All P (place t ts)
unfolding place
All-place P t [] h hs = (h, tt)
All-place P t (u ∷ us) h (hu, hus) =
    All-if P _ (u ∷ place t us) (t ∷ u ∷ us) (hu, All-place P t us h hus) (h, (hu, hus))

All-newest_first :
    (P : TaskRecord → Type 0) (ts : List TaskRecord) → All P ts → All P (newest_first ts)
unfolding newest_first
All-newest_first P [] h = tt
All-newest_first P (t ∷ ts) (h, hs) = All-place P t (newest_first ts) h (All-newest_first P ts hs)

any-map :
    {A : Type 0} (p q : A → Bool) (xs : List A)
    → ((x : A) → p x ≡ true → q x ≡ true)
    → any p xs ≡ true
    → any q xs ≡ true
any-map p q (x ∷ xs) k h = ground (arith, k x, any-map p q xs k)
any-map p q [] k h = h

module _ (agent key : String) (now : ℕ) where
  -- A row that does not hold the key, or was created more than 24 hours ago, in milliseconds.
  abbrev pub IsOld : TaskRecord → Type 0
  IsOld t = (holds_key agent key t ≡ false) ⊎ (t.created_at + 86400000 < now)

  -- A row holds the key, and each that does is old.
  pub record IsBurnt (ts : List TaskRecord) : Type 0 where
    pub held : any (holds_key agent key) ts ≡ true
    pub old : All IsOld ts

  IsOld-stale : (t : TaskRecord) → IsOld t → is_replayable agent key now t ≡ false
  unfolding is_replayable
  IsOld-stale t (inl e) = rw e refl
  IsOld-stale t (inr h) = ground arith

  All-stale :
      (ts : List TaskRecord) → All IsOld ts → All (λ t. is_replayable agent key now t ≡ false) ts
  All-stale [] h = tt
  All-stale (t ∷ ts) (h, hs) = (IsOld-stale t h, All-stale ts hs)

  at_now : (at : ℕ) → ok at ≡ ok now → at ≡ now
  at_now at e = cc

  pub find-Calms : Calms IsBurnt now (find_task_by_idempotency_key agent key) (λ r. r ≡ ok none)
  unfolding find_task_by_idempotency_key
  find-Calms =
      Calms-bind _ _ Calms-date_now
        (λ at e. Calms-query _ λ w h. rw (at_now at e) (
          ap ok (
            first-none (is_replayable agent key now) (newest_first w.tasks) (
              All-newest_first (λ t. is_replayable agent key now t ≡ false) w.tasks
                (All-stale w.tasks h.holds.old)))))
        (λ e f. cc)

  moved-IsOld :
      (p : TaskRecord → Bool) (at : ℕ) (t : TaskRecord)
      → IsOld t
      → IsOld (if p t then move_row at lapsed t else t)
  unfolding holds_key move_row
  moved-IsOld p at t h = moved (p t)
    where
      moved : (b : Bool) → IsOld (if b then move_row at lapsed t else t)
      moved true = h
      moved false = h

  moved-held :
      (p : TaskRecord → Bool) (at : ℕ) (t : TaskRecord)
      → holds_key agent key (if p t then move_row at lapsed t else t) ≡ holds_key agent key t
  unfolding holds_key move_row
  moved-held p at t = moved (p t)
    where
      moved :
          (b : Bool)
          → holds_key agent key (if b then move_row at lapsed t else t) ≡ holds_key agent key t
      moved true = refl
      moved false = refl

  update-IsBurnt :
      (p : TaskRecord → Bool) (at : ℕ) (ts : List TaskRecord)
      → All IsOld ts
      → All IsOld (update p (move_row at lapsed) ts)
        × (any (holds_key agent key) (update p (move_row at lapsed) ts)
            ≡ any (holds_key agent key) ts)
  update-IsBurnt p at [] h = (tt, refl)
  update-IsBurnt p at (t ∷ ts) (h, hs) =
      let (old, held) = update-IsBurnt p at ts hs in
      ((moved-IsOld p at t h, old), rw (moved-held p at t, held) refl)

  or_zero-Calms : (r : Result (List TaskRecord)) → Calms IsBurnt now (or_zero r) Anything
  or_zero-Calms (ok rows) = Calms-pure _ tt
  or_zero-Calms (err e) = Calms-pure _ tt

  pub lapse_expired_offers-Calms : Calms IsBurnt now lapse_expired_offers Anything
  unfolding lapse_expired_offers
  lapse_expired_offers-Calms =
      Calms-bind _ _ Calms-date_now
        (λ at e.
          Calms-attempt _ _
            (Calms-update_tasks _ _ λ ts h.
              let (old, held) = update-IsBurnt (is_expired_offer (at / 1000)) at ts h.old in
              record { held = held ∙ h.held; old = old })
            (λ r u. or_zero-Calms r))
        (λ e f. tt)

  module _ (keccak256 : String → String) (input : CreateTaskInput)
      (of_agent : lower input.from_agent_wallet ≡ lower agent)
      (with_key : input.idempotency_key ≡ some key) where
    holds-collides :
        (id : String) (at : ℕ) (t : TaskRecord)
        → holds_key agent key t ≡ true
        → collides (new_row keccak256 input id at) t ≡ true
    unfolding holds_key collides new_row
    holds-collides id at t h = rw (of_agent, with_key) (ground arith)

    unless_inserted :
        (b : Bool) (w : World)
        → IsCalm IsBurnt now w
        → let out : Result TaskRecord × World =
            if b then (err numeric_overflow, w) else (err unique_violation, w) in
          IsCalm IsBurnt now out.1 × IsThrown out.0
    unless_inserted true w h = (h, tt)
    unless_inserted false w h = (h, tt)

    insert-Calms :
        (id : String) → Calms IsBurnt now (insert_task (new_row keccak256 input id)) IsThrown
    unfolding insert_task insert_on
    insert-Calms id = record {
      at = λ w h.
          rw
            (
              begin-quiet w h.quiet,
              any-map (holds_key agent key) _ w.tasks (holds-collides id w.now) h.holds.held,
            )
            (unless_inserted (leb amount_limit (new_row keccak256 input id w.now).amount_usdc) w h);
    }

    -- An insert with the key is refused, and leaves the key as it was.
    pub create_task-Calms : Calms IsBurnt now (create_task keccak256 input) IsThrown
    unfolding create_task
    create_task-Calms = Calms-bind _ _ Calms-draw (λ id u. insert-Calms id) (λ e u. tt)
