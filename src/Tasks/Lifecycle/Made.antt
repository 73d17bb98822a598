-- ===== src/Tasks/Lifecycle/Made.antt =====
-- What the guarded writes of src/lib/db/tasks.ts have made true of a row when they return.
use carbon_contractors_com.Prelude.{
  ℕ, ◌*◌, ◌≡◌, refl, sym, ◌∙◌, Bool, true, false, List, [], ◌∷◌, Option, none, some, String, arith,
  is_empty, if◌then◌else◌, same_iff,
}
use carbon_contractors_com.Schema.{TaskStatus, accepted, active, pending, is, TaskRecord}
use carbon_contractors_com.World.{World, ok}
use carbon_contractors_com.World.Keeps.{IsSound}
use carbon_contractors_com.World.Ensures.{
  Ensures, Ensures-pure, Ensures-throw, Ensures-bind, Ensures-attempt, Ensures-any, Ensures-if,
  Ensures-map, Ensures-date_now,
}
use carbon_contractors_com.Tasks.Transitions.{
  valid_transitions, has_id, explain, diagnose, unless_moved, update_task_status, mark_task_funded,
  Acceptance, taken, wrong_state, brief_changed, read_row, refusal, unless_taken, accept_task,
  is_movable, is_fundable, is_acceptable, move_row, fund_row, pin_row, hash_description,
}
use carbon_contractors_com.Tasks.Lifecycle.{Moves, Moves-trans, stay, lifecycle}
use carbon_contractors_com.Tasks.Lifecycle.Rows.{
  IsPlain, move_row-RowObeys, fund_row-RowObeys, pin_row-RowObeys,
}
use carbon_contractors_com.Tasks.Lifecycle.Writes.{
  is_movable-allowed, is_fundable-accepted, is_acceptable-pending,
}
use carbon_contractors_com.Tasks.Lifecycle.Lasting.{IsLasting, SoundWith, Ensures-write}

-- The row has been in a status, and has moved on from it if at all.
abbrev pub IsMoved : String → TaskStatus → TaskRecord → Type 0
IsMoved id s t = (t.payment_request_id ≡ id) × Moves s t.status

-- The worker's consent is on record.
abbrev pub IsConsented : String → String → TaskRecord → Type 0
IsConsented id pin t =
    (t.payment_request_id ≡ id) × (t.accepted_description_hash ≡ some pin) × Moves accepted t.status

-- The funding is on record.
abbrev pub IsFunded : String → ℕ → TaskRecord → Type 0
IsFunded id at t = (t.payment_request_id ≡ id) × (t.funded_at ≡ some at) × Moves active t.status

pub IsMoved-lasting : (id : String) (s : TaskStatus) → IsLasting (IsMoved id s)
IsMoved-lasting id s t u e (i, m) = (sym e.same_id ∙ i, Moves-trans m e.moves)

pub IsConsented-lasting : (id pin : String) → IsLasting (IsConsented id pin)
IsConsented-lasting id pin t u e (i, p, m) =
    (sym e.same_id ∙ i, ground (arith, e.pin_kept, p), Moves-trans m e.moves)

pub IsFunded-lasting : (id : String) (at : ℕ) → IsLasting (IsFunded id at)
IsFunded-lasting id at t u e (i, p, m) =
    (sym e.same_id ∙ i, ground (arith, e.funding_kept, p), Moves-trans m e.moves)

diagnose_throws :
    {P : World → Type 0} {Q : Unit {0} → World → Type 0} (id : String) (s : TaskStatus)
    → Ensures P (diagnose id s) Q
unfolding diagnose
diagnose_throws {Q = Q} id s =
    Ensures-attempt _ _ (Ensures-any (read_row id)) explain_throws (λ e. Ensures-throw _)
  where
    explain_throws : (o : Option TaskRecord) → Ensures (λ w. Unit) (explain id s (ok o)) Q
    explain_throws none = Ensures-throw _
    explain_throws (some t) = Ensures-throw _

module _ (P : TaskRecord → Type 0) where
  unless_moved_ensures :
      (id : String) (s : TaskStatus) (moved : List TaskRecord)
      → Ensures
          (λ w. is_empty moved ≡ false → SoundWith P w)
          (unless_moved id s moved)
          (λ u w. SoundWith P w)
  unless_moved_ensures id s [] = diagnose_throws id s
  unless_moved_ensures id s (r ∷ rs) = Ensures-map (λ w h. h refl) (λ u w h. h) (Ensures-pure tt)

has_id_iff : (id : String) (t : TaskRecord) → has_id id t ≡ true → t.payment_request_id ≡ id
has_id_iff id t = (same_iff t.payment_request_id id).0

is_movable-id :
    (id : String) (s : TaskStatus) (t : TaskRecord) → is_movable id s t ≡ true → has_id id t ≡ true
unfolding is_movable
is_movable-id id s t h = ground arith

is_fundable-id : (id : String) (t : TaskRecord) → is_fundable id t ≡ true → has_id id t ≡ true
unfolding is_fundable
is_fundable-id id t h = ground arith

pub is_acceptable-id :
    (id d : String) (t : TaskRecord) → is_acceptable id d t ≡ true → has_id id t ≡ true
unfolding is_acceptable
is_acceptable-id id d t h = ground arith

-- `updateTaskStatus`, when it returns.
pub update_task_status-makes :
    (id : String) (s : TaskStatus)
    → IsPlain s
    → Ensures (IsSound lifecycle) (update_task_status id s) (λ u w. SoundWith (IsMoved id s) w)
unfolding update_task_status move_row
update_task_status-makes id s plain =
    Ensures-if (is_empty (valid_transitions s)) (λ e. Ensures-throw _)
      λ e. Ensures-bind _ _ Ensures-date_now λ now.
        Ensures-bind _ _
          (Ensures-map (λ w h. h.0) (λ a w h. h)
            (Ensures-write (IsMoved id s) (is_movable id s) (move_row now s)
              (λ t h hit. move_row-RowObeys now s t plain h (is_movable-allowed id s t hit))
              (λ t hit. (has_id_iff id t (is_movable-id id s t hit), stay))))
          (unless_moved_ensures (IsMoved id s) id s)

-- `markTaskFunded`, when it returns.
pub mark_task_funded-makes :
    (id : String) (at : ℕ)
    → Ensures
        (IsSound lifecycle)
        (mark_task_funded id at)
        (λ u w. SoundWith (IsFunded id (at * 1000)) w)
unfolding mark_task_funded fund_row
mark_task_funded-makes id at = Ensures-bind _ _ Ensures-date_now λ now.
    Ensures-bind _ _
      (Ensures-map (λ w h. h.0) (λ a w h. h)
        (Ensures-write (IsFunded id (at * 1000)) (is_fundable id) (fund_row now (at * 1000))
          (λ t h hit. fund_row-RowObeys now (at * 1000) t h (is_fundable-accepted id t hit))
          (λ t hit. (has_id_iff id t (is_fundable-id id t hit), refl, stay))))
      (unless_moved_ensures (IsFunded id (at * 1000)) id active)

-- An acceptance that was taken.
abbrev pub Taken : (World → Type 0) → Acceptance → World → Type 0
Taken P taken w = P w
Taken P _ w = Unit

refusal_not-Taken : (P : World → Type 0) (o : Option TaskRecord) (w : World) → Taken P (refusal o) w
refusal_not-Taken P none w = tt
refusal_not-Taken P (some t) w = pick (is t.status pending)
  where
    pick : (b : Bool) → Taken P (if b then brief_changed else wrong_state t.status) w
    pick true = tt
    pick false = tt

-- `acceptTask`, when it returns.
pub accept_task-makes :
    (keccak256 : String → String) (id description : String)
    → Ensures
        (IsSound lifecycle)
        (accept_task keccak256 id description)
        (Taken (SoundWith (IsConsented id (hash_description keccak256 description))))
unfolding accept_task pin_row
accept_task-makes keccak256 id description = Ensures-bind _ _ Ensures-date_now λ now.
    Ensures-bind _ _
      (Ensures-map (λ w h. h.0) (λ a w h. h)
        (Ensures-write Consented (is_acceptable id description)
          (pin_row now (hash_description keccak256 description))
          (λ t h hit. pin_row-RowObeys now _ t h (is_acceptable-pending id description t hit))
          (λ t hit. (has_id_iff id t (is_acceptable-id id description t hit), refl, stay))))
      unless_taken_ensures
  where
    Consented : TaskRecord → Type 0
    Consented = IsConsented id (hash_description keccak256 description)

    unless_taken_ensures :
        (moved : List TaskRecord)
        → Ensures
            (λ w. is_empty moved ≡ false → SoundWith Consented w)
            (unless_taken id moved)
            (Taken (SoundWith Consented))
    unless_taken_ensures [] =
        Ensures-bind _ _ (Ensures-any (read_row id))
          λ o. Ensures-map (λ w h. refusal_not-Taken _ o w) (λ a w h. h) (Ensures-pure _)
    unless_taken_ensures (r ∷ rs) = Ensures-map (λ w h. h refl) (λ u w h. h) (Ensures-pure taken)
