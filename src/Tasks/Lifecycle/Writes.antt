-- ===== src/Tasks/Lifecycle/Writes.antt =====
-- The writes of src/lib/db/tasks.ts keep the lifecycle, in every interleaving and whatever calls
-- fail.
use carbon_contractors_com.Prelude.{
  ℕ, ◌*◌, ◌/◌, ◌≡◌, Bool, true, List, [], ◌∷◌, Option, none, some, String, arith,
}
use carbon_contractors_com.Schema.{
  TaskStatus, pending, accepted, lapsed, is_iff, includes, TaskRecord,
}
use carbon_contractors_com.World.{Result, ok, err, update_tasks}
use carbon_contractors_com.World.Keeps.{
  Discipline, Keeps, Keeps-bind, Keeps-attempt, Keeps-update_tasks, Keeps-pure, Keeps-if,
  Keeps-throw, Keeps-date_now, keeps_rules,
}
use carbon_contractors_com.Tasks.Transitions.{
  valid_transitions, read_row, diagnose, explain, unless_moved, update_task_status,
  mark_task_funded, unless_taken, accept_task, is_movable, is_fundable, is_acceptable, move_row,
  fund_row, pin_row, hash_description, is_expired_offer, or_zero, lapse_expired_offers,
  get_task_by_payment_id,
}
use carbon_contractors_com.Tasks.Lifecycle.{IsFine, RowObeys, lifecycle, Obeys-update}
use carbon_contractors_com.Tasks.Lifecycle.Rows.{
  IsPlain, move_row-RowObeys, fund_row-RowObeys, pin_row-RowObeys,
}

pub Keeps-read_row : {d : Discipline} (id : String) → Keeps d (read_row id)
unfolding read_row
Keeps-read_row id = search keeps_rules

pub Keeps-explain :
    {d : Discipline} (id : String) (s : TaskStatus) (r : Result (Option TaskRecord))
    → Keeps d (explain id s r)
Keeps-explain id s (ok (some t)) = search keeps_rules
Keeps-explain id s (ok none) = search keeps_rules
Keeps-explain id s (err e) = search keeps_rules

pub Keeps-diagnose : {d : Discipline} (id : String) (s : TaskStatus) → Keeps d (diagnose id s)
unfolding diagnose
Keeps-diagnose id s =
    Keeps-attempt (read_row id) (explain id s) (Keeps-read_row id) (Keeps-explain id s)

pub Keeps-unless_moved :
    {d : Discipline} (id : String) (s : TaskStatus) (moved : List TaskRecord)
    → Keeps d (unless_moved id s moved)
Keeps-unless_moved id s [] = Keeps-diagnose id s
Keeps-unless_moved id s (_ ∷ _) = Keeps-pure tt

pub is_movable-allowed :
    (id : String) (s : TaskStatus) (t : TaskRecord)
    → is_movable id s t ≡ true
    → includes (valid_transitions s) t.status ≡ true
unfolding is_movable
is_movable-allowed id s t h = ground arith

pub is_fundable-accepted :
    (id : String) (t : TaskRecord) → is_fundable id t ≡ true → t.status ≡ accepted
unfolding is_fundable
is_fundable-accepted id t h = ground (arith, is_iff t.status accepted)

pub is_acceptable-pending :
    (id d : String) (t : TaskRecord) → is_acceptable id d t ≡ true → t.status ≡ pending
unfolding is_acceptable
is_acceptable-pending id d t h = ground (arith, is_iff t.status pending)

Keeps-write :
    (p : TaskRecord → Bool) (f : TaskRecord → TaskRecord)
    → ((t : TaskRecord) → IsFine t → p t ≡ true → RowObeys t (f t))
    → Keeps lifecycle (update_tasks p f)
Keeps-write p f good = Keeps-update_tasks p f (Obeys-update p f good)

-- A call of `updateTaskStatus` with a target that carries no column of its own keeps the
-- lifecycle.
pub update_task_status-Keeps :
    (id : String) (s : TaskStatus) → IsPlain s → Keeps lifecycle (update_task_status id s)
unfolding update_task_status
update_task_status-Keeps id s plain = Keeps-if _ _ _ (Keeps-throw _) (
    Keeps-bind _ _ Keeps-date_now λ now.
      Keeps-bind _ _
        (Keeps-write (is_movable id s) (move_row now s)
          λ t h passed. move_row-RowObeys now s t plain h (is_movable-allowed id s t passed))
        (Keeps-unless_moved id s))

-- So does `markTaskFunded`.
pub mark_task_funded-Keeps : (id : String) (at : ℕ) → Keeps lifecycle (mark_task_funded id at)
unfolding mark_task_funded
mark_task_funded-Keeps id at = Keeps-bind _ _ Keeps-date_now λ now.
    Keeps-bind _ _
      (Keeps-write (is_fundable id) (fund_row now (at * 1000))
        λ t h passed. fund_row-RowObeys now (at * 1000) t h (is_fundable-accepted id t passed))
      (Keeps-unless_moved id _)

pub Keeps-unless_taken :
    {d : Discipline} (id : String) (moved : List TaskRecord) → Keeps d (unless_taken id moved)
Keeps-unless_taken id [] = Keeps-bind _ _ (Keeps-read_row id) (λ r. Keeps-pure _)
Keeps-unless_taken id (_ ∷ _) = Keeps-pure _

-- So does `acceptTask`.
pub accept_task-Keeps :
    (keccak256 : String → String) (id description : String)
    → Keeps lifecycle (accept_task keccak256 id description)
unfolding accept_task
accept_task-Keeps keccak256 id description = Keeps-bind _ _ Keeps-date_now λ now.
    Keeps-bind _ _
      (Keeps-write (is_acceptable id description)
        (pin_row now (hash_description keccak256 description))
        λ t h passed. pin_row-RowObeys now _ t h (is_acceptable-pending id description t passed))
      (Keeps-unless_taken id)

pub Keeps-or_zero : {d : Discipline} (r : Result (List TaskRecord)) → Keeps d (or_zero r)
Keeps-or_zero (ok rows) = Keeps-pure _
Keeps-or_zero (err e) = Keeps-pure _

lapsing_allowed :
    (now : ℕ) (t : TaskRecord)
    → is_expired_offer now t ≡ true
    → includes (valid_transitions lapsed) t.status ≡ true
unfolding is_expired_offer valid_transitions
lapsing_allowed now t h = ground arith

-- So does the lapsing of expired offers.
pub lapse_expired_offers-Keeps : Keeps lifecycle lapse_expired_offers
unfolding lapse_expired_offers
lapse_expired_offers-Keeps = Keeps-bind _ _ Keeps-date_now λ now.
    Keeps-attempt _ _
      (Keeps-write (is_expired_offer (now / 1000)) (move_row now lapsed) λ t h passed.
        move_row-RowObeys now lapsed t (λ e. cc, λ e. cc, λ e. cc) h
          (lapsing_allowed (now / 1000) t passed))
      Keeps-or_zero

-- And the read of a task, which lapses first.
pub get_task_by_payment_id-Keeps : (id : String) → Keeps lifecycle (get_task_by_payment_id id)
unfolding get_task_by_payment_id
get_task_by_payment_id-Keeps id = Keeps-bind _ _ lapse_expired_offers-Keeps (λ n. Keeps-read_row id)
