-- ===== src/Offers/Cap.antt =====
-- The cap on a worker's commitments, when requests do not overlap.
use carbon_contractors_com.Prelude.{
  ℕ, ◌/◌, ◌≡◌, ◌≤◌, refl, Bool, true, false, not, [], Option, none, some, String, arith,
  if◌then◌else◌, leb, count, first, update, same, same_iff, lower, lower_idem, inl, inr,
}
use carbon_contractors_com.Schema.{TaskStatus, pending, declined, lapsed, is, includes, TaskRecord}
use carbon_contractors_com.World.{World, M, pure, ◌>>=◌, write_tasks}
use carbon_contractors_com.World.Ensures.{query-quiet, update_tasks-quiet}
use carbon_contractors_com.World.Keeps.{
  IsSound, Keeps, Keeps-bind, Keeps-attempt, Keeps-pure, Keeps-if, Keeps-throw, Keeps-date_now,
  Keeps-update_tasks,
}
use carbon_contractors_com.Tasks.Transitions.{
  has_id, move_row, pin_row, hash_description, is_movable, is_acceptable, is_expired_offer,
  expiry_passed, update_task_status, lapse_expired_offers, accept_task, unless_taken,
}
use carbon_contractors_com.Tasks.Queries.{
  is_committed, count_committed_tasks, worker_concurrency_cap,
}
use carbon_contractors_com.Tasks.Lapse.{
  lapsed_world, lapse_expired_offers-quiet, get_task_by_payment_id-quiet,
}
use carbon_contractors_com.Tasks.Unique.{Unique, Unique-Matched}
use carbon_contractors_com.Tasks.Committed.{
  within_cap, IsFree, move_row-Obeys, update-Matched, pin_row-HasSameKeys, count-ext,
  count-update-one,
}
use carbon_contractors_com.Tasks.Lifecycle.Writes.{
  Keeps-unless_moved, Keeps-unless_taken, Keeps-or_zero,
}
use carbon_contractors_com.Tasks.Lifecycle.Made.{is_acceptable-id}
use carbon_contractors_com.Offers.{
  OfferDecision, accept, decline, after_accept, accept_if_free, carry_out, answer_open, answer_task,
  answer_found, respond_to_offer,
}
use carbon_contractors_com.Offers.Invariant.{Keeps-announce, Keeps-after_accept}

is_committed-pin_row :
    (wallet : String) (now : ℕ) (pin : String) (t : TaskRecord)
    → is_committed wallet (pin_row now pin t) ≡ true
    → same t.to_human_wallet (lower wallet) ≡ true
unfolding is_committed pin_row
is_committed-pin_row wallet now pin t h = ground arith

is_committed-lower :
    (wallet : String) (task t : TaskRecord)
    → same task.to_human_wallet (lower wallet) ≡ true
    → is_committed task.to_human_wallet t ≡ is_committed wallet t
unfolding is_committed
is_committed-lower wallet task t h =
    rw ((same_iff task.to_human_wallet (lower wallet)).0 h, lower_idem wallet) refl

module _ (wallet : String) (bound : ℕ) where
  update_task_status-cap :
      (id : String) (s : TaskStatus)
      → IsFree s
      → Keeps (within_cap wallet bound) (update_task_status id s)
  unfolding update_task_status
  update_task_status-cap id s free = Keeps-if _ _ _ (Keeps-throw _) (
      Keeps-bind _ _ Keeps-date_now λ now.
        Keeps-bind _ _
          (Keeps-update_tasks (is_movable id s) (move_row now s)
            (move_row-Obeys wallet bound (is_movable id s) now s free))
          (Keeps-unless_moved id s))

  lapsed-IsFree : IsFree lapsed
  lapsed-IsFree = unfold includes in refl

  lapse-cap : Keeps (within_cap wallet bound) lapse_expired_offers
  unfolding lapse_expired_offers
  lapse-cap = Keeps-bind _ _ Keeps-date_now λ now.
      Keeps-attempt _ _
        (Keeps-update_tasks (is_expired_offer (now / 1000)) (move_row now lapsed)
          (move_row-Obeys wallet bound (is_expired_offer (now / 1000)) now lapsed lapsed-IsFree))
        Keeps-or_zero

  -- The offer that is accepted is the one that was found, and its worker was below the cap.
  pin-cap :
      (keccak256 : String → String) (id : String) (task : TaskRecord) (now : ℕ) (w : World)
      → worker_concurrency_cap ≤ bound
      → IsSound (within_cap wallet bound) w
      → first (has_id id) w.tasks ≡ some task
      → leb worker_concurrency_cap (count (is_committed task.to_human_wallet) w.tasks) ≡ false
      → IsSound (within_cap wallet bound) (
          write_tasks
            (update
              (is_acceptable id task.task_description)
              (pin_row now (hash_description keccak256 task.task_description)))
            w)
  pin-cap keccak256 id task now w fits h found free = record {
    tasks = (
      Unique-Matched w.tasks _
          (update-Matched (is_acceptable id task.task_description)
            (pin_row now (hash_description keccak256 task.task_description))
            (pin_row-HasSameKeys now _) w.tasks)
          h.tasks.0,
      below,
    );
    turns = h.turns;
  }
    where
      below :
          count (is_committed wallet) (
            update
              (is_acceptable id task.task_description)
              (pin_row now (hash_description keccak256 task.task_description))
              w.tasks)
          ≤ bound
      below =
          elim (count-update-one id wallet (is_acceptable id task.task_description)
            (pin_row now (hash_description keccak256 task.task_description))
            (is_acceptable-id id task.task_description) (is_committed-pin_row wallet now _) w.tasks
            task h.tasks.0 found) [
              | inl less ↦ omega (arith, less, h.tasks.1)
              | inr (mine, more) ↦ ground (
                arith,
                more,
                free,
                fits,
                count-ext _ _ (λ t. is_committed-lower wallet task t mine) w.tasks,
              )
            ]

  IsSound-if :
      {A : Type 0} (b : Bool) (m n : M A) (w : World)
      → IsSound (within_cap wallet bound) (m w).1
      → (b ≡ false → IsSound (within_cap wallet bound) (n w).1)
      → IsSound (within_cap wallet bound) ((if b then m else n) w).1
  IsSound-if true m n w h k = h
  IsSound-if false m n w h k = k refl

  module _ (keccak256 : String → String) (id : String) (fits : worker_concurrency_cap ≤ bound) where
    accept-cap :
        (task : TaskRecord) (w : World)
        → w.turns ≡ []
        → IsSound (within_cap wallet bound) w
        → first (has_id id) w.tasks ≡ some task
        → IsSound (within_cap wallet bound) (carry_out keccak256 accept id task w).1
    unfolding carry_out accept_if_free count_committed_tasks accept_task ◌>>=◌
    accept-cap task w quiet h found = rw (query-quiet _ w quiet) (
        IsSound-if (leb worker_concurrency_cap (count (is_committed task.to_human_wallet) w.tasks))
          _ _ w h
          λ free.
            rw
              (update_tasks-quiet (is_acceptable id task.task_description)
                (pin_row w.now (hash_description keccak256 task.task_description)) w quiet)
              ((Keeps-bind (unless_taken id _) (after_accept id task) (Keeps-unless_taken id _)
                  (Keeps-after_accept id task)).at
                _ (pin-cap keccak256 id task w.now w fits h found free)).0)

    carry_out-cap :
        (d : OfferDecision) (task : TaskRecord) (w : World)
        → w.turns ≡ []
        → IsSound (within_cap wallet bound) w
        → first (has_id id) w.tasks ≡ some task
        → IsSound (within_cap wallet bound) (carry_out keccak256 d id task w).1
    carry_out-cap accept task w quiet h found = accept-cap task w quiet h found
    carry_out-cap decline task w quiet h found =
        unfold carry_out in
        ((Keeps-bind _ _ (update_task_status-cap id declined (unfold includes in refl))
            (λ u. Keeps-announce decline id task)).at
          w h).0

    answer_found-cap :
        (caller : String) (d : OfferDecision) (o : Option TaskRecord) (w : World)
        → w.turns ≡ []
        → IsSound (within_cap wallet bound) w
        → first (has_id id) w.tasks ≡ o
        → IsSound (within_cap wallet bound) (answer_found keccak256 caller d id o w).1
    unfolding answer_task answer_open ◌>>=◌ pure
    answer_found-cap caller d none w quiet h found = h
    answer_found-cap caller d (some task) w quiet h found =
        IsSound-if (not (same (lower task.to_human_wallet) (lower caller))) _ _ w h λ mine.
          IsSound-if (is task.status lapsed) _ _ w h λ late.
            IsSound-if (not (is task.status pending)) _ _ w h λ open_offer.
              IsSound-if (expiry_passed (w.now / 1000) task.offer_expiry_unix) _ _ w
                ((Keeps-bind _ _ (update_task_status-cap id lapsed lapsed-IsFree)
                    (λ u. Keeps-pure _)).at
                  w h).0
                λ in_time. carry_out-cap d task w quiet h found

lapsed_world-IsSound :
    (wallet : String) (bound : ℕ) (w : World)
    → IsSound (within_cap wallet bound) w
    → IsSound (within_cap wallet bound) (lapsed_world w)
lapsed_world-IsSound wallet bound w h = record {
  tasks =
      (move_row-Obeys wallet bound (is_expired_offer (w.now / 1000)) w.now lapsed
        (unfold includes in refl) w.tasks h.tasks).0;
  turns = h.turns;
}

-- When no other request writes in between and no call fails, in a table with no two rows of one id:
-- an answer to an offer, whatever it is and whoever gives it, leaves every wallet with at most as
-- many accepted and active tasks as the cap, if it had no more than that before. For a wallet that
-- was above the cap the number does not grow.
pub respond_to_offer-within_cap :
    (keccak256 : String → String) (caller id wallet : String) (d : OfferDecision) (bound : ℕ)
    (w : World)
    → w.turns ≡ []
    → Unique w.tasks
    → worker_concurrency_cap ≤ bound
    → count (is_committed wallet) w.tasks ≤ bound
    → count (is_committed wallet) (respond_to_offer keccak256 caller id d w).1.tasks ≤ bound
unfolding respond_to_offer ◌>>=◌
respond_to_offer-within_cap keccak256 caller id wallet d bound w quiet unique fits below =
    let sound : IsSound (within_cap wallet bound) w = record {
      tasks = (unique, below);
      turns = rw quiet tt;
    } in
    let once = lapsed_world-IsSound wallet bound w sound in
    let twice = lapsed_world-IsSound wallet bound (lapsed_world w) once in
    rw (lapse_expired_offers-quiet w quiet, get_task_by_payment_id-quiet id (lapsed_world w) quiet)
      (answer_found-cap wallet bound keccak256 id fits caller d _ (lapsed_world (lapsed_world w))
        quiet twice refl).tasks.1
