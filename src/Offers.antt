-- ===== src/Offers.antt =====
-- The worker's answer to an offer (src/lib/offers.ts).
pub mod Invariant
pub mod Consent
pub mod Cap
pub mod Tests
use carbon_contractors_com.Prelude.{
  ℕ, ◌/◌, Bool, true, false, not, List, Option, none, some, String, if◌then◌else◌, leb, same, lower,
}
use carbon_contractors_com.Schema.{
  TaskStatus, pending, accepted, declined, lapsed, is, TaskRecord, HumanRecord,
}
use carbon_contractors_com.World.{
  Event, task_accepted, task_declined, M, pure, ◌>>=◌, ◌>>◌, date_now, notify,
}
use carbon_contractors_com.Registry.{get_human_by_wallet}
use carbon_contractors_com.Tasks.Transitions.{
  Acceptance, taken, not_found, wrong_state, brief_changed, expiry_passed, update_task_status,
  accept_task, lapse_expired_offers, get_task_by_payment_id,
}
use carbon_contractors_com.Tasks.Queries.{worker_concurrency_cap, count_committed_tasks}

pub data OfferDecision : Type 0 where
  accept decline : OfferDecision

-- Why an answer is refused, with what the response says beside its message.
pub data OfferRefusal : Type 0 where
  no_task : OfferRefusal
  not_the_worker : OfferRefusal
  offer_lapsed : OfferRefusal
  not_open : TaskStatus → OfferRefusal
  at_cap : (committed_tasks : ℕ) → OfferRefusal
  brief_moved : OfferRefusal
  race_lost : Option TaskStatus → OfferRefusal

pub data OfferResponse : Type 0 where
  answered : (payment_request_id : String) → TaskStatus → OfferResponse
  rejected : (http_status : ℕ) → OfferRefusal → OfferResponse

abbrev pub decided_status : OfferDecision → TaskStatus
decided_status accept = accepted
decided_status decline = declined

abbrev pub decided_event : OfferDecision → String → Event
decided_event accept = task_accepted
decided_event decline = task_declined

abbrev pub tell : OfferDecision → String → Option HumanRecord → M (Unit {0})
tell decision payment_request_id none = pure tt
tell decision payment_request_id (some worker) =
    notify worker.id (decided_event decision payment_request_id)

-- What follows a decision that was written.
unfoldable pub announce : OfferDecision → String → TaskRecord → M OfferResponse
announce decision payment_request_id task = do
  worker ← get_human_by_wallet task.to_human_wallet
  tell decision payment_request_id worker
  pure (answered payment_request_id (decided_status decision))

abbrev pub after_accept : String → TaskRecord → Acceptance → M OfferResponse
after_accept payment_request_id task taken = announce accept payment_request_id task
after_accept payment_request_id task brief_changed = pure (rejected 409 brief_moved)
after_accept payment_request_id task (wrong_state s) = pure (rejected 409 (race_lost (some s)))
after_accept payment_request_id task not_found = pure (rejected 409 (race_lost none))

-- The offer ran out between the two looks at the clock.
abbrev pub lapse_now : String → M OfferResponse
lapse_now payment_request_id = do
  update_task_status payment_request_id lapsed
  pure (rejected 410 offer_lapsed)

module _ (keccak256 : String → String) where
  unfoldable pub accept_if_free : String → TaskRecord → ℕ → M OfferResponse
  accept_if_free payment_request_id task committed =
      if leb worker_concurrency_cap committed then pure (rejected 409 (at_cap committed)) else do
        result ← accept_task keccak256 payment_request_id task.task_description
        after_accept payment_request_id task result

  unfoldable pub carry_out : OfferDecision → String → TaskRecord → M OfferResponse
  carry_out accept payment_request_id task = do
    committed ← count_committed_tasks task.to_human_wallet
    accept_if_free payment_request_id task committed
  carry_out decline payment_request_id task = do
    update_task_status payment_request_id declined
    announce decline payment_request_id task

  -- The second look at the clock, on an offer that was read as open.
  unfoldable pub answer_open : OfferDecision → String → TaskRecord → ℕ → M OfferResponse
  answer_open decision payment_request_id task now =
      if expiry_passed (now / 1000) task.offer_expiry_unix
      then lapse_now payment_request_id
      else carry_out decision payment_request_id task

  unfoldable pub answer_task : String → OfferDecision → String → TaskRecord → M OfferResponse
  answer_task caller_wallet decision payment_request_id task =
      if not (same (lower task.to_human_wallet) (lower caller_wallet))
      then pure (rejected 403 not_the_worker)
      else if is task.status lapsed
      then pure (rejected 410 offer_lapsed)
      else if not (is task.status pending)
      then pure (rejected 409 (not_open task.status))
      else do now ← date_now; answer_open decision payment_request_id task now

  abbrev pub answer_found : String → OfferDecision → String → Option TaskRecord → M OfferResponse
  answer_found caller_wallet decision payment_request_id none = pure (rejected 404 no_task)
  answer_found caller_wallet decision payment_request_id (some task) =
      answer_task caller_wallet decision payment_request_id task

  unfoldable pub respond_to_offer : String → String → OfferDecision → M OfferResponse
  respond_to_offer caller_wallet payment_request_id decision = do
    lapse_expired_offers
    task ← get_task_by_payment_id payment_request_id
    answer_found caller_wallet decision payment_request_id task
