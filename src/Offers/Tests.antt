-- ===== src/Offers/Tests.antt =====
-- The worker accepts the offer, and another wallet is refused.
use carbon_contractors_com.Prelude.{
  ◌≡◌, ◌≤◌, refl, List, [], ◌∷◌, none, String, arith, lower, same, count, update,
}
use carbon_contractors_com.Schema.{accepted, TaskRecord, includes}
use carbon_contractors_com.World.{World, answered as reply, refused, ok}
use carbon_contractors_com.World.Ensures.{Post}
use carbon_contractors_com.Tasks.Transitions.{transitions_code, is_acceptable, pin_row}
use carbon_contractors_com.Tasks.Unique.{Unique}
use carbon_contractors_com.Tasks.Creation.{collides, same_key}
use carbon_contractors_com.Offers.Cap.{respond_to_offer-within_cap}
use carbon_contractors_com.Tasks.Queries.{count_committed_tasks, is_committed}
use carbon_contractors_com.Registry.{get_human_by_wallet}
use carbon_contractors_com.Offers.{
  accept, answered, rejected, not_the_worker, respond_to_offer, answer_task, answer_open, carry_out,
  accept_if_free, announce,
}
use carbon_contractors_com.Offers.Consent.{Answered, respond_to_offer-Answered}
use carbon_contractors_com.Scenario.{
  offer, booked, turn, offer-IsFine, world, world-IsSound, worker_wallet, agent_wallet,
}

abbrev digest : String → String
digest s = "d"

respond_to_offer_tests :
    ((respond_to_offer digest worker_wallet "t1" accept (world offer (reply ∷ refused ∷ []))).0
      ≡ ok (answered "t1" accepted))
    × ((respond_to_offer digest agent_wallet "t1" accept (world offer [])).0
        ≡ ok (rejected 403 not_the_worker))
unfolding transitions_code respond_to_offer answer_task answer_open carry_out accept_if_free
    announce count_committed_tasks is_committed get_human_by_wallet lower
respond_to_offer_tests = (refl, refl)

respond_to_offer-Answered_example :
    Post
      (Answered digest worker_wallet "t1" (world offer (reply ∷ refused ∷ [])) accept)
      (respond_to_offer digest worker_wallet "t1" accept (world offer (reply ∷ refused ∷ [])))
respond_to_offer-Answered_example =
    respond_to_offer-Answered digest worker_wallet "t1" accept (world offer (reply ∷ refused ∷ []))
      (world-IsSound offer (reply ∷ refused ∷ []) offer-IsFine)

-- A table with two booked tasks and two open offers, in which the other offer is accepted just
-- before the write of this one: the worker ends with four.
abbrev numbered : TaskRecord → String → TaskRecord
numbered t id = record t { payment_request_id = id; idempotency_key = none }

abbrev four : List TaskRecord
four = numbered booked "a" ∷ numbered booked "b" ∷ numbered offer "t1" ∷ numbered offer "t2" ∷ []

abbrev quiet : World
quiet = record (world offer []) { tasks = four }

abbrev overtaken : World
overtaken = record (world offer []) {
  tasks = four;
  turns =
      turn reply
      ∷ turn reply
      ∷ turn reply
      ∷ turn reply
      ∷ record {
        reply = reply;
        elapsed = 0;
        others = update (is_acceptable "t2" "Photograph the site.") (pin_row 0 "d");
      }
      ∷ [];
}

cap_race_tests :
    (count
        (is_committed worker_wallet)
        (respond_to_offer digest worker_wallet "t1" accept quiet).1.tasks
      ≡ 3)
    × (count
          (is_committed worker_wallet)
          (respond_to_offer digest worker_wallet "t1" accept overtaken).1.tasks
        ≡ 4)
unfolding transitions_code respond_to_offer answer_task answer_open carry_out accept_if_free
    announce count_committed_tasks is_committed get_human_by_wallet lower
cap_race_tests = (refl, refl)

four-Unique : Unique four
unfolding collides same_key same
four-Unique = ((refl, (refl, (refl, tt))), ((refl, (refl, tt)), ((refl, tt), (tt, tt))))

two_committed : count (is_committed worker_wallet) quiet.tasks ≤ 3
unfolding is_committed includes lower same
two_committed = omega arith

respond_to_offer-within_cap_example :
    count
      (is_committed worker_wallet)
      (respond_to_offer digest worker_wallet "t1" accept quiet).1.tasks
    ≤ 3
respond_to_offer-within_cap_example =
    respond_to_offer-within_cap digest worker_wallet "t1" worker_wallet accept 3 quiet refl
      four-Unique (omega arith) two_committed
