-- ===== src/Hire/Tests.antt =====
-- A worker with auto-booking is hired; a key that is a day old is neither replayed nor usable.
use carbon_contractors_com.Prelude.{◌≡◌, refl, [], ◌∷◌, some, lower, same, true, arith, inr}
use carbon_contractors_com.World.{World, answered as reply, ok}
use carbon_contractors_com.World.Ensures.{Post}
use carbon_contractors_com.Tasks.Transitions.{transitions_code}
use carbon_contractors_com.Tasks.Queries.{
  is_committed, newest_first, count_committed_tasks, get_tasks_by_wallet,
}
use carbon_contractors_com.Tasks.Creation.{
  create_task, insert_task, insert_on, new_row, find_task_by_idempotency_key, holds_key,
  is_replayable, same_key, collides, stored_amount,
}
use carbon_contractors_com.Registry.{get_human_by_wallet, get_channels_for_contractor, is_owned_by}
use carbon_contractors_com.Chain.{is_hex_address}
use carbon_contractors_com.Awol.{
  evaluate_awol_at_booking, evaluate_if_bookable, evaluate_history, evaluate_awol, history_streaks,
  compute_awol_streaks, task_to_awol_outcome, is_truthy, task_status_to_awol_outcome,
}
use carbon_contractors_com.Funding.{
  create_funding_offer, write_offer, refusal_of, offer_expiry, task_input,
}
use carbon_contractors_com.Hire.{
  HireRequest, tool_error, request_human_work, internal, is_retryable, try_hire, check_rate,
  check_channels, make_offer, upload_refused, auto_accept_offer,
}
use carbon_contractors_com.Hire.Booked.{Checked, request_human_work-Checked}
use carbon_contractors_com.Hire.Burnt.{IsBurnt}
use carbon_contractors_com.Hire.Replay.{IsRefused, stale_key}
use carbon_contractors_com.Scenario.{offer, world, agent_wallet, config, services, hire_request}

request_human_work-Checked_example :
    Post
      (λ r v. Checked config services (some agent_wallet) hire_request r)
      (request_human_work config services
        (some agent_wallet)
        hire_request
        (world offer (reply ∷ reply ∷ [])))
request_human_work-Checked_example =
    request_human_work-Checked config services (some agent_wallet) hire_request
      (world offer (reply ∷ reply ∷ []))

-- Two days on, with the key of the task that is there.
abbrev later : World
later = record (world offer []) { now = 172800000 }

abbrev reused : HireRequest
reused = record hire_request { idempotency_key = some "k1" }

later-IsBurnt : IsBurnt agent_wallet "k1" 172800000 (offer ∷ [])
unfolding holds_key same_key lower same
later-IsBurnt = record { held = refl; old = (inr (omega arith), tt) }

stale_key_example :
    IsRefused (request_human_work config services (some agent_wallet) reused later).0
    × IsBurnt agent_wallet "k1" later.now
        (request_human_work config services (some agent_wallet) reused later).1.tasks
stale_key_example = stale_key config services agent_wallet "k1" reused later refl refl later-IsBurnt

-- The error is the one that agents are told to retry.
internal_test :
    ((request_human_work config services (some agent_wallet) reused later).0
      ≡ ok (tool_error internal))
    × (is_retryable internal ≡ true)
unfolding transitions_code request_human_work try_hire check_rate check_channels make_offer
    upload_refused get_human_by_wallet get_channels_for_contractor evaluate_awol_at_booking
    evaluate_if_bookable evaluate_history create_funding_offer write_offer refusal_of offer_expiry
    create_task insert_task insert_on new_row task_input find_task_by_idempotency_key holds_key
    is_replayable newest_first is_retryable lower same_key collides auto_accept_offer
    count_committed_tasks get_tasks_by_wallet is_hex_address stored_amount is_owned_by is_committed
    evaluate_awol history_streaks compute_awol_streaks task_to_awol_outcome is_truthy
    task_status_to_awol_outcome
internal_test = (refl, refl)
