-- ===== src/Reminders/Tests.antt =====
-- A scan in the last two hours of an open offer, and one over two offers.
use carbon_contractors_com.Prelude.{◌≡◌, [], ◌∷◌, ◌+◌}
use carbon_contractors_com.World.{answered as reply, refused}
use carbon_contractors_com.World.Ensures.{Post}
use carbon_contractors_com.World.Yields.{Returned}
use carbon_contractors_com.Tasks.Queries.{get_offers_needing_reminder}
use carbon_contractors_com.Reminders.{remind_offers, no_reminders}
use carbon_contractors_com.Reminders.Invariant.{counted, remind_offers-counted}
use carbon_contractors_com.Reminders.Silent.{get_offers_needing_reminder-empty}
use carbon_contractors_com.Scenario.{offer, offer-IsFine, world, world-IsSound}

get_offers_needing_reminder-empty_example :
    Post (λ ts v. ts ≡ []) (get_offers_needing_reminder 95000 (world offer (reply ∷ [])))
get_offers_needing_reminder-empty_example =
    get_offers_needing_reminder-empty 95000 (world offer (reply ∷ []))
      (world-IsSound offer (reply ∷ []) offer-IsFine)

remind_offers-counted_example :
    Returned
      (λ run. counted run ≡ counted no_reminders + 2)
      (remind_offers (offer ∷ offer ∷ []) no_reminders (world offer (refused ∷ reply ∷ []))).0
remind_offers-counted_example =
    remind_offers-counted (offer ∷ offer ∷ []) no_reminders (world offer (refused ∷ reply ∷ []))
