-- ===== src/FundTask/Tests.antt =====
-- A confirmation of a booked task, whose first call is refused.
use carbon_contractors_com.Prelude.{◌≡◌, refl, [], ◌∷◌, lower}
use carbon_contractors_com.World.{answered, refused, ok}
use carbon_contractors_com.World.Ensures.{Post}
use carbon_contractors_com.Chain.{funded, to_wei}
use carbon_contractors_com.Tasks.Transitions.{transitions_code, expiry_passed}
use carbon_contractors_com.Registry.{get_human_by_wallet}
use carbon_contractors_com.Settlement.{chain_matches_row}
use carbon_contractors_com.FundTask.{
  activated, fund_task, confirm_funding, check_task, check_chain, activate,
}
use carbon_contractors_com.FundTask.Confirmed.{Confirmed, fund_task-Confirmed}
use carbon_contractors_com.Scenario.{booked, booked-IsFine, chain, world, world-IsSound}

fund_task_test :
    (fund_task (chain funded) "t1" (world booked (refused ∷ answered ∷ []))).0
    ≡ ok (activated "t1" funded)
unfolding transitions_code fund_task confirm_funding check_task check_chain activate
    get_human_by_wallet chain_matches_row to_wei expiry_passed lower
fund_task_test = refl

fund_task-Confirmed_example :
    Post
      (Confirmed (chain funded) "t1" (world booked (refused ∷ answered ∷ [])))
      (fund_task (chain funded) "t1" (world booked (refused ∷ answered ∷ [])))
fund_task-Confirmed_example =
    fund_task-Confirmed (chain funded) "t1" (world booked (refused ∷ answered ∷ []))
      (world-IsSound booked (refused ∷ answered ∷ []) booked-IsFine)
