-- ===== src/Dispute/Tests.antt =====
-- The worker disputes with evidence that fails, the agent records a dispute that is on chain.
use carbon_contractors_com.Prelude.{◌≡◌, refl, [], ◌∷◌, some, none, lower, String}
use carbon_contractors_com.Schema.{TaskRecord}
use carbon_contractors_com.World.{answered as reply, ok}
use carbon_contractors_com.World.Ensures.{Post}
use carbon_contractors_com.Chain.{disputed, funded}
use carbon_contractors_com.Tasks.Transitions.{transitions_code}
use carbon_contractors_com.Dispute.{
  Computed, verdict_fails, disputed_with_verdict, recorded_from_chain, verdict_required, dispute,
  dispute_task, is_party, is_disputable, mark_disputed, on_chain_state, is_dispute_on_chain,
}
use carbon_contractors_com.Dispute.Guarded.{Guarded, dispute-Guarded}
use carbon_contractors_com.Scenario.{
  running, running-IsFine, world, world-IsSound, worker_wallet, agent_wallet, chain,
}

abbrev verdict_of : TaskRecord → String → Computed
verdict_of task bundle = verdict_fails "s"

dispute_tests :
    ((dispute (chain funded) verdict_of (some worker_wallet) "t1" (some "e") (world running [])).0
      ≡ ok (disputed_with_verdict "s"))
    × ((dispute (chain disputed) verdict_of (some agent_wallet) "t1" none (world running [])).0
        ≡ ok (recorded_from_chain disputed))
    × ((dispute (chain funded) verdict_of (some agent_wallet) "t1" none (world running [])).0
        ≡ ok (verdict_required (some funded)))
unfolding transitions_code dispute dispute_task is_party is_disputable mark_disputed on_chain_state
    is_dispute_on_chain lower
dispute_tests = (refl, refl, refl)

dispute-Guarded_example :
    Post
      (λ a v.
        Guarded
          (chain disputed)
          verdict_of
          (some agent_wallet)
          "t1"
          none
          (world running (reply ∷ []))
          a)
      (dispute
        (chain disputed)
        verdict_of
        (some agent_wallet)
        "t1"
        none
        (world running (reply ∷ [])))
dispute-Guarded_example =
    dispute-Guarded (chain disputed) verdict_of (some agent_wallet) "t1" none
      (world running (reply ∷ [])) (world-IsSound running (reply ∷ []) running-IsFine)
