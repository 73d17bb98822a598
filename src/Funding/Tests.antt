-- ===== src/Funding/Tests.antt =====
-- An offer of 25 USDC, funded as its response says, and replayed.
use carbon_contractors_com.Prelude.{ℕ, ◌≡◌, ◌↔◌, ◌%◌, refl, some, none, lower, true}
use carbon_contractors_com.Chain.{OnChainTask, funded, to_wei}
use carbon_contractors_com.Settlement.{chain_matches_row}
use carbon_contractors_com.Funding.{
  FundingOfferRequest, replay_funding_offer, initial_status, build_funding_response,
  response_params,
}
use carbon_contractors_com.Funding.Amounts.{
  stored_row, offered, funded_as_told-matches_iff, replay_funding_offer-eq,
}
use carbon_contractors_com.Scenario.{agent_wallet, worker_wallet, config, spec}

abbrev request : ℕ → FundingOfferRequest
request amount = record {
  from_agent_wallet = agent_wallet;
  to_human_wallet = worker_wallet;
  task_description = "Photograph the roof.";
  amount_usdc = amount;
  deadline_unix = 400000;
  review_window_seconds = 86400;
  spec = spec.parsed;
  auto_accept = some true;
  offer_expiry_seconds = none;
  idempotency_key = some "k2";
}

abbrev as_told : ℕ → OnChainTask
as_told amount = record { worker = worker_wallet; amount = amount; state = funded }

-- 25.005 USDC.
funded_as_told-matches_iff_example :
    (chain_matches_row
        (as_told 25005000)
        (stored_row config (request 25005000) "t2" "r2" 146400 60000000)
      ≡ true)
    ↔ (25005000 % 10000 ≡ 0)
unfolding build_funding_response response_params to_wei
funded_as_told-matches_iff_example =
    funded_as_told-matches_iff config (request 25005000) "t2" "r2" 146400 60000000 60000000
      (as_told 25005000) refl refl

replay_funding_offer-eq_example :
    replay_funding_offer config
      (stored_row config (request 25000000) "t2" "r2" 146400 60000000)
      70000000
    ≡ record {
      response = offered config (request 25000000) "t2" 146400 70000000;
      awaiting_funding = true;
      task_status = initial_status (request 25000000);
    }
replay_funding_offer-eq_example =
    replay_funding_offer-eq config (request 25000000) "t2" "r2" 146400 60000000 70000000 refl
      (unfold lower in refl) refl
