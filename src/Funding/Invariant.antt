-- ===== src/Funding/Invariant.antt =====
-- An offer keeps the lifecycle of every row.
use carbon_contractors_com.Prelude.{ℕ, ◌+◌, ◌/◌, Option, none, some, String, arith}
use carbon_contractors_com.World.{Error}
use carbon_contractors_com.World.Keeps.{
  Keeps, Keeps-bind, Keeps-pure, Keeps-throw, Keeps-date_now, Keeps-draw,
}
use carbon_contractors_com.Tasks.Creation.{or_pending}
use carbon_contractors_com.Tasks.Lifecycle.{lifecycle}
use carbon_contractors_com.Tasks.Lifecycle.Insert.{IsBorn, create_task-Keeps}
use carbon_contractors_com.Funding.{
  Config, FundingOfferRequest, initial_status, offer_expiry, refusal_of, task_input, write_offer,
  unless_refused, create_funding_offer,
}

born :
    (config : Config) (req : FundingOfferRequest) (id : String) (expiry : ℕ)
    → IsBorn (or_pending (task_input config req id expiry).status)
unfolding task_input initial_status
born config req id expiry = ground arith

Keeps-unless_refused :
    (config : Config) (req : FundingOfferRequest) (o : Option Error)
    → Keeps lifecycle (unless_refused config req o)
unfolding write_offer
Keeps-unless_refused config req (some e) = Keeps-throw e
Keeps-unless_refused config req none = Keeps-bind _ _ Keeps-date_now λ now.
    Keeps-bind _ _ Keeps-draw λ id.
      let expiry = now / 1000 + offer_expiry req in
      Keeps-bind _ _
        (create_task-Keeps config.keccak256 (task_input config req id expiry)
          (born config req id expiry))
        λ t. Keeps-bind _ _ Keeps-date_now (λ later. Keeps-pure _)

-- `createFundingOffer` keeps the lifecycle.
pub create_funding_offer-Keeps :
    (config : Config) (req : FundingOfferRequest)
    → Keeps lifecycle (create_funding_offer config req)
unfolding create_funding_offer
create_funding_offer-Keeps config req = Keeps-unless_refused config req (refusal_of req)
