-- ===== src/Funding/Promises.antt =====
-- What holds of an offer that was made.
use carbon_contractors_com.Prelude.{ℕ, ◌≡◌, ◌≢◌, ◌≤◌, refl, true, Option, none, some, String, arith}
use carbon_contractors_com.World.{Error, date_now, draw}
use carbon_contractors_com.World.Ensures.{
  Ensures, Ensures-pure, Ensures-throw, Ensures-bind, Ensures-any, Ensures-map,
}
use carbon_contractors_com.Chain.{is_hex_address}
use carbon_contractors_com.Tasks.Creation.{create_task}
use carbon_contractors_com.Funding.{
  Config, FundingOfferRequest, FundingOfferResponse, build_funding_response, response_params,
  initial_status, offer_expiry, refusal_of, write_offer, unless_refused, create_funding_offer,
  min_review_window_seconds, max_review_window_seconds, min_offer_expiry_seconds,
  max_offer_expiry_seconds,
}

-- The bounds that every offer is within.
pub record IsWithin (req : FundingOfferRequest) : Type 0 where
  pub some_amount : req.amount_usdc ≢ 0
  pub agent : is_hex_address req.from_agent_wallet ≡ true
  pub worker : is_hex_address req.to_human_wallet ≡ true
  pub review :
      (min_review_window_seconds ≤ req.review_window_seconds)
      × (req.review_window_seconds ≤ max_review_window_seconds)
  pub expiry :
      (min_offer_expiry_seconds ≤ offer_expiry req) × (offer_expiry req ≤ max_offer_expiry_seconds)

refusal_of-IsWithin : (req : FundingOfferRequest) → refusal_of req ≡ none → IsWithin req
unfolding refusal_of
refusal_of-IsWithin req e = record {
  some_amount = ground arith;
  agent = ground arith;
  worker = ground arith;
  review = (ground arith, ground arith);
  expiry = (ground arith, ground arith);
}

-- A response that repeats the request.
pub record Repeats (req : FundingOfferRequest) (r : FundingOfferResponse) : Type 0 where
  pub within : IsWithin req
  pub worker : r.worker ≡ req.to_human_wallet
  pub amount : r.amount_usdc ≡ req.amount_usdc
  pub status : r.worker_status ≡ initial_status req
  pub hash : r.spec_hash ≡ req.spec.hash

module _ (config : Config) where
  built :
      (req : FundingOfferRequest) (within : IsWithin req) (id : String) (expiry later : ℕ)
      → Repeats req (build_funding_response config (response_params req id expiry) later)
  unfolding build_funding_response response_params
  built req within id expiry later = record {
    within = within;
    worker = refl;
    amount = refl;
    status = refl;
    hash = refl;
  }

  write_offer-Repeats :
      (req : FundingOfferRequest)
      → IsWithin req
      → Ensures (λ w. Unit) (write_offer config req) (λ r w. Repeats req r)
  unfolding write_offer
  write_offer-Repeats req within = Ensures-bind _ _ (Ensures-any date_now) λ now.
      Ensures-bind _ _ (Ensures-any draw) λ id.
        Ensures-bind _ _ (Ensures-any (create_task config.keccak256 _)) λ row.
          Ensures-bind _ _ (Ensures-any date_now)
            λ later. Ensures-map (λ w h. built req within id _ later) (λ a w h. h) (Ensures-pure _)

  unless_refused-Repeats :
      (req : FundingOfferRequest) (o : Option Error)
      → refusal_of req ≡ o
      → Ensures (λ w. Unit) (unless_refused config req o) (λ r w. Repeats req r)
  unless_refused-Repeats req (some e) h = Ensures-throw e
  unless_refused-Repeats req none h = write_offer-Repeats req (refusal_of-IsWithin req h)

  -- An offer that is returned is within the bounds, and repeats what was asked.
  pub create_funding_offer-Repeats :
      (req : FundingOfferRequest)
      → Ensures (λ w. Unit) (create_funding_offer config req) (λ r w. Repeats req r)
  unfolding create_funding_offer
  create_funding_offer-Repeats req = unless_refused-Repeats req _ refl
