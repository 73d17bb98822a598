-- ===== src/Funding/Amounts.antt =====
-- What an offer tells the agent, against the row that it stores.
use carbon_contractors_com.Prelude.{
  ℕ, ◌%◌, ◌≡◌, refl, sym, ◌∙◌, ◌↔◌, inl, inr, true, false, String, arith, same_refl, lower,
  lower_idem, ==_iff, Bool-cases,
}
use carbon_contractors_com.Schema.{is, TaskRecord}
use carbon_contractors_com.Chain.{OnChainTask, to_wei}
use carbon_contractors_com.Tasks.Creation.{stored_amount, new_row}
use carbon_contractors_com.Settlement.{chain_matches_row}
use carbon_contractors_com.Funding.{
  Config, FundingOfferRequest, FundingOfferResponse, build_funding_response, initial_status,
  task_input, response_params, replay_params, replay_funding_offer, in_offer_stage, or_default,
}

-- The column keeps an amount exactly when it is a whole number of cents.
stored_amount_iff : (m : ℕ) → (stored_amount m ≡ m) ↔ (m % 10000 ≡ 0)
unfolding stored_amount
stored_amount_iff m = (λ e. omega arith, λ e. omega arith)

matches_iff :
    (oc : OnChainTask) (t : TaskRecord)
    → lower oc.worker ≡ lower t.to_human_wallet
    → (chain_matches_row oc t ≡ true) ↔ (oc.amount ≡ t.amount_usdc)
unfolding chain_matches_row to_wei
matches_iff oc t e = rw (e, same_refl) (==_iff oc.amount t.amount_usdc)

-- The row of an offer, and its response.
abbrev pub stored_row : Config → FundingOfferRequest → String → String → ℕ → ℕ → TaskRecord
stored_row config req id row_id expiry created =
    new_row config.keccak256 (task_input config req id expiry) row_id created

abbrev pub offered : Config → FundingOfferRequest → String → ℕ → ℕ → FundingOfferResponse
offered config req id expiry later =
    build_funding_response config (response_params req id expiry) later

module _ (config : Config) (req : FundingOfferRequest) (id row_id : String)
    (expiry created later : ℕ) where
  -- The task that an agent creates on chain as its offer says, with the worker and the amount of
  -- the response, agrees with the stored row exactly when the amount is a whole number of cents.
  -- For any other amount the column has rounded the row's, and the confirmation and the settlement
  -- both refuse the task that was funded.
  pub funded_as_told-matches_iff :
      (oc : OnChainTask)
      → oc.worker ≡ (offered config req id expiry later).worker
      → oc.amount ≡ (offered config req id expiry later).amount_wei
      → (chain_matches_row oc (stored_row config req id row_id expiry created) ≡ true)
        ↔ (req.amount_usdc % 10000 ≡ 0)
  unfolding new_row task_input build_funding_response response_params to_wei
  funded_as_told-matches_iff oc worker amount =
      let (to, from) =
        matches_iff oc (stored_row config req id row_id expiry created)
          (rw (worker, lower_idem) refl) in
      let (keeps, whole) = stored_amount_iff req.amount_usdc in
      (λ m. keeps (sym (to m) ∙ amount), λ e. from (amount ∙ sym (whole e)))

  replay_params-eq :
      req.amount_usdc % 10000 ≡ 0
      → lower req.to_human_wallet ≡ req.to_human_wallet
      → req.spec.has_no_criteria ≡ false
      → replay_params (stored_row config req id row_id expiry created)
        ≡ response_params req id expiry
  unfolding new_row task_input response_params replay_params in_offer_stage initial_status is
  replay_params-eq cents small criteria =
      let whole = (stored_amount_iff req.amount_usdc).1 cents in
      elim (Bool-cases (or_default false req.auto_accept)) [
        | inl e ↦ rw (e, small, whole, sym criteria) refl
        | inr e ↦ rw (e, small, whole, sym criteria) refl
      ]

  awaiting : in_offer_stage (initial_status req) ≡ true
  unfolding in_offer_stage initial_status is
  awaiting = elim (Bool-cases (or_default false req.auto_accept)) [
    | inl e ↦ rw e refl
    | inr e ↦ rw e refl
  ]

  -- A replay of the row gives back the response of the offer, at the time of the replay, for a
  -- whole number of cents, a wallet in lower case and a spec with criteria.
  pub replay_funding_offer-eq :
      req.amount_usdc % 10000 ≡ 0
      → lower req.to_human_wallet ≡ req.to_human_wallet
      → req.spec.has_no_criteria ≡ false
      → replay_funding_offer config (stored_row config req id row_id expiry created) later
        ≡ record {
          response = offered config req id expiry later;
          awaiting_funding = true;
          task_status = initial_status req;
        }
  unfolding new_row task_input replay_funding_offer
  replay_funding_offer-eq cents small criteria =
      rw (replay_params-eq cents small criteria, awaiting) refl
