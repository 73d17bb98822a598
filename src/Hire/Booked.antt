-- ===== src/Hire/Booked.antt =====
-- What has been checked of a hire that was made.
use carbon_contractors_com.Prelude.{
  ℕ, ◌≡◌, ◌≢◌, ◌≤◌, ◌∙◌, refl, sym, ap, Bool, false, any, Option, none, some, String, leb, same,
  arith,
}
use carbon_contractors_com.Schema.{accepted, TaskRecord, HumanRecord}
use carbon_contractors_com.World.{
  World, Error, database, unique_violation, numeric_overflow, no_source_state, task_not_found,
  invalid_transition, invalid_argument, not_configured, malformed_address, chain_unreadable, err,
  date_now,
}
use carbon_contractors_com.World.Ensures.{
  Post, Ensures, Ensures-pure, Ensures-bind, Ensures-any, Ensures-fact, Ensures-map, Ensures-if,
  Ensures-attempt,
}
use carbon_contractors_com.Tasks.Transitions.{lapse_expired_offers}
use carbon_contractors_com.Tasks.Queries.{worker_concurrency_cap}
use carbon_contractors_com.Awol.{AwolBookingDecision, accepts}
use carbon_contractors_com.Funding.{Config, FundingOfferRequest, initial_status}
use carbon_contractors_com.Funding.Promises.{create_funding_offer-Repeats}
use carbon_contractors_com.Hire.{
  HireSpec, HireRequest, Hired, Services, HireResponse, hired, upload_refused, auto_accept_offer,
  offer_request, make_offer, check_upload, check_spec, check_cap, check_channels, check_worker,
  unless_limited, check_rate, replay, unless_existing, check_key, check_caller, try_hire,
  replay_winner, recover, request_human_work,
}

module _ (config : Config) (services : Services) (caller : Option String) (req : HireRequest) where
  pub record IsChecked (h : Hired) : Type 0 where
    pub running : services.is_intake_paused ≡ false
    pub agent : String
    pub authenticated : caller ≡ some agent
    pub agent_clear : services.is_wallet_sanctioned agent ≡ false
    pub worker_clear : services.is_wallet_sanctioned h.response.worker ≡ false
    pub raw : String
    pub spec : HireSpec
    pub spec_given : req.acceptance_spec ≡ some raw
    pub spec_parsed : services.parse_and_hash_spec raw ≡ some spec
    pub spec_committed : h.response.spec_hash ≡ spec.parsed.hash
    pub upload_checked : upload_refused services spec req.evidence_upload ≡ false
    pub amount_repeated : h.response.amount_usdc ≡ req.amount_usdc
    pub some_amount : req.amount_usdc ≢ 0
    pub review_bounded : (12 ≤ req.review_window_hours) × (req.review_window_hours ≤ 336)
    pub not_silent : h.response.worker_status ≡ accepted → h.awol_signal ≡ none

  abbrev pub Checked : HireResponse → Type 0
  Checked (hired h) = IsChecked h
  Checked _ = Unit

  auto_accepted-active :
      (auto : Bool) (awol : AwolBookingDecision) (r : FundingOfferRequest)
      → r.auto_accept ≡ some (auto_accept_offer auto awol)
      → initial_status r ≡ accepted
      → awol.signal ≡ none
  unfolding initial_status auto_accept_offer
  auto_accepted-active auto awol r given h = ground arith

  module _ (agent : String) (started_at : ℕ) (running : services.is_intake_paused ≡ false)
      (authenticated : caller ≡ some agent)
      (agent_clear : services.is_wallet_sanctioned agent ≡ false) where
    module _ (worker : HumanRecord)
        (worker_clear : services.is_wallet_sanctioned worker.wallet ≡ false) (auto : Bool) where
      make_offer-Checked :
          (raw : String) (spec : HireSpec)
          → req.acceptance_spec ≡ some raw
          → services.parse_and_hash_spec raw ≡ some spec
          → upload_refused services spec req.evidence_upload ≡ false
          → Ensures
              (λ w. Unit)
              (make_offer config services req agent worker started_at spec auto)
              (λ r w. Checked r)
      unfolding make_offer
      make_offer-Checked raw spec given parsed checked = Ensures-bind _ _ (Ensures-any _) λ awol.
          Ensures-bind _ _
            (create_funding_offer-Repeats config (
              offer_request config services req agent worker started_at spec
                (auto_accept_offer auto awol)))
            λ response. Ensures-bind _ _ (Ensures-fact _) λ u.
              Ensures-map
                (λ w r. record {
                  running = running;
                  agent = agent;
                  authenticated = authenticated;
                  agent_clear = agent_clear;
                  worker_clear = ap services.is_wallet_sanctioned r.worker ∙ worker_clear;
                  raw = raw;
                  spec = spec;
                  spec_given = given;
                  spec_parsed = parsed;
                  spec_committed = r.hash;
                  upload_checked = checked;
                  amount_repeated = r.amount;
                  some_amount = r.within.some_amount;
                  review_bounded =
                      (omega (arith, r.within.review.0), omega (arith, r.within.review.1));
                  not_silent = λ e. auto_accepted-active auto awol _ refl (sym r.status ∙ e);
                })
                (λ a w h. h) (Ensures-pure _)

      check_upload-Checked :
          (raw : String) (o : Option HireSpec)
          → req.acceptance_spec ≡ some raw
          → services.parse_and_hash_spec raw ≡ o
          → Ensures
              (λ w. Unit)
              (check_upload config services req agent worker started_at auto o)
              (λ r w. Checked r)
      check_upload-Checked raw none given parsed = Ensures-pure _
      check_upload-Checked raw (some spec) given parsed =
          Ensures-if (upload_refused services spec req.evidence_upload) (λ e. Ensures-pure _)
            (make_offer-Checked raw spec given parsed)

      check_spec-Checked :
          (o : Option String)
          → req.acceptance_spec ≡ o
          → Ensures
              (λ w. Unit)
              (check_spec config services req agent worker started_at auto o)
              (λ r w. Checked r)
      check_spec-Checked none given = Ensures-pure _
      check_spec-Checked (some raw) given = check_upload-Checked raw _ given refl

      check_cap-Checked :
          Ensures
            (λ w. Unit)
            (check_cap config services req agent worker started_at auto)
            (λ r w. Checked r)
      check_cap-Checked =
          Ensures-if auto
            (λ e. Ensures-bind _ _ (Ensures-any _) λ committed.
              Ensures-if (leb worker_concurrency_cap committed) (λ full. Ensures-pure _)
                (λ free. check_spec-Checked _ refl))
            (λ e. check_spec-Checked _ refl)

    check_worker-Checked :
        (o : Option HumanRecord)
        → Ensures
            (λ w. Unit)
            (check_worker config services req agent started_at o)
            (λ r w. Checked r)
    unfolding check_channels
    check_worker-Checked none = Ensures-pure _
    check_worker-Checked (some worker) =
        Ensures-if (services.is_wallet_sanctioned worker.wallet) (λ e. Ensures-pure _)
          λ clear. Ensures-bind _ _ (Ensures-any _) λ channels.
            Ensures-bind _ _ (Ensures-any lapse_expired_offers)
              λ n. check_cap-Checked worker clear (any accepts channels)

    check_rate-Checked :
        Ensures (λ w. Unit) (check_rate config services req agent started_at) (λ r w. Checked r)
    unfolding check_rate
    check_rate-Checked = Ensures-bind _ _ (Ensures-any date_now) (λ now. limited _)
      where
        limited :
            (o : Option ℕ)
            → Ensures
                (λ w. Unit)
                (unless_limited config services req agent started_at o)
                (λ r w. Checked r)
        limited (some wait) = Ensures-pure _
        limited none = Ensures-bind _ _ (Ensures-any _) check_worker-Checked

    replay-Checked :
        (b : Bool) (t : TaskRecord)
        → Ensures (λ w. Unit) (replay config services b t) (λ r w. Checked r)
    unfolding replay
    replay-Checked b t = Ensures-bind _ _ (Ensures-any date_now) (λ now. Ensures-pure _)

    check_key-Checked :
        (o : Option String)
        → Ensures (λ w. Unit) (check_key config services req agent started_at o) (λ r w. Checked r)
    check_key-Checked none = check_rate-Checked
    check_key-Checked (some key) = Ensures-bind _ _ (Ensures-any _) existing
      where
        existing :
            (o : Option TaskRecord)
            → Ensures
                (λ w. Unit)
                (unless_existing config services req agent started_at o)
                (λ r w. Checked r)
        existing none = check_rate-Checked
        existing (some t) = replay-Checked false t

  check_caller-Checked :
      (started_at : ℕ) (o : Option String)
      → services.is_intake_paused ≡ false
      → caller ≡ o
      → Ensures (λ w. Unit) (check_caller config services req started_at o) (λ r w. Checked r)
  check_caller-Checked started_at none running e = Ensures-pure _
  check_caller-Checked started_at (some agent) running e =
      Ensures-if (same agent "") (λ u. Ensures-pure _)
        λ u.
          Ensures-if (services.is_wallet_sanctioned agent) (λ v. Ensures-pure _)
            λ clear. check_key-Checked agent started_at running e clear _

  try_hire-Checked :
      (started_at : ℕ)
      → Ensures (λ w. Unit) (try_hire config services caller req started_at) (λ r w. Checked r)
  unfolding try_hire
  try_hire-Checked started_at =
      Ensures-if services.is_intake_paused (λ e. Ensures-pure _)
        (λ running. check_caller-Checked started_at caller running refl)

  replay_winner-Checked :
      (o : Option TaskRecord)
      → Ensures (λ w. Unit) (replay_winner config services o) (λ r w. Checked r)
  unfolding replay
  replay_winner-Checked none = Ensures-pure _
  replay_winner-Checked (some t) = Ensures-bind _ _ (Ensures-any date_now) (λ now. Ensures-pure _)

  recover-Checked :
      (o key : Option String) (e : Error)
      → Ensures (λ w. Unit) (recover config services o key (err e)) (λ r w. Checked r)
  recover-Checked none key e = Ensures-pure _
  recover-Checked (some agent) none e = Ensures-pure _
  recover-Checked (some agent) (some key) unique_violation =
      Ensures-bind _ _ (Ensures-any _) replay_winner-Checked
  recover-Checked (some agent) (some key) database = Ensures-pure _
  recover-Checked (some agent) (some key) numeric_overflow = Ensures-pure _
  recover-Checked (some agent) (some key) (no_source_state s) = Ensures-pure _
  recover-Checked (some agent) (some key) (task_not_found s) = Ensures-pure _
  recover-Checked (some agent) (some key) (invalid_transition s t) = Ensures-pure _
  recover-Checked (some agent) (some key) (invalid_argument s) = Ensures-pure _
  recover-Checked (some agent) (some key) not_configured = Ensures-pure _
  recover-Checked (some agent) (some key) malformed_address = Ensures-pure _
  recover-Checked (some agent) (some key) chain_unreadable = Ensures-pure _

  hire-Checked :
      Ensures (λ w. Unit) (request_human_work config services caller req) (λ r w. Checked r)
  unfolding request_human_work
  hire-Checked = Ensures-bind _ _ (Ensures-any date_now) λ started_at.
      Ensures-attempt _ _ (try_hire-Checked started_at)
        (λ r. Ensures-map (λ w h. h) (λ a w h. h) (Ensures-pure r)) (recover-Checked caller _)

  -- If a hire makes an offer then, in every interleaving: intake was open; the caller was an
  -- authenticated wallet, not sanctioned, and neither is the wallet that is to be paid; the spec
  -- parsed, and its hash is the one that the response commits to; the upload credential passed its
  -- checks; the amount is the one asked, and not nothing; the review window is within the bounds of
  -- the contract; and an offer that was accepted for the worker was not one that the check of their
  -- silence spoke against.
  pub request_human_work-Checked :
      (w : World) → Post (λ r v. Checked r) (request_human_work config services caller req w)
  request_human_work-Checked w = hire-Checked.at w tt
