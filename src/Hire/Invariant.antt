-- ===== src/Hire/Invariant.antt =====
-- A hire keeps the lifecycle of every row, whatever the services answer.
use carbon_contractors_com.Prelude.{ℕ, Bool, true, false, Option, none, some, String, leb, same}
use carbon_contractors_com.Schema.{TaskRecord, HumanRecord}
use carbon_contractors_com.World.{
  database, unique_violation, numeric_overflow, no_source_state, task_not_found, invalid_transition,
  invalid_argument, not_configured, malformed_address, chain_unreadable, Result, ok, err,
}
use carbon_contractors_com.World.Keeps.{
  Keeps, Keeps-bind, Keeps-attempt, Keeps-pure, Keeps-if, Keeps-date_now, Keeps-notify, Keeps-query,
}
use carbon_contractors_com.Registry.{Keeps-get_human_by_wallet, Keeps-get_channels_for_contractor}
use carbon_contractors_com.Tasks.Creation.{find_task_by_idempotency_key}
use carbon_contractors_com.Tasks.Queries.{worker_concurrency_cap}
use carbon_contractors_com.Tasks.Lifecycle.{lifecycle}
use carbon_contractors_com.Tasks.Lifecycle.Writes.{lapse_expired_offers-Keeps}
use carbon_contractors_com.Offers.Invariant.{Keeps-count_committed}
use carbon_contractors_com.Awol.{AwolBookingDecision}
use carbon_contractors_com.Awol.Invariant.{evaluate_awol_at_booking-Keeps}
use carbon_contractors_com.Funding.{Config}
use carbon_contractors_com.Funding.Invariant.{create_funding_offer-Keeps}
use carbon_contractors_com.Hire.{
  HireSpec, HireRequest, Services, HireResponse, upload_refused, or_unevaluated, make_offer,
  check_upload, check_spec, check_cap, check_channels, check_worker, unless_limited, check_rate,
  replay, unless_existing, check_key, check_caller, try_hire, replay_winner, recover,
  request_human_work,
}

Keeps-find : (agent key : String) → Keeps lifecycle (find_task_by_idempotency_key agent key)
unfolding find_task_by_idempotency_key
Keeps-find agent key = Keeps-bind _ _ Keeps-date_now (λ now. Keeps-query _)

Keeps-or_unevaluated : (r : Result AwolBookingDecision) → Keeps lifecycle (or_unevaluated r)
Keeps-or_unevaluated (ok awol) = Keeps-pure _
Keeps-or_unevaluated (err e) = Keeps-pure _

module _ (config : Config) (services : Services) where
  Keeps-replay : (b : Bool) (t : TaskRecord) → Keeps lifecycle (replay config services b t)
  unfolding replay
  Keeps-replay b t = Keeps-bind _ _ Keeps-date_now (λ now. Keeps-pure _)

  Keeps-replay_winner : (o : Option TaskRecord) → Keeps lifecycle (replay_winner config services o)
  Keeps-replay_winner none = Keeps-pure _
  Keeps-replay_winner (some t) = Keeps-replay true t

  Keeps-recover :
      (caller key : Option String) (r : Result HireResponse)
      → Keeps lifecycle (recover config services caller key r)
  Keeps-recover caller key (ok r) = Keeps-pure _
  Keeps-recover none key (err e) = Keeps-pure _
  Keeps-recover (some agent) none (err e) = Keeps-pure _
  Keeps-recover (some agent) (some key) (err unique_violation) =
      Keeps-bind _ _ (Keeps-find agent key) Keeps-replay_winner
  Keeps-recover (some agent) (some key) (err database) = Keeps-pure _
  Keeps-recover (some agent) (some key) (err numeric_overflow) = Keeps-pure _
  Keeps-recover (some agent) (some key) (err (no_source_state s)) = Keeps-pure _
  Keeps-recover (some agent) (some key) (err (task_not_found s)) = Keeps-pure _
  Keeps-recover (some agent) (some key) (err (invalid_transition s t)) = Keeps-pure _
  Keeps-recover (some agent) (some key) (err (invalid_argument s)) = Keeps-pure _
  Keeps-recover (some agent) (some key) (err not_configured) = Keeps-pure _
  Keeps-recover (some agent) (some key) (err malformed_address) = Keeps-pure _
  Keeps-recover (some agent) (some key) (err chain_unreadable) = Keeps-pure _

  module _ (req : HireRequest) (agent : String) (started_at : ℕ) where
    module _ (worker : HumanRecord) where
      Keeps-make_offer :
          (spec : HireSpec) (auto : Bool)
          → Keeps lifecycle (make_offer config services req agent worker started_at spec auto)
      unfolding make_offer
      Keeps-make_offer spec auto =
          Keeps-bind _ _
            (Keeps-attempt _ _ (evaluate_awol_at_booking-Keeps _ _) Keeps-or_unevaluated)
            λ awol.
              Keeps-bind _ _ (create_funding_offer-Keeps config _)
                λ response. Keeps-bind _ _ (Keeps-notify _ _) (λ u. Keeps-pure _)

      Keeps-check_upload :
          (auto : Bool) (o : Option HireSpec)
          → Keeps lifecycle (check_upload config services req agent worker started_at auto o)
      Keeps-check_upload auto none = Keeps-pure _
      Keeps-check_upload auto (some spec) =
          Keeps-if (upload_refused services spec req.evidence_upload) _ _ (Keeps-pure _)
            (Keeps-make_offer spec auto)

      Keeps-check_spec :
          (auto : Bool) (o : Option String)
          → Keeps lifecycle (check_spec config services req agent worker started_at auto o)
      Keeps-check_spec auto none = Keeps-pure _
      Keeps-check_spec auto (some raw) = Keeps-check_upload auto _

      Keeps-check_cap :
          (auto : Bool)
          → Keeps lifecycle (check_cap config services req agent worker started_at auto)
      Keeps-check_cap auto =
          Keeps-if auto _ _
            (Keeps-bind _ _ (Keeps-count_committed _) λ committed.
              Keeps-if (leb worker_concurrency_cap committed) _ _ (Keeps-pure _)
                (Keeps-check_spec auto _))
            (Keeps-check_spec auto _)

      Keeps-check_channels :
          Keeps lifecycle (check_channels config services req agent worker started_at)
      unfolding check_channels
      Keeps-check_channels =
          Keeps-bind _ _ (Keeps-get_channels_for_contractor _)
            λ channels. Keeps-bind _ _ lapse_expired_offers-Keeps (λ n. Keeps-check_cap _)

    Keeps-check_worker :
        (o : Option HumanRecord)
        → Keeps lifecycle (check_worker config services req agent started_at o)
    Keeps-check_worker none = Keeps-pure _
    Keeps-check_worker (some worker) =
        Keeps-if (services.is_wallet_sanctioned worker.wallet) _ _ (Keeps-pure _)
          (Keeps-check_channels worker)

    Keeps-unless_limited :
        (o : Option ℕ) → Keeps lifecycle (unless_limited config services req agent started_at o)
    Keeps-unless_limited (some wait) = Keeps-pure _
    Keeps-unless_limited none = Keeps-bind _ _ (Keeps-get_human_by_wallet _) Keeps-check_worker

    Keeps-check_rate : Keeps lifecycle (check_rate config services req agent started_at)
    unfolding check_rate
    Keeps-check_rate = Keeps-bind _ _ Keeps-date_now (λ now. Keeps-unless_limited _)

    Keeps-unless_existing :
        (o : Option TaskRecord)
        → Keeps lifecycle (unless_existing config services req agent started_at o)
    Keeps-unless_existing none = Keeps-check_rate
    Keeps-unless_existing (some t) = Keeps-replay false t

    Keeps-check_key :
        (o : Option String) → Keeps lifecycle (check_key config services req agent started_at o)
    Keeps-check_key none = Keeps-check_rate
    Keeps-check_key (some key) = Keeps-bind _ _ (Keeps-find agent key) Keeps-unless_existing

  Keeps-check_caller :
      (req : HireRequest) (started_at : ℕ) (o : Option String)
      → Keeps lifecycle (check_caller config services req started_at o)
  Keeps-check_caller req started_at none = Keeps-pure _
  Keeps-check_caller req started_at (some agent) = Keeps-if (same agent "") _ _ (Keeps-pure _) (
      Keeps-if (services.is_wallet_sanctioned agent) _ _ (Keeps-pure _)
        (Keeps-check_key req agent started_at _))

  -- A hire keeps the lifecycle.
  pub request_human_work-Keeps :
      (caller : Option String) (req : HireRequest)
      → Keeps lifecycle (request_human_work config services caller req)
  unfolding request_human_work try_hire
  request_human_work-Keeps caller req = Keeps-bind _ _ Keeps-date_now λ started_at.
      Keeps-attempt _ _
        (Keeps-if services.is_intake_paused _ _ (Keeps-pure _)
          (Keeps-check_caller req started_at caller))
        (Keeps-recover caller _)
