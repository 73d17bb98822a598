-- ===== src/Hire/Replay.antt =====
-- A hire with a key that is more than a day old: the tool neither replays nor offers, and a retry
-- fares no better.
use carbon_contractors_com.Prelude.{
  ℕ, ◌≡◌, refl, Bool, false, List, [], Option, none, some, String, any, leb, lower, same, is_empty,
}
use carbon_contractors_com.Schema.{TaskRecord, NotificationChannel, HumanRecord}
use carbon_contractors_com.World.{
  World, Error, database, unique_violation, numeric_overflow, no_source_state, task_not_found,
  invalid_transition, invalid_argument, not_configured, malformed_address, chain_unreadable, Result,
  ok, err,
}
use carbon_contractors_com.World.Calm.{
  Calms, Anything, IsThrown, Calms-pure, Calms-throw, Calms-if, Calms-call, Calms-query, Calms-bind,
  Calms-attempt, Calms-date_now, Calms-notify, Calms-draw,
}
use carbon_contractors_com.Registry.{
  get_human_by_wallet, get_channels_for_contractor, set_accepts_auto_booking_for_contractor,
}
use carbon_contractors_com.Tasks.Queries.{
  worker_concurrency_cap, count_committed_tasks, get_tasks_by_wallet,
}
use carbon_contractors_com.Awol.{
  AwolSignal, AwolStreaks, AwolBookingDecision, accepts, disable_if, evaluate_history,
  evaluate_if_bookable, evaluate_awol_at_booking, notify_auto_booking_disabled,
}
use carbon_contractors_com.Funding.{
  Config, FundingOfferRequest, task_input, write_offer, unless_refused, create_funding_offer,
}
use carbon_contractors_com.Hire.{
  HireSpec, HireRequest, Services, HireResponse, tool_error, hired, replayed, upload_refused,
  or_unevaluated, make_offer, check_upload, check_spec, check_cap, check_channels, check_worker,
  unless_limited, check_rate, unless_existing, check_key, try_hire, replay_winner, recover,
  request_human_work,
}
use carbon_contractors_com.Hire.Burnt.{
  IsBurnt, find-Calms, lapse_expired_offers-Calms, create_task-Calms,
}

-- No offer and no replay: an error of the tool, or an exception.
abbrev IsUnmade : Result HireResponse → Type 0
IsUnmade (ok (tool_error c)) = Unit
IsUnmade (ok (hired r)) = ⊥
IsUnmade (ok (replayed b r)) = ⊥
IsUnmade (err e) = Unit

-- The tool answers, with an error.
abbrev pub IsRefused : Result HireResponse → Type 0
IsRefused (ok (tool_error c)) = Unit
IsRefused (ok (hired r)) = ⊥
IsRefused (ok (replayed b r)) = ⊥
IsRefused (err e) = ⊥

module _ {P : List TaskRecord → Type 0} {now : ℕ} where
  notice-Calms :
      (id : String) (cs : List NotificationChannel) (signal : AwolSignal)
      → Calms P now (notify_auto_booking_disabled id cs signal) Anything
  unfolding notify_auto_booking_disabled
  notice-Calms id cs signal = Calms-if (is_empty cs) (Calms-pure _ tt) (Calms-notify _ _)

  set_accepts-Calms :
      (id : String) (b : Bool) → Calms P now (set_accepts_auto_booking_for_contractor id b) Anything
  unfolding set_accepts_auto_booking_for_contractor
  set_accepts-Calms id b =
      Calms-call _ _
        λ w h. (record { quiet = h.quiet; same_time = h.same_time; holds = h.holds }, tt)

  disable_if-Calms :
      (id : String) (cs : List NotificationChannel) (streaks : AwolStreaks) (o : Option AwolSignal)
      → Calms P now (disable_if id cs streaks o) Anything
  disable_if-Calms id cs streaks none = Calms-pure _ tt
  disable_if-Calms id cs streaks (some signal) =
      Calms-bind _ _ (set_accepts-Calms id false)
        (λ n u. Calms-bind _ _ (notice-Calms id cs signal) (λ v t. Calms-pure _ tt) (λ e t. tt))
        (λ e t. tt)

  -- The check at a booking writes channels alone.
  evaluate_awol-Calms :
      (id wallet : String) → Calms P now (evaluate_awol_at_booking id wallet) Anything
  unfolding evaluate_awol_at_booking evaluate_if_bookable evaluate_history get_tasks_by_wallet
      get_channels_for_contractor
  evaluate_awol-Calms id wallet =
      Calms-bind _ _ (Calms-query {R = Anything} _ (λ w h. tt))
        (λ cs t.
          Calms-if (any accepts cs)
            (Calms-bind _ _ (Calms-query {R = Anything} _ (λ w h. tt))
              (λ ts u. disable_if-Calms id cs _ _) (λ e u. tt))
            (Calms-pure _ tt))
        (λ e t. tt)

  or_unevaluated-Calms : (r : Result AwolBookingDecision) → Calms P now (or_unevaluated r) Anything
  or_unevaluated-Calms (ok awol) = Calms-pure _ tt
  or_unevaluated-Calms (err e) = Calms-pure _ tt

module _ (config : Config) (services : Services) (agent key : String) (now : ℕ) where
  offer-IsThrown :
      (req : FundingOfferRequest)
      → lower req.from_agent_wallet ≡ lower agent
      → req.idempotency_key ≡ some key
      → (o : Option Error)
      → Calms (IsBurnt agent key now) now (unless_refused config req o) IsThrown
  unfolding write_offer task_input
  offer-IsThrown req e k (some refusal) = Calms-throw _ tt
  offer-IsThrown req e k none =
      Calms-bind _ _ Calms-date_now
        (λ at u.
          Calms-bind _ _ Calms-draw
            (λ id v.
              Calms-bind _ _ (create_task-Calms agent key now config.keccak256 _ e k)
                (λ t never. elim never [ ]) (λ x y. tt))
            (λ x y. tt))
        (λ x y. tt)

  module _ (req : HireRequest) (with_key : req.idempotency_key ≡ some key) (started_at : ℕ) where
    -- What each guard of the tool leaves to be done.
    abbrev Unmade : (World → Result HireResponse × World) → Type 0
    Unmade m = Calms (IsBurnt agent key now) now m IsUnmade

    module _ (worker : HumanRecord) (auto : Bool) where
      make_offer-Unmade :
          (spec : HireSpec)
          → Unmade (make_offer config services req agent worker started_at spec auto)
      unfolding make_offer create_funding_offer
      make_offer-Unmade spec =
          Calms-bind _ _
            (Calms-attempt _ _ (evaluate_awol-Calms worker.id worker.wallet)
              (λ r t. or_unevaluated-Calms r))
            (λ awol t.
              Calms-bind _ _ (offer-IsThrown _ refl with_key _) (λ r never. elim never [ ])
                (λ e u. tt))
            (λ e t. tt)

      check_upload-Unmade :
          (o : Option HireSpec)
          → Unmade (check_upload config services req agent worker started_at auto o)
      check_upload-Unmade none = Calms-pure _ tt
      check_upload-Unmade (some spec) =
          Calms-if (upload_refused services spec req.evidence_upload) (Calms-pure _ tt)
            (make_offer-Unmade spec)

      check_spec-Unmade :
          (o : Option String)
          → Unmade (check_spec config services req agent worker started_at auto o)
      check_spec-Unmade none = Calms-pure _ tt
      check_spec-Unmade (some raw) = check_upload-Unmade _

      check_cap-Unmade : Unmade (check_cap config services req agent worker started_at auto)
      unfolding count_committed_tasks
      check_cap-Unmade =
          Calms-if auto
            (Calms-bind _ _ (Calms-query {R = Anything} _ (λ w h. tt))
              (λ committed t.
                Calms-if (leb worker_concurrency_cap committed) (Calms-pure _ tt)
                  (check_spec-Unmade _))
              (λ e t. tt))
            (check_spec-Unmade _)

    check_worker-Unmade :
        (o : Option HumanRecord) → Unmade (check_worker config services req agent started_at o)
    unfolding check_channels get_channels_for_contractor
    check_worker-Unmade none = Calms-pure _ tt
    check_worker-Unmade (some worker) =
        Calms-if (services.is_wallet_sanctioned worker.wallet) (Calms-pure _ tt) (
          Calms-bind _ _ (Calms-query {R = Anything} _ (λ w h. tt))
            (λ channels t.
              Calms-bind _ _ (lapse_expired_offers-Calms agent key now)
                (λ n u. check_cap-Unmade worker (any accepts channels)) (λ e u. tt))
            (λ e t. tt))

    check_rate-Unmade : Unmade (check_rate config services req agent started_at)
    unfolding check_rate get_human_by_wallet
    check_rate-Unmade = Calms-bind _ _ Calms-date_now (λ at t. limited _) (λ e t. tt)
      where
        limited : (o : Option ℕ) → Unmade (unless_limited config services req agent started_at o)
        limited (some wait) = Calms-pure _ tt
        limited none =
            Calms-bind _ _ (Calms-query {R = Anything} _ (λ w h. tt)) (λ o t. check_worker-Unmade o)
              (λ e t. tt)

    existing-Unmade :
        (o : Option TaskRecord)
        → ok o ≡ ok none
        → Unmade (unless_existing config services req agent started_at o)
    existing-Unmade none e = check_rate-Unmade
    existing-Unmade (some t) e = cc

    check_key-Unmade :
        (o : Option String)
        → o ≡ some key
        → Unmade (check_key config services req agent started_at o)
    check_key-Unmade none e = cc
    check_key-Unmade (some k) e =
        let is_key : k ≡ key = cc in
        rw is_key
          (Calms-bind _ _ (find-Calms agent key now) (λ o f. existing-Unmade o f) (λ x f. tt))

    try_hire-Unmade : Unmade (try_hire config services (some agent) req started_at)
    unfolding try_hire
    try_hire-Unmade = Calms-if services.is_intake_paused (Calms-pure _ tt) (
        Calms-if (same agent "") (Calms-pure _ tt) (
          Calms-if (services.is_wallet_sanctioned agent) (Calms-pure _ tt)
            (check_key-Unmade _ with_key)))

  replay_winner-Refused :
      (o : Option TaskRecord)
      → ok o ≡ ok none
      → Calms (IsBurnt agent key now) now (replay_winner config services o) IsRefused
  replay_winner-Refused none e = Calms-pure _ tt
  replay_winner-Refused (some t) e = cc

  recover-Refused :
      (r : Result HireResponse)
      → IsUnmade r
      → Calms
          (IsBurnt agent key now)
          now
          (recover config services (some agent) (some key) r)
          IsRefused
  recover-Refused (ok (tool_error c)) u = Calms-pure _ tt
  recover-Refused (ok (hired r)) u = elim u [ ]
  recover-Refused (ok (replayed b r)) u = elim u [ ]
  recover-Refused (err unique_violation) u =
      Calms-bind _ _ (find-Calms agent key now) replay_winner-Refused (λ x f. cc)
  recover-Refused (err database) u = Calms-pure _ tt
  recover-Refused (err numeric_overflow) u = Calms-pure _ tt
  recover-Refused (err (no_source_state s)) u = Calms-pure _ tt
  recover-Refused (err (task_not_found s)) u = Calms-pure _ tt
  recover-Refused (err (invalid_transition s t)) u = Calms-pure _ tt
  recover-Refused (err (invalid_argument s)) u = Calms-pure _ tt
  recover-Refused (err not_configured) u = Calms-pure _ tt
  recover-Refused (err malformed_address) u = Calms-pure _ tt
  recover-Refused (err chain_unreadable) u = Calms-pure _ tt

  hire-IsRefused :
      (req : HireRequest)
      → req.idempotency_key ≡ some key
      → Calms
          (IsBurnt agent key now)
          now
          (request_human_work config services (some agent) req)
          IsRefused
  unfolding request_human_work
  hire-IsRefused req with_key =
      Calms-bind _ _ Calms-date_now
        (λ started_at e.
          Calms-attempt _ _ (try_hire-Unmade req with_key started_at)
            (λ r u. rw with_key (recover-Refused r u)))
        (λ x f. cc)

-- When nothing comes between its calls: once a row of the agent holds the key, and every row that
-- does was created more than 24 hours ago, the tool answers any request of that agent with that key
-- with an error, whatever the services say: it makes no offer, since the key is taken, and replays
-- none, since the rows are too old to be found. The request leaves the key in that state, so that
-- the same request fails again.
pub stale_key :
    (config : Config) (services : Services) (agent key : String) (req : HireRequest) (w : World)
    → req.idempotency_key ≡ some key
    → w.turns ≡ []
    → IsBurnt agent key w.now w.tasks
    → IsRefused (request_human_work config services (some agent) req w).0
      × IsBurnt agent key w.now (request_human_work config services (some agent) req w).1.tasks
stale_key config services agent key req w with_key quiet burnt =
    let (calm, refused) =
      (hire-IsRefused config services agent key w.now req with_key).at w
        record { quiet = quiet; same_time = refl; holds = burnt } in
    (refused, calm.holds)
