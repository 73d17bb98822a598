-- ===== src/Hire.antt =====
-- The tool `request_human_work` (src/lib/mcp/server.ts): the guards in their order, the offer, and
-- the replay of an earlier one. The components that it asks and that are not modelled here answer
-- through a `Services`, whatever they answer.
pub mod Invariant
pub mod Booked
pub mod Burnt
pub mod Replay
pub mod Tests
use carbon_contractors_com.Prelude.{
  ℕ, ◌+◌, ◌*◌, ◌/◌, ◌≡◌, Bool, true, false, not, ◌&&◌, ◌||◌, List, [], ◌∷◌, Option, none, some,
  String, if◌then◌else◌, leb, lower, any, same,
}
use carbon_contractors_com.Schema.{
  TaskStatus, pending, is, TaskRecord, NotificationChannel, HumanRecord,
}
use carbon_contractors_com.World.{
  Error, unique_violation, Result, ok, err, M, pure, ◌>>=◌, ◌>>◌, attempt, date_now, notify,
  offer_received,
}
use carbon_contractors_com.Registry.{get_human_by_wallet, get_channels_for_contractor}
use carbon_contractors_com.Tasks.Transitions.{lapse_expired_offers}
use carbon_contractors_com.Tasks.Queries.{count_committed_tasks, worker_concurrency_cap}
use carbon_contractors_com.Tasks.Creation.{find_task_by_idempotency_key}
use carbon_contractors_com.Awol.{
  AwolBookingDecision, AwolSignal, unevaluated, accepts, evaluate_awol_at_booking,
}
use carbon_contractors_com.Funding.{
  Config, ParsedSpec, FundingOfferRequest, FundingOfferResponse, FundingOfferReplay,
  create_funding_offer, replay_funding_offer, or_default,
}

pub data ToolErrorCode : Type 0 where
  unauthenticated intake_paused rate_limited unregistered_worker worker_at_capacity : ToolErrorCode
  acceptance_spec_required invalid_spec invalid_argument task_not_found : ToolErrorCode
  contractor_not_found forbidden sanctioned_wallet invalid_task_state : ToolErrorCode
  verdict_input_invalid verdict_computation_failed verdict_passed : ToolErrorCode
  dispute_requires_verdict chain_state_mismatch chain_write_failed internal : ToolErrorCode

-- `RETRYABLE_CODES`, by which an agent decides whether to send the same request again.
unfoldable pub is_retryable : ToolErrorCode → Bool
is_retryable intake_paused = true
is_retryable rate_limited = true
is_retryable verdict_computation_failed = true
is_retryable chain_write_failed = true
is_retryable internal = true
is_retryable _ = false

pub record Bucket : Type 0 where
  pub provider : String
  pub target : String

-- A parsed spec, with the two of its parts that this tool reads.
pub record HireSpec : Type 0 where
  pub parsed : ParsedSpec
  pub evidence_bucket : Option Bucket
  pub wants_artefacts : Bool

pub record EvidenceUpload : Type 0 where
  pub region : Option String
  pub endpoint : Option String
  pub max_upload_mb : Option ℕ

pub record HireRequest : Type 0 where
  pub to_human_wallet : String
  pub task_description : String
  pub amount_usdc : ℕ
  pub deadline_hours : ℕ
  pub review_window_hours : ℕ
  pub offer_expiry_minutes : Option ℕ
  pub acceptance_spec : Option String
  pub evidence_upload : Option EvidenceUpload
  pub idempotency_key : Option String

-- `isIntakePaused`, `isWalletSanctioned`, `taskCreationRateLimiter.limit` at a time (its answer is
-- the seconds to wait), `parseAndHashSpec`, `isEvidenceEncryptionConfigured`,
-- `resolveBucketLocation`, and whether the credential of a task is encrypted and stored.
pub record Services : Type 0 where
  pub is_intake_paused : Bool
  pub is_wallet_sanctioned : String → Bool
  pub limit : String → ℕ → Option ℕ
  pub parse_and_hash_spec : String → Option HireSpec
  pub is_evidence_encryption_configured : Bool
  pub resolves : Bucket → EvidenceUpload → Bool
  pub stores_credential : (payment_request_id : String) → Bool

pub record Hired : Type 0 where
  pub response : FundingOfferResponse
  pub awol_signal : Option AwolSignal
  pub evidence_enabled : Option Bool
  pub warned : Bool

pub data HireResponse : Type 0 where
  tool_error : ToolErrorCode → HireResponse
  replayed : (replayed_after_conflict : Bool) → FundingOfferReplay → HireResponse
  hired : Hired → HireResponse

-- Whether the credential is refused before any row exists.
unfoldable pub upload_refused : Services → HireSpec → Option EvidenceUpload → Bool
upload_refused services spec none = false
upload_refused services spec (some upload) =
    not services.is_evidence_encryption_configured || elim spec.evidence_bucket [
      | none ↦ true
      | some bucket ↦ not (services.resolves bucket upload)
    ]

unfoldable pub is_uploadable : Bucket → Bool
is_uploadable bucket = same bucket.provider "s3" || same bucket.provider "gcs"

-- What becomes of the credential once the task has its id.
unfoldable pub upload_result :
    Services → Option Bucket → Option EvidenceUpload → String → Option Bool
upload_result services (some bucket) (some upload) payment_request_id =
    if is_uploadable bucket then some (services.stores_credential payment_request_id) else none
upload_result services _ none payment_request_id = none
upload_result services none (some upload) payment_request_id = none

unfoldable pub warns : HireSpec → Option EvidenceUpload → Bool
warns spec none = spec.wants_artefacts
warns spec (some upload) = false

abbrev pub is_none : Option AwolSignal → Bool
is_none none = true
is_none (some _) = false

-- An offer is accepted for a worker only on a check that ran and found them active.
unfoldable pub auto_accept_offer : Bool → AwolBookingDecision → Bool
auto_accept_offer auto_accept awol = auto_accept && (awol.evaluated && is_none awol.signal)

abbrev pub or_unevaluated : Result AwolBookingDecision → M AwolBookingDecision
or_unevaluated (ok awol) = pure awol
or_unevaluated (err e) = pure unevaluated

module _ (config : Config) (services : Services) where
  abbrev pub offer_request :
      HireRequest → String → HumanRecord → ℕ → HireSpec → Bool → FundingOfferRequest
  offer_request req agent worker started_at spec auto_accept = record {
    from_agent_wallet = agent;
    to_human_wallet = worker.wallet;
    task_description = req.task_description;
    amount_usdc = req.amount_usdc;
    deadline_unix = started_at / 1000 + req.deadline_hours * 3600;
    review_window_seconds = req.review_window_hours * 3600;
    spec = spec.parsed;
    auto_accept = some auto_accept;
    offer_expiry_seconds = some (or_default 1440 req.offer_expiry_minutes * 60);
    idempotency_key = req.idempotency_key;
  }

  -- The expiry goes to the worker only on a pending offer.
  abbrev pub worker_expiry : FundingOfferResponse → Option ℕ
  worker_expiry response =
      if is response.worker_status pending then response.offer_expiry_unix else none

  -- From the check of the worker's silence on, with every guard passed.
  unfoldable pub make_offer :
      HireRequest → String → HumanRecord → ℕ → HireSpec → Bool → M HireResponse
  make_offer req agent worker started_at spec auto_accept = do
    awol ← attempt (evaluate_awol_at_booking worker.id worker.wallet) or_unevaluated
    response ←
        create_funding_offer config
          (offer_request req agent worker started_at spec (auto_accept_offer auto_accept awol))
    notify worker.id
        (offer_received response.payment_request_id req.amount_usdc (worker_expiry response))
    pure (
        hired record {
          response = response;
          awol_signal = awol.signal;
          evidence_enabled =
              upload_result services spec.evidence_bucket req.evidence_upload
                response.payment_request_id;
          warned = warns spec req.evidence_upload;
        })

  abbrev pub check_upload :
      HireRequest → String → HumanRecord → ℕ → Bool → Option HireSpec → M HireResponse
  check_upload req agent worker started_at auto_accept none = pure (tool_error invalid_spec)
  check_upload req agent worker started_at auto_accept (some spec) =
      if upload_refused services spec req.evidence_upload
      then pure (tool_error invalid_argument)
      else make_offer req agent worker started_at spec auto_accept

  abbrev pub check_spec :
      HireRequest → String → HumanRecord → ℕ → Bool → Option String → M HireResponse
  check_spec req agent worker started_at auto_accept none =
      pure (tool_error acceptance_spec_required)
  check_spec req agent worker started_at auto_accept (some raw) =
      check_upload req agent worker started_at auto_accept (services.parse_and_hash_spec raw)

  abbrev pub if_below_cap : HireRequest → String → HumanRecord → ℕ → Bool → ℕ → M HireResponse
  if_below_cap req agent worker started_at auto_accept committed =
      if leb worker_concurrency_cap committed
      then pure (tool_error worker_at_capacity)
      else check_spec req agent worker started_at auto_accept req.acceptance_spec

  abbrev pub check_cap : HireRequest → String → HumanRecord → ℕ → Bool → M HireResponse
  check_cap req agent worker started_at auto_accept =
      if auto_accept
      then count_committed_tasks worker.wallet
        >>= if_below_cap req agent worker started_at auto_accept
      else check_spec req agent worker started_at auto_accept req.acceptance_spec

  unfoldable pub check_channels : HireRequest → String → HumanRecord → ℕ → M HireResponse
  check_channels req agent worker started_at = do
    channels ← get_channels_for_contractor worker.id
    lapse_expired_offers
    check_cap req agent worker started_at (any accepts channels)

  abbrev pub check_worker : HireRequest → String → ℕ → Option HumanRecord → M HireResponse
  check_worker req agent started_at none = pure (tool_error unregistered_worker)
  check_worker req agent started_at (some worker) =
      if services.is_wallet_sanctioned worker.wallet
      then pure (tool_error sanctioned_wallet)
      else check_channels req agent worker started_at

  abbrev pub unless_limited : HireRequest → String → ℕ → Option ℕ → M HireResponse
  unless_limited req agent started_at (some wait) = pure (tool_error rate_limited)
  unless_limited req agent started_at none =
      get_human_by_wallet req.to_human_wallet >>= check_worker req agent started_at

  unfoldable pub check_rate : HireRequest → String → ℕ → M HireResponse
  check_rate req agent started_at = do
    now ← date_now
    unless_limited req agent started_at (services.limit (lower agent) now)

  -- A replay of a row, at the time of its answer.
  unfoldable pub replay : Bool → TaskRecord → M HireResponse
  replay after_conflict task = do
    now ← date_now
    pure (replayed after_conflict (replay_funding_offer config task now))

  abbrev pub unless_existing : HireRequest → String → ℕ → Option TaskRecord → M HireResponse
  unless_existing req agent started_at none = check_rate req agent started_at
  unless_existing req agent started_at (some existing) = replay false existing

  abbrev pub check_key : HireRequest → String → ℕ → Option String → M HireResponse
  check_key req agent started_at none = check_rate req agent started_at
  check_key req agent started_at (some key) =
      find_task_by_idempotency_key agent key >>= unless_existing req agent started_at

  abbrev pub check_caller : HireRequest → ℕ → Option String → M HireResponse
  check_caller req started_at none = pure (tool_error unauthenticated)
  check_caller req started_at (some agent) =
      if same agent ""
      then pure (tool_error unauthenticated)
      else if services.is_wallet_sanctioned agent
      then pure (tool_error sanctioned_wallet)
      else check_key req agent started_at req.idempotency_key

  -- The body of the `try`.
  unfoldable pub try_hire : Option String → HireRequest → ℕ → M HireResponse
  try_hire caller_wallet req started_at =
      if services.is_intake_paused
      then pure (tool_error intake_paused)
      else check_caller req started_at caller_wallet

  abbrev pub replay_winner : Option TaskRecord → M HireResponse
  replay_winner none = pure (tool_error internal)
  replay_winner (some winner) = replay true winner

  -- The `catch`: a lost race for the key is answered with the row that won it.
  abbrev pub recover : Option String → Option String → Result HireResponse → M HireResponse
  recover caller_wallet key (ok r) = pure r
  recover (some agent) (some key) (err unique_violation) =
      find_task_by_idempotency_key agent key >>= replay_winner
  recover _ _ (err _) = pure (tool_error internal)

  unfoldable pub request_human_work : Option String → HireRequest → M HireResponse
  request_human_work caller_wallet req = do
    started_at ← date_now
    attempt (try_hire caller_wallet req started_at) (recover caller_wallet req.idempotency_key)
