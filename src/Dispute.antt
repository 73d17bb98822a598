-- ===== src/Dispute.antt =====
-- A party's dispute of a task (src/app/api/dispute/route.ts), from the caller's authentication on.
pub mod Invariant
pub mod Guarded
pub mod Tests
use carbon_contractors_com.Prelude.{
  Bool, true, false, not, ◌&&◌, ◌||◌, List, [], ◌∷◌, Option, none, some, String, if◌then◌else◌,
  same, lower,
}
use carbon_contractors_com.Schema.{TaskStatus, active, pending, is, includes, TaskRecord}
use carbon_contractors_com.Schema.TaskStatus.{disputed as contested}
use carbon_contractors_com.World.{Error, Result, ok, err, M, pure, ◌>>=◌, ◌>>◌, attempt}
use carbon_contractors_com.Chain.{
  OnChainTaskState, disputed, arbitrating, resolved, OnChainTask, Chain,
}
use carbon_contractors_com.Tasks.Transitions.{get_task_by_payment_id, update_task_status}
use carbon_contractors_com.FundTask.{is_configured}

-- What `computeAndSignVerdict` answers for a task and a bundle.
pub data Computed : Type 0 where
  input_rejected : Computed
  computation_failed : Computed
  verdict_passes : Computed
  verdict_fails : (signature : String) → Computed

pub data DisputeResponse : Type 0 where
  signature_required : DisputeResponse  -- 401
  id_required : DisputeResponse  -- 400
  no_task : DisputeResponse  -- 404
  not_a_party : DisputeResponse  -- 403
  not_disputable : TaskStatus → DisputeResponse  -- 409
  bundle_rejected : DisputeResponse  -- 409
  verdict_failed : DisputeResponse  -- `safeErrorResponse`
  verdict_passed : DisputeResponse  -- 400
  disputed_with_verdict : (signature : String) → DisputeResponse
  recorded_from_chain : OnChainTaskState → DisputeResponse
  verdict_required : Option OnChainTaskState → DisputeResponse  -- 400
  failed : Error → DisputeResponse  -- `safeErrorResponse`

unfoldable pub is_party : String → TaskRecord → Bool
is_party caller_wallet task =
    same (lower task.to_human_wallet) (lower caller_wallet)
    || same (lower task.from_agent_wallet) (lower caller_wallet)

unfoldable pub is_disputable : TaskStatus → Bool
unfolding includes
is_disputable s = includes (active ∷ pending ∷ contested ∷ []) s

unfoldable pub is_dispute_on_chain : OnChainTaskState → Bool
is_dispute_on_chain disputed = true
is_dispute_on_chain arbitrating = true
is_dispute_on_chain resolved = true
is_dispute_on_chain _ = false

-- The status is written unless the row has it already.
unfoldable pub mark_disputed : String → TaskRecord → M (Unit {0})
mark_disputed payment_request_id task =
    if not (is task.status contested)
    then update_task_status payment_request_id contested
    else pure tt

abbrev pub state_of : Option OnChainTask → Option OnChainTaskState
state_of none = none
state_of (some t) = some t.state

module _ (chain : Chain) (compute_and_sign_verdict : TaskRecord → String → Computed) where
  unfoldable pub on_chain_state : String → Option OnChainTaskState
  on_chain_state payment_request_id =
      if is_configured chain.escrow_address
      then state_of (chain.on_chain_task payment_request_id)
      else none

  abbrev pub dispute_on : String → TaskRecord → Computed → M DisputeResponse
  dispute_on payment_request_id task input_rejected = pure bundle_rejected
  dispute_on payment_request_id task computation_failed = pure verdict_failed
  dispute_on payment_request_id task verdict_passes = pure verdict_passed
  dispute_on payment_request_id task (verdict_fails signature) = do
    mark_disputed payment_request_id task
    pure (disputed_with_verdict signature)

  abbrev pub record_dispute : String → TaskRecord → Option OnChainTaskState → M DisputeResponse
  record_dispute payment_request_id task none = pure (verdict_required none)
  record_dispute payment_request_id task (some state) =
      if is_dispute_on_chain state
      then mark_disputed payment_request_id task >> pure (recorded_from_chain state)
      else pure (verdict_required (some state))

  abbrev pub with_bundle : String → TaskRecord → Option String → M DisputeResponse
  with_bundle payment_request_id task (some bundle) =
      dispute_on payment_request_id task (compute_and_sign_verdict task bundle)
  with_bundle payment_request_id task none =
      record_dispute payment_request_id task (on_chain_state payment_request_id)

  unfoldable pub dispute_task : String → String → Option String → TaskRecord → M DisputeResponse
  dispute_task caller_wallet payment_request_id evidence_bundle task =
      if not (is_party caller_wallet task)
      then pure not_a_party
      else if not (is_disputable task.status)
      then pure (not_disputable task.status)
      else with_bundle payment_request_id task evidence_bundle

  abbrev pub dispute_found : String → String → Option String → Option TaskRecord → M DisputeResponse
  dispute_found caller_wallet payment_request_id evidence_bundle none = pure no_task
  dispute_found caller_wallet payment_request_id evidence_bundle (some task) =
      dispute_task caller_wallet payment_request_id evidence_bundle task

  abbrev pub dispute_as : Option String → String → Option String → M DisputeResponse
  dispute_as none payment_request_id evidence_bundle = pure signature_required
  dispute_as (some caller_wallet) payment_request_id evidence_bundle =
      if same payment_request_id ""
      then pure id_required
      else get_task_by_payment_id payment_request_id
        >>= dispute_found caller_wallet payment_request_id evidence_bundle

  abbrev pub or_failed : Result DisputeResponse → M DisputeResponse
  or_failed (ok r) = pure r
  or_failed (err e) = pure (failed e)

  -- `POST`, for the wallet that the session or the challenge has proved.
  unfoldable pub dispute : Option String → String → Option String → M DisputeResponse
  dispute caller_wallet payment_request_id evidence_bundle =
      attempt (dispute_as caller_wallet payment_request_id evidence_bundle) or_failed
