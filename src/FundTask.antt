-- ===== src/FundTask.antt =====
-- The confirmation that a task is funded (src/app/api/fund-task/route.ts).
pub mod Confirmed
pub mod Tests
pub mod Invariant
use carbon_contractors_com.Prelude.{
  ℕ, Bool, true, false, not, ◌&&◌, Option, none, some, String, if◌then◌else◌, same,
}
use carbon_contractors_com.Schema.{TaskStatus, accepted, is, TaskRecord, HumanRecord}
use carbon_contractors_com.World.{
  Error, chain_unreadable, task_funded, Result, ok, err, M, pure, throw, attempt, ◌>>=◌, ◌>>◌,
  notify,
}
use carbon_contractors_com.Chain.{OnChainTaskState, absent, OnChainTask, Chain}
use carbon_contractors_com.Registry.{get_human_by_wallet}
use carbon_contractors_com.Tasks.Transitions.{get_task_by_payment_id, mark_task_funded}
use carbon_contractors_com.Settlement.{chain_matches_row}

-- The answers of the route, with their HTTP statuses.
pub data FundResponse : Type 0 where
  activated : (payment_request_id : String) → OnChainTaskState → FundResponse
  id_required : FundResponse  -- 400
  no_task : FundResponse  -- 404
  not_accepted : TaskStatus → FundResponse  -- 409
  no_escrow : FundResponse  -- 503
  chain_read_failed : FundResponse  -- 502
  not_on_chain : FundResponse  -- 409
  chain_mismatch : OnChainTaskState → FundResponse  -- 409
  failed : Error → FundResponse  -- `safeErrorResponse`

abbrev pub is_absent : OnChainTaskState → Bool
is_absent absent = true
is_absent _ = false

abbrev pub tell_worker : TaskRecord → String → Result (Option HumanRecord) → M (Unit {0})
tell_worker task payment_request_id (ok (some worker)) =
    notify worker.id (task_funded payment_request_id task.amount_usdc task.deadline_unix)
tell_worker task payment_request_id (ok none) = pure tt
tell_worker task payment_request_id (err e) = pure tt

-- `getCurrentBlockTimestamp`.
abbrev pub block_time : Option ℕ → M ℕ
block_time none = throw chain_unreadable
block_time (some seconds) = pure seconds

abbrev pub is_configured : Option String → Bool
is_configured none = false
is_configured (some address) = not (same address "")

module _ (chain : Chain) where
  unfoldable pub activate : String → TaskRecord → OnChainTask → M FundResponse
  activate payment_request_id task on_chain = do
    funded_at ← block_time chain.block_timestamp
    mark_task_funded payment_request_id funded_at
    attempt (get_human_by_wallet task.to_human_wallet) (tell_worker task payment_request_id)
    pure (activated payment_request_id on_chain.state)

  unfoldable pub check_chain : String → TaskRecord → Option OnChainTask → M FundResponse
  check_chain payment_request_id task none = pure chain_read_failed
  check_chain payment_request_id task (some on_chain) =
      if is_absent on_chain.state
      then pure not_on_chain
      else if not (chain_matches_row on_chain task)
      then pure (chain_mismatch on_chain.state)
      else activate payment_request_id task on_chain

  unfoldable pub check_task : String → TaskRecord → M FundResponse
  check_task payment_request_id task =
      if not (is task.status accepted)
      then pure (not_accepted task.status)
      else if not (is_configured chain.escrow_address)
      then pure no_escrow
      else check_chain payment_request_id task (chain.on_chain_task payment_request_id)

  abbrev pub check_found : String → Option TaskRecord → M FundResponse
  check_found payment_request_id none = pure no_task
  check_found payment_request_id (some task) = check_task payment_request_id task

  unfoldable pub confirm_funding : String → M FundResponse
  confirm_funding payment_request_id =
      if same payment_request_id ""
      then pure id_required
      else do task ← get_task_by_payment_id payment_request_id; check_found payment_request_id task

  abbrev pub or_failed : Result FundResponse → M FundResponse
  or_failed (ok r) = pure r
  or_failed (err e) = pure (failed e)

  -- `POST`: whatever is thrown becomes an error response.
  unfoldable pub fund_task : String → M FundResponse
  fund_task payment_request_id = attempt (confirm_funding payment_request_id) or_failed
