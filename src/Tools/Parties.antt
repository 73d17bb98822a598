-- ===== src/Tools/Parties.antt =====
-- The tools for a party to a delivered task, get_signed_verdict and dispute_task of
-- src/lib/mcp/server.ts.
use carbon_contractors_com.Prelude.{
  Bool, not, ◌&&◌, ◌||◌, Option, none, some, String, if◌then◌else◌, same, lower,
}
use carbon_contractors_com.Schema.{active, pending, is, TaskRecord, HumanRecord}
use carbon_contractors_com.Schema.TaskStatus.{disputed as contested}
use carbon_contractors_com.World.{
  Result, ok, err, M, pure, ◌>>=◌, ◌>>◌, attempt, notify, verdict_signed, payment_claimable,
}
use carbon_contractors_com.Chain.{OnChainTaskState, Chain}
use carbon_contractors_com.Registry.{get_human_by_wallet}
use carbon_contractors_com.Tasks.Transitions.{get_task_by_payment_id, update_task_status}
use carbon_contractors_com.FundTask.{is_configured}
use carbon_contractors_com.Dispute.{state_of, is_dispute_on_chain}
use carbon_contractors_com.Hire.{
  unauthenticated, task_not_found, forbidden, invalid_task_state, verdict_input_invalid,
  verdict_computation_failed, verdict_passed, dispute_requires_verdict,
}
use carbon_contractors_com.Verdicts.{
  ComputedVerdict, VerdictResult, VerdictFault, computed, faulty, is_input_fault,
}
use carbon_contractors_com.Tools.{ToolResult, answer, tool_error, or_internal}

unfoldable pub caller_is_worker : String → TaskRecord → Bool
caller_is_worker caller t = same (lower t.to_human_wallet) (lower caller)

unfoldable pub caller_is_agent : String → TaskRecord → Bool
caller_is_agent caller t = same (lower t.from_agent_wallet) (lower caller)

abbrev pub fault_code : {A : Type 0} → VerdictFault → ToolResult A
fault_code f =
    if is_input_fault f
    then tool_error verdict_input_invalid
    else tool_error verdict_computation_failed

-- What the worker is told of a signed verdict.
abbrev pub tell_signed :
    String → TaskRecord → ComputedVerdict → Result (Option HumanRecord) → M (Unit {0})
tell_signed id t r (err e) = pure tt
tell_signed id t r (ok none) = pure tt
tell_signed id t r (ok (some worker)) = do
  notify worker.id (verdict_signed id r.verdict.passed t.amount_usdc)
  if r.verdict.passed then notify worker.id (payment_claimable id t.amount_usdc) else pure tt

module _ (verdict_of : TaskRecord → String → VerdictResult) where
  abbrev pub release : String → TaskRecord → VerdictResult → M (ToolResult ComputedVerdict)
  release id t (faulty f) = pure (fault_code f)
  release id t (computed r) =
      attempt (get_human_by_wallet t.to_human_wallet) (tell_signed id t r) >> pure (answer r)

  abbrev pub verdict_found :
      String → String → String → Option TaskRecord → M (ToolResult ComputedVerdict)
  verdict_found caller id bundle none = pure (tool_error task_not_found)
  verdict_found caller id bundle (some t) =
      if not (caller_is_worker caller t || caller_is_agent caller t)
      then pure (tool_error forbidden)
      else release id t (verdict_of t bundle)

  abbrev pub verdict_as : Option String → String → String → M (ToolResult ComputedVerdict)
  verdict_as none id bundle = pure (tool_error unauthenticated)
  verdict_as (some caller) id bundle =
      if same caller ""
      then pure (tool_error unauthenticated)
      else get_task_by_payment_id id >>= verdict_found caller id bundle

  unfoldable pub get_signed_verdict :
      Option String → String → String → M (ToolResult ComputedVerdict)
  get_signed_verdict caller id bundle = attempt (verdict_as caller id bundle) or_internal

-- ── dispute_task ──
pub data DisputeAnswer : Type 0 where
  with_verdict : ComputedVerdict → DisputeAnswer
  from_chain : OnChainTaskState → DisputeAnswer

unfoldable pub mark : String → TaskRecord → M (Unit {0})
mark id t = if not (is t.status contested) then update_task_status id contested else pure tt

module _ (chain : Chain) (verdict_of : TaskRecord → String → VerdictResult) where
  abbrev pub dispute_with : String → TaskRecord → VerdictResult → M (ToolResult DisputeAnswer)
  dispute_with id t (faulty f) = pure (fault_code f)
  dispute_with id t (computed r) =
      if r.verdict.passed
      then pure (tool_error verdict_passed)
      else mark id t >> pure (answer (with_verdict r))

  abbrev pub record_from :
      String → TaskRecord → Option OnChainTaskState → M (ToolResult DisputeAnswer)
  record_from id t none = pure (tool_error dispute_requires_verdict)
  record_from id t (some state) =
      if is_dispute_on_chain state
      then mark id t >> pure (answer (from_chain state))
      else pure (tool_error dispute_requires_verdict)

  unfoldable pub state_read : String → Option OnChainTaskState
  state_read id =
      if is_configured chain.escrow_address then state_of (chain.on_chain_task id) else none

  abbrev pub dispute_given : String → TaskRecord → Option String → M (ToolResult DisputeAnswer)
  dispute_given id t (some bundle) = dispute_with id t (verdict_of t bundle)
  dispute_given id t none = record_from id t (state_read id)

  abbrev pub dispute_row :
      String → String → Option String → Option TaskRecord → M (ToolResult DisputeAnswer)
  dispute_row caller id bundle none = pure (tool_error task_not_found)
  dispute_row caller id bundle (some t) =
      if not (caller_is_worker caller t) && not (caller_is_agent caller t)
      then pure (tool_error forbidden)
      else if not (is t.status active) && not (is t.status pending) && not (is t.status contested)
      then pure (tool_error invalid_task_state)
      else dispute_given id t bundle

  abbrev pub dispute_by : Option String → String → Option String → M (ToolResult DisputeAnswer)
  dispute_by none id bundle = pure (tool_error unauthenticated)
  dispute_by (some caller) id bundle =
      if same caller ""
      then pure (tool_error unauthenticated)
      else get_task_by_payment_id id >>= dispute_row caller id bundle

  unfoldable pub dispute_task_tool :
      Option String → String → Option String → M (ToolResult DisputeAnswer)
  dispute_task_tool caller id bundle = attempt (dispute_by caller id bundle) or_internal
