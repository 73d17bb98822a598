-- ===== src/Tools/Disputes.antt =====
-- The tool dispute_task of src/lib/mcp/server.ts and the route src/app/api/dispute/route.ts are two
-- texts of one operation.
use carbon_contractors_com.Prelude.{
  Bool, true, false, not, ◌&&◌, ◌≡◌, refl, ap, Option, none, some, String, if◌then◌else◌, same,
  Bool-cases, inl, inr, arith,
}
use carbon_contractors_com.Schema.{TaskStatus, active, pending, is, TaskRecord}
use carbon_contractors_com.Schema.TaskStatus.{disputed as contested}
use carbon_contractors_com.World.{
  World, Result, ok, err, M, pure, continue, settle, ◌>>=◌, ◌>>◌, attempt,
}
use carbon_contractors_com.Chain.{OnChainTaskState, Chain}
use carbon_contractors_com.Tasks.Transitions.{get_task_by_payment_id}
use carbon_contractors_com.Dispute.{
  Computed, input_rejected, computation_failed, verdict_passes, verdict_fails, DisputeResponse,
  signature_required, id_required, no_task, not_a_party, not_disputable, bundle_rejected,
  verdict_failed, verdict_required, disputed_with_verdict, recorded_from_chain, failed, is_party,
  is_disputable, mark_disputed, is_dispute_on_chain, on_chain_state, dispute_on, record_dispute,
  with_bundle, dispute_task, dispute_found, or_failed, dispute,
}
use carbon_contractors_com.Dispute.DisputeResponse.{verdict_passed as route_passed}
use carbon_contractors_com.Hire.{
  ToolErrorCode, unauthenticated, task_not_found, forbidden, invalid_task_state, invalid_argument,
  verdict_input_invalid, verdict_computation_failed, verdict_passed, dispute_requires_verdict,
  internal,
}
use carbon_contractors_com.Kms.{Hex}
use carbon_contractors_com.Verdicts.{
  ComputedVerdict, VerdictResult, computed, faulty, is_input_fault,
}
use carbon_contractors_com.Verdicts.Disputed.{computed_of}
use carbon_contractors_com.Tools.{ToolResult, answer, tool_error, or_internal}
use carbon_contractors_com.Tools.Parties.{
  caller_is_worker, caller_is_agent, DisputeAnswer, with_verdict, from_chain, mark, dispute_with,
  record_from, state_read, dispute_given, dispute_row, dispute_task_tool,
}

-- What either answers, with the route's statuses as the tool's codes.
pub data Summary : Type 0 where
  by_verdict : (signature : String) → Summary
  by_chain : OnChainTaskState → Summary
  no_dispute : ToolErrorCode → Summary

abbrev pub summary_of_route : DisputeResponse → Summary
summary_of_route signature_required = no_dispute unauthenticated
summary_of_route id_required = no_dispute invalid_argument
summary_of_route no_task = no_dispute task_not_found
summary_of_route not_a_party = no_dispute forbidden
summary_of_route (not_disputable s) = no_dispute invalid_task_state
summary_of_route bundle_rejected = no_dispute verdict_input_invalid
summary_of_route verdict_failed = no_dispute verdict_computation_failed
summary_of_route route_passed = no_dispute verdict_passed
summary_of_route (disputed_with_verdict signature) = by_verdict signature
summary_of_route (recorded_from_chain state) = by_chain state
summary_of_route (verdict_required o) = no_dispute dispute_requires_verdict
summary_of_route (failed e) = no_dispute internal

abbrev pub summarised : {A : Type 0} → (A → Summary) → Result A × World → Result Summary × World
summarised f (ok a, w) = (ok (f a), w)
summarised f (err e, w) = (err e, w)

module _ (hex_text : Hex → String) where
  abbrev pub summary_of_tool : ToolResult DisputeAnswer → Summary
  summary_of_tool (answer (with_verdict r)) = by_verdict (hex_text r.signature)
  summary_of_tool (answer (from_chain state)) = by_chain state
  summary_of_tool (tool_error code) = no_dispute code

  module _ (chain : Chain) (verdict_of : TaskRecord → String → VerdictResult) where
    abbrev pub route_of : TaskRecord → String → Computed
    route_of t bundle = computed_of hex_text (verdict_of t bundle)

    abbrev AgreeAt : World → M (ToolResult DisputeAnswer) → M DisputeResponse → Type 0
    AgreeAt w tool route =
        summarised summary_of_tool (settle or_internal (tool w))
        ≡ summarised summary_of_route (settle (or_failed chain route_of) (route w))

    mark_lem : (id : String) (t : TaskRecord) → mark id t ≡ mark_disputed id t
    unfolding mark mark_disputed
    mark_lem id t = refl

    state_read_lem :
        (id : String) → state_read chain verdict_of id ≡ on_chain_state chain route_of id
    unfolding state_read on_chain_state
    state_read_lem id = refl

    after_mark :
        (x : Result (Unit {0}) × World) (a : DisputeAnswer) (r : DisputeResponse)
        → summary_of_tool (answer a) ≡ summary_of_route r
        → summarised summary_of_tool (settle or_internal (continue (λ u. pure (answer a)) x))
          ≡ summarised summary_of_route
              (settle (or_failed chain route_of) (continue (λ u. pure r) x))
    unfolding pure
    after_mark (ok u, w) a r e = ap (λ s. (ok s, w)) e
    after_mark (err x, w) a r e = refl

    computed-AgreeAt :
        (w : World) (id : String) (t : TaskRecord) (r : ComputedVerdict) (passed : Bool)
        → AgreeAt w
            (if passed
              then pure (tool_error verdict_passed)
              else mark id t >> pure (answer (with_verdict r)))
            (dispute_on chain route_of id t
              (if passed then verdict_passes else verdict_fails (hex_text r.signature)))
    unfolding ◌>>=◌
    computed-AgreeAt w id t r true = refl
    computed-AgreeAt w id t r false = rw (mark_lem id t) (
        after_mark (mark_disputed id t w) (with_verdict r)
          (disputed_with_verdict (hex_text r.signature)) refl)

    faulty-AgreeAt :
        (w : World) (id : String) (t : TaskRecord) (is_input : Bool)
        → AgreeAt w
            (pure (
              if is_input
              then tool_error verdict_input_invalid
              else tool_error verdict_computation_failed))
            (dispute_on chain route_of id t
              (if is_input then input_rejected else computation_failed))
    unfolding ◌>>=◌
    faulty-AgreeAt w id t true = refl
    faulty-AgreeAt w id t false = refl

    with-AgreeAt :
        (w : World) (id : String) (t : TaskRecord) (v : VerdictResult)
        → AgreeAt w
            (dispute_with chain verdict_of id t v)
            (dispute_on chain route_of id t (computed_of hex_text v))
    unfolding computed_of
    with-AgreeAt w id t (faulty f) = faulty-AgreeAt w id t (is_input_fault f)
    with-AgreeAt w id t (computed r) = computed-AgreeAt w id t r r.verdict.passed

    record-AgreeAt :
        (w : World) (id : String) (t : TaskRecord) (o : Option OnChainTaskState)
        → AgreeAt w (record_from chain verdict_of id t o) (record_dispute chain route_of id t o)
    unfolding ◌>>=◌
    record-AgreeAt w id t none = refl
    record-AgreeAt w id t (some state) = elim (Bool-cases (is_dispute_on_chain state)) [
      | inl e ↦
          rw (e, mark_lem id t)
            (after_mark (mark_disputed id t w) (from_chain state) (recorded_from_chain state) refl)
      | inr e ↦ rw e refl
    ]

    given-AgreeAt :
        (w : World) (id : String) (t : TaskRecord) (o : Option String)
        → AgreeAt w (dispute_given chain verdict_of id t o) (with_bundle chain route_of id t o)
    given-AgreeAt w id t (some bundle) = with-AgreeAt w id t (verdict_of t bundle)
    given-AgreeAt w id t none =
        rw (← state_read_lem id) (record-AgreeAt w id t (state_read chain verdict_of id))

    party_lem :
        (caller : String) (t : TaskRecord)
        → (not (caller_is_worker caller t) && not (caller_is_agent caller t))
          ≡ not (is_party caller t)
    unfolding caller_is_worker caller_is_agent is_party
    party_lem caller t = ground arith

    disputable_lem :
        (s : TaskStatus)
        → (not (is s active) && not (is s pending) && not (is s contested)) ≡ not (is_disputable s)
    unfolding is_disputable
    disputable_lem s = ground arith

    if-AgreeAt :
        (w : World) (b : Bool) (code : ToolErrorCode) (r : DisputeResponse)
        (tool : M (ToolResult DisputeAnswer)) (route : M DisputeResponse)
        → no_dispute code ≡ summary_of_route r
        → AgreeAt w tool route
        → AgreeAt w (if b then pure (tool_error code) else tool) (if b then pure r else route)
    unfolding pure
    if-AgreeAt w true code r tool route e h = ap (λ s. (ok s, w)) e
    if-AgreeAt w false code r tool route e h = h

    row-AgreeAt :
        (w : World) (caller id : String) (bundle : Option String) (o : Option TaskRecord)
        → AgreeAt w
            (dispute_row chain verdict_of caller id bundle o)
            (dispute_found chain route_of caller id bundle o)
    unfolding dispute_task pure
    row-AgreeAt w caller id bundle none = refl
    row-AgreeAt w caller id bundle (some t) =
        rw (party_lem caller t, disputable_lem t.status)
          (if-AgreeAt w (not (is_party caller t)) forbidden not_a_party _ _ refl (
            if-AgreeAt w (not (is_disputable t.status)) invalid_task_state (not_disputable t.status)
              _ _ refl (given-AgreeAt w id t bundle)))

    after_read :
        (caller id : String) (bundle : Option String) (x : Result (Option TaskRecord) × World)
        → summarised summary_of_tool
            (settle or_internal (continue (dispute_row chain verdict_of caller id bundle) x))
          ≡ summarised summary_of_route (
              settle
                (or_failed chain route_of)
                (continue (dispute_found chain route_of caller id bundle) x))
    unfolding pure
    after_read caller id bundle (ok o, w) = row-AgreeAt w caller id bundle o
    after_read caller id bundle (err e, w) = refl

    -- For a caller and an id that are not empty the tool and the route answer the same, up to the form
    -- of their refusals, and leave the same world, whatever fails or interleaves.
    pub dispute_task_tool-dispute :
        (caller id : String) (bundle : Option String) (w : World)
        → same caller "" ≡ false
        → same id "" ≡ false
        → summarised summary_of_tool (dispute_task_tool chain verdict_of (some caller) id bundle w)
          ≡ summarised summary_of_route (dispute chain route_of (some caller) id bundle w)
    unfolding dispute_task_tool dispute attempt ◌>>=◌
    dispute_task_tool-dispute caller id bundle w known named =
        rw (known, named) (after_read caller id bundle (get_task_by_payment_id id w))
