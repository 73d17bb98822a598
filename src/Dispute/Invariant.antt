-- ===== src/Dispute/Invariant.antt =====
-- A dispute keeps the lifecycle of every row.
use carbon_contractors_com.Prelude.{not, Option, none, some, String, same}
use carbon_contractors_com.Schema.{is, TaskRecord}
use carbon_contractors_com.Schema.TaskStatus.{disputed as contested}
use carbon_contractors_com.World.{Result, ok, err}
use carbon_contractors_com.World.Keeps.{Keeps, Keeps-bind, Keeps-attempt, Keeps-pure, Keeps-if}
use carbon_contractors_com.Chain.{OnChainTaskState, Chain}
use carbon_contractors_com.Tasks.Lifecycle.{lifecycle}
use carbon_contractors_com.Tasks.Lifecycle.Writes.{
  update_task_status-Keeps, get_task_by_payment_id-Keeps,
}
use carbon_contractors_com.Dispute.{
  Computed, input_rejected, computation_failed, verdict_passes, verdict_fails, DisputeResponse,
  is_party, is_disputable, is_dispute_on_chain, mark_disputed, dispute_on, record_dispute,
  with_bundle, dispute_task, dispute_found, dispute_as, or_failed, dispute,
}

Keeps-mark_disputed : (id : String) (t : TaskRecord) → Keeps lifecycle (mark_disputed id t)
unfolding mark_disputed
Keeps-mark_disputed id t =
    Keeps-if (not (is t.status contested)) _ _
      (update_task_status-Keeps id contested (λ e. cc, λ e. cc, λ e. cc)) (Keeps-pure _)

module _ (chain : Chain) (verdict_of : TaskRecord → String → Computed) where
  Keeps-dispute_on :
      (id : String) (t : TaskRecord) (c : Computed)
      → Keeps lifecycle (dispute_on chain verdict_of id t c)
  Keeps-dispute_on id t input_rejected = Keeps-pure _
  Keeps-dispute_on id t computation_failed = Keeps-pure _
  Keeps-dispute_on id t verdict_passes = Keeps-pure _
  Keeps-dispute_on id t (verdict_fails signature) =
      Keeps-bind _ _ (Keeps-mark_disputed id t) (λ u. Keeps-pure _)

  Keeps-record_dispute :
      (id : String) (t : TaskRecord) (o : Option OnChainTaskState)
      → Keeps lifecycle (record_dispute chain verdict_of id t o)
  Keeps-record_dispute id t none = Keeps-pure _
  Keeps-record_dispute id t (some state) =
      Keeps-if (is_dispute_on_chain state) _ _
        (Keeps-bind _ _ (Keeps-mark_disputed id t) (λ u. Keeps-pure _)) (Keeps-pure _)

  Keeps-with_bundle :
      (id : String) (t : TaskRecord) (o : Option String)
      → Keeps lifecycle (with_bundle chain verdict_of id t o)
  Keeps-with_bundle id t (some bundle) = Keeps-dispute_on id t _
  Keeps-with_bundle id t none = Keeps-record_dispute id t _

  Keeps-dispute_found :
      (caller id : String) (bundle : Option String) (o : Option TaskRecord)
      → Keeps lifecycle (dispute_found chain verdict_of caller id bundle o)
  unfolding dispute_task
  Keeps-dispute_found caller id bundle none = Keeps-pure _
  Keeps-dispute_found caller id bundle (some t) =
      Keeps-if (not (is_party caller t)) _ _ (Keeps-pure _)
        (Keeps-if (not (is_disputable t.status)) _ _ (Keeps-pure _) (Keeps-with_bundle id t bundle))

  Keeps-dispute_as :
      (caller : Option String) (id : String) (bundle : Option String)
      → Keeps lifecycle (dispute_as chain verdict_of caller id bundle)
  Keeps-dispute_as none id bundle = Keeps-pure _
  Keeps-dispute_as (some caller) id bundle =
      Keeps-if (same id "") _ _ (Keeps-pure _)
        (Keeps-bind _ _ (get_task_by_payment_id-Keeps id) (Keeps-dispute_found caller id bundle))

  Keeps-or_failed : (r : Result DisputeResponse) → Keeps lifecycle (or_failed chain verdict_of r)
  Keeps-or_failed (ok r) = Keeps-pure _
  Keeps-or_failed (err e) = Keeps-pure _

  -- A dispute keeps the lifecycle.
  pub dispute-Keeps :
      (caller : Option String) (id : String) (bundle : Option String)
      → Keeps lifecycle (dispute chain verdict_of caller id bundle)
  unfolding dispute
  dispute-Keeps caller id bundle =
      Keeps-attempt _ _ (Keeps-dispute_as caller id bundle) Keeps-or_failed
