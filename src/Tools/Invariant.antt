-- ===== src/Tools/Invariant.antt =====
-- The tools keep the lifecycle of every row.
use carbon_contractors_com.Prelude.{not, ◌&&◌, ◌||◌, Option, none, some, String, same, lower}
use carbon_contractors_com.Schema.{is, active, pending, completed, TaskRecord, HumanRecord}
use carbon_contractors_com.Schema.TaskStatus.{disputed as contested}
use carbon_contractors_com.World.{Result, ok, err}
use carbon_contractors_com.World.Keeps.{
  Keeps, Keeps-bind, Keeps-attempt, Keeps-pure, Keeps-if, Keeps-notify, Keeps-date_now,
}
use carbon_contractors_com.Registry.{Keeps-get_human_by_wallet}
use carbon_contractors_com.Chain.{OnChainTaskState, Chain}
use carbon_contractors_com.Tasks.Lifecycle.{lifecycle}
use carbon_contractors_com.Tasks.Lifecycle.Writes.{
  update_task_status-Keeps, get_task_by_payment_id-Keeps,
}
use carbon_contractors_com.Dispute.{is_dispute_on_chain}
use carbon_contractors_com.Verdicts.{ComputedVerdict, VerdictResult, computed, faulty}
use carbon_contractors_com.Tools.{
  ToolResult, or_internal, Escrow, show_found, get_task_status, confirm_found, confirm_as,
  confirm_task_completion,
}
use carbon_contractors_com.Tools.Parties.{
  caller_is_worker, caller_is_agent, tell_signed, release, verdict_found, verdict_as,
  get_signed_verdict, mark, dispute_with, record_from, dispute_given, dispute_row, dispute_by,
  dispute_task_tool, state_read,
}

Keeps-or_internal : {A : Type 0} (r : Result (ToolResult A)) → Keeps lifecycle (or_internal r)
Keeps-or_internal (ok r) = Keeps-pure _
Keeps-or_internal (err e) = Keeps-pure _

module _ (escrow : Escrow) where
  Keeps-show_found :
      (caller : Option String) (id : String) (o : Option TaskRecord)
      → Keeps lifecycle (show_found escrow caller id o)
  Keeps-show_found caller id none = Keeps-pure _
  Keeps-show_found caller id (some t) = Keeps-bind _ _ Keeps-date_now (λ now. Keeps-pure _)

  pub get_task_status-Keeps :
      (caller : Option String) (id : String) → Keeps lifecycle (get_task_status escrow caller id)
  unfolding get_task_status
  get_task_status-Keeps caller id =
      Keeps-attempt _ _
        (Keeps-bind _ _ (get_task_by_payment_id-Keeps id) (Keeps-show_found caller id))
        Keeps-or_internal

  Keeps-confirm_found :
      (caller id : String) (o : Option TaskRecord)
      → Keeps lifecycle (confirm_found escrow caller id o)
  Keeps-confirm_found caller id none = Keeps-pure _
  Keeps-confirm_found caller id (some t) =
      Keeps-if (not (same (lower t.from_agent_wallet) (lower caller))) _ _ (Keeps-pure _) (
        Keeps-if (is t.status active || is t.status pending) _ _ (Keeps-pure _)
          (Keeps-if (is t.status completed) _ _ (Keeps-pure _) (Keeps-pure _)))

  Keeps-confirm_as :
      (caller : Option String) (id : String) → Keeps lifecycle (confirm_as escrow caller id)
  Keeps-confirm_as none id = Keeps-pure _
  Keeps-confirm_as (some caller) id =
      Keeps-if (same caller "") _ _ (Keeps-pure _)
        (Keeps-bind _ _ (get_task_by_payment_id-Keeps id) (Keeps-confirm_found caller id))

  pub confirm_task_completion-Keeps :
      (caller : Option String) (id : String)
      → Keeps lifecycle (confirm_task_completion escrow caller id)
  unfolding confirm_task_completion
  confirm_task_completion-Keeps caller id =
      Keeps-attempt _ _ (Keeps-confirm_as caller id) Keeps-or_internal

Keeps-tell_signed :
    (id : String) (t : TaskRecord) (r : ComputedVerdict) (x : Result (Option HumanRecord))
    → Keeps lifecycle (tell_signed id t r x)
Keeps-tell_signed id t r (err e) = Keeps-pure _
Keeps-tell_signed id t r (ok none) = Keeps-pure _
Keeps-tell_signed id t r (ok (some worker)) =
    Keeps-bind _ _ (Keeps-notify _ _)
      (λ u. Keeps-if r.verdict.passed _ _ (Keeps-notify _ _) (Keeps-pure _))

module _ (verdict_of : TaskRecord → String → VerdictResult) where
  Keeps-release :
      (id : String) (t : TaskRecord) (v : VerdictResult)
      → Keeps lifecycle (release verdict_of id t v)
  Keeps-release id t (faulty f) = Keeps-pure _
  Keeps-release id t (computed r) =
      Keeps-bind _ _
        (Keeps-attempt _ _ (Keeps-get_human_by_wallet t.to_human_wallet) (Keeps-tell_signed id t r))
        (λ u. Keeps-pure _)

  Keeps-verdict_found :
      (caller id bundle : String) (o : Option TaskRecord)
      → Keeps lifecycle (verdict_found verdict_of caller id bundle o)
  Keeps-verdict_found caller id bundle none = Keeps-pure _
  Keeps-verdict_found caller id bundle (some t) =
      Keeps-if (not (caller_is_worker caller t || caller_is_agent caller t)) _ _ (Keeps-pure _)
        (Keeps-release id t (verdict_of t bundle))

  Keeps-verdict_as :
      (caller : Option String) (id bundle : String)
      → Keeps lifecycle (verdict_as verdict_of caller id bundle)
  Keeps-verdict_as none id bundle = Keeps-pure _
  Keeps-verdict_as (some caller) id bundle =
      Keeps-if (same caller "") _ _ (Keeps-pure _)
        (Keeps-bind _ _ (get_task_by_payment_id-Keeps id) (Keeps-verdict_found caller id bundle))

  pub get_signed_verdict-Keeps :
      (caller : Option String) (id bundle : String)
      → Keeps lifecycle (get_signed_verdict verdict_of caller id bundle)
  unfolding get_signed_verdict
  get_signed_verdict-Keeps caller id bundle =
      Keeps-attempt _ _ (Keeps-verdict_as caller id bundle) Keeps-or_internal

Keeps-mark : (id : String) (t : TaskRecord) → Keeps lifecycle (mark id t)
unfolding mark
Keeps-mark id t =
    Keeps-if (not (is t.status contested)) _ _
      (update_task_status-Keeps id contested (λ e. cc, λ e. cc, λ e. cc)) (Keeps-pure _)

module _ (chain : Chain) (verdict_of : TaskRecord → String → VerdictResult) where
  Keeps-dispute_with :
      (id : String) (t : TaskRecord) (v : VerdictResult)
      → Keeps lifecycle (dispute_with chain verdict_of id t v)
  Keeps-dispute_with id t (faulty f) = Keeps-pure _
  Keeps-dispute_with id t (computed r) =
      Keeps-if r.verdict.passed _ _ (Keeps-pure _)
        (Keeps-bind _ _ (Keeps-mark id t) (λ u. Keeps-pure _))

  Keeps-record_from :
      (id : String) (t : TaskRecord) (o : Option OnChainTaskState)
      → Keeps lifecycle (record_from chain verdict_of id t o)
  Keeps-record_from id t none = Keeps-pure _
  Keeps-record_from id t (some state) =
      Keeps-if (is_dispute_on_chain state) _ _
        (Keeps-bind _ _ (Keeps-mark id t) (λ u. Keeps-pure _)) (Keeps-pure _)

  Keeps-dispute_given :
      (id : String) (t : TaskRecord) (o : Option String)
      → Keeps lifecycle (dispute_given chain verdict_of id t o)
  Keeps-dispute_given id t (some bundle) = Keeps-dispute_with id t (verdict_of t bundle)
  Keeps-dispute_given id t none = Keeps-record_from id t (state_read chain verdict_of id)

  Keeps-dispute_row :
      (caller id : String) (bundle : Option String) (o : Option TaskRecord)
      → Keeps lifecycle (dispute_row chain verdict_of caller id bundle o)
  Keeps-dispute_row caller id bundle none = Keeps-pure _
  Keeps-dispute_row caller id bundle (some t) =
      Keeps-if (not (caller_is_worker caller t) && not (caller_is_agent caller t)) _ _
        (Keeps-pure _)
        (Keeps-if
          (not (is t.status active) && not (is t.status pending) && not (is t.status contested)) _ _
          (Keeps-pure _) (Keeps-dispute_given id t bundle))

  Keeps-dispute_by :
      (caller : Option String) (id : String) (bundle : Option String)
      → Keeps lifecycle (dispute_by chain verdict_of caller id bundle)
  Keeps-dispute_by none id bundle = Keeps-pure _
  Keeps-dispute_by (some caller) id bundle =
      Keeps-if (same caller "") _ _ (Keeps-pure _)
        (Keeps-bind _ _ (get_task_by_payment_id-Keeps id) (Keeps-dispute_row caller id bundle))

  pub dispute_task_tool-Keeps :
      (caller : Option String) (id : String) (bundle : Option String)
      → Keeps lifecycle (dispute_task_tool chain verdict_of caller id bundle)
  unfolding dispute_task_tool
  dispute_task_tool-Keeps caller id bundle =
      Keeps-attempt _ _ (Keeps-dispute_by caller id bundle) Keeps-or_internal
