-- ===== src/FundTask/Invariant.antt =====
-- A confirmation keeps the lifecycle of every row.
use carbon_contractors_com.Prelude.{ℕ, not, Option, none, some, String, same}
use carbon_contractors_com.Schema.{accepted, is, TaskRecord, HumanRecord}
use carbon_contractors_com.World.{Result, ok, err}
use carbon_contractors_com.World.Keeps.{
  Keeps, Keeps-bind, Keeps-attempt, Keeps-pure, Keeps-throw, Keeps-if, Keeps-notify,
}
use carbon_contractors_com.Chain.{OnChainTask, Chain}
use carbon_contractors_com.Registry.{Keeps-get_human_by_wallet}
use carbon_contractors_com.Settlement.{chain_matches_row}
use carbon_contractors_com.Tasks.Lifecycle.{lifecycle}
use carbon_contractors_com.Tasks.Lifecycle.Writes.{
  mark_task_funded-Keeps, get_task_by_payment_id-Keeps,
}
use carbon_contractors_com.FundTask.{
  FundResponse, is_absent, tell_worker, block_time, is_configured, activate, check_chain,
  check_task, check_found, confirm_funding, or_failed, fund_task,
}

pub Keeps-tell_worker :
    (t : TaskRecord) (id : String) (r : Result (Option HumanRecord))
    → Keeps lifecycle (tell_worker t id r)
Keeps-tell_worker t id (ok (some h)) = Keeps-notify _ _
Keeps-tell_worker t id (ok none) = Keeps-pure _
Keeps-tell_worker t id (err e) = Keeps-pure _

Keeps-block_time : (o : Option ℕ) → Keeps lifecycle (block_time o)
Keeps-block_time none = Keeps-throw _
Keeps-block_time (some n) = Keeps-pure _

module _ (chain : Chain) where
  Keeps-activate :
      (id : String) (t : TaskRecord) (oc : OnChainTask) → Keeps lifecycle (activate chain id t oc)
  unfolding activate
  Keeps-activate id t oc = Keeps-bind _ _ (Keeps-block_time chain.block_timestamp) λ at.
      Keeps-bind _ _ (mark_task_funded-Keeps id at) λ u.
        Keeps-bind _ _ (Keeps-attempt _ _ (Keeps-get_human_by_wallet _) (Keeps-tell_worker t id))
          (λ v. Keeps-pure _)

  Keeps-check_chain :
      (id : String) (t : TaskRecord) (o : Option OnChainTask)
      → Keeps lifecycle (check_chain chain id t o)
  unfolding check_chain
  Keeps-check_chain id t none = Keeps-pure _
  Keeps-check_chain id t (some oc) =
      Keeps-if (is_absent oc.state) _ _ (Keeps-pure _)
        (Keeps-if (not (chain_matches_row oc t)) _ _ (Keeps-pure _) (Keeps-activate id t oc))

  Keeps-check_found :
      (id : String) (o : Option TaskRecord) → Keeps lifecycle (check_found chain id o)
  unfolding check_task
  Keeps-check_found id none = Keeps-pure _
  Keeps-check_found id (some t) = Keeps-if (not (is t.status accepted)) _ _ (Keeps-pure _) (
      Keeps-if (not (is_configured chain.escrow_address)) _ _ (Keeps-pure _)
        (Keeps-check_chain id t _))

  Keeps-or_failed : (r : Result FundResponse) → Keeps lifecycle (or_failed chain r)
  Keeps-or_failed (ok r) = Keeps-pure _
  Keeps-or_failed (err e) = Keeps-pure _

  pub fund_task-Keeps : (id : String) → Keeps lifecycle (fund_task chain id)
  unfolding fund_task confirm_funding
  fund_task-Keeps id =
      Keeps-attempt _ _
        (Keeps-if (same id "") _ _ (Keeps-pure _)
          (Keeps-bind _ _ (get_task_by_payment_id-Keeps id) (Keeps-check_found id)))
        Keeps-or_failed
