-- ===== src/Settlement/Invariant.antt =====
-- A run of the settlement sync keeps the lifecycle of every row.
use carbon_contractors_com.Prelude.{
  ℕ, ◌-◌, ◌≡◌, refl, Bool, true, false, not, List, [], ◌∷◌, Option, none, some, String, arith,
  if◌then◌else◌, leb, same,
}
use carbon_contractors_com.Schema.{TaskStatus, TaskRecord}
use carbon_contractors_com.Schema.TaskStatus.{completed as done, expired as refunded}
use carbon_contractors_com.World.{Result, ok, err}
use carbon_contractors_com.World.Keeps.{
  Discipline, Keeps, Keeps-bind, Keeps-attempt, Keeps-pure, Keeps-throw, Keeps-if, Keeps-date_now,
  Keeps-query,
}
use carbon_contractors_com.Chain.{OnChainTaskState, OnChainTask, Chain, is_hex_address, wait}
use carbon_contractors_com.Tasks.Lifecycle.{lifecycle}
use carbon_contractors_com.Tasks.Lifecycle.Rows.{IsPlain}
use carbon_contractors_com.Tasks.Lifecycle.Writes.{update_task_status-Keeps, Keeps-read_row}
use carbon_contractors_com.Settlement.{
  Proposal, move_to, ask_event, settlement_target_for, chain_matches_row, SettlementSyncSummary,
  status_or_none, current_status, after_write, write_row, Progress, act_on, act_on_read, settle_row,
  settle_rows, act_on_outcome, look_up, resolve_row, resolve_rows, sync_batch, read_batch, sync_on,
  sync_configured, sync_settled_tasks, settlement_sync_outcome_budget_ms, scope, empty_summary,
}

Keeps-status_or_none : (r : Result (Option TaskRecord)) → Keeps lifecycle (status_or_none r)
Keeps-status_or_none (ok (some t)) = Keeps-pure _
Keeps-status_or_none (ok none) = Keeps-pure _
Keeps-status_or_none (err e) = Keeps-pure _

Keeps-after_write :
    (row : TaskRecord) (to : TaskStatus) (state : OnChainTaskState) (s : SettlementSyncSummary)
    (r : Result (Unit {0}))
    → Keeps lifecycle (after_write row to state s r)
unfolding current_status
Keeps-after_write row to state s (ok u) = Keeps-pure _
Keeps-after_write row to state s (err e) =
    Keeps-bind _ _ (Keeps-attempt _ _ (Keeps-read_row _) Keeps-status_or_none) (λ c. Keeps-pure _)

Keeps-write_row :
    (row : TaskRecord) (to : TaskStatus) (state : OnChainTaskState) (s : SettlementSyncSummary)
    → IsPlain to
    → Keeps lifecycle (write_row row to state s)
unfolding write_row
Keeps-write_row row to state s plain =
    Keeps-attempt _ _ (update_task_status-Keeps _ to plain) (Keeps-after_write row to state s)

target-IsPlain :
    (from to : TaskStatus) (state : OnChainTaskState)
    → settlement_target_for from state ≡ some (move_to to)
    → IsPlain to
unfolding settlement_target_for
target-IsPlain from to state e = ground arith

Keeps-act_on :
    (row : TaskRecord) (oc : OnChainTask) (acc : Progress) (p : Option Proposal)
    → settlement_target_for row.status oc.state ≡ p
    → Keeps lifecycle (act_on row oc acc p)
Keeps-act_on row oc (waiting, s) none e = Keeps-pure _
Keeps-act_on row oc (waiting, s) (some ask_event) e = Keeps-pure _
Keeps-act_on row oc (waiting, s) (some (move_to to)) e =
    Keeps-if (chain_matches_row oc row) _ _
      (Keeps-bind _ _ (Keeps-write_row row to oc.state s (target-IsPlain row.status to oc.state e))
        (λ s'. Keeps-pure _))
      (Keeps-pure _)

Keeps-act_on_read :
    (row : TaskRecord) (acc : Progress) (o : Option OnChainTask)
    → Keeps lifecycle (act_on_read row acc o)
Keeps-act_on_read row (waiting, s) none = Keeps-pure _
Keeps-act_on_read row (waiting, s) (some oc) = Keeps-act_on row oc (waiting, s) _ refl

outcome-IsPlain : (released : Bool) → IsPlain (if released then done else refunded)
outcome-IsPlain true = (λ e. cc, λ e. cc, λ e. cc)
outcome-IsPlain false = (λ e. cc, λ e. cc, λ e. cc)

Keeps-wait : {d : Discipline} (ms : ℕ) → Keeps d (wait ms)
unfolding wait
Keeps-wait {d} ms = record {
  at = λ w h. (record { tasks = h.tasks; turns = h.turns }, d.evolves_refl w.tasks);
}

module _ (chain : Chain) where
  Keeps-settle_rows :
      (rows : List TaskRecord) (acc : Progress) → Keeps lifecycle (settle_rows chain rows acc)
  unfolding settle_rows settle_row
  Keeps-settle_rows [] acc = Keeps-pure _
  Keeps-settle_rows (row ∷ rows) acc =
      Keeps-bind _ _ (Keeps-act_on_read row acc _) (Keeps-settle_rows rows)

  Keeps-act_on_outcome :
      (row : TaskRecord) (state : OnChainTaskState) (s : SettlementSyncSummary)
      (o : Option (Option Bool))
      → Keeps lifecycle (act_on_outcome chain row state s o)
  Keeps-act_on_outcome row state s none = Keeps-pure _
  Keeps-act_on_outcome row state s (some none) = Keeps-pure _
  Keeps-act_on_outcome row state s (some (some released)) =
      Keeps-write_row row _ state s (outcome-IsPlain released)

  Keeps-resolve_rows :
      (started_at : ℕ) (rs : List (TaskRecord × OnChainTaskState)) (s : SettlementSyncSummary)
      → Keeps lifecycle (resolve_rows chain started_at rs s)
  unfolding resolve_rows resolve_row look_up
  Keeps-resolve_rows started_at [] s = Keeps-pure _
  Keeps-resolve_rows started_at ((row, state) ∷ rs) s =
      Keeps-bind _ _
        (Keeps-bind _ _ Keeps-date_now λ now.
          Keeps-if (leb settlement_sync_outcome_budget_ms (now - started_at)) _ _ (Keeps-pure _) (
            Keeps-bind _ _ (Keeps-wait (chain.lookup_ms row.payment_request_id))
              λ u. Keeps-act_on_outcome row state s _))
        (Keeps-resolve_rows started_at rs)

  Keeps-sync_batch :
      (started_at : ℕ) (escrow : String) (candidates : List TaskRecord)
      → Keeps lifecycle (sync_batch chain started_at escrow candidates)
  unfolding sync_batch
  Keeps-sync_batch started_at escrow candidates =
      let scoped = scope escrow candidates ([], empty_summary chain candidates) in
      Keeps-bind _ _ (Keeps-settle_rows scoped.0 ([], scoped.1))
        (λ acc. Keeps-resolve_rows started_at acc.0 acc.1)

  Keeps-sync_configured : (o : Option String) → Keeps lifecycle (sync_configured chain o)
  unfolding sync_on read_batch
  Keeps-sync_configured none = Keeps-throw _
  Keeps-sync_configured (some escrow) = Keeps-if (same escrow "") _ _ (Keeps-throw _) (
      Keeps-if (not (is_hex_address escrow)) _ _ (Keeps-throw _) (
        Keeps-bind _ _ Keeps-date_now
          λ started_at. Keeps-bind _ _ (Keeps-query _) (Keeps-sync_batch started_at escrow)))

  -- A run keeps the lifecycle, whatever the chain answers.
  pub sync_settled_tasks-Keeps : Keeps lifecycle (sync_settled_tasks chain)
  unfolding sync_settled_tasks
  sync_settled_tasks-Keeps = Keeps-sync_configured chain.escrow_address
