-- ===== src/Settlement.antt =====
-- The projection of the settlement on chain into the tasks table (src/lib/db/settlement-sync.ts).
pub mod Counts
pub mod Accounting
pub mod Justified
pub mod Tests
pub mod Invariant
use carbon_contractors_com.Prelude.{
  ℕ, zero, suc, ◌+◌, ◌-◌, ◌≡◌, Bool, true, false, not, ◌&&◌, List, [], ◌∷◌, ◌++◌, Option, none,
  some, String, if◌then◌else◌, leb, ltb, ◌==◌, same, lower, select, take, length,
}
use carbon_contractors_com.Schema.{
  TaskStatus, pending, accepted, declined, lapsed, active, is, includes, TaskRecord,
}
use carbon_contractors_com.Schema.TaskStatus.{
  completed as done, disputed as contested, expired as refunded,
}
use carbon_contractors_com.World.{
  World, Error, not_configured, malformed_address, Result, ok, err, M, pure, throw, attempt, ◌>>=◌,
  ◌>>◌, date_now, query,
}
use carbon_contractors_com.Chain.{
  OnChainTaskState, absent, funded, delivered, completed, disputed, arbitrating, resolved, expired,
  OnChainTask, Chain, to_wei, is_hex_address, wait,
}
use carbon_contractors_com.Tasks.Transitions.{read_row, update_task_status}

abbrev pub settlement_sync_batch_limit : ℕ
settlement_sync_batch_limit = 100

abbrev pub settlement_sync_outcome_budget_ms : ℕ
settlement_sync_outcome_budget_ms = 40000

abbrev pub syncable_statuses : List TaskStatus
syncable_statuses = active ∷ contested ∷ []

-- What the state on chain proposes for a row: a status, or that the event be asked.
pub data Proposal : Type 0 where
  move_to : TaskStatus → Proposal
  ask_event : Proposal

abbrev if_active : TaskStatus → Option Proposal
if_active db_status = if is db_status active then some (move_to contested) else none

unfoldable pub settlement_target_for : TaskStatus → OnChainTaskState → Option Proposal
settlement_target_for db_status completed = some (move_to done)
settlement_target_for db_status expired = some (move_to refunded)
settlement_target_for db_status resolved = some ask_event
settlement_target_for db_status disputed = if_active db_status
settlement_target_for db_status arbitrating = if_active db_status
settlement_target_for db_status absent = none
settlement_target_for db_status funded = none
settlement_target_for db_status delivered = none

-- The chain and the row agree on whose task this is, and for how much.
unfoldable pub chain_matches_row : OnChainTask → TaskRecord → Bool
chain_matches_row on_chain row =
    same (lower on_chain.worker) (lower row.to_human_wallet)
    && on_chain.amount == to_wei row.amount_usdc

pub record SettlementTransition : Type 0 where
  pub payment_request_id : String
  pub from : TaskStatus
  pub to : TaskStatus
  pub on_chain_state : OnChainTaskState

pub data Stage : Type 0 where
  read outcome write : Stage

pub record SettlementSyncSummary : Type 0 where
  pub considered : ℕ
  pub updated : List SettlementTransition
  pub unchanged : ℕ
  pub mismatched : List String
  pub outcome_missing : List String
  pub deferred : List String
  pub failed : List (String × Stage)

unfoldable pub fail : TaskRecord → Stage → SettlementSyncSummary → SettlementSyncSummary
fail row stage s = record s { failed = s.failed ++ (row.payment_request_id, stage) ∷ [] }

unfoldable pub leave : SettlementSyncSummary → SettlementSyncSummary
leave s = record s { unchanged = s.unchanged + 1 }

unfoldable pub mismatch : TaskRecord → SettlementSyncSummary → SettlementSyncSummary
mismatch row s = record s { mismatched = s.mismatched ++ row.payment_request_id ∷ [] }

unfoldable pub record_update :
    TaskRecord → TaskStatus → OnChainTaskState → SettlementSyncSummary → SettlementSyncSummary
record_update row target state s = record s {
  updated =
      s.updated
      ++ record {
        payment_request_id = row.payment_request_id;
        from = row.status;
        to = target;
        on_chain_state = state;
      }
        ∷ [];
}

abbrev pub status_or_none : Result (Option TaskRecord) → M (Option TaskStatus)
status_or_none (ok (some t)) = pure (some t.status)
status_or_none (ok none) = pure none
status_or_none (err e) = pure none

-- `currentStatus`: the row's status now, or nothing if it cannot be read.
unfoldable pub current_status : String → M (Option TaskStatus)
current_status payment_request_id = attempt (read_row payment_request_id) status_or_none

abbrev pub holds_target : TaskStatus → Option TaskStatus → Bool
holds_target target none = false
holds_target target (some s) = is s target

abbrev pub after_write :
    TaskRecord
    → TaskStatus
    → OnChainTaskState
    → SettlementSyncSummary
    → Result (Unit {0})
    → M SettlementSyncSummary
after_write row target state s (ok u) = pure (record_update row target state s)
after_write row target state s (err e) = do
  current ← current_status row.payment_request_id
  pure (if holds_target target current then leave s else fail row write s)

unfoldable pub write_row :
    TaskRecord → TaskStatus → OnChainTaskState → SettlementSyncSummary → M SettlementSyncSummary
write_row row target state s =
    attempt (update_task_status row.payment_request_id target) (after_write row target state s)

-- `escrow_contract` is the configured escrow, whatever the case of its letters.
unfoldable pub is_on_escrow : String → TaskRecord → Bool
is_on_escrow escrow row = elim row.escrow_contract [
  | none ↦ false
  | some address ↦ same (lower address) (lower escrow)
]

-- Repeats the filters of the query: the rows in scope, and the summary of those that are not.
unfoldable pub scope_row :
    String
    → TaskRecord
    → List TaskRecord × SettlementSyncSummary
    → List TaskRecord × SettlementSyncSummary
scope_row escrow row (rows, s) =
    if not (includes syncable_statuses row.status)
    then (rows, leave s)
    else if is_on_escrow escrow row
    then (rows ++ row ∷ [], s)
    else (rows, mismatch row s)

unfoldable pub scope :
    String
    → List TaskRecord
    → List TaskRecord × SettlementSyncSummary
    → List TaskRecord × SettlementSyncSummary
scope escrow [] acc = acc
scope escrow (row ∷ rows) acc = scope escrow rows (scope_row escrow row acc)

-- `order("updated_at", { ascending: true })`.
unfoldable pub place_oldest : TaskRecord → List TaskRecord → List TaskRecord
place_oldest t [] = t ∷ []
place_oldest t (u ∷ us) =
    let later = u ∷ place_oldest t us in if ltb u.updated_at t.updated_at then later else t ∷ u ∷ us

unfoldable pub oldest_first : List TaskRecord → List TaskRecord
oldest_first [] = []
oldest_first (t ∷ ts) = place_oldest t (oldest_first ts)

unfoldable pub is_candidate : String → TaskRecord → Bool
is_candidate escrow t = includes syncable_statuses t.status && is_on_escrow escrow t

unfoldable pub read_batch : String → M (List TaskRecord)
read_batch escrow =
    query
      (λ w. take settlement_sync_batch_limit (oldest_first (select (is_candidate escrow) w.tasks)))

-- The rows whose event has yet to be looked up, with the state on chain, and the summary.
abbrev pub Progress : Type 0
Progress = List (TaskRecord × OnChainTaskState) × SettlementSyncSummary

abbrev pub keep_pending :
    List (TaskRecord × OnChainTaskState) → M SettlementSyncSummary → M Progress
keep_pending waiting m = do s ← m; pure (waiting, s)

abbrev pub act_on : TaskRecord → OnChainTask → Progress → Option Proposal → M Progress
act_on row on_chain (waiting, s) none = pure (waiting, leave s)
act_on row on_chain (waiting, s) (some ask_event) = pure (
    if chain_matches_row on_chain row
    then (waiting ++ (row, on_chain.state) ∷ [], s)
    else (waiting, mismatch row s))
act_on row on_chain (waiting, s) (some (move_to target)) =
    if chain_matches_row on_chain row
    then keep_pending waiting (write_row row target on_chain.state s)
    else pure (waiting, mismatch row s)

abbrev pub act_on_read : TaskRecord → Progress → Option OnChainTask → M Progress
act_on_read row (waiting, s) none = pure (waiting, fail row read s)
act_on_read row acc (some on_chain) =
    act_on row on_chain acc (settlement_target_for row.status on_chain.state)

module _ (chain : Chain) where
  unfoldable pub settle_row : TaskRecord → Progress → M Progress
  settle_row row acc = act_on_read row acc (chain.on_chain_task row.payment_request_id)

  unfoldable pub settle_rows : List TaskRecord → Progress → M Progress
  settle_rows [] acc = pure acc
  settle_rows (row ∷ rows) acc = do acc' ← settle_row row acc; settle_rows rows acc'

  abbrev pub act_on_outcome :
      TaskRecord
      → OnChainTaskState
      → SettlementSyncSummary
      → Option (Option Bool)
      → M SettlementSyncSummary
  act_on_outcome row state s none = pure (fail row outcome s)
  act_on_outcome row state s (some none) =
      pure (record s { outcome_missing = s.outcome_missing ++ row.payment_request_id ∷ [] })
  act_on_outcome row state s (some (some released)) =
      write_row row (if released then done else refunded) state s

  unfoldable pub look_up :
      TaskRecord → OnChainTaskState → SettlementSyncSummary → M SettlementSyncSummary
  look_up row state s = do
    wait (chain.lookup_ms row.payment_request_id)
    act_on_outcome row state s (chain.resolved_outcome row.payment_request_id)

  -- One row of the second loop, which starts no lookup once the budget is spent.
  unfoldable pub resolve_row :
      ℕ → TaskRecord × OnChainTaskState → SettlementSyncSummary → M SettlementSyncSummary
  resolve_row started_at (row, state) s = do
    now ← date_now
    if leb settlement_sync_outcome_budget_ms (now - started_at)
        then pure (record s { deferred = s.deferred ++ row.payment_request_id ∷ [] })
        else look_up row state s

  unfoldable pub resolve_rows :
      ℕ → List (TaskRecord × OnChainTaskState) → SettlementSyncSummary → M SettlementSyncSummary
  resolve_rows started_at [] s = pure s
  resolve_rows started_at (r ∷ rs) s = do
    s' ← resolve_row started_at r s
    resolve_rows started_at rs s'

  abbrev pub empty_summary : List TaskRecord → SettlementSyncSummary
  empty_summary candidates = record {
    considered = length candidates;
    updated = [];
    unchanged = 0;
    mismatched = [];
    outcome_missing = [];
    deferred = [];
    failed = [];
  }

  -- The run, once the batch has been read.
  unfoldable pub sync_batch : ℕ → String → List TaskRecord → M SettlementSyncSummary
  sync_batch started_at escrow candidates =
      let (in_scope, s) = scope escrow candidates ([], empty_summary candidates) in
      do (waiting, s') ← settle_rows in_scope ([], s); resolve_rows started_at waiting s'

  unfoldable pub sync_on : String → M SettlementSyncSummary
  sync_on escrow = if not (is_hex_address escrow) then throw malformed_address else do
    started_at ← date_now
    candidates ← read_batch escrow
    sync_batch started_at escrow candidates

  abbrev pub sync_configured : Option String → M SettlementSyncSummary
  sync_configured none = throw not_configured
  sync_configured (some escrow) = if same escrow "" then throw not_configured else sync_on escrow

  unfoldable pub sync_settled_tasks : M SettlementSyncSummary
  sync_settled_tasks = sync_configured chain.escrow_address
