-- ===== src/Tools.antt =====
-- The tools of src/lib/mcp/server.ts other than the hiring of a worker. A tool answers a value or an
-- error code; the wallet is the one that the session has proved. What the chain reads answer, and the
-- verdict service, are parameters.
pub mod Parties
pub mod Disputes
pub mod Released
pub mod Private
pub mod Invariant
pub mod Tests
use carbon_contractors_com.Prelude.{
  ℕ, ◌+◌, ◌/◌, Bool, true, false, not, ◌&&◌, ◌||◌, List, [], ◌∷◌, Option, none, some, String,
  if◌then◌else◌, same, lower, leb, any,
}
use carbon_contractors_com.Schema.{
  TaskStatus, active, pending, completed, is, includes, TaskRecord, HumanRecord,
  NotificationChannel, Availability,
}
use carbon_contractors_com.Schema.TaskStatus.{disputed as contested}
use carbon_contractors_com.World.{
  Error, Result, ok, err, M, pure, ◌>>=◌, ◌>>◌, attempt, date_now, notify, verdict_signed,
  payment_claimable,
}
use carbon_contractors_com.Chain.{OnChainTaskState, OnChainTask, Chain, funded, delivered}
use carbon_contractors_com.Chain.OnChainTaskState.{
  completed as paid, resolved as ruled, disputed as disputed_there, arbitrating,
}
use carbon_contractors_com.Registry.{
  get_human_by_wallet, get_human_by_id, get_channels_for_contractor,
}
use carbon_contractors_com.Tasks.Transitions.{get_task_by_payment_id, update_task_status}
use carbon_contractors_com.FundTask.{is_configured}
use carbon_contractors_com.Hire.{
  ToolErrorCode, unauthenticated, task_not_found, forbidden, invalid_task_state, invalid_argument,
  contractor_not_found, verdict_input_invalid, verdict_computation_failed, verdict_passed,
  dispute_requires_verdict, internal,
}
use carbon_contractors_com.Verdicts.{
  ComputedVerdict, VerdictResult, computed, faulty, is_input_fault,
}

pub data ToolResult (A : Type 0) : Type 0 where
  answer : A → ToolResult A
  tool_error : ToolErrorCode → ToolResult A

-- The `catch` around every tool.
abbrev pub or_internal : {A : Type 0} → Result (ToolResult A) → M (ToolResult A)
or_internal (ok r) = pure r
or_internal (err e) = pure (tool_error internal)

-- What the server shows of a task on chain.
pub record Projection : Type 0 where
  pub state : OnChainTaskState
  pub amount_wei : ℕ
  pub deadline : ℕ
  pub review_window : ℕ
  pub submitted_at : ℕ
  pub review_deadline : ℕ
  pub disputed_at : ℕ
  pub arbitration_deadline : ℕ
  pub arbitration_clock : Bool
  pub spec_hash : String
  pub evidence_hash : String
  pub verdict_hash : String
  pub verdict_passed : Bool
  pub worker : String
  pub agent : String

pub data OnChainView : Type 0 where
  no_escrow : OnChainView
  unreadable : OnChainView
  shown : Projection → OnChainView

pub record Reclaim : Type 0 where
  pub escrow_contract : Option String
  pub task_id_bytes32 : String
  pub callable_by : String

pub record TaskView : Type 0 where
  pub payment_request_id : String
  pub status : TaskStatus
  pub amount_usdc : ℕ
  pub from_agent : String
  pub to_worker : String
  pub task_description : Option String
  pub deadline_unix : ℕ
  pub offer_expiry_unix : Option ℕ
  pub created_at : ℕ
  pub on_chain : OnChainView
  pub reclaim : Option Reclaim

unfoldable pub is_owning_agent : Option String → TaskRecord → Bool
is_owning_agent none t = false
is_owning_agent (some caller) t =
    not (same caller "") && same (lower t.from_agent_wallet) (lower caller)

abbrev pub is_funded : OnChainTaskState → Bool
is_funded funded = true
is_funded _ = false

unfoldable pub is_lapsed : ℕ → Projection → Bool
is_lapsed now p = is_funded p.state && leb p.deadline (now / 1000)

pub record Escrow : Type 0 where
  pub address : Option String
  pub to_task_id : String → String
  -- `getOnChainTask`; `none` is a read that is rejected.
  pub on_chain_task : String → Option Projection

module _ (escrow : Escrow) where
  abbrev pub view_if_read : Option Projection → OnChainView
  view_if_read none = unreadable
  view_if_read (some p) = shown p

  unfoldable pub on_chain_view : String → OnChainView
  on_chain_view id =
      if is_configured escrow.address then view_if_read (escrow.on_chain_task id) else no_escrow

  abbrev pub reclaim_of : String → ℕ → OnChainView → Option Reclaim
  reclaim_of id now no_escrow = none
  reclaim_of id now unreadable = none
  reclaim_of id now (shown p) =
      if is_lapsed now p
      then some (record {
        escrow_contract = escrow.address;
        task_id_bytes32 = escrow.to_task_id id;
        callable_by = p.agent;
      })
      else none

  unfoldable pub task_view : Option String → String → ℕ → TaskRecord → TaskView
  task_view caller id now t = record {
    payment_request_id = t.payment_request_id;
    status = t.status;
    amount_usdc = t.amount_usdc;
    from_agent = t.from_agent_wallet;
    to_worker = t.to_human_wallet;
    task_description = if is_owning_agent caller t then some t.task_description else none;
    deadline_unix = t.deadline_unix;
    offer_expiry_unix = t.offer_expiry_unix;
    created_at = t.created_at;
    on_chain = on_chain_view id;
    reclaim = reclaim_of id now (on_chain_view id);
  }

  abbrev pub show_found : Option String → String → Option TaskRecord → M (ToolResult TaskView)
  show_found caller id none = pure (tool_error task_not_found)
  show_found caller id (some t) = do now ← date_now; pure (answer (task_view caller id now t))

  unfoldable pub get_task_status : Option String → String → M (ToolResult TaskView)
  get_task_status caller id =
      attempt (get_task_by_payment_id id >>= show_found caller id) or_internal

  -- ── confirm_task_completion ──
  pub data Settled : Type 0 where
    already_settled : Settled
    in_review : Settled
    agent_may_pay : Settled

  pub data Confirmation : Type 0 where
    already_completed : Confirmation
    confirmed : TaskStatus → (on_chain_state : Option OnChainTaskState) → Settled → Confirmation

  unfoldable pub settled_of : Option OnChainTaskState → Settled
  settled_of (some paid) = already_settled
  settled_of (some ruled) = already_settled
  settled_of (some delivered) = in_review
  settled_of _ = agent_may_pay

  abbrev pub state_if_read : Option Projection → Option OnChainTaskState
  state_if_read none = none
  state_if_read (some p) = some p.state

  unfoldable pub state_on_chain : String → Option OnChainTaskState
  state_on_chain id =
      if is_configured escrow.address then state_if_read (escrow.on_chain_task id) else none

  abbrev pub confirm_found : String → String → Option TaskRecord → M (ToolResult Confirmation)
  confirm_found caller id none = pure (tool_error task_not_found)
  confirm_found caller id (some t) =
      if not (same (lower t.from_agent_wallet) (lower caller))
      then pure (tool_error forbidden)
      else if is t.status active || is t.status pending
      then pure (answer (confirmed t.status (state_on_chain id) (settled_of (state_on_chain id))))
      else if is t.status completed
      then pure (answer already_completed)
      else pure (tool_error invalid_task_state)

  abbrev pub confirm_as : Option String → String → M (ToolResult Confirmation)
  confirm_as none id = pure (tool_error unauthenticated)
  confirm_as (some caller) id =
      if same caller ""
      then pure (tool_error unauthenticated)
      else get_task_by_payment_id id >>= confirm_found caller id

  unfoldable pub confirm_task_completion : Option String → String → M (ToolResult Confirmation)
  confirm_task_completion caller id = attempt (confirm_as caller id) or_internal
