-- ===== src/Tools/Tests.antt =====
-- The worker asks for a verdict and disputes, the agent looks at the task and confirms it.
use carbon_contractors_com.Prelude.{
  ◌≡◌, refl, none, some, String, same, lower, [], ◌∷◌, false, Option,
}
use carbon_contractors_com.Schema.{TaskRecord}
use carbon_contractors_com.World.{ok, answered, refused}
use carbon_contractors_com.World.Ensures.{Post}
use carbon_contractors_com.Chain.{funded, disputed}
use carbon_contractors_com.Tasks.Transitions.{get_task_by_payment_id, transitions_code}
use carbon_contractors_com.Dispute.{dispute}
use carbon_contractors_com.Verdicts.{VerdictResult, faulty, evidence_uncommitted}
use carbon_contractors_com.Verdicts.Tests.{instruments, platform}
use carbon_contractors_com.Tools.{
  answer, Projection, Escrow, TaskView, get_task_status, confirm_task_completion, task_view,
  is_owning_agent, on_chain_view, is_lapsed,
}
use carbon_contractors_com.Tools.Parties.{dispute_task_tool, get_signed_verdict}
use carbon_contractors_com.Tools.Disputes.{
  summarised, summary_of_tool, summary_of_route, route_of, dispute_task_tool-dispute,
}
use carbon_contractors_com.Tools.Released.{service, Released, get_signed_verdict-Released}
use carbon_contractors_com.Tools.Private.{
  IsLapsed, get_task_status-Lapsed, get_task_status-Private, confirm_task_completion-quiet,
}
use carbon_contractors_com.Scenario.{
  running, running-IsFine, world, world-IsSound, worker_wallet, agent_wallet, chain,
}

abbrev locked : Projection
locked = record {
  state = funded;
  amount_wei = 25000000;
  deadline = 50;
  review_window = 43200;
  submitted_at = 0;
  review_deadline = 0;
  disputed_at = 0;
  arbitration_deadline = 0;
  arbitration_clock = false;
  spec_hash = "h";
  evidence_hash = "";
  verdict_hash = "";
  verdict_passed = false;
  worker = worker_wallet;
  agent = agent_wallet;
}

abbrev escrow : Escrow
escrow = record { address = some "0xe5c"; to_task_id = λ id. id; on_chain_task = λ id. some locked }

abbrev uncommitted : TaskRecord → String → VerdictResult
uncommitted t bundle = faulty evidence_uncommitted

dispute_task_tool-dispute_example :
    summarised (summary_of_tool (λ h. "text")) (
      dispute_task_tool
        (chain disputed)
        uncommitted
        (some agent_wallet)
        "t1"
        none
        (world running (answered ∷ refused ∷ [])))
    ≡ summarised summary_of_route (
        dispute
          (chain disputed)
          (route_of (λ h. "text") (chain disputed) uncommitted)
          (some agent_wallet)
          "t1"
          none
          (world running (answered ∷ refused ∷ [])))
unfolding same
dispute_task_tool-dispute_example =
    dispute_task_tool-dispute (λ h. "text") (chain disputed) uncommitted agent_wallet "t1" none
      (world running (answered ∷ refused ∷ [])) refl refl

get_signed_verdict-Released_example :
    Post
      (λ a v.
        Released instruments platform 9000 77
          (some worker_wallet)
          "t1"
          "[]"
          (world running (answered ∷ []))
          a)
      (get_signed_verdict
        (service instruments platform 9000 77)
        (some worker_wallet)
        "t1"
        "[]"
        (world running (answered ∷ [])))
get_signed_verdict-Released_example =
    get_signed_verdict-Released instruments platform 9000 77 (some worker_wallet) "t1" "[]"
      (world running (answered ∷ [])) (world-IsSound running (answered ∷ []) running-IsFine)

abbrev view : TaskView
view = task_view escrow (some agent_wallet) "t1" 60000000 running

status_premise :
    (get_task_status escrow (some agent_wallet) "t1" (world running [])).0 ≡ ok (answer view)
unfolding get_task_status transitions_code same lower
status_premise = refl

get_task_status-Private_example :
    (wallet : String) × (◌≡◌ {A = Option String} (some agent_wallet) (some wallet))
    × (lower view.from_agent ≡ lower wallet)
unfolding task_view same lower is_owning_agent
get_task_status-Private_example =
    get_task_status-Private escrow (some agent_wallet) "t1" (world running []) view
      "Photograph the site." status_premise refl

confirm_task_completion-quiet_example :
    ((confirm_task_completion escrow (some agent_wallet) "t1" (world running (answered ∷ []))).1
      ≡ (get_task_by_payment_id "t1" (world running (answered ∷ []))).1)
    × ((get_task_status escrow (some agent_wallet) "t1" (world running (answered ∷ []))).1
        ≡ (get_task_by_payment_id "t1" (world running (answered ∷ []))).1)
unfolding same
confirm_task_completion-quiet_example =
    confirm_task_completion-quiet escrow agent_wallet "t1" (world running (answered ∷ [])) refl

get_task_status-Lapsed_example :
    IsLapsed escrow (get_task_by_payment_id "t1" (world running [])).1.now view (record {
      escrow_contract = some "0xe5c";
      task_id_bytes32 = "t1";
      callable_by = agent_wallet;
    })
unfolding task_view on_chain_view is_lapsed same
get_task_status-Lapsed_example =
    get_task_status-Lapsed escrow (some agent_wallet) "t1" (world running []) view
      (record {
        escrow_contract = some "0xe5c";
        task_id_bytes32 = "t1";
        callable_by = agent_wallet;
      })
      status_premise refl
