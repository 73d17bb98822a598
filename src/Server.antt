-- ===== src/Server.antt =====
-- The server as a whole: the requests that reach the tasks table, one after the other, with
-- whatever other requests do between the calls of each.
pub mod Sound
pub mod Tests
use carbon_contractors_com.Prelude.{ℕ, List, [], ◌∷◌, Option, String}
use carbon_contractors_com.Schema.{TaskRecord}
use carbon_contractors_com.World.{World, M}
use carbon_contractors_com.Chain.{Chain}
use carbon_contractors_com.Tasks.Transitions.{get_task_by_payment_id}
use carbon_contractors_com.Offers.{OfferDecision, respond_to_offer}
use carbon_contractors_com.Settlement.{sync_settled_tasks}
use carbon_contractors_com.Funding.{Config}
use carbon_contractors_com.FundTask.{fund_task}
use carbon_contractors_com.Reminders.{offer_reminders}
use carbon_contractors_com.Hire.{HireRequest, Services, request_human_work}
use carbon_contractors_com.Dispute.{dispute}
use carbon_contractors_com.Kms.{Hex}
use carbon_contractors_com.Verdicts.{VerdictResult}
use carbon_contractors_com.Tools.{Escrow, get_task_status, confirm_task_completion}
use carbon_contractors_com.Tools.Parties.{get_signed_verdict, dispute_task_tool}
use carbon_contractors_com.Tools.Disputes.{route_of}

-- What a deployment is given.
pub record Deployment : Type 0 where
  pub config : Config
  pub services : Services
  pub chain : Chain
  pub escrow : Escrow
  pub verdict_of : TaskRecord → String → VerdictResult
  pub hex_text : Hex → String

pub data Request : Type 0 where
  hire : (caller_wallet : Option String) → HireRequest → Request
  answer : (caller_wallet payment_request_id : String) → OfferDecision → Request
  confirm_funded : (payment_request_id : String) → Request
  contest :
      (caller_wallet : Option String) (payment_request_id : String)
      (evidence_bundle : Option String)
      → Request
  settle : Request
  remind : (cron_secret : Option String) (provided : String) → Request
  look : (payment_request_id : String) → Request
  ask_status : (caller_wallet : Option String) (payment_request_id : String) → Request
  confirm_done : (caller_wallet : Option String) (payment_request_id : String) → Request
  ask_verdict :
      (caller_wallet : Option String) (payment_request_id evidence_bundle : String) → Request
  contest_by_tool :
      (caller_wallet : Option String) (payment_request_id : String)
      (evidence_bundle : Option String)
      → Request

module _ (d : Deployment) where
  unfoldable pub handle : Request → World → World
  handle (hire caller req) w = (request_human_work d.config d.services caller req w).1
  handle (answer caller id decision) w =
      (respond_to_offer d.config.keccak256 caller id decision w).1
  handle (confirm_funded id) w = (fund_task d.chain id w).1
  handle (contest caller id bundle) w =
      (dispute d.chain (route_of d.hex_text d.chain d.verdict_of) caller id bundle w).1
  handle settle w = (sync_settled_tasks d.chain w).1
  handle (remind secret provided) w = (offer_reminders secret provided w).1
  handle (look id) w = (get_task_by_payment_id id w).1
  handle (ask_status caller id) w = (get_task_status d.escrow caller id w).1
  handle (confirm_done caller id) w = (confirm_task_completion d.escrow caller id w).1
  handle (ask_verdict caller id bundle) w = (get_signed_verdict d.verdict_of caller id bundle w).1
  handle (contest_by_tool caller id bundle) w =
      (dispute_task_tool d.chain d.verdict_of caller id bundle w).1

  unfoldable pub serve : List Request → World → World
  serve [] w = w
  serve (r ∷ rs) w = serve rs (handle r w)
