-- ===== src/Funding.antt =====
-- Preparing and replaying a funding offer (src/lib/payments/funding.ts). The instructions are the
-- lines of the text, each by what it depends on.
pub mod Amounts
pub mod Invariant
pub mod Promises
pub mod Tests
use carbon_contractors_com.Prelude.{
  ℕ, ◌+◌, ◌*◌, ◌/◌, Bool, true, false, not, ◌&&◌, ◌||◌, List, [], ◌∷◌, ◌++◌, Option, none, some,
  String, if◌then◌else◌, leb, ltb, ◌==◌,
}
use carbon_contractors_com.Schema.{TaskStatus, pending, accepted, is, TaskRecord}
use carbon_contractors_com.World.{
  Error, invalid_argument, M, pure, throw, ◌>>=◌, ◌>>◌, date_now, draw,
}
use carbon_contractors_com.Chain.{is_hex_address, to_wei}
use carbon_contractors_com.Tasks.Creation.{CreateTaskInput, create_task}

-- `ParsedSpec`, less the parsed value, which this code does not read.
pub record ParsedSpec : Type 0 where
  pub preimage : String
  pub hash : String
  pub version : ℕ
  pub has_no_criteria : Bool

pub record FundingOfferRequest : Type 0 where
  pub from_agent_wallet : String
  pub to_human_wallet : String
  pub task_description : String
  pub amount_usdc : ℕ
  pub deadline_unix : ℕ
  pub review_window_seconds : ℕ
  pub spec : ParsedSpec
  pub auto_accept : Option Bool
  pub offer_expiry_seconds : Option ℕ
  pub idempotency_key : Option String

-- What the code takes from its configuration: `getEscrowConfig`, `toTaskId`, and viem's keccak256
-- of a text.
pub record Config : Type 0 where
  pub keccak256 : String → String
  pub to_task_id : String → String
  pub address : Option String
  pub chain_id : ℕ
  pub chain_name : String
  pub base_url : String

pub data Line : Type 0 where
  fund_from : (chain_name : String) (chain_id : ℕ) → Line
  accept_and_fund_by : ℕ → Line
  booked_fund_by : ℕ → Line
  lapsed_is_refused : Line
  lapsed_is_locked : (task_id : String) → Line
  wait_for_worker : Line
  not_accepted_is_refused : Line
  approve : (escrow : Option String) (amount_wei : ℕ) → Line
  create :
      (task_id worker : String) (amount_wei deadline_unix review_window_seconds : ℕ)
      (spec_hash : String)
      → Line
  verify_hash : Line
  confirm : (payment_request_id : String) → Line

pub record FundingOfferResponse : Type 0 where
  pub payment_request_id : String
  pub task_id_bytes32 : String
  pub worker : String
  pub amount_usdc : ℕ
  pub amount_wei : ℕ
  pub deadline_unix : ℕ
  pub review_window_seconds : ℕ
  pub spec_hash : String
  pub escrow_contract : Option String
  pub chain_id : ℕ
  pub base_network : String
  pub fund_url : String × String
  pub worker_status : TaskStatus
  pub offer_expiry_unix : Option ℕ
  pub acceptance_spec : String
  pub spec_schema_version : ℕ
  pub spec_warning : Bool
  pub instructions : List Line
  pub timestamp_unix : ℕ

abbrev pub min_review_window_seconds : ℕ
min_review_window_seconds = 43200

abbrev pub max_review_window_seconds : ℕ
max_review_window_seconds = 1209600

abbrev pub min_offer_expiry_seconds : ℕ
min_offer_expiry_seconds = 900

abbrev pub max_offer_expiry_seconds : ℕ
max_offer_expiry_seconds = 604800

abbrev pub default_offer_expiry_seconds : ℕ
default_offer_expiry_seconds = 86400

pub record FundingResponseParams : Type 0 where
  pub payment_request_id : String
  pub worker : String
  pub amount_usdc : ℕ
  pub deadline_unix : ℕ
  pub review_window_seconds : ℕ
  pub spec : ParsedSpec
  pub worker_status : TaskStatus
  pub offer_expiry_unix : Option ℕ
  pub in_offer_stage : Bool

abbrev pub deadline_lines : Config → FundingResponseParams → Option ℕ → List Line
deadline_lines config p none = []
deadline_lines config p (some expiry) =
    if p.in_offer_stage
    then (if is p.worker_status pending then accept_and_fund_by expiry else booked_fund_by expiry)
      ∷ lapsed_is_refused
      ∷ lapsed_is_locked (config.to_task_id p.payment_request_id)
      ∷ []
    else []

unfoldable pub instructions_of : Config → FundingResponseParams → List Line
instructions_of config p =
    let task_id = config.to_task_id p.payment_request_id in
    fund_from config.chain_name config.chain_id
    ∷ (deadline_lines config p p.offer_expiry_unix
        ++ ((if is p.worker_status pending
              then wait_for_worker ∷ not_accepted_is_refused ∷ []
              else [])
            ++ (approve config.address (to_wei p.amount_usdc)
                ∷ create task_id p.worker (to_wei p.amount_usdc) p.deadline_unix
                    p.review_window_seconds p.spec.hash
                ∷ verify_hash
                ∷ confirm p.payment_request_id
                ∷ [])))

unfoldable pub build_funding_response : Config → FundingResponseParams → ℕ → FundingOfferResponse
build_funding_response config p now = record {
  payment_request_id = p.payment_request_id;
  task_id_bytes32 = config.to_task_id p.payment_request_id;
  worker = p.worker;
  amount_usdc = p.amount_usdc;
  amount_wei = to_wei p.amount_usdc;
  deadline_unix = p.deadline_unix;
  review_window_seconds = p.review_window_seconds;
  spec_hash = p.spec.hash;
  escrow_contract = config.address;
  chain_id = config.chain_id;
  base_network = config.chain_name;
  fund_url = (config.base_url, "/api/fund-task");
  worker_status = p.worker_status;
  offer_expiry_unix = p.offer_expiry_unix;
  acceptance_spec = p.spec.preimage;
  spec_schema_version = p.spec.version;
  spec_warning = p.spec.has_no_criteria;
  instructions = instructions_of config p;
  timestamp_unix = now / 1000;
}

-- `??`.
abbrev pub or_default {ℓ} : {A : Type ℓ} → A → Option A → A
or_default d none = d
or_default d (some a) = a

unfoldable pub initial_status : FundingOfferRequest → TaskStatus
initial_status req = if or_default false req.auto_accept then accepted else pending

unfoldable pub offer_expiry : FundingOfferRequest → ℕ
offer_expiry req = or_default default_offer_expiry_seconds req.offer_expiry_seconds

-- The guards, in their order; the first that fails is what is thrown.
unfoldable pub refusal_of : FundingOfferRequest → Option Error
refusal_of req =
    if req.amount_usdc == 0
    then some (invalid_argument "amount_usdc")
    else if not (is_hex_address req.from_agent_wallet)
    then some (invalid_argument "from_agent_wallet")
    else if not (is_hex_address req.to_human_wallet)
    then some (invalid_argument "to_human_wallet")
    else if ltb req.review_window_seconds min_review_window_seconds
        || ltb max_review_window_seconds req.review_window_seconds
    then some (invalid_argument "review_window_seconds")
    else if ltb (offer_expiry req) min_offer_expiry_seconds
        || ltb max_offer_expiry_seconds (offer_expiry req)
    then some (invalid_argument "offer_expiry_seconds")
    else none

unfoldable pub task_input : Config → FundingOfferRequest → String → ℕ → CreateTaskInput
task_input config req payment_request_id expiry_unix = record {
  payment_request_id = payment_request_id;
  from_agent_wallet = req.from_agent_wallet;
  to_human_wallet = req.to_human_wallet;
  task_description = req.task_description;
  amount_usdc = req.amount_usdc;
  deadline_unix = req.deadline_unix;
  tx_hash = "";
  escrow_contract = or_default "" config.address;
  acceptance_spec = some req.spec.preimage;
  spec_hash = some req.spec.hash;
  spec_schema_version = some req.spec.version;
  status = some (initial_status req);
  offer_expiry_unix = some expiry_unix;
  idempotency_key = req.idempotency_key;
  review_window_seconds = some req.review_window_seconds;
}

unfoldable pub response_params : FundingOfferRequest → String → ℕ → FundingResponseParams
response_params req payment_request_id expiry_unix = record {
  payment_request_id = payment_request_id;
  worker = req.to_human_wallet;
  amount_usdc = req.amount_usdc;
  deadline_unix = req.deadline_unix;
  review_window_seconds = req.review_window_seconds;
  spec = req.spec;
  worker_status = initial_status req;
  offer_expiry_unix = some expiry_unix;
  in_offer_stage = true;
}

unfoldable pub write_offer : Config → FundingOfferRequest → M FundingOfferResponse
write_offer config req = do
  now ← date_now
  payment_request_id ← draw
  let expiry_unix = now / 1000 + offer_expiry req
  create_task config.keccak256 (task_input config req payment_request_id expiry_unix)
  later ← date_now
  pure (build_funding_response config (response_params req payment_request_id expiry_unix) later)

abbrev pub unless_refused : Config → FundingOfferRequest → Option Error → M FundingOfferResponse
unless_refused config req (some e) = throw e
unless_refused config req none = write_offer config req

unfoldable pub create_funding_offer : Config → FundingOfferRequest → M FundingOfferResponse
create_funding_offer config req = unless_refused config req (refusal_of req)

pub record FundingOfferReplay : Type 0 where
  pub response : FundingOfferResponse
  pub awaiting_funding : Bool
  pub task_status : TaskStatus

unfoldable pub in_offer_stage : TaskStatus → Bool
in_offer_stage s = is s pending || is s accepted

-- The parameters of a stored row.
unfoldable pub replay_params : TaskRecord → FundingResponseParams
replay_params task = record {
  payment_request_id = task.payment_request_id;
  worker = task.to_human_wallet;
  amount_usdc = task.amount_usdc;
  deadline_unix = task.deadline_unix;
  review_window_seconds = or_default 0 task.review_window_seconds;
  spec = record {
    preimage = or_default "" task.acceptance_spec;
    hash = or_default "" task.spec_hash;
    version = or_default 1 task.spec_schema_version;
    has_no_criteria = false;
  };
  worker_status = if is task.status pending then pending else accepted;
  offer_expiry_unix = task.offer_expiry_unix;
  in_offer_stage = in_offer_stage task.status;
}

unfoldable pub replay_funding_offer : Config → TaskRecord → ℕ → FundingOfferReplay
replay_funding_offer config task now = record {
  response = build_funding_response config (replay_params task) now;
  awaiting_funding = in_offer_stage task.status;
  task_status = task.status;
}
