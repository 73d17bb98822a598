-- ===== src/Scenario.antt =====
-- A small marketplace for the tests: one worker, one agent, one task, and a chain that holds it.
use carbon_contractors_com.Prelude.{
  ℕ, ◌≡◌, refl, Bool, true, false, List, [], ◌∷◌, Option, none, some, String, if◌then◌else◌, same,
  lower, arith, All, Along-refl,
}
use carbon_contractors_com.Schema.{
  TaskStatus, pending, accepted, active, TaskRecord, NotificationChannel, email, HumanRecord,
  available,
}
use carbon_contractors_com.World.{Reply, Turn, World}
use carbon_contractors_com.World.Keeps.{IsSound, Obeys}
use carbon_contractors_com.Chain.{OnChainTaskState, Chain}
use carbon_contractors_com.Funding.{Config}
use carbon_contractors_com.Hire.{HireSpec, HireRequest, Services}
use carbon_contractors_com.Tasks.Lifecycle.{IsFine, RowEvolves, RowEvolves-refl, lifecycle}

abbrev pub worker_wallet : String
worker_wallet = "0x1111111111111111111111111111111111111111"

abbrev pub agent_wallet : String
agent_wallet = "0x2222222222222222222222222222222222222222"

abbrev pub escrow : String
escrow = "0x3333333333333333333333333333333333333333"

-- 25 USDC, offered until 100000 seconds.
abbrev pub row : TaskStatus → Option String → Option ℕ → TaskRecord
row status pin funded_at = record {
  id = "r1";
  payment_request_id = "t1";
  from_agent_wallet = agent_wallet;
  to_human_wallet = worker_wallet;
  task_description = "Photograph the site.";
  amount_usdc = 25000000;
  deadline_unix = 200000;
  status = status;
  offer_expiry_unix = some 100000;
  offer_reminder_sent = none;
  tx_hash = none;
  escrow_contract = some escrow;
  acceptance_spec = some "{}";
  spec_hash = some "h";
  spec_schema_version = some 1;
  accepted_description_hash = pin;
  funded_at = funded_at;
  idempotency_key = some "k1";
  review_window_seconds = some 43200;
  content_purged_at = none;
  content_purge_rule = none;
  created_at = 1000;
  updated_at = 1000;
}

abbrev pub offer : TaskRecord
offer = row pending none none

abbrev pub booked : TaskRecord
booked = row accepted (some "pin") none

abbrev pub running : TaskRecord
running = row active (some "pin") (some 50000000)

worker_wallet-lower : lower worker_wallet ≡ worker_wallet
worker_wallet-lower = unfold lower in refl

pub offer-IsFine : IsFine offer
offer-IsFine = ground (arith, worker_wallet-lower)

pub booked-IsFine : IsFine booked
booked-IsFine = ground (arith, worker_wallet-lower)

pub running-IsFine : IsFine running
running-IsFine = ground (arith, worker_wallet-lower)

abbrev pub worker : HumanRecord
worker = record {
  id = "w1";
  wallet = worker_wallet;
  categories = [];
  rate_usdc = 25000000;
  availability = available;
  reputation_score = 0;
}

abbrev pub channel : Bool → NotificationChannel
channel accepts = record {
  id = "c1";
  contractor_id = "w1";
  kind = email;
  address = "w@x.org";
  accepts_auto_booking = accepts;
}

abbrev pub turn : Reply → Turn
turn reply = record { reply = reply; elapsed = 10; others = λ ts. ts }

abbrev pub turns_of : List Reply → List Turn
turns_of [] = []
turns_of (r ∷ rs) = turn r ∷ turns_of rs

-- A world of one task, at 60000 seconds.
abbrev pub world : TaskRecord → List Reply → World
world task replies = record {
  tasks = task ∷ [];
  channels = channel true ∷ [];
  humans = worker ∷ [];
  now = 60000000;
  turns = turns_of replies;
  randoms = "id" ∷ "t2" ∷ "t3" ∷ [];
  sent = [];
}

pub world-IsSound :
    (task : TaskRecord) (replies : List Reply)
    → IsFine task
    → IsSound lifecycle (world task replies)
world-IsSound task replies h = record { tasks = ((h, tt), (tt, tt)); turns = turns_obey replies }
  where
    turns_obey : (rs : List Reply) → All (λ t. Obeys lifecycle t.others) (turns_of rs)
    turns_obey [] = tt
    turns_obey (r ∷ rs) = (λ ts h. (h, Along-refl RowEvolves RowEvolves-refl ts), turns_obey rs)

abbrev pub chain : OnChainTaskState → Chain
chain state = record {
  escrow_address = some escrow;
  on_chain_task = λ id.
      if same id "t1"
      then some (record { worker = worker_wallet; amount = 25000000; state = state })
      else none;
  resolved_outcome = λ id. some (some true);
  lookup_ms = λ id. 500;
  block_timestamp = some 59000;
}

abbrev pub config : Config
config = record {
  keccak256 = λ s. "d";
  to_task_id = λ id. id;
  address = some escrow;
  chain_id = 84532;
  chain_name = "base-sepolia";
  base_url = "https://x.org";
}

abbrev pub spec : HireSpec
spec = record {
  parsed = record { preimage = "{}"; hash = "h"; version = 1; has_no_criteria = false };
  evidence_bucket = none;
  wants_artefacts = false;
}

-- Services that stand in nobody's way.
abbrev pub services : Services
services = record {
  is_intake_paused = false;
  is_wallet_sanctioned = λ wallet. false;
  limit = λ key now. none;
  parse_and_hash_spec = λ raw. if same raw "{}" then some spec else none;
  is_evidence_encryption_configured = false;
  resolves = λ bucket upload. false;
  stores_credential = λ id. false;
}

-- A hire for 30 USDC.
abbrev pub hire_request : HireRequest
hire_request = record {
  to_human_wallet = worker_wallet;
  task_description = "Photograph the roof.";
  amount_usdc = 30000000;
  deadline_hours = 48;
  review_window_hours = 24;
  offer_expiry_minutes = none;
  acceptance_spec = some "{}";
  evidence_upload = none;
  idempotency_key = some "k2";
}
