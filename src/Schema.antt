-- ===== src/Schema.antt =====
-- The rows of the database (src/lib/db/types.ts, and the record types of src/lib/db/tasks.ts,
-- src/lib/db/notifications.ts and src/lib/db/whitepages.ts). Amounts are whole numbers of
-- micro-USDC, `_unix` fields are seconds, `created_at`, `updated_at` and `funded_at` are
-- milliseconds since the epoch; a nullable column is an `Option`.
use carbon_contractors_com.Prelude.{ℕ, ◌≡◌, ◌↔◌, Bool, true, List, Option, String, arith, ◌==◌, any}

pub data TaskStatus : Type 0 where
  pending accepted declined lapsed active completed disputed expired : TaskStatus

abbrev number : TaskStatus → ℕ
number pending = 0
number accepted = 1
number declined = 2
number lapsed = 3
number active = 4
number completed = 5
number disputed = 6
number expired = 7

-- `===` on statuses.
unfoldable pub is : TaskStatus → TaskStatus → Bool
is s t = number s == number t

pub is_iff : (s t : TaskStatus) → (is s t ≡ true) ↔ (s ≡ t)
unfolding is
is_iff s t = ground arith

-- `Array.prototype.includes`, and `IN (…)`, on statuses.
unfoldable pub includes : List TaskStatus → TaskStatus → Bool
unfolding is
includes l s = any (λ t. is t s) l

pub record TaskRecord : Type 0 where
  pub id : String
  pub payment_request_id : String
  pub from_agent_wallet : String
  pub to_human_wallet : String
  pub task_description : String
  pub amount_usdc : ℕ
  pub deadline_unix : ℕ
  pub status : TaskStatus
  pub offer_expiry_unix : Option ℕ
  pub offer_reminder_sent : Option Bool
  pub tx_hash : Option String
  pub escrow_contract : Option String
  pub acceptance_spec : Option String
  pub spec_hash : Option String
  pub spec_schema_version : Option ℕ
  pub accepted_description_hash : Option String
  pub funded_at : Option ℕ
  pub idempotency_key : Option String
  pub review_window_seconds : Option ℕ
  pub content_purged_at : Option ℕ
  pub content_purge_rule : Option String
  pub created_at : ℕ
  pub updated_at : ℕ

pub data ChannelType : Type 0 where
  email webhook telegram discord : ChannelType

pub record NotificationChannel : Type 0 where
  pub id : String
  pub contractor_id : String
  pub kind : ChannelType
  pub address : String
  pub accepts_auto_booking : Bool

pub data Availability : Type 0 where
  available busy offline : Availability

pub record HumanRecord : Type 0 where
  pub id : String
  pub wallet : String
  pub categories : List String
  pub rate_usdc : ℕ
  pub availability : Availability
  pub reputation_score : ℕ
