-- ===== src/Tasks/Creation.antt =====
-- `createTask` and the idempotency lookup (src/lib/db/tasks.ts). The unique indexes and the
-- NUMERIC(10,2) column that an insert meets are those of supabase/migrations (001, 021).
use carbon_contractors_com.Prelude.{
  ℕ, ◌+◌, ◌-◌, ◌*◌, ◌/◌, Bool, false, ◌&&◌, ◌||◌, [], ◌∷◌, ◌++◌, Option, none, some, String,
  if◌then◌else◌, leb, same, lower, any, first,
}
use carbon_contractors_com.Schema.{TaskStatus, pending, accepted, is, TaskRecord}
use carbon_contractors_com.World.{
  World, Reply, answered, refused, lost, database, unique_violation, numeric_overflow, Result, ok,
  err, M, ◌>>=◌, begin, draw, date_now, query,
}
use carbon_contractors_com.Tasks.Transitions.{hash_description}
use carbon_contractors_com.Tasks.Queries.{newest_first}

pub record CreateTaskInput : Type 0 where
  pub payment_request_id : String
  pub from_agent_wallet : String
  pub to_human_wallet : String
  pub task_description : String
  pub amount_usdc : ℕ
  pub deadline_unix : ℕ
  pub tx_hash : String
  pub escrow_contract : String
  pub acceptance_spec : Option String
  pub spec_hash : Option String
  pub spec_schema_version : Option ℕ
  pub status : Option TaskStatus
  pub offer_expiry_unix : Option ℕ
  pub idempotency_key : Option String
  pub review_window_seconds : Option ℕ

-- NUMERIC(10,2): rounded to whole cents, halves up.
unfoldable pub stored_amount : ℕ → ℕ
stored_amount micro = (micro + 5000) / 10000 * 10000

-- 10^8 USDC, in micro-USDC: the column holds amounts below it.
abbrev pub amount_limit : ℕ
amount_limit = 100000000000000

-- `input.status ?? "pending"`.
abbrev pub or_pending : Option TaskStatus → TaskStatus
or_pending none = pending
or_pending (some s) = s

-- The hash of the prose on a row that is born accepted, and nothing on any other.
unfoldable pub pin_of : (String → String) → CreateTaskInput → Option String
unfolding hash_description
pin_of keccak256 input =
    if is (or_pending input.status) accepted
    then some (hash_description keccak256 input.task_description)
    else none

-- The row that `createTask` inserts, at the time that the database gives it.
unfoldable pub new_row : (String → String) → CreateTaskInput → String → ℕ → TaskRecord
unfolding pin_of stored_amount
new_row keccak256 input id created_at = record {
  id = id;
  payment_request_id = input.payment_request_id;
  from_agent_wallet = lower input.from_agent_wallet;
  to_human_wallet = lower input.to_human_wallet;
  task_description = input.task_description;
  amount_usdc = stored_amount input.amount_usdc;
  deadline_unix = input.deadline_unix;
  status = or_pending input.status;
  offer_expiry_unix = input.offer_expiry_unix;
  offer_reminder_sent = none;
  tx_hash = some input.tx_hash;
  escrow_contract = some input.escrow_contract;
  acceptance_spec = input.acceptance_spec;
  spec_hash = input.spec_hash;
  spec_schema_version = input.spec_schema_version;
  accepted_description_hash = pin_of keccak256 input;
  funded_at = none;
  idempotency_key = input.idempotency_key;
  review_window_seconds = input.review_window_seconds;
  content_purged_at = none;
  content_purge_rule = none;
  created_at = created_at;
  updated_at = created_at;
}

unfoldable pub same_key : Option String → Option String → Bool
same_key (some j) (some k) = same j k
same_key _ none = false
same_key none (some _) = false

-- The two unique indexes of the table.
unfoldable pub collides : TaskRecord → TaskRecord → Bool
unfolding same_key
collides row t =
    same t.payment_request_id row.payment_request_id
    || (same t.from_agent_wallet row.from_agent_wallet
        && same_key t.idempotency_key row.idempotency_key)

abbrev pub append_row : TaskRecord → World → World
append_row row w = record w { tasks = w.tasks ++ row ∷ [] }

-- The insert itself; with its answer lost, the caller cannot tell whether the row went in.
unfoldable pub insert_on : (ℕ → TaskRecord) → Reply × World → Result TaskRecord × World
unfolding collides
insert_on row (refused, w) = (err database, w)
insert_on row (answered, w) =
    if leb amount_limit (row w.now).amount_usdc
    then (err numeric_overflow, w)
    else if any (collides (row w.now)) w.tasks
    then (err unique_violation, w)
    else (ok (row w.now), append_row (row w.now) w)
insert_on row (lost, w) =
    if leb amount_limit (row w.now).amount_usdc || any (collides (row w.now)) w.tasks
    then (err database, w)
    else (err database, append_row (row w.now) w)

unfoldable pub insert_task : (ℕ → TaskRecord) → M TaskRecord
insert_task row w = insert_on row (begin w)

unfoldable pub create_task : (String → String) → CreateTaskInput → M TaskRecord
create_task keccak256 input = do id ← draw; insert_task (new_row keccak256 input id)

-- 24 hours.
abbrev pub idempotency_key_ttl_seconds : ℕ
idempotency_key_ttl_seconds = 86400

-- The WHERE clause of the lookup, and its part without the time.
unfoldable pub holds_key : String → String → TaskRecord → Bool
holds_key from_agent_wallet idempotency_key t =
    same t.from_agent_wallet (lower from_agent_wallet)
    && same_key t.idempotency_key (some idempotency_key)

unfoldable pub is_replayable : String → String → ℕ → TaskRecord → Bool
is_replayable from_agent_wallet idempotency_key now t =
    holds_key from_agent_wallet idempotency_key t
    && leb (now - idempotency_key_ttl_seconds * 1000) t.created_at

unfoldable pub find_task_by_idempotency_key : String → String → M (Option TaskRecord)
find_task_by_idempotency_key from_agent_wallet idempotency_key = do
  now ← date_now
  query (λ w. first (is_replayable from_agent_wallet idempotency_key now) (newest_first w.tasks))
