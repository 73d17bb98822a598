-- ===== src/Tasks/Transitions.antt =====
-- The writes that move a task between statuses (src/lib/db/tasks.ts): each is one guarded
-- update, and reads the row again only to say why it moved nothing.
use carbon_contractors_com.Prelude.{
  ℕ, ◌*◌, ◌/◌, Bool, false, ◌&&◌, List, [], ◌∷◌, Option, none, some, String, if◌then◌else◌, leb,
  same, is_empty, length, first,
}
use carbon_contractors_com.Schema.{
  TaskStatus, pending, accepted, declined, lapsed, active, completed, disputed, expired, is,
  includes, TaskRecord,
}
use carbon_contractors_com.World.{
  no_source_state, task_not_found, invalid_transition, Result, ok, err, M, pure, throw, ◌>>=◌, ◌>>◌,
  attempt, date_now, begin, query, update_tasks,
}

-- keccak256 of the bytes of a description; `keccak256` is viem's, of the bytes of a text.
unfoldable pub hash_description : (String → String) → String → String
hash_description keccak256 description = keccak256 description

-- For each status, the statuses from which it may be entered.
unfoldable pub valid_transitions : TaskStatus → List TaskStatus
valid_transitions pending = []
valid_transitions accepted = pending ∷ []
valid_transitions declined = pending ∷ []
valid_transitions lapsed = pending ∷ accepted ∷ []
valid_transitions active = accepted ∷ []
valid_transitions completed = active ∷ disputed ∷ []
valid_transitions disputed = active ∷ pending ∷ []
valid_transitions expired = active ∷ disputed ∷ pending ∷ accepted ∷ []

abbrev pub has_id : String → TaskRecord → Bool
has_id payment_request_id t = same t.payment_request_id payment_request_id

-- `select("status").eq(…).single()`, whose error is ignored.
unfoldable pub read_row : String → M (Option TaskRecord)
read_row payment_request_id = query (λ w. first (has_id payment_request_id) w.tasks)

abbrev pub explain : String → TaskStatus → Result (Option TaskRecord) → M (Unit {0})
explain payment_request_id status (ok (some t)) = throw (invalid_transition t.status status)
explain payment_request_id status (ok none) = throw (task_not_found payment_request_id)
explain payment_request_id status (err e) = throw (task_not_found payment_request_id)

-- What an update that matched no row throws.
unfoldable pub diagnose : String → TaskStatus → M (Unit {0})
diagnose payment_request_id status =
    attempt (read_row payment_request_id) (explain payment_request_id status)

abbrev pub unless_moved : String → TaskStatus → List TaskRecord → M (Unit {0})
unless_moved payment_request_id status [] = diagnose payment_request_id status
unless_moved payment_request_id status (_ ∷ _) = pure tt

unfoldable pub move_row : ℕ → TaskStatus → TaskRecord → TaskRecord
move_row now status t = record t { status = status; updated_at = now }

-- The WHERE clause: the row is named, and its status allows the move.
unfoldable pub is_movable : String → TaskStatus → TaskRecord → Bool
is_movable payment_request_id status t =
    has_id payment_request_id t && includes (valid_transitions status) t.status

unfoldable pub update_task_status : String → TaskStatus → M (Unit {0})
update_task_status payment_request_id status =
    if is_empty (valid_transitions status) then throw (no_source_state status) else do
      now ← date_now
      moved ← update_tasks (is_movable payment_request_id status) (move_row now status)
      unless_moved payment_request_id status moved

unfoldable pub fund_row : ℕ → ℕ → TaskRecord → TaskRecord
fund_row now funded_at t = record t {
  status = active;
  funded_at = some funded_at;
  updated_at = now;
}

unfoldable pub is_fundable : String → TaskRecord → Bool
is_fundable payment_request_id t = has_id payment_request_id t && is t.status accepted

unfoldable pub mark_task_funded : String → ℕ → M (Unit {0})
mark_task_funded payment_request_id funded_at_unix_seconds = do
  now ← date_now
  moved ←
      update_tasks (is_fundable payment_request_id) (fund_row now (funded_at_unix_seconds * 1000))
  unless_moved payment_request_id active moved

pub data Acceptance : Type 0 where
  taken : Acceptance
  not_found : Acceptance
  wrong_state : TaskStatus → Acceptance
  brief_changed : Acceptance

unfoldable pub pin_row : ℕ → String → TaskRecord → TaskRecord
pin_row now pin t = record t {
  status = accepted;
  accepted_description_hash = some pin;
  updated_at = now;
}

-- The lookup behind an acceptance that matched no row.
abbrev pub refusal : Option TaskRecord → Acceptance
refusal none = not_found
refusal (some t) = if is t.status pending then brief_changed else wrong_state t.status

abbrev pub unless_taken : String → List TaskRecord → M Acceptance
unless_taken payment_request_id [] = do
  current ← read_row payment_request_id
  pure (refusal current)
unless_taken payment_request_id (_ ∷ _) = pure taken

unfoldable pub is_acceptable : String → String → TaskRecord → Bool
is_acceptable payment_request_id expected_description t =
    has_id payment_request_id t
    && is t.status pending
    && same t.task_description expected_description

unfoldable pub accept_task : (String → String) → String → String → M Acceptance
accept_task keccak256 payment_request_id expected_description = do
  now ← date_now
  moved ←
      update_tasks (is_acceptable payment_request_id expected_description)
        (pin_row now (hash_description keccak256 expected_description))
  unless_taken payment_request_id moved

unfoldable pub expiry_passed : ℕ → Option ℕ → Bool
expiry_passed now_seconds none = false
expiry_passed now_seconds (some expiry) = leb expiry now_seconds

unfoldable pub is_expired_offer : ℕ → TaskRecord → Bool
unfolding includes expiry_passed
is_expired_offer now_seconds t =
    includes (pending ∷ accepted ∷ []) t.status && expiry_passed now_seconds t.offer_expiry_unix

abbrev pub or_zero : Result (List TaskRecord) → M ℕ
or_zero (ok rows) = pure (length rows)
or_zero (err e) = pure 0

-- Never throws.
unfoldable pub lapse_expired_offers : M ℕ
lapse_expired_offers = do
  now ← date_now
  attempt (update_tasks (is_expired_offer (now / 1000)) (move_row now lapsed)) or_zero

unfoldable pub get_task_by_payment_id : String → M (Option TaskRecord)
get_task_by_payment_id payment_request_id = do lapse_expired_offers; read_row payment_request_id

-- Opens the code of this module.
unfoldable pub transitions_code : Unit {0}
unfolding ◌>>=◌ query update_tasks begin hash_description valid_transitions is_movable is_fundable
    is_acceptable read_row diagnose move_row update_task_status fund_row mark_task_funded pin_row
    accept_task is_expired_offer lapse_expired_offers get_task_by_payment_id same
transitions_code = tt
