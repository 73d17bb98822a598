-- ===== src/Tasks/Queries.antt =====
-- The reads of the tasks table (src/lib/db/tasks.ts), and the reminder marker.
use carbon_contractors_com.Prelude.{
  ℕ, ◌+◌, Bool, true, false, not, ◌&&◌, List, [], ◌∷◌, Option, none, some, String, if◌then◌else◌,
  leb, ltb, same, lower, select, count, is_empty,
}
use carbon_contractors_com.Schema.{pending, accepted, active, is, includes, TaskRecord}
use carbon_contractors_com.World.{M, pure, ◌>>=◌, date_now, query, update_tasks}
use carbon_contractors_com.Tasks.Transitions.{has_id}

-- `order("created_at", { ascending: false })`, rows of one time in the order of the table.
unfoldable pub place : TaskRecord → List TaskRecord → List TaskRecord
place t [] = t ∷ []
place t (u ∷ us) =
    let later = u ∷ place t us in if ltb t.created_at u.created_at then later else t ∷ u ∷ us

unfoldable pub newest_first : List TaskRecord → List TaskRecord
unfolding place
newest_first [] = []
newest_first (t ∷ ts) = place t (newest_first ts)

abbrev pub worker_concurrency_cap : ℕ
worker_concurrency_cap = 3

-- The rows that hold a worker: accepted or active, and theirs.
unfoldable pub is_committed : String → TaskRecord → Bool
unfolding includes
is_committed wallet t =
    same t.to_human_wallet (lower wallet) && includes (accepted ∷ active ∷ []) t.status

unfoldable pub count_committed_tasks : String → M ℕ
count_committed_tasks wallet = query (λ w. count (is_committed wallet) w.tasks)

unfoldable pub get_tasks_by_wallet : String → M (List TaskRecord)
get_tasks_by_wallet wallet =
    query (λ w. newest_first (select (λ t. same t.to_human_wallet (lower wallet)) w.tasks))

abbrev pub offer_reminder_lead_seconds : ℕ
offer_reminder_lead_seconds = 7200

-- `neq("offer_reminder_sent", true)`: in SQL neither an equal value nor NULL passes.
unfoldable pub is_not_sent : Option Bool → Bool
is_not_sent none = false
is_not_sent (some sent) = not sent

abbrev within : ℕ → ℕ → Option ℕ → Bool
within low high none = false
within low high (some n) = ltb low n && leb n high

unfoldable pub needs_reminder : ℕ → TaskRecord → Bool
unfolding is_not_sent
needs_reminder now_unix_seconds t =
    is t.status pending
    && within now_unix_seconds (now_unix_seconds + offer_reminder_lead_seconds) t.offer_expiry_unix
    && is_not_sent t.offer_reminder_sent

unfoldable pub get_offers_needing_reminder : ℕ → M (List TaskRecord)
get_offers_needing_reminder now_unix_seconds =
    query (λ w. select (needs_reminder now_unix_seconds) w.tasks)

unfoldable pub remind_row : ℕ → TaskRecord → TaskRecord
remind_row now t = record t { offer_reminder_sent = some true; updated_at = now }

-- The claim's WHERE clause.
unfoldable pub is_remindable : String → TaskRecord → Bool
unfolding is_not_sent
is_remindable payment_request_id t =
    has_id payment_request_id t && is t.status pending && is_not_sent t.offer_reminder_sent

unfoldable pub mark_offer_reminder_sent : String → M Bool
mark_offer_reminder_sent payment_request_id = do
  now ← date_now
  marked ← update_tasks (is_remindable payment_request_id) (remind_row now)
  pure (not (is_empty marked))
