-- ===== src/Retention.antt =====
-- The erasure of task content, src/lib/db/retention.ts, and the stored procedure that it calls,
-- prune_task_content of supabase/migrations/020_task_content_retention.sql. The store has the tasks,
-- the history of their descriptions and the log of deletions.
pub mod Rows
pub mod Kept
pub mod Invariant
pub mod Progress
pub mod Tests
use carbon_contractors_com.Prelude.{
  ℕ, suc, ◌+◌, ◌-◌, ◌*◌, ◌/◌, Bool, true, false, not, ◌&&◌, ◌||◌, Option, none, some, List, [], ◌∷◌,
  ◌++◌, map, String, same, if◌then◌else◌, leb, ltb, length, take, select, first, any, update,
}
use carbon_contractors_com.Schema.{TaskStatus, completed, expired, includes, TaskRecord}
use carbon_contractors_com.World.{Error, Result, ok, err, unique_violation}
use carbon_contractors_com.Store.{
  Machine, M, pure, throw, date_now, call, query, attempt, ◌>>=◌, ◌>>◌, write_store,
}

pub record Deletion : Type 0 where
  pub task_id : String
  pub payment_request_id : String
  pub retention_rule_version : String
  pub deleted_at : ℕ

pub record Content : Type 0 where
  pub tasks : List TaskRecord
  -- task_description_history: the task's id and a text.
  pub history : List (String × String)
  pub log : List Deletion

abbrev pub retention_rule_version : String
retention_rule_version = "cc087.2026-08-22.1"

abbrev pub terminal_statuses : List TaskStatus
terminal_statuses = completed ∷ expired ∷ []

abbrev pub dispute_window_seconds : ℕ
dispute_window_seconds = 14 * 24 * 60 * 60

abbrev pub prune_batch_limit : ℕ
prune_batch_limit = 200

abbrev pub is_unset : Option ℕ → Bool
is_unset none = true
is_unset (some _) = false

-- isPruneEligible. Every stored time parses. A row of the future is of a negative age.
unfoldable pub is_prune_eligible : ℕ → TaskRecord → Bool
unfolding includes
is_prune_eligible now_unix task =
    includes terminal_statuses task.status
    && is_unset task.content_purged_at
    && leb (task.updated_at / 1000 + dispute_window_seconds) now_unix

-- ── prune_task_content ──
unfoldable pub has_row_id : String → TaskRecord → Bool
has_row_id id t = same t.id id

unfoldable pub is_logged : String → List Deletion → Bool
is_logged id log = any (λ d. same d.task_id id) log

pub data PruneRefusal : Type 0 where
  not_found already_purged not_terminal window_open : PruneRefusal

pub data PruneVerdict : Type 0 where
  pruned_at : ℕ → PruneVerdict
  not_pruned : PruneRefusal → PruneVerdict

unfoldable pub verdict_for : ℕ → ℕ → Option TaskRecord → PruneVerdict
unfolding includes
verdict_for now window none = not_pruned not_found
verdict_for now window (some t) =
    if not (is_unset t.content_purged_at)
    then not_pruned already_purged
    else if not (includes terminal_statuses t.status)
    then not_pruned not_terminal
    else if ltb now (t.updated_at + window * 1000)
    then not_pruned window_open
    else pruned_at now

unfoldable pub purge_row : String → ℕ → TaskRecord → TaskRecord
purge_row rule at t = record t {
  task_description = "";
  acceptance_spec = none;
  spec_schema_version = none;
  content_purged_at = some at;
  content_purge_rule = some rule;
}

abbrev pub payment_id : Option TaskRecord → String
payment_id none = ""
payment_id (some t) = t.payment_request_id

-- What the procedure writes on a verdict, in one transaction.
unfoldable pub purge : String → String → PruneVerdict → Content → Content
unfolding purge_row has_row_id
purge id rule (not_pruned why) c = c
purge id rule (pruned_at at) c = record {
  tasks = update (has_row_id id) (purge_row rule at) c.tasks;
  history = select (λ h. not (same h.0 id)) c.history;
  log =
      record {
        task_id = id;
        payment_request_id = payment_id (first (has_row_id id) c.tasks);
        retention_rule_version = rule;
        deleted_at = at;
      }
      ∷ c.log;
}

unfoldable pub verdict_at : String → ℕ → Machine Content → PruneVerdict
unfolding verdict_for has_row_id
verdict_at id window m = verdict_for m.now window (first (has_row_id id) m.store.tasks)

abbrev pub is_pruned : PruneVerdict → Bool
is_pruned (pruned_at _) = true
is_pruned (not_pruned _) = false

-- The log's unique index refuses a second deletion of a task, and with it the transaction.
unfoldable pub is_second : String → ℕ → Machine Content → Bool
unfolding verdict_at is_logged
is_second id window m = is_pruned (verdict_at id window m) && is_logged id m.store.log

unfoldable pub prune_task_content : String → String → ℕ → M Content PruneVerdict
unfolding call is_second verdict_at purge
prune_task_content id rule window =
    call (λ m. if is_second id window m then err unique_violation else ok (verdict_at id window m))
      (λ m.
        if is_second id window m then m else write_store (purge id rule (verdict_at id window m)) m)

-- ── pruneExpiredTaskContent ──
pub data SkipReason : Type 0 where
  ineligible_at_engine : SkipReason
  by_procedure : PruneRefusal → SkipReason

pub record RetentionRunSummary : Type 0 where
  pub rule_version : String
  pub cutoff : ℕ
  pub considered : ℕ
  pub pruned : List (String × ℕ)
  pub skipped : List (String × SkipReason)
  pub failed : List String

unfoldable pub skip : SkipReason → TaskRecord → RetentionRunSummary → RetentionRunSummary
skip why t s = record s { skipped = s.skipped ++ (t.payment_request_id, why) ∷ [] }

unfoldable pub record_attempt :
    TaskRecord → Result PruneVerdict → RetentionRunSummary → RetentionRunSummary
unfolding skip
record_attempt t (err e) s = record s { failed = s.failed ++ t.payment_request_id ∷ [] }
record_attempt t (ok (not_pruned why)) s = skip (by_procedure why) t s
record_attempt t (ok (pruned_at at)) s = record s {
  pruned = s.pruned ++ (t.payment_request_id, at) ∷ [];
}

unfoldable pub prune_one : ℕ → TaskRecord → RetentionRunSummary → M Content RetentionRunSummary
unfolding ◌>>=◌ is_prune_eligible prune_task_content record_attempt skip
prune_one now_unix t s =
    if not (is_prune_eligible now_unix t)
    then pure (skip ineligible_at_engine t s)
    else attempt (prune_task_content t.id retention_rule_version dispute_window_seconds)
        (λ r. pure (record_attempt t r s))

unfoldable pub prune_each :
    ℕ → List TaskRecord → RetentionRunSummary → M Content RetentionRunSummary
unfolding ◌>>=◌ prune_one
prune_each now_unix [] s = pure s
prune_each now_unix (t ∷ ts) s = prune_one now_unix t s >>= prune_each now_unix ts

-- The candidates: `in`, `is null`, `lt` on the cutoff, and the limit.
unfoldable pub is_due : ℕ → TaskRecord → Bool
unfolding includes
is_due now_unix t =
    includes terminal_statuses t.status
    && is_unset t.content_purged_at
    && ltb (t.updated_at + dispute_window_seconds * 1000) (now_unix * 1000)

unfoldable pub candidates : ℕ → Machine Content → List TaskRecord
unfolding is_due
candidates now_unix m = take prune_batch_limit (select (is_due now_unix) m.store.tasks)

unfoldable pub empty_run : ℕ → List TaskRecord → RetentionRunSummary
empty_run now_unix found = record {
  rule_version = retention_rule_version;
  cutoff = (now_unix - dispute_window_seconds) * 1000;
  considered = length found;
  pruned = [];
  skipped = [];
  failed = [];
}

unfoldable pub prune_expired_task_content : ℕ → M Content RetentionRunSummary
unfolding ◌>>=◌ query candidates prune_each empty_run
prune_expired_task_content now_unix = do
  found ← query (candidates now_unix)
  prune_each now_unix found (empty_run now_unix found)
