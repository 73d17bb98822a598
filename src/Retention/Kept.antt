-- ===== src/Retention/Kept.antt =====
-- What holds of the tasks, the history and the log, and what stays of a row, whoever writes.
use carbon_contractors_com.Prelude.{
  ℕ, ◌+◌, ◌*◌, ◌≤◌, ◌≡◌, refl, ap, ◌∙◌, true, false, Option, none, some, List, [], ◌∷◌, String,
  same, All, Along, Along-refl, Along-trans,
}
use carbon_contractors_com.Schema.{TaskRecord, includes}
use carbon_contractors_com.Store.Keeps.{Law}
use carbon_contractors_com.Retention.{
  Deletion, Content, terminal_statuses, dispute_window_seconds, is_unset, is_logged,
}
use carbon_contractors_com.Retention.Rows.{Distinct}

-- The row's content is gone, rightly, and the log has a deletion of it.
pub record IsErased (c : Content) (t : TaskRecord) (at : ℕ) : Type 0 where
  pub terminal : includes terminal_statuses t.status ≡ true
  pub waited : t.updated_at + dispute_window_seconds * 1000 ≤ at
  pub no_description : t.task_description ≡ ""
  pub no_spec : t.acceptance_spec ≡ none
  pub no_version : t.spec_schema_version ≡ none
  pub no_history : All (λ h. same h.0 t.id ≡ false) c.history
  pub logged : is_logged t.id c.log ≡ true

abbrev pub IfPurged : Content → TaskRecord → Option ℕ → Type 0
IfPurged c t none = Unit
IfPurged c t (some at) = IsErased c t at

-- No two deletions in the log are of one task.
abbrev pub LoggedOnce : List Deletion → Type 0
LoggedOnce [] = Unit
LoggedOnce (d ∷ log) = (is_logged d.task_id log ≡ false) × LoggedOnce log

-- A task that has its content has no deletion.
abbrev pub IsFresh : List Deletion → TaskRecord → Type 0
IsFresh log t = is_unset t.content_purged_at ≡ true → is_logged t.id log ≡ false

pub record IsKept (c : Content) : Type 0 where
  pub distinct : Distinct c.tasks
  pub erased : All (λ t. IfPurged c t t.content_purged_at) c.tasks
  pub once : LoggedOnce c.log
  pub fresh : All (IsFresh c.log) c.tasks

-- What a row never loses: what it commits to, and that it was purged.
pub record RowStays (t u : TaskRecord) : Type 0 where
  pub id : u.id ≡ t.id
  pub payment_request_id : u.payment_request_id ≡ t.payment_request_id
  pub from_agent_wallet : u.from_agent_wallet ≡ t.from_agent_wallet
  pub to_human_wallet : u.to_human_wallet ≡ t.to_human_wallet
  pub amount_usdc : u.amount_usdc ≡ t.amount_usdc
  pub spec_hash : u.spec_hash ≡ t.spec_hash
  pub purged : is_unset t.content_purged_at ≡ false → u.content_purged_at ≡ t.content_purged_at

pub record Stays (c d : Content) : Type 0 where
  pub tasks : Along RowStays c.tasks d.tasks
  pub log : (id : String) → is_logged id c.log ≡ true → is_logged id d.log ≡ true

pub RowStays-refl : (t : TaskRecord) → RowStays t t
RowStays-refl t = record {
  id = refl;
  payment_request_id = refl;
  from_agent_wallet = refl;
  to_human_wallet = refl;
  amount_usdc = refl;
  spec_hash = refl;
  purged = λ _. refl;
}

RowStays-trans : (t u v : TaskRecord) → RowStays t u → RowStays u v → RowStays t v
RowStays-trans t u v p q = record {
  id = q.id ∙ p.id;
  payment_request_id = q.payment_request_id ∙ p.payment_request_id;
  from_agent_wallet = q.from_agent_wallet ∙ p.from_agent_wallet;
  to_human_wallet = q.to_human_wallet ∙ p.to_human_wallet;
  amount_usdc = q.amount_usdc ∙ p.amount_usdc;
  spec_hash = q.spec_hash ∙ p.spec_hash;
  purged = λ h. let e = p.purged h in q.purged (ap is_unset e ∙ h) ∙ e;
}

pub Stays-refl : (c : Content) → Stays c c
Stays-refl c = record { tasks = Along-refl RowStays RowStays-refl c.tasks; log = λ id h. h }

Stays-trans : (c d e : Content) → Stays c d → Stays d e → Stays c e
Stays-trans c d e p q = record {
  tasks = Along-trans RowStays RowStays-trans c.tasks d.tasks e.tasks p.tasks q.tasks;
  log = λ id h. q.log id (p.log id h);
}

unfoldable pub retention_law : Law Content
unfolding Stays-refl Stays-trans RowStays-refl RowStays-trans
retention_law = record {
  Holds = IsKept;
  Evolves = Stays;
  evolves_refl = Stays-refl;
  evolves_trans = Stays-trans;
}
