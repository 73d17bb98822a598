-- ===== src/Settlement/Counts.antt =====
-- What one step of a settlement run adds to its report.
use carbon_contractors_com.Prelude.{
  ℕ, ◌+◌, ◌≡◌, refl, Bool, true, false, Option, none, some, String, arith, if◌then◌else◌, length,
  length-snoc, ◌≤◌, count, hit, count-snoc,
}
use carbon_contractors_com.Schema.{TaskStatus, TaskRecord}
use carbon_contractors_com.World.{Result, ok, err}
use carbon_contractors_com.World.Yields.{Yields, Yields-pure, Yields-bind, Yields-attempt}
use carbon_contractors_com.Chain.{OnChainTaskState, wait}
use carbon_contractors_com.Settlement.{
  SettlementSyncSummary, Stage, fail, leave, mismatch, record_update, status_or_none,
  current_status, holds_target, after_write, write_row, write,
}

-- How many rows a summary accounts for.
abbrev pub accounted : SettlementSyncSummary → ℕ
accounted s =
    length s.updated
    + s.unchanged
    + length s.mismatched
    + length s.outcome_missing
    + length s.deferred
    + length s.failed

pub wait_yields : (ms : ℕ) → Yields (wait ms) (λ _. Unit)
unfolding wait
wait_yields ms = record { at = λ w. tt }

pub current_status_yields : (id : String) → Yields (current_status id) (λ _. Unit)
unfolding current_status
current_status_yields id = Yields-attempt _ _ status_yields
  where
    status_yields : (r : Result (Option TaskRecord)) → Yields (status_or_none r) (λ _. Unit)
    status_yields (ok (some t)) = Yields-pure _ tt
    status_yields (ok none) = Yields-pure _ tt
    status_yields (err e) = Yields-pure _ tt

-- How many of the ids that a summary names pass a test.
abbrev pub named : (String → Bool) → SettlementSyncSummary → ℕ
named p s =
    count (λ t. p t.payment_request_id) s.updated
    + count p s.mismatched
    + count p s.outcome_missing
    + count p s.deferred
    + count (λ f. p f.0) s.failed

module _ (p : String → Bool) where
  abbrev pub passes : TaskRecord → ℕ
  passes row = hit (p row.payment_request_id)

  -- One more row is accounted for, and if an id is named then it is that row's.
  abbrev pub Counts : TaskRecord → SettlementSyncSummary → SettlementSyncSummary → Type 0
  Counts row s s' =
      (accounted s' ≡ accounted s + 1)
      × (s'.considered ≡ s.considered)
      × (named p s' ≤ named p s + passes row)

  pub fail-Counts :
      (row : TaskRecord) (stage : Stage) (s : SettlementSyncSummary)
      → Counts row s (fail row stage s)
  unfolding fail
  fail-Counts row stage s =
      let entry : String × Stage = (row.payment_request_id, stage) in
      (
        omega (arith, length-snoc s.failed entry),
        refl,
        omega (arith, count-snoc (λ f. p f.0) s.failed entry),
      )

  pub mismatch-Counts :
      (row : TaskRecord) (s : SettlementSyncSummary) → Counts row s (mismatch row s)
  unfolding mismatch
  mismatch-Counts row s = (
    omega (arith, length-snoc s.mismatched row.payment_request_id),
    refl,
    omega (arith, count-snoc p s.mismatched row.payment_request_id),
  )

  pub leave-Counts : (row : TaskRecord) (s : SettlementSyncSummary) → Counts row s (leave s)
  unfolding leave
  leave-Counts row s = (omega arith, refl, omega arith)

  record_update-Counts :
      (row : TaskRecord) (target : TaskStatus) (state : OnChainTaskState)
      (s : SettlementSyncSummary)
      → Counts row s (record_update row target state s)
  unfolding record_update
  record_update-Counts row target state s = (
    omega (arith, length-snoc s.updated _),
    refl,
    omega (arith, count-snoc (λ t. p t.payment_request_id) s.updated _),
  )

  leave_or_fail :
      (b : Bool) (row : TaskRecord) (s : SettlementSyncSummary)
      → Counts row s (if b then leave s else fail row write s)
  leave_or_fail true row s = leave-Counts row s
  leave_or_fail false row s = fail-Counts row write s

  after_write_yields :
      (row : TaskRecord) (target : TaskStatus) (state : OnChainTaskState)
      (s : SettlementSyncSummary) (r : Result (Unit {0}))
      → Yields (after_write row target state s r) (Counts row s)
  after_write_yields row target state s (ok u) =
      Yields-pure _ (record_update-Counts row target state s)
  after_write_yields row target state s (err e) =
      Yields-bind _ _ (current_status_yields row.payment_request_id)
        λ c _. Yields-pure _ (leave_or_fail (holds_target target c) row s)

  pub write_row_yields :
      (row : TaskRecord) (target : TaskStatus) (state : OnChainTaskState)
      (s : SettlementSyncSummary)
      → Yields (write_row row target state s) (Counts row s)
  unfolding write_row
  write_row_yields row target state s = Yields-attempt _ _ (after_write_yields row target state s)
