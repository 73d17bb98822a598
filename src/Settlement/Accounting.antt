-- ===== src/Settlement/Accounting.antt =====
-- What a run of the settlement sync reports.
use carbon_contractors_com.Prelude.{
  ℕ, ◌+◌, ◌≡◌, refl, ◌∙◌, Bool, true, false, List, [], ◌∷◌, ◌++◌, Option, none, some, String, arith,
  if◌then◌else◌, length, length-snoc, leb, ◌-◌, ◌≤◌, count, not, count-snoc, count-not,
}
use carbon_contractors_com.Schema.{TaskRecord}
use carbon_contractors_com.World.{World, Result, ok, err}
use carbon_contractors_com.World.Yields.{
  Returned, Yields, Yields-pure, Yields-if, Yields-bind, Yields-date_now, Yields-map,
}
use carbon_contractors_com.Chain.{OnChainTaskState, OnChainTask, Chain}
use carbon_contractors_com.Settlement.{
  Proposal, move_to, ask_event, settlement_target_for, chain_matches_row, SettlementSyncSummary,
  mismatch, scope_row, scope, Progress, act_on, act_on_read, settle_row, settle_rows,
  act_on_outcome, look_up, resolve_row, resolve_rows, empty_summary, sync_batch, read, outcome,
  settlement_sync_outcome_budget_ms,
}
use carbon_contractors_com.Settlement.Counts.{
  accounted, named, passes, Counts, fail-Counts, mismatch-Counts, leave-Counts, write_row_yields,
  wait_yields,
}

module _ (p : String → Bool) where
  -- The rows that wait for their event are accounted for too.
  abbrev accounted_with : Progress → ℕ
  accounted_with (waiting, s) = length waiting + accounted s

  abbrev named_with : Progress → ℕ
  named_with (waiting, s) = count (λ r. p r.0.payment_request_id) waiting + named p s

  abbrev Advances : TaskRecord → Progress → Progress → Type 0
  Advances row acc acc' =
      (accounted_with acc' ≡ accounted_with acc + 1)
      × (acc'.1.considered ≡ acc.1.considered)
      × (named_with acc' ≤ named_with acc + passes p row)

  counted :
      (row : TaskRecord) (waiting : List (TaskRecord × OnChainTaskState))
      (s s' : SettlementSyncSummary)
      → Counts p row s s'
      → Advances row (waiting, s) (waiting, s')
  counted row waiting s s' (a, c, n) = (omega (arith, a), c, omega (arith, n))

  act_on_yields :
      (row : TaskRecord) (oc : OnChainTask) (acc : Progress) (p : Option Proposal)
      → Yields (act_on row oc acc p) (Advances row acc)
  act_on_yields row oc (waiting, s) none =
      Yields-pure _ (counted row waiting s _ (leave-Counts p row s))
  act_on_yields row oc (waiting, s) (some ask_event) =
      Yields-pure _ (enqueue (chain_matches_row oc row))
    where
      enqueue :
          (b : Bool)
          → Advances row
              (waiting, s)
              (if b then (waiting ++ (row, oc.state) ∷ [], s) else (waiting, mismatch row s))
      enqueue true = (
        omega (arith, length-snoc waiting (row, oc.state)),
        refl,
        omega (arith, count-snoc (λ r. p r.0.payment_request_id) waiting (row, oc.state)),
      )
      enqueue false = counted row waiting s _ (mismatch-Counts p row s)
  act_on_yields row oc (waiting, s) (some (move_to target)) =
      Yields-if (chain_matches_row oc row)
        (λ _.
          Yields-bind _ _ (write_row_yields p row target oc.state s)
            λ s' c. Yields-pure _ (counted row waiting s s' c))
        (λ _. Yields-pure _ (counted row waiting s _ (mismatch-Counts p row s)))

  act_on_read_yields :
      (row : TaskRecord) (acc : Progress) (oc : Option OnChainTask)
      → Yields (act_on_read row acc oc) (Advances row acc)
  act_on_read_yields row (waiting, s) none =
      Yields-pure _ (counted row waiting s _ (fail-Counts p row read s))
  act_on_read_yields row acc (some oc) =
      act_on_yields row oc acc (settlement_target_for row.status oc.state)

  -- The ids of the rows that pass a test.
  abbrev passing : List TaskRecord → ℕ
  passing rows = count (λ t. p t.payment_request_id) rows

  scope_row-accounted :
      (escrow : String) (row : TaskRecord) (rows : List TaskRecord) (s : SettlementSyncSummary)
      → let (rows', s') = scope_row escrow row (rows, s) in
        (length rows' + accounted s' ≡ length rows + accounted s + 1)
        × (s'.considered ≡ s.considered)
        × (passing rows' + named p s' ≤ passing rows + named p s + passes p row)
  unfolding scope_row
  scope_row-accounted escrow row rows s = ground (
    arith,
    leave-Counts p row s,
    mismatch-Counts p row s,
    length-snoc rows row,
    count-snoc (λ t. p t.payment_request_id) rows row,
  )

  passing-cons :
      (c : TaskRecord) (cs : List TaskRecord) → passing (c ∷ cs) ≡ passes p c + passing cs
  passing-cons c cs = ground arith

  scope-accounted :
      (escrow : String) (cs rows : List TaskRecord) (s : SettlementSyncSummary)
      → let (rows', s') = scope escrow cs (rows, s) in
        (length rows' + accounted s' ≡ length rows + accounted s + length cs)
        × (s'.considered ≡ s.considered)
        × (passing rows' + named p s' ≤ passing rows + named p s + passing cs)
  unfolding scope
  scope-accounted escrow [] rows s = (omega arith, refl, omega arith)
  scope-accounted escrow (c ∷ cs) rows s =
      let (rows', s') = scope_row escrow c (rows, s) in
      let here = scope_row-accounted escrow c rows s in
      let rest = scope-accounted escrow cs rows' s' in
      (
        omega (arith, here.0, rest.0),
        rest.1 ∙ here.1,
        omega (arith, here.2, rest.2, passing-cons c cs),
      )

  module _ (chain : Chain) where
    settle_rows_yields :
        (rows : List TaskRecord) (acc : Progress)
        → Yields (settle_rows chain rows acc) (λ acc'.
          (accounted_with acc' ≡ accounted_with acc + length rows)
          × (acc'.1.considered ≡ acc.1.considered)
          × (named_with acc' ≤ named_with acc + passing rows))
    unfolding settle_rows settle_row
    settle_rows_yields [] acc = Yields-pure _ (omega arith, refl, omega arith)
    settle_rows_yields (row ∷ rows) acc =
        Yields-bind _ _ (act_on_read_yields row acc (chain.on_chain_task row.payment_request_id))
          λ acc' here.
            Yields-map
              (λ x h. (
                omega (arith, here.0, h.0),
                h.1 ∙ here.1,
                omega (arith, here.2, h.2, passing-cons row rows),
              ))
              (settle_rows_yields rows acc')

    act_on_outcome_yields :
        (row : TaskRecord) (state : OnChainTaskState) (s : SettlementSyncSummary)
        (o : Option (Option Bool))
        → Yields (act_on_outcome chain row state s o) (Counts p row s)
    act_on_outcome_yields row state s none = Yields-pure _ (fail-Counts p row outcome s)
    act_on_outcome_yields row state s (some none) = Yields-pure _ (
      omega (arith, length-snoc s.outcome_missing row.payment_request_id),
      refl,
      omega (arith, count-snoc p s.outcome_missing row.payment_request_id),
    )
    act_on_outcome_yields row state s (some (some released)) = write_row_yields p row _ state s

    resolve_row_yields :
        (started_at : ℕ) (r : TaskRecord × OnChainTaskState) (s : SettlementSyncSummary)
        → Yields (resolve_row chain started_at r s) (Counts p r.0 s)
    unfolding resolve_row look_up
    resolve_row_yields started_at (row, state) s = Yields-bind _ _ Yields-date_now λ now _.
        Yields-if (leb settlement_sync_outcome_budget_ms (now - started_at))
          (λ _. Yields-pure _ (
            omega (arith, length-snoc s.deferred row.payment_request_id),
            refl,
            omega (arith, count-snoc p s.deferred row.payment_request_id),
          ))
          (λ _. Yields-bind _ _ (wait_yields (chain.lookup_ms row.payment_request_id)) λ u _.
            act_on_outcome_yields row state s (chain.resolved_outcome row.payment_request_id))

    abbrev waiting_passing : List (TaskRecord × OnChainTaskState) → ℕ
    waiting_passing rs = count (λ r. p r.0.payment_request_id) rs

    waiting-cons :
        (r : TaskRecord × OnChainTaskState) (rs : List (TaskRecord × OnChainTaskState))
        → waiting_passing (r ∷ rs) ≡ passes p r.0 + waiting_passing rs
    waiting-cons r rs = ground arith

    resolve_rows_yields :
        (started_at : ℕ) (rs : List (TaskRecord × OnChainTaskState)) (s : SettlementSyncSummary)
        → Yields (resolve_rows chain started_at rs s) (λ s'.
          (accounted s' ≡ accounted s + length rs)
          × (s'.considered ≡ s.considered)
          × (named p s' ≤ named p s + waiting_passing rs))
    unfolding resolve_rows
    resolve_rows_yields started_at [] s = Yields-pure _ (omega arith, refl, omega arith)
    resolve_rows_yields started_at (r ∷ rs) s =
        Yields-bind _ _ (resolve_row_yields started_at r s) λ s' here.
          Yields-map
            (λ x h. (
              omega (arith, here.0, h.0),
              h.1 ∙ here.1,
              omega (arith, here.2, h.2, waiting-cons r rs),
            ))
            (resolve_rows_yields started_at rs s')

    at_most :
        (started_at : ℕ) (escrow : String) (candidates : List TaskRecord)
        → Yields (sync_batch chain started_at escrow candidates) (λ s.
          (accounted s ≡ length candidates)
          × (s.considered ≡ length candidates)
          × (named p s ≤ passing candidates))
    unfolding sync_batch
    at_most started_at escrow candidates =
        let scoped = scope escrow candidates ([], empty_summary chain candidates) in
        let fresh = scope-accounted escrow candidates [] (empty_summary chain candidates) in
        Yields-bind _ _ (settle_rows_yields scoped.0 ([], scoped.1)) λ acc h.
          Yields-map
            (λ s k. (
              omega (arith, k.0, h.0, fresh.0),
              k.1 ∙ h.1 ∙ fresh.1,
              omega (arith, k.2, h.2, fresh.2),
            ))
            (resolve_rows_yields started_at acc.0 acc.1)

-- The ids that pass a test and those that do not.
named-not :
    (p : String → Bool) (s : SettlementSyncSummary)
    → named p s + named (λ x. not (p x)) s + s.unchanged ≡ accounted s
named-not p s = omega (
  arith,
  count-not (λ t. p t.payment_request_id) s.updated,
  count-not p s.mismatched,
  count-not p s.outcome_missing,
  count-not p s.deferred,
  count-not (λ f. p f.0) s.failed,
)

-- A summary accounts for a batch: whichever ids are asked for, the lists name as many of them as
-- the batch has, less at most the rows counted as unchanged, and every row is in one list or
-- counted.
pub record IsAccount (candidates : List TaskRecord) (p : String → Bool) (s : SettlementSyncSummary)
    : Type 0 where
  pub total : accounted s ≡ length candidates
  pub considered : s.considered ≡ length candidates
  pub at_most : named p s ≤ count (λ t. p t.payment_request_id) candidates
  pub at_least : count (λ t. p t.payment_request_id) candidates ≤ named p s + s.unchanged

both :
    (candidates : List TaskRecord) (p : String → Bool) (r : Result SettlementSyncSummary)
    → Returned
        (λ s.
          (accounted s ≡ length candidates)
          × (s.considered ≡ length candidates)
          × (named p s ≤ count (λ t. p t.payment_request_id) candidates))
        r
    → Returned
        (λ s.
          (accounted s ≡ length candidates)
          × (s.considered ≡ length candidates)
          × (named (λ x. not (p x)) s ≤ count (λ t. not (p t.payment_request_id)) candidates))
        r
    → Returned (IsAccount candidates p) r
both candidates p (ok s) (a, c, n) (_, _, n') = record {
  total = a;
  considered = c;
  at_most = n;
  at_least =
      omega (arith, a, n', named-not p s, count-not (λ t. p t.payment_request_id) candidates);
}
both candidates p (err e) h k = elim h [ ]

-- A run whose batch has been read never throws, whatever the chain answers, the database does
-- and other requests write; and its summary accounts for each candidate exactly once: the lists of
-- the updated, mismatched, missing, deferred and failed rows together name each id, or any choice of
-- ids, at most as often as the candidates have it, and short of that by no more than the number
-- counted as unchanged; and the lengths of the lists and that number add up to the candidates.
pub sync_batch-accounted :
    (chain : Chain) (started_at : ℕ) (escrow : String) (candidates : List TaskRecord)
    (p : String → Bool) (w : World)
    → Returned (IsAccount candidates p) (sync_batch chain started_at escrow candidates w).0
sync_batch-accounted chain started_at escrow candidates p w =
    both candidates p _ ((at_most p chain started_at escrow candidates).at w)
      ((at_most (λ x. not (p x)) chain started_at escrow candidates).at w)
