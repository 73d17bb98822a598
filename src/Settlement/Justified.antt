-- ===== src/Settlement/Justified.antt =====
-- Why the settlement sync may move a row.
use carbon_contractors_com.Prelude.{
  ℕ, ◌-◌, ◌≡◌, refl, ◌⊎◌, inl, inr, Bool, true, false, List, [], ◌∷◌, ◌++◌, Option, none, some,
  String, arith, not, if◌then◌else◌, All, All-snoc, leb,
}
use mathlib.Core.List.{Memᴰ}
use carbon_contractors_com.Schema.{includes, TaskStatus, active, is_iff, TaskRecord}
use carbon_contractors_com.Schema.TaskStatus.{
  completed as done, disputed as contested, expired as refunded,
}
use carbon_contractors_com.World.{World, Result, ok, err}
use carbon_contractors_com.World.Yields.{
  Returned, Yields, Yields-pure, Yields-if, Yields-bind, Yields-attempt, Yields-date_now,
}
use carbon_contractors_com.Chain.{
  OnChainTaskState, completed, disputed, arbitrating, resolved, expired, OnChainTask, Chain,
}
use carbon_contractors_com.Settlement.{
  is_candidate, is_on_escrow, syncable_statuses, Proposal, move_to, ask_event,
  settlement_target_for, chain_matches_row, SettlementTransition, SettlementSyncSummary, fail,
  leave, mismatch, record_update, holds_target, after_write, write_row, scope_row, scope, Progress,
  act_on, act_on_read, settle_row, settle_rows, act_on_outcome, look_up, resolve_row, resolve_rows,
  empty_summary, sync_batch, write, settlement_sync_outcome_budget_ms,
}
use carbon_contractors_com.Settlement.Counts.{current_status_yields, wait_yields}

module _ (chain : Chain) (escrow : String) (candidates : List TaskRecord) where
  -- A row of the batch, of a status and an escrow that the run is about.
  abbrev pub IsScoped : TaskRecord → Type 0
  IsScoped row = Memᴰ row candidates × (is_candidate escrow row ≡ true)

  -- What on chain stands for a move of a row in `state` to `to`.
  abbrev pub Cause : (id : String) (from to : TaskStatus) (state : OnChainTaskState) → Type 0
  Cause id from to state =
      ((to ≡ done) × (state ≡ completed))
      ⊎ ((to ≡ refunded) × (state ≡ expired))
      ⊎ ((to ≡ contested) × (from ≡ active) × ((state ≡ disputed) ⊎ (state ≡ arbitrating)))
      ⊎ ((to ≡ done) × (state ≡ resolved) × (chain.resolved_outcome id ≡ some (some true)))
      ⊎ ((to ≡ refunded) × (state ≡ resolved) × (chain.resolved_outcome id ≡ some (some false)))

  -- The chain was read for a row of the batch, in this state, with the row's worker and amount.
  pub record IsRead (row : TaskRecord) (state : OnChainTaskState) : Type 0 where
    pub scoped : IsScoped row
    pub on_chain : OnChainTask
    pub was_read : chain.on_chain_task row.payment_request_id ≡ some on_chain
    pub in_state : on_chain.state ≡ state
    pub matches : chain_matches_row on_chain row ≡ true

  pub record IsJustified (t : SettlementTransition) : Type 0 where
    pub row : TaskRecord
    pub same_id : row.payment_request_id ≡ t.payment_request_id
    pub same_status : row.status ≡ t.from
    pub is_read : IsRead row t.on_chain_state
    pub cause : Cause t.payment_request_id t.from t.to t.on_chain_state

  abbrev pub AllJustified : SettlementSyncSummary → Type 0
  AllJustified s = All IsJustified s.updated

  justify :
      (row : TaskRecord) (to : TaskStatus) (state : OnChainTaskState) (s : SettlementSyncSummary)
      → IsRead row state
      → Cause row.payment_request_id row.status to state
      → AllJustified s
      → AllJustified (record_update row to state s)
  unfolding record_update
  justify row to state s r c h =
      All-snoc IsJustified s.updated _ h
        (record { row = row; same_id = refl; same_status = refl; is_read = r; cause = c })

  leave_or_fail :
      (b : Bool) (row : TaskRecord) (s : SettlementSyncSummary)
      → AllJustified s
      → AllJustified (if b then leave s else fail row write s)
  unfolding leave fail
  leave_or_fail true row s h = h
  leave_or_fail false row s h = h

  module _ (row : TaskRecord) (to : TaskStatus) (state : OnChainTaskState)
      (s : SettlementSyncSummary) (r : IsRead row state)
      (c : Cause row.payment_request_id row.status to state) (h : AllJustified s) where
    after_write_justified :
        (res : Result (Unit {0})) → Yields (after_write row to state s res) AllJustified
    after_write_justified (ok u) = Yields-pure _ (justify row to state s r c h)
    after_write_justified (err e) =
        Yields-bind _ _ (current_status_yields row.payment_request_id)
          λ cur _. Yields-pure _ (leave_or_fail (holds_target to cur) row s h)

    write_row_justified : Yields (write_row row to state s) AllJustified
    unfolding write_row
    write_row_justified = Yields-attempt _ _ after_write_justified

  -- A status proposed without an event has its cause in the state alone.
  target-Cause :
      (id : String) (from to : TaskStatus) (state : OnChainTaskState)
      → settlement_target_for from state ≡ some (move_to to)
      → Cause id from to state
  unfolding settlement_target_for
  target-Cause id from to state e = ground (arith, is_iff from active)

  target_asks :
      (from : TaskStatus) (state : OnChainTaskState)
      → settlement_target_for from state ≡ some ask_event
      → state ≡ resolved
  unfolding settlement_target_for
  target_asks from state e = ground arith

  abbrev IsWaiting : TaskRecord × OnChainTaskState → Type 0
  IsWaiting (row, state) = IsRead row state × (state ≡ resolved)

  abbrev IsGood : Progress → Type 0
  IsGood (waiting, s) = All IsWaiting waiting × AllJustified s

  module _ (row : TaskRecord) (was_scoped : IsScoped row) (oc : OnChainTask)
      (e : chain.on_chain_task row.payment_request_id ≡ some oc) where
    reading : chain_matches_row oc row ≡ true → IsRead row oc.state
    reading m = record {
      scoped = was_scoped;
      on_chain = oc;
      was_read = e;
      in_state = refl;
      matches = m;
    }

    act_on_justified :
        (waiting : List (TaskRecord × OnChainTaskState)) (s : SettlementSyncSummary)
        (p : Option Proposal)
        → settlement_target_for row.status oc.state ≡ p
        → IsGood (waiting, s)
        → Yields (act_on row oc (waiting, s) p) IsGood
    act_on_justified waiting s none t (g, h) = Yields-pure _ (g, unfold leave in h)
    act_on_justified waiting s (some ask_event) t (g, h) =
        Yields-pure _ (enqueue (chain_matches_row oc row) refl)
      where
        enqueue :
            (b : Bool)
            → chain_matches_row oc row ≡ b
            → IsGood (if b then (waiting ++ (row, oc.state) ∷ [], s) else (waiting, mismatch row s))
        enqueue true m = (
          All-snoc IsWaiting waiting (row, oc.state) g
              (reading m, target_asks row.status oc.state t),
          h,
        )
        enqueue false m = (g, unfold mismatch in h)
    act_on_justified waiting s (some (move_to to)) t (g, h) =
        Yields-if (chain_matches_row oc row)
          (λ m.
            Yields-bind _ _
              (write_row_justified row to oc.state s (reading m)
                (target-Cause row.payment_request_id row.status to oc.state t) h)
              λ s' h'. Yields-pure _ (g, h'))
          (λ _. Yields-pure _ (g, unfold mismatch in h))

  act_on_read_justified :
      (row : TaskRecord)
      → IsScoped row
      → (acc : Progress) (o : Option OnChainTask) → chain.on_chain_task row.payment_request_id ≡ o
      → IsGood acc
      → Yields (act_on_read row acc o) IsGood
  act_on_read_justified row in_scope (waiting, s) none e (g, h) =
      Yields-pure _ (g, unfold fail in h)
  act_on_read_justified row in_scope (waiting, s) (some oc) e good =
      act_on_justified row in_scope oc e waiting s (settlement_target_for row.status oc.state) refl
        good

  settle_rows_justified :
      (rows : List TaskRecord) (acc : Progress)
      → All IsScoped rows
      → IsGood acc
      → Yields (settle_rows chain rows acc) IsGood
  unfolding settle_rows settle_row
  settle_rows_justified [] acc a g = Yields-pure _ g
  settle_rows_justified (row ∷ rows) acc (a, as_) g =
      Yields-bind _ _ (act_on_read_justified row a acc _ refl g)
        λ acc' g'. settle_rows_justified rows acc' as_ g'

  outcome-Cause :
      (row : TaskRecord) (released : Bool)
      → chain.resolved_outcome row.payment_request_id ≡ some (some released)
      → Cause row.payment_request_id row.status (if released then done else refunded) resolved
  outcome-Cause row true e = inr (inr (inr (inl (refl, refl, e))))
  outcome-Cause row false e = inr (inr (inr (inr (refl, refl, e))))

  act_on_outcome_justified :
      (row : TaskRecord) (state : OnChainTaskState) (s : SettlementSyncSummary)
      (o : Option (Option Bool))
      → chain.resolved_outcome row.payment_request_id ≡ o
      → IsWaiting (row, state)
      → AllJustified s
      → Yields (act_on_outcome chain row state s o) AllJustified
  act_on_outcome_justified row state s none e (r, q) h = Yields-pure _ (unfold fail in h)
  act_on_outcome_justified row state s (some none) e (r, q) h = Yields-pure _ h
  act_on_outcome_justified row state s (some (some released)) e (r, q) h =
      write_row_justified row _ state s r (rw q (outcome-Cause row released e)) h

  resolve_rows_justified :
      (started_at : ℕ) (rs : List (TaskRecord × OnChainTaskState)) (s : SettlementSyncSummary)
      → All IsWaiting rs
      → AllJustified s
      → Yields (resolve_rows chain started_at rs s) AllJustified
  unfolding resolve_rows resolve_row look_up
  resolve_rows_justified started_at [] s g h = Yields-pure _ h
  resolve_rows_justified started_at ((row, state) ∷ rs) s (g, gs) h =
      Yields-bind _ _
        (Yields-bind _ _ Yields-date_now λ now _.
          Yields-if (leb settlement_sync_outcome_budget_ms (now - started_at))
            (λ _. Yields-pure _ h)
            (λ _.
              Yields-bind _ _ (wait_yields (chain.lookup_ms row.payment_request_id))
                λ u _. act_on_outcome_justified row state s _ refl g h))
        (λ s' h'. resolve_rows_justified started_at rs s' gs h')

  -- What the scoping leaves in scope.
  abbrev AllScoped : List TaskRecord × SettlementSyncSummary → Type 0
  AllScoped (rows, s) = All IsScoped rows × AllJustified s

  scope_row-AllScoped :
      (row : TaskRecord) (rows : List TaskRecord) (s : SettlementSyncSummary)
      → Memᴰ row candidates
      → AllScoped (rows, s)
      → AllScoped (scope_row escrow row (rows, s))
  unfolding scope_row leave mismatch
  scope_row-AllScoped row rows s m (h, j) =
      pick (includes syncable_statuses row.status) (is_on_escrow escrow row) refl refl
    where
      pick :
          (b c : Bool)
          → includes syncable_statuses row.status ≡ b
          → is_on_escrow escrow row ≡ c
          → AllScoped (
              if not b
              then (rows, leave s)
              else if c
              then (rows ++ row ∷ [], s)
              else (rows, mismatch row s))
      pick false c e f = (h, j)
      pick true true e f =
          (All-snoc IsScoped rows row h (m, unfold is_candidate in rw (e, f) refl), j)
      pick true false e f = (h, j)

  scope-AllScoped :
      (cs rows : List TaskRecord) (s : SettlementSyncSummary)
      → ((row : TaskRecord) → Memᴰ row cs → Memᴰ row candidates)
      → AllScoped (rows, s)
      → AllScoped (scope escrow cs (rows, s))
  unfolding scope
  scope-AllScoped [] rows s k h = h
  scope-AllScoped (c ∷ cs) rows s k h =
      let (rows', s') = scope_row escrow c (rows, s) in
      scope-AllScoped cs rows' s' (λ row m. k row (Memᴰ.tail m))
        (scope_row-AllScoped c rows s (k c (Memᴰ.head refl)) h)

-- Every move that a run reports is of a row of its batch, active or disputed and on the configured
-- escrow, and has its cause on chain: the chain was read for that row, with the worker and the
-- amount of that row, and said Completed or a dispute resolved for the worker (completed), Expired
-- or a dispute resolved for the agent (expired), or Disputed or Arbitrating of a row that was active
-- (disputed).
pub sync_batch-IsJustified :
    (chain : Chain) (started_at : ℕ) (escrow : String) (candidates : List TaskRecord) (w : World)
    → Returned
        (AllJustified chain escrow candidates)
        (sync_batch chain started_at escrow candidates w).0
unfolding sync_batch
sync_batch-IsJustified chain started_at escrow candidates w =
    let scoped = scope escrow candidates ([], empty_summary chain candidates) in
    let fresh =
      scope-AllScoped chain escrow candidates candidates [] (empty_summary chain candidates)
        (λ row m. m) (tt, tt) in
    (Yields-bind _ _
        (settle_rows_justified chain escrow candidates scoped.0 ([], scoped.1) fresh.0
          (tt, fresh.1))
        λ acc g. resolve_rows_justified chain escrow candidates started_at acc.0 acc.1 g.0 g.1).at
      w
