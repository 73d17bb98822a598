-- ===== src/Retention/Invariant.antt =====
-- A run keeps the law of src/lib/db/retention.ts's tables, whatever comes between its calls.
use carbon_contractors_com.Prelude.{
  ℕ, ◌+◌, ◌*◌, ◌≤◌, ◌≡◌, refl, sym, ap, subst, Bool, true, false, not, Option, none, some, List, [],
  ◌∷◌, String, same, same_iff, if◌then◌else◌, All, first, select, arith,
}
use carbon_contractors_com.Schema.{TaskRecord, includes}
use carbon_contractors_com.Store.{Machine, write_store}
use carbon_contractors_com.Store.Keeps.{
  IsLawful, Leads, Keeps, Keeps-call, Keeps-query, Keeps-attempt, Keeps-bind, Keeps-pure, Keeps-if,
}
use carbon_contractors_com.Retention.{
  Content, terminal_statuses, dispute_window_seconds, retention_rule_version, is_unset, has_row_id,
  is_logged, PruneVerdict, pruned_at, not_pruned, verdict_for, purge_row, purge, verdict_at,
  is_second, prune_task_content, RetentionRunSummary, prune_one, prune_each,
  prune_expired_task_content, is_pruned, record_attempt,
}
use carbon_contractors_com.Retention.Rows.{
  All-select, not-same-select, update-All, update-Along, Distinct-update, only_one, same_comm,
}
use carbon_contractors_com.Retention.Kept.{
  IsErased, IfPurged, IsFresh, IsKept, RowStays, RowStays-refl, Stays, Stays-refl, retention_law,
}

-- A row that the procedure prunes.
record IsRipe (t : TaskRecord) (at : ℕ) : Type 0 where
  pub unset : is_unset t.content_purged_at ≡ true
  pub terminal : includes terminal_statuses t.status ≡ true
  pub waited : t.updated_at + dispute_window_seconds * 1000 ≤ at

pruned-IsRipe :
    (now at : ℕ) (o : Option TaskRecord)
    → verdict_for now dispute_window_seconds o ≡ pruned_at at
    → (t : TaskRecord) × (o ≡ some t) × IsRipe t at
unfolding verdict_for
pruned-IsRipe now at none e = cc
pruned-IsRipe now at (some t) e =
    (t, refl, record { unset = ground arith; terminal = ground arith; waited = ground arith })

module _ (c : Content) (id : String) (at : ℕ) (kept : IsKept c) (t : TaskRecord)
    (found : first (has_row_id id) c.tasks ≡ some t) (ripe : IsRipe t at) where
  abbrev after : Content
  after = purge id retention_rule_version (pruned_at at) c

  after-IsErased :
      (u : TaskRecord)
      → same u.id id ≡ true
      → u ≡ t
      → IsErased after (purge_row retention_rule_version at u) at
  unfolding purge purge_row is_logged
  after-IsErased u here e = record {
    terminal = rw e ripe.terminal;
    waited = rw e ripe.waited;
    no_description = refl;
    no_spec = refl;
    no_version = refl;
    no_history =
        subst (λ i. All (λ h. same h.0 i ≡ false) (select (λ h. not (same h.0 id)) c.history))
          (sym ((same_iff u.id id).0 here)) (not-same-select id c.history);
    logged = ground (arith, same_iff u.id id, same_iff id u.id);
  }

  still-IsErased : (u : TaskRecord) (o : Option ℕ) → IfPurged c u o → IfPurged after u o
  unfolding purge is_logged
  still-IsErased u none h = tt
  still-IsErased u (some at') h = record {
    terminal = h.terminal;
    waited = h.waited;
    no_description = h.no_description;
    no_spec = h.no_spec;
    no_version = h.no_version;
    no_history = All-select (λ r. same r.0 u.id ≡ false) _ c.history h.no_history;
    logged = ground (arith, h.logged);
  }

  absurd_set : (u : TaskRecord) {P : Type 0} → u ≡ t → is_unset u.content_purged_at ≡ false → P
  absurd_set u e h =
      let f : is_unset t.content_purged_at ≡ false = rw (← e) h in let g = ripe.unset in cc

  still-IsFresh : (u : TaskRecord) → has_row_id id u ≡ false → IsFresh c.log u → IsFresh after.log u
  unfolding purge is_logged has_row_id
  still-IsFresh u other h set = ground (arith, h set, same_comm u.id id other)

  at_id :
      (Q : TaskRecord → Type 0) (ts : List TaskRecord)
      → All (λ u. same u.id id ≡ true → u ≡ t) ts
      → ((u : TaskRecord) → same u.id id ≡ true → u ≡ t → Q u)
      → All (λ u. has_row_id id u ≡ true → Q u) ts
  unfolding has_row_id
  at_id Q [] h k = tt
  at_id Q (u ∷ us) (h, hs) k = ((λ e. k u e (h e)), at_id Q us hs k)

  purge-IsKept : is_logged id c.log ≡ false → IsKept after
  unfolding purge purge_row
  purge-IsKept unlogged =
      let one = only_one id t c.tasks kept.distinct found in
      record {
        distinct =
            Distinct-update (purge_row retention_rule_version at) (has_row_id id) (λ u. refl)
              c.tasks kept.distinct;
        erased =
            update-All (has_row_id id) (purge_row retention_rule_version at)
              (λ u. IfPurged c u u.content_purged_at) (λ u. IfPurged after u u.content_purged_at)
              c.tasks kept.erased (at_id _ c.tasks one after-IsErased)
              (λ u no_match h. still-IsErased u u.content_purged_at h);
        once = (unlogged, kept.once);
        fresh =
            update-All (has_row_id id) (purge_row retention_rule_version at) (IsFresh c.log)
              (IsFresh after.log) c.tasks kept.fresh (at_id _ c.tasks one (λ u here e set. cc))
              still-IsFresh;
      }

  purge-Stays : Stays c after
  unfolding purge purge_row is_logged
  purge-Stays =
      let one = only_one id t c.tasks kept.distinct found in
      record {
        tasks =
            update-Along (has_row_id id) (purge_row retention_rule_version at) RowStays c.tasks
              (at_id _ c.tasks one (λ u here e. record {
                id = refl;
                payment_request_id = refl;
                from_agent_wallet = refl;
                to_human_wallet = refl;
                amount_usdc = refl;
                spec_hash = refl;
                purged = λ h. absurd_set u e h;
              }))
              RowStays-refl;
        log = λ i h. ground (arith, h);
      }

purge-any :
    (id : String) (now : ℕ) (v : PruneVerdict) (c : Content)
    → v ≡ verdict_for now dispute_window_seconds (first (has_row_id id) c.tasks)
    → is_logged id c.log ≡ false
    → IsKept c
    → IsKept (purge id retention_rule_version v c) × Stays c (purge id retention_rule_version v c)
unfolding purge
purge-any id now (not_pruned why) c e unlogged kept = (kept, Stays-refl c)
purge-any id now (pruned_at at) c e unlogged kept =
    let (t, found, ripe) = pruned-IsRipe now at (first (has_row_id id) c.tasks) (sym e) in
    (purge-IsKept c id at kept t found ripe unlogged, purge-Stays c id at kept t found ripe)

purge_guarded :
    (id : String) (m : Machine Content) (v : PruneVerdict)
    → v ≡ verdict_at id dispute_window_seconds m
    → is_second id dispute_window_seconds m ≡ false
    → IsKept m.store
    → IsKept (purge id retention_rule_version v m.store)
      × Stays m.store (purge id retention_rule_version v m.store)
unfolding verdict_at is_second purge
purge_guarded id m (not_pruned why) e once kept = (kept, Stays-refl m.store)
purge_guarded id m (pruned_at at) e once kept =
    let p : is_pruned (verdict_at id dispute_window_seconds m) ≡ true = ap is_pruned (sym e) in
    let unlogged : is_logged id m.store.log ≡ false = ground arith in
    purge-any id m.now (pruned_at at) m.store e unlogged kept

prune_write :
    (id : String) (m : Machine Content) (b : Bool)
    → is_second id dispute_window_seconds m ≡ b
    → IsLawful retention_law m
    → Leads retention_law m (
        if b
        then m
        else write_store
            (purge id retention_rule_version (verdict_at id dispute_window_seconds m))
            m)
unfolding retention_law verdict_at
prune_write id m true e h = (h, Stays-refl m.store)
prune_write id m false e h =
    let v = verdict_at id dispute_window_seconds m in
    let (kept, stays) = purge_guarded id m v refl e h.store in
    (record { store = kept; turns = h.turns }, stays)

Keeps-prune_task_content :
    (id : String)
    → Keeps retention_law (prune_task_content id retention_rule_version dispute_window_seconds)
unfolding prune_task_content
Keeps-prune_task_content id =
    Keeps-call _ _ (λ m h. prune_write id m (is_second id dispute_window_seconds m) refl h)

Keeps-prune_one :
    (now : ℕ) (t : TaskRecord) (s : RetentionRunSummary) → Keeps retention_law (prune_one now t s)
unfolding prune_one
Keeps-prune_one now t s =
    Keeps-if _ _ _ (Keeps-pure _)
      (Keeps-attempt _ _ (Keeps-prune_task_content t.id) (λ r. Keeps-pure (record_attempt t r s)))

Keeps-prune_each :
    (now : ℕ) (ts : List TaskRecord) (s : RetentionRunSummary)
    → Keeps retention_law (prune_each now ts s)
unfolding prune_each
Keeps-prune_each now [] s = Keeps-pure s
Keeps-prune_each now (t ∷ ts) s = Keeps-bind _ _ (Keeps-prune_one now t s) (Keeps-prune_each now ts)

Keeps-prune_expired_task_content : (now : ℕ) → Keeps retention_law (prune_expired_task_content now)
unfolding prune_expired_task_content
Keeps-prune_expired_task_content now =
    Keeps-bind _ _ (Keeps-query _) (λ found. Keeps-prune_each now found _)

-- Whatever others write between the calls of a run, as long as they keep the same law, and whatever
-- calls fail: a task's content is gone only from a terminal task, and only at a time at least the
-- dispute window after its last change; what is gone is gone in full, the description, the spec and
-- the history of descriptions, and has its deletion in the log, which has no two of one task and
-- none of a task that has its content. Each row keeps its id, its parties, its amount and its spec
-- hash; no purge is undone, and no deletion leaves the log.
pub prune_expired_task_content-IsLawful :
    (now : ℕ) (m : Machine Content)
    → IsLawful retention_law m
    → IsKept (prune_expired_task_content now m).1.store
      × Stays m.store (prune_expired_task_content now m).1.store
unfolding retention_law
prune_expired_task_content-IsLawful now m h =
    let (h', e) = (Keeps-prune_expired_task_content now).at m h in (h'.store, e)
