-- ===== src/Retention/Progress.antt =====
-- What a run does when nothing comes between its calls: the first rows that are due lose their
-- content, a batch of them, so that repeated runs leave none.
use carbon_contractors_com.Prelude.{
  ℕ, zero, suc, ◌-◌, ◌*◌, ◌≤◌, ◌≡◌, refl, ap, ◌∙◌, true, false, some, List, [], ◌∷◌, ◌++◌, String,
  same, if◌then◌else◌, All, first, take, count, select, update, arith, Bool-cases, inl, inr,
}
use carbon_contractors_com.Schema.{TaskRecord}
use carbon_contractors_com.World.{ok}
use carbon_contractors_com.Store.{Machine, write_store, call-quiet, query-quiet, continue}
use carbon_contractors_com.Retention.{
  Deletion, Content, dispute_window_seconds, retention_rule_version, is_unset, has_row_id,
  is_logged, pruned_at, verdict_for, purge_row, purge, verdict_at, is_second, prune_task_content,
  prune_batch_limit, is_due, is_prune_eligible, RetentionRunSummary, prune_one, prune_each,
  candidates, prune_expired_task_content, record_attempt,
}
use carbon_contractors_com.Retention.Kept.{IsFresh, IsKept, retention_law}
use carbon_contractors_com.Retention.Invariant.{prune_expired_task_content-IsLawful}
use carbon_contractors_com.Retention.Rows.{Absent, Distinct, same_comm, first-middle, update-middle}

-- The first n due rows, purged at a time.
unfoldable pub purge_first : ℕ → ℕ → ℕ → List TaskRecord → List TaskRecord
unfolding purge_row is_due
purge_first now_unix at zero ts = ts
purge_first now_unix at (suc n) [] = []
purge_first now_unix at (suc n) (t ∷ ts) =
    if is_due now_unix t
    then purge_row retention_rule_version at t ∷ purge_first now_unix at n ts
    else t ∷ purge_first now_unix at (suc n) ts

purged_not_due :
    (now at : ℕ) (t : TaskRecord) → is_due now (purge_row retention_rule_version at t) ≡ false
unfolding is_due purge_row
purged_not_due now at t = ground arith

-- A batch of n leaves n fewer due, or none.
pub count-purge_first :
    (now at n : ℕ) (ts : List TaskRecord)
    → count (is_due now) (purge_first now at n ts) ≡ count (is_due now) ts - n
unfolding purge_first
count-purge_first now at zero ts = omega arith
count-purge_first now at (suc n) [] = omega arith
count-purge_first now at (suc n) (t ∷ ts) = ground (
  arith,
  count-purge_first now at n ts,
  count-purge_first now at (suc n) ts,
  purged_not_due now at t,
)

-- The rows still to be handled are apart from those done and from one another, and those with their
-- content have no deletion in the log.
record IsAhead (log : List Deletion) (done rest : List TaskRecord) : Type 0 where
  pub apart : All (λ t. Absent t.id done) rest
  pub distinct : Distinct rest
  pub fresh : All (IsFresh log) rest

Absent-snoc :
    (i : String) (ts : List TaskRecord) (x : TaskRecord)
    → Absent i ts
    → same x.id i ≡ false
    → Absent i (ts ++ x ∷ [])
Absent-snoc i [] x h k = (k, tt)
Absent-snoc i (t ∷ ts) x (h, hs) k = (h, Absent-snoc i ts x hs k)

apart-snoc :
    (done : List TaskRecord) (x : TaskRecord) (rest : List TaskRecord)
    → All (λ t. Absent t.id done) rest
    → Absent x.id rest
    → All (λ t. Absent t.id (done ++ x ∷ [])) rest
apart-snoc done x [] h k = tt
apart-snoc done x (y ∷ rest) (h, hs) (k, ks) =
    (Absent-snoc y.id done x h (same_comm y.id x.id k), apart-snoc done x rest hs ks)

IsFresh-cons :
    (d : Deletion) (log : List Deletion) (rest : List TaskRecord)
    → All (IsFresh log) rest
    → Absent d.task_id rest
    → All (IsFresh (d ∷ log)) rest
unfolding is_logged
IsFresh-cons d log [] h k = tt
IsFresh-cons d log (y ∷ rest) (h, hs) (k, ks) =
    ((λ u. ground (arith, h u, same_comm y.id d.task_id k)), IsFresh-cons d log rest hs ks)

pass-IsAhead :
    (log : List Deletion) (done : List TaskRecord) (t : TaskRecord) (rest : List TaskRecord)
    → IsAhead log done (t ∷ rest)
    → IsAhead log (done ++ t ∷ []) rest
pass-IsAhead log done t rest h = record {
  apart = apart-snoc done t rest h.apart.1 h.distinct.0;
  distinct = h.distinct.1;
  fresh = h.fresh.1;
}

purged-IsAhead :
    (d : Deletion) (log : List Deletion) (done : List TaskRecord) (t x : TaskRecord)
    (rest : List TaskRecord)
    → d.task_id ≡ t.id
    → x.id ≡ t.id
    → IsAhead log done (t ∷ rest)
    → IsAhead (d ∷ log) (done ++ x ∷ []) rest
purged-IsAhead d log done t x rest ed ex h = record {
  apart = apart-snoc done x rest h.apart.1 (rw ex h.distinct.0);
  distinct = h.distinct.1;
  fresh = IsFresh-cons d log rest h.fresh.1 (rw ed h.distinct.0);
}

due-unset : (now : ℕ) (t : TaskRecord) → is_due now t ≡ true → is_unset t.content_purged_at ≡ true
unfolding is_due
due-unset now t e = ground arith

due-eligible : (now : ℕ) (t : TaskRecord) → is_due now t ≡ true → is_prune_eligible now t ≡ true
unfolding is_due is_prune_eligible
due-eligible now t e = ground arith

due-pruned :
    (now at : ℕ) (t : TaskRecord)
    → now * 1000 ≤ at
    → is_due now t ≡ true
    → verdict_for at dispute_window_seconds (some t) ≡ pruned_at at
unfolding is_due verdict_for
due-pruned now at t le e = ground arith

due-verdict :
    (now : ℕ) (t : TaskRecord) (m : Machine Content)
    → now * 1000 ≤ m.now
    → is_due now t ≡ true
    → first (has_row_id t.id) m.store.tasks ≡ some t
    → verdict_at t.id dispute_window_seconds m ≡ pruned_at m.now
unfolding verdict_at
due-verdict now t m le due found = rw found (due-pruned now m.now t le due)

not_second :
    (id : String) (m : Machine Content)
    → is_logged id m.store.log ≡ false
    → is_second id dispute_window_seconds m ≡ false
unfolding is_second
not_second id m e = ground arith

-- The procedure on a due row, when nothing comes between.
prune_task_content-due :
    (now : ℕ) (t : TaskRecord) (m : Machine Content)
    → m.turns ≡ []
    → now * 1000 ≤ m.now
    → is_due now t ≡ true
    → first (has_row_id t.id) m.store.tasks ≡ some t
    → is_logged t.id m.store.log ≡ false
    → prune_task_content t.id retention_rule_version dispute_window_seconds m
      ≡ (ok (pruned_at m.now), write_store (purge t.id retention_rule_version (pruned_at m.now)) m)
unfolding prune_task_content
prune_task_content-due now t m quiet le due found unlogged =
    call-quiet _ _ m quiet ∙ rw (not_second t.id m unlogged, due-verdict now t m le due found) refl

prune_one-due :
    (now : ℕ) (t : TaskRecord) (s : RetentionRunSummary) (m : Machine Content)
    → m.turns ≡ []
    → now * 1000 ≤ m.now
    → is_due now t ≡ true
    → first (has_row_id t.id) m.store.tasks ≡ some t
    → is_logged t.id m.store.log ≡ false
    → prune_one now t s m ≡ (
      ok (record_attempt t (ok (pruned_at m.now)) s),
      write_store (purge t.id retention_rule_version (pruned_at m.now)) m,
    )
unfolding prune_one
prune_one-due now t s m quiet le due found unlogged =
    rw (due-eligible now t due, prune_task_content-due now t m quiet le due found unlogged) refl

append_middle :
    (ts : List TaskRecord) (x : TaskRecord) (us : List TaskRecord)
    → ts ++ x ∷ us ≡ (ts ++ x ∷ []) ++ us
append_middle [] x us = refl
append_middle (t ∷ ts) x us = ap (λ l. t ∷ l) (append_middle ts x us)

prune_each-cons :
    (now : ℕ) (t : TaskRecord) (ts : List TaskRecord) (s s' : RetentionRunSummary)
    (m m' : Machine Content)
    → prune_one now t s m ≡ (ok s', m')
    → prune_each now (t ∷ ts) s m ≡ prune_each now ts s' m'
unfolding prune_each
prune_each-cons now t ts s s' m m' step = ap (continue (prune_each now ts)) step

-- A machine with these tasks, as quiet as before.
abbrev pub Ends : ℕ → List TaskRecord → Machine Content → Type 0
Ends at ts m = (m.store.tasks ≡ ts) × (m.turns ≡ []) × (m.now ≡ at)

-- The loop over a batch purges the due rows of it and leaves the others.
prune_each-lem :
    (now n : ℕ) (done rest : List TaskRecord) (s : RetentionRunSummary) (m : Machine Content)
    → m.turns ≡ []
    → now * 1000 ≤ m.now
    → m.store.tasks ≡ done ++ rest
    → IsAhead m.store.log done rest
    → Ends m.now
        (done ++ purge_first now m.now n rest)
        (prune_each now (take n (select (is_due now) rest)) s m).1
unfolding prune_each purge_first
prune_each-lem now zero done rest s m quiet le e h = (e, quiet, refl)
prune_each-lem now (suc n) done [] s m quiet le e h = (e, quiet, refl)
prune_each-lem now (suc n) done (t ∷ rest) s m quiet le e h = elim (Bool-cases (is_due now t)) [
  | inl due ↦
      let found : first (has_row_id t.id) m.store.tasks ≡ some t =
        rw e (first-middle t done rest h.apart.0) in
      let unlogged = h.fresh.0 (due-unset now t due) in
      let step = prune_one-due now t s m quiet le due found unlogged in
      let x = purge_row retention_rule_version m.now t in
      let s' = record_attempt t (ok (pruned_at m.now)) s in
      let m' = write_store (purge t.id retention_rule_version (pruned_at m.now)) m in
      let e' : m'.store.tasks ≡ (done ++ x ∷ []) ++ rest =
        ap (update (has_row_id t.id) (purge_row retention_rule_version m.now)) e
        ∙ update-middle (purge_row retention_rule_version m.now) t done rest h.apart.0 h.distinct.0
        ∙ append_middle done x rest in
      let ih =
        prune_each-lem now n (done ++ x ∷ []) rest s' m' quiet le e'
          (purged-IsAhead _ m.store.log done t x rest refl refl h) in
      rw (due, prune_each-cons now t (take n (select (is_due now) rest)) s s' m m' step)
        (rw (append_middle done x (purge_first now m.now n rest)) ih)
  | inr later ↦
      rw (later, append_middle done t (purge_first now m.now (suc n) rest))
        (prune_each-lem now (suc n) (done ++ t ∷ []) rest s m quiet le
          (e ∙ append_middle done t rest) (pass-IsAhead m.store.log done t rest h))
]

nothing_done : (ts : List TaskRecord) → All (λ t. Absent t.id []) ts
nothing_done [] = tt
nothing_done (t ∷ ts) = (tt, nothing_done ts)

kept-IsAhead : (c : Content) → IsKept c → IsAhead c.log [] c.tasks
kept-IsAhead c h = record { apart = nothing_done c.tasks; distinct = h.distinct; fresh = h.fresh }

-- A run between whose calls nothing comes purges the first rows that are due, a batch of them, and
-- leaves every other row as it is.
pub prune_expired_task_content-lem :
    (now : ℕ) (m : Machine Content)
    → IsKept m.store
    → m.turns ≡ []
    → now * 1000 ≤ m.now
    → Ends m.now
        (purge_first now m.now prune_batch_limit m.store.tasks)
        (prune_expired_task_content now m).1
unfolding prune_expired_task_content candidates
prune_expired_task_content-lem now m kept quiet le = rw (query-quiet (candidates now) m quiet) (
    prune_each-lem now prune_batch_limit [] m.store.tasks _ m quiet le refl
      (kept-IsAhead m.store kept))

-- Scheduled runs, one after the other.
unfoldable pub runs : ℕ → ℕ → Machine Content → Machine Content
unfolding prune_expired_task_content
runs now zero m = m
runs now (suc k) m = runs now k (prune_expired_task_content now m).1

-- When nothing comes between their calls, enough runs leave no row whose content is due: one run
-- for each batch of the rows that are.
pub runs-none_due :
    (now k : ℕ) (m : Machine Content)
    → IsKept m.store
    → m.turns ≡ []
    → now * 1000 ≤ m.now
    → count (is_due now) m.store.tasks ≤ prune_batch_limit * k
    → count (is_due now) (runs now k m).store.tasks ≡ 0
unfolding runs retention_law
runs-none_due now zero m kept quiet le few = omega (arith, few)
runs-none_due now (suc k) m kept quiet le few =
    let (tasks, quiet', same_now) = prune_expired_task_content-lem now m kept quiet le in
    let (kept', stays) =
      prune_expired_task_content-IsLawful now m (record { store = kept; turns = rw quiet tt }) in
    let left : count (is_due now) (prune_expired_task_content now m).1.store.tasks
        ≡ count (is_due now) m.store.tasks - prune_batch_limit =
      ap (count (is_due now)) tasks ∙ count-purge_first now m.now prune_batch_limit m.store.tasks in
    runs-none_due now k (prune_expired_task_content now m).1 kept' quiet' (rw same_now le)
      (omega (arith, few, left))
