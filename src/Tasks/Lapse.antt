-- ===== src/Tasks/Lapse.antt =====
-- The lapse of expired offers, and the read of a task after it, when no other request writes in
-- between and no call fails.
use carbon_contractors_com.Prelude.{
  ◌*◌, ◌≤◌, Option, none, some, Along, ap, suc, leb→le, ◌/◌, ◌≡◌, refl, true, List, [], ◌∷◌, String,
  arith, if◌then◌else◌, first, select, update, length, Bool-cases, inl, inr, ℕ, ◌⊎◌,
}
use carbon_contractors_com.Schema.{pending, accepted, is_iff, lapsed, includes, TaskRecord}
use carbon_contractors_com.World.{World, ok, write_tasks, ◌>>=◌}
use carbon_contractors_com.World.Ensures.{query-quiet, update_tasks-quiet}
use carbon_contractors_com.Tasks.Transitions.{
  has_id, expiry_passed, read_row, move_row, is_expired_offer, lapse_expired_offers,
  get_task_by_payment_id,
}

-- What the lapse leaves of a quiet world.
abbrev pub lapsed_world : World → World
lapsed_world w = write_tasks (update (is_expired_offer (w.now / 1000)) (move_row w.now lapsed)) w

pub lapse_expired_offers-quiet :
    (w : World)
    → w.turns ≡ []
    → lapse_expired_offers w
      ≡ (ok (length (select (is_expired_offer (w.now / 1000)) w.tasks)), lapsed_world w)
unfolding lapse_expired_offers ◌>>=◌
lapse_expired_offers-quiet w quiet =
    rw (update_tasks-quiet (is_expired_offer (w.now / 1000)) (move_row w.now lapsed) w quiet) refl

pub get_task_by_payment_id-quiet :
    (id : String) (w : World)
    → w.turns ≡ []
    → get_task_by_payment_id id w ≡ (ok (first (has_id id) (lapsed_world w).tasks), lapsed_world w)
unfolding get_task_by_payment_id read_row ◌>>=◌
get_task_by_payment_id-quiet id w quiet =
    rw
      (
        lapse_expired_offers-quiet w quiet,
        query-quiet (λ v. first (has_id id) v.tasks) (lapsed_world w) quiet,
      )
      refl

-- An offer that is open, or accepted and not paid for, whose expiry, in seconds, has come by `now`,
-- in milliseconds.
pub record IsPast (now : ℕ) (t : TaskRecord) : Type 0 where
  pub offered : (t.status ≡ pending) ⊎ (t.status ≡ accepted)
  pub expiry : ℕ
  pub set : t.offer_expiry_unix ≡ some expiry
  pub come : expiry * 1000 ≤ now

-- What becomes of a row: one that is past is lapsed now, any other is as it was.
abbrev pub Lapses : ℕ → TaskRecord → TaskRecord → Type 0
Lapses now t u =
    (IsPast now t × (u ≡ record t { status = lapsed; updated_at = now }))
    ⊎ ((IsPast now t → ⊥) × (u ≡ t))

expired-IsPast :
    (now : ℕ) (t : TaskRecord) (o : Option ℕ)
    → t.offer_expiry_unix ≡ o
    → (t.status ≡ pending) ⊎ (t.status ≡ accepted)
    → expiry_passed (now / 1000) o ≡ true
    → IsPast now t
unfolding expiry_passed
expired-IsPast now t none e offered h = cc
expired-IsPast now t (some expiry) e offered h = record {
  offered = offered;
  expiry = expiry;
  set = e;
  come = omega (arith, leb→le expiry (now / 1000) h);
}

expired_cases :
    (now_seconds : ℕ) (t : TaskRecord)
    → is_expired_offer now_seconds t ≡ true
    → ((t.status ≡ pending) ⊎ (t.status ≡ accepted))
      × (expiry_passed now_seconds t.offer_expiry_unix ≡ true)
unfolding is_expired_offer includes
expired_cases now_seconds t h = ground (arith, is_iff t.status pending, is_iff t.status accepted)

come-passed :
    (now expiry : ℕ) → expiry * 1000 ≤ now → expiry_passed (now / 1000) (some expiry) ≡ true
unfolding expiry_passed
come-passed now expiry h = let le : expiry ≤ now / 1000 = omega (arith, h) in ground arith

IsPast-expired : (now : ℕ) (t : TaskRecord) → IsPast now t → is_expired_offer (now / 1000) t ≡ true
unfolding is_expired_offer includes
IsPast-expired now t past = rw past.set (
    ground (
      arith,
      come-passed now past.expiry past.come,
      is_iff t.status pending,
      is_iff t.status accepted,
      past.offered,
    ))

row-Lapses :
    (now : ℕ) (t : TaskRecord)
    → Lapses now t (if is_expired_offer (now / 1000) t then move_row now lapsed t else t)
unfolding move_row
row-Lapses now t = elim (Bool-cases (is_expired_offer (now / 1000) t)) [
  | inl late ↦
      let (offered, passed) = expired_cases (now / 1000) t late in
      rw late (inl (expired-IsPast now t t.offer_expiry_unix refl offered passed, refl))
  | inr live ↦ rw live (inr ((λ past. let late = IsPast-expired now t past in cc), refl))
]

rows_lapse :
    (now : ℕ) (ts : List TaskRecord)
    → Along (Lapses now) ts (update (is_expired_offer (now / 1000)) (move_row now lapsed) ts)
      × (length (update (is_expired_offer (now / 1000)) (move_row now lapsed) ts) ≡ length ts)
rows_lapse now [] = (tt, refl)
rows_lapse now (t ∷ ts) =
    let (rest, long) = rows_lapse now ts in ((row-Lapses now t, rest), ap suc long)

-- When no other request writes in between and no call fails, the read of a task leaves a table in
-- which, row by row, an offer that was open or accepted and whose expiry has come is lapsed, marked
-- with the time of the read, and every other row is as it was; and what it answers is the first row
-- of the id in that table: no caller acts on an offer that has run out.
pub get_task_by_payment_id-live :
    (id : String) (w : World)
    → w.turns ≡ []
    → Along (Lapses w.now) w.tasks (get_task_by_payment_id id w).1.tasks
      × (length (get_task_by_payment_id id w).1.tasks ≡ length w.tasks)
      × ((get_task_by_payment_id id w).0
          ≡ ok (first (has_id id) (get_task_by_payment_id id w).1.tasks))
get_task_by_payment_id-live id w quiet =
    rw (get_task_by_payment_id-quiet id w quiet)
      (let (rows, long) = rows_lapse w.now w.tasks in (rows, long, refl))
