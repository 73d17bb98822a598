-- ===== src/Tasks/Lifecycle.antt =====
-- The life of a row: what holds of it at every moment, how it may change, and that each write of
-- src/lib/db/tasks.ts obeys both.
pub mod Rows
pub mod Writes
pub mod Insert
pub mod Lasting
pub mod Made
pub mod Shown
use carbon_contractors_com.Prelude.{
  ◌≡◌, ◌≢◌, refl, ◌⊎◌, inl, inr, Bool, true, false, List, [], ◌∷◌, none, some, if◌then◌else◌, arith,
  All, Along, Along-refl, Along-trans, update, lower, Bool-cases,
}
use carbon_contractors_com.Schema.{
  TaskStatus, pending, accepted, declined, lapsed, active, includes, TaskRecord,
}
use carbon_contractors_com.World.Keeps.{Discipline, Obeys}
use carbon_contractors_com.Tasks.Transitions.{valid_transitions}
use carbon_contractors_com.Tasks.Unique.{Unique, Matched, Unique-Matched}

-- A path along the transitions that the table of the source allows.
pub data Moves : TaskStatus → TaskStatus → Type 0 where
  stay : {s : TaskStatus} → Moves s s
  next : {s t u : TaskStatus} → Moves s t → includes (valid_transitions u) t ≡ true → Moves s u

pub Moves-trans : {s t u : TaskStatus} → Moves s t → Moves t u → Moves s u
Moves-trans m stay = m
Moves-trans m (next n h) = next (Moves-trans m n) h

abbrev pub IsOpenOrDeclined : TaskStatus → Type 0
IsOpenOrDeclined s = (s ≡ pending) ⊎ (s ≡ declined)

abbrev pub IsCommitted : TaskStatus → Type 0
IsCommitted s = (s ≡ accepted) ⊎ (s ≡ active)

abbrev pub IsOffer : TaskStatus → Type 0
IsOffer s = (s ≡ pending) ⊎ (s ≡ accepted) ⊎ (s ≡ declined) ⊎ (s ≡ lapsed)

-- The pin is the worker's recorded consent: an open or declined offer has none, a committed or a
-- funded row has one; an active row is funded, and one that is still an offer is not.
pub record IsFine (t : TaskRecord) : Type 0 where
  pub unpinned : IsOpenOrDeclined t.status → t.accepted_description_hash ≡ none
  pub consented : IsCommitted t.status → t.accepted_description_hash ≢ none
  pub funded_consented : t.funded_at ≢ none → t.accepted_description_hash ≢ none
  pub active_funded : t.status ≡ active → t.funded_at ≢ none
  pub unfunded : IsOffer t.status → t.funded_at ≡ none
  pub worker_lower : lower t.to_human_wallet ≡ t.to_human_wallet
  pub never_unsent : t.offer_reminder_sent ≢ some false

-- What no later write takes back.
pub record RowEvolves (t u : TaskRecord) : Type 0 where
  pub same_id : t.payment_request_id ≡ u.payment_request_id
  pub same_agent : t.from_agent_wallet ≡ u.from_agent_wallet
  pub same_worker : t.to_human_wallet ≡ u.to_human_wallet
  pub same_amount : t.amount_usdc ≡ u.amount_usdc
  pub key_kept : t.idempotency_key ≡ u.idempotency_key
  pub moves : Moves t.status u.status
  pub pin_kept :
      (t.accepted_description_hash ≡ none)
      ⊎ (u.accepted_description_hash ≡ t.accepted_description_hash)
  pub funding_kept : (t.funded_at ≡ none) ⊎ (u.funded_at ≡ t.funded_at)

pub RowEvolves-refl : (t : TaskRecord) → RowEvolves t t
RowEvolves-refl t = record {
  same_id = refl;
  same_agent = refl;
  same_worker = refl;
  same_amount = refl;
  key_kept = refl;
  moves = stay;
  pin_kept = inr refl;
  funding_kept = inr refl;
}

pub RowEvolves-trans : (t u v : TaskRecord) → RowEvolves t u → RowEvolves u v → RowEvolves t v
RowEvolves-trans t u v p q = record {
  same_id = cc (p.same_id, q.same_id);
  same_agent = cc (p.same_agent, q.same_agent);
  same_worker = cc (p.same_worker, q.same_worker);
  same_amount = cc (p.same_amount, q.same_amount);
  key_kept = cc (p.key_kept, q.key_kept);
  moves = Moves-trans p.moves q.moves;
  pin_kept = ground (arith, p.pin_kept, q.pin_kept);
  funding_kept = ground (arith, p.funding_kept, q.funding_kept);
}

-- Every row is fine, and no two collide on the unique indexes.
abbrev pub lifecycle : Discipline
lifecycle = record {
  Holds = λ ts. All IsFine ts × Unique ts;
  Evolves = Along RowEvolves;
  evolves_refl = Along-refl RowEvolves RowEvolves-refl;
  evolves_trans = Along-trans RowEvolves RowEvolves-trans;
}

-- A change of one row that obeys the lifecycle.
abbrev pub RowObeys : TaskRecord → TaskRecord → Type 0
RowObeys t u = IsFine u × RowEvolves t u

module _ (p : TaskRecord → Bool) (f : TaskRecord → TaskRecord)
    (good : (t : TaskRecord) → IsFine t → p t ≡ true → RowObeys t (f t)) where
  row_obeys : (t : TaskRecord) → IsFine t → RowObeys t (if p t then f t else t)
  row_obeys t h = elim (Bool-cases (p t)) [
    | inl passed ↦ rw passed (good t h passed)
    | inr left ↦ rw left (h, RowEvolves-refl t)
  ]

  update-Fine :
      (ts : List TaskRecord)
      → All IsFine ts
      → All IsFine (update p f ts) × Along RowEvolves ts (update p f ts)
  update-Fine [] h = (tt, tt)
  update-Fine (t ∷ ts) (h, hs) =
      let (fine, evolves) = row_obeys t h in
      let (fines, evolve) = update-Fine ts hs in ((fine, fines), (evolves, evolve))

  update-Matched : (ts : List TaskRecord) → All IsFine ts → Matched ts (update p f ts)
  update-Matched [] h = tt
  update-Matched (t ∷ ts) (h, hs) =
      let (fine, evolves) = row_obeys t h in
      (
        record { ids = evolves.same_id; agents = evolves.same_agent; keys = evolves.key_kept },
        update-Matched ts hs,
      )

  -- An update obeys the lifecycle if it does on each row that passes its filters.
  pub Obeys-update : Obeys lifecycle (update p f)
  Obeys-update ts (h, unique) =
      let (fines, evolve) = update-Fine ts h in
      ((fines, Unique-Matched ts (update p f ts) (update-Matched ts h) unique), evolve)
