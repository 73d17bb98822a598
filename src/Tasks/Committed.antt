-- ===== src/Tasks/Committed.antt =====
-- How many tasks a worker is committed to, across the writes.
use carbon_contractors_com.Prelude.{
  ℕ, ◌+◌, ◌≡◌, ◌≤◌, refl, sym, ◌∙◌, ap, Bool, true, false, List, [], ◌∷◌, some, String, arith,
  if◌then◌else◌, All, count, first, update, same, same_iff, lower, Bool-cases, inl, inr, ◌⊎◌,
}
use carbon_contractors_com.Schema.{TaskStatus, accepted, active, includes, TaskRecord}
use carbon_contractors_com.World.Keeps.{Discipline, Obeys}
use carbon_contractors_com.Tasks.Transitions.{has_id, move_row, pin_row}
use carbon_contractors_com.Tasks.Creation.{collides}
use carbon_contractors_com.Tasks.Queries.{is_committed}
use carbon_contractors_com.Tasks.Unique.{Unique, HasSameKeys, Matched, Unique-Matched}

-- The table is unique, and the wallet has at most so many committed tasks.
abbrev pub within_cap : String → ℕ → Discipline
within_cap wallet bound = record {
  Holds = λ ts. Unique ts × (count (is_committed wallet) ts ≤ bound);
  Evolves = λ ts us. Unit;
  evolves_refl = λ ts. tt;
  evolves_trans = λ ts us vs p q. tt;
}

pub update-Matched :
    (p : TaskRecord → Bool) (f : TaskRecord → TaskRecord)
    → ((t : TaskRecord) → HasSameKeys t (f t))
    → (ts : List TaskRecord) → Matched ts (update p f ts)
update-Matched p f k [] = tt
update-Matched p f k (t ∷ ts) = (head (p t), update-Matched p f k ts)
  where
    head : (b : Bool) → HasSameKeys t (if b then f t else t)
    head true = k t
    head false = record { ids = refl; agents = refl; keys = refl }

move_row-HasSameKeys :
    (now : ℕ) (s : TaskStatus) (t : TaskRecord) → HasSameKeys t (move_row now s t)
unfolding move_row
move_row-HasSameKeys now s t = record { ids = refl; agents = refl; keys = refl }

pub pin_row-HasSameKeys :
    (now : ℕ) (pin : String) (t : TaskRecord) → HasSameKeys t (pin_row now pin t)
unfolding pin_row
pin_row-HasSameKeys now pin t = record { ids = refl; agents = refl; keys = refl }

count-update_mono :
    (q p : TaskRecord → Bool) (f : TaskRecord → TaskRecord)
    → ((t : TaskRecord) → q (f t) ≡ false)
    → (ts : List TaskRecord) → count q (update p f ts) ≤ count q ts
count-update_mono q p f k [] = omega arith
count-update_mono q p f k (t ∷ ts) =
    ground (arith, k t, count-update_mono q p f k ts, Bool-cases (p t))

-- A status that commits nobody.
abbrev pub IsFree : TaskStatus → Type 0
IsFree s = includes (accepted ∷ active ∷ []) s ≡ false

is_committed-move_row :
    (wallet : String) (now : ℕ) (s : TaskStatus) (t : TaskRecord)
    → IsFree s
    → is_committed wallet (move_row now s t) ≡ false
unfolding is_committed move_row
is_committed-move_row wallet now s t free = rw free (ground arith)

-- A move to such a status keeps the cap.
pub move_row-Obeys :
    (wallet : String) (bound : ℕ) (p : TaskRecord → Bool) (now : ℕ) (s : TaskStatus)
    → IsFree s
    → Obeys (within_cap wallet bound) (update p (move_row now s))
move_row-Obeys wallet bound p now s free ts (unique, below) = (
  (
    Unique-Matched ts _ (update-Matched p (move_row now s) (move_row-HasSameKeys now s) ts) unique,
    omega (
      arith,
      below,
      count-update_mono (is_committed wallet) p (move_row now s)
          (λ t. is_committed-move_row wallet now s t free) ts,
    ),
  ),
  tt,
)

pub count-ext :
    (p q : TaskRecord → Bool)
    → ((t : TaskRecord) → p t ≡ q t)
    → (ts : List TaskRecord) → count p ts ≡ count q ts
count-ext p q k [] = refl
count-ext p q k (t ∷ ts) = rw (k t, count-ext p q k ts) refl

collides-id :
    (id : String) (t u : TaskRecord)
    → has_id id t ≡ true
    → collides t u ≡ false
    → has_id id u ≡ false
unfolding collides
collides-id id t u h free = rw (← (same_iff t.payment_request_id id).0 h) (ground arith)

module _ (id wallet : String) (p : TaskRecord → Bool) (f : TaskRecord → TaskRecord)
    (named : (t : TaskRecord) → p t ≡ true → has_id id t ≡ true) where
  unnamed : (t : TaskRecord) → has_id id t ≡ false → p t ≡ false
  unnamed t h = ground (arith, named t)

  count-none :
      (t : TaskRecord) (ts : List TaskRecord)
      → has_id id t ≡ true
      → All (λ u. collides t u ≡ false) ts
      → count (is_committed wallet) (update p f ts) ≡ count (is_committed wallet) ts
  count-none t [] h free = refl
  count-none t (u ∷ us) h (e, es) =
      rw (unnamed u (collides-id id t u h e), count-none t us h es) refl

  first-hit :
      (t : TaskRecord) (ts : List TaskRecord)
      → has_id id t ≡ true
      → first (has_id id) (t ∷ ts) ≡ some t
  first-hit t ts h = rw h refl

  first-miss :
      (t : TaskRecord) (ts : List TaskRecord)
      → has_id id t ≡ false
      → first (has_id id) (t ∷ ts) ≡ first (has_id id) ts
  first-miss t ts h = rw h refl

  some_injective : {t u : TaskRecord} → some t ≡ some u → t ≡ u
  some_injective e = cc

  -- In a unique table such a write changes the row that the id finds, and no other: the wallet's
  -- count grows by one at most, and only if the row is the wallet's.
  pub count-update-one :
      ((t : TaskRecord)
        → is_committed wallet (f t) ≡ true
        → same t.to_human_wallet (lower wallet) ≡ true)
      → (ts : List TaskRecord) (task : TaskRecord) → Unique ts
      → first (has_id id) ts ≡ some task
      → (count (is_committed wallet) (update p f ts) ≤ count (is_committed wallet) ts)
        ⊎ ((same task.to_human_wallet (lower wallet) ≡ true)
            × (count (is_committed wallet) (update p f ts) ≤ count (is_committed wallet) ts + 1))
  count-update-one mine [] task unique e = inl (omega arith)
  count-update-one mine (t ∷ ts) task (free, unique) e = elim (Bool-cases (has_id id t)) [
    | inl hit ↦
        let found = some_injective (sym (first-hit t ts hit) ∙ e) in
        rw (count-none t ts hit free)
          (ground (arith, mine t, ap (λ u. same u.to_human_wallet (lower wallet)) found))
    | inr miss ↦
        rw (unnamed t miss)
          (ground (arith, count-update-one mine ts task unique (sym (first-miss t ts miss) ∙ e)))
  ]
