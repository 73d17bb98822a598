-- ===== src/Tasks/Lifecycle/Rows.antt =====
-- The changes that src/lib/db/tasks.ts makes to a single row.
use carbon_contractors_com.Prelude.{ℕ, ◌≡◌, ◌≢◌, refl, inl, inr, true, String, arith}
use carbon_contractors_com.Schema.{TaskStatus, pending, accepted, active, includes, TaskRecord}
use carbon_contractors_com.Tasks.Transitions.{valid_transitions, move_row, fund_row, pin_row}
use carbon_contractors_com.Tasks.Lifecycle.{stay, next, IsFine, RowObeys}

-- The targets that `updateTaskStatus` writes with nothing beside them.
abbrev pub IsPlain : TaskStatus → Type 0
IsPlain s = (s ≢ pending) × (s ≢ accepted) × (s ≢ active)

move_row-IsFine :
    (now : ℕ) (s : TaskStatus) (t : TaskRecord)
    → IsPlain s
    → IsFine t
    → includes (valid_transitions s) t.status ≡ true
    → IsFine (move_row now s t)
unfolding move_row valid_transitions includes
move_row-IsFine now s t plain h from = ground (arith, h.unpinned, h.unfunded)

pub move_row-RowObeys :
    (now : ℕ) (s : TaskStatus) (t : TaskRecord)
    → IsPlain s
    → IsFine t
    → includes (valid_transitions s) t.status ≡ true
    → RowObeys t (move_row now s t)
unfolding move_row
move_row-RowObeys now s t plain h from = (
  move_row-IsFine now s t plain h from,
  record {
    same_id = refl;
    same_agent = refl;
    same_worker = refl;
    same_amount = refl;
    key_kept = refl;
    moves = next stay from;
    pin_kept = inr refl;
    funding_kept = inr refl;
  },
)

accepted_from_pending : includes (valid_transitions accepted) pending ≡ true
unfolding includes valid_transitions
accepted_from_pending = refl

active_from_accepted : includes (valid_transitions active) accepted ≡ true
unfolding includes valid_transitions
active_from_accepted = refl

fund_row-IsFine :
    (now at : ℕ) (t : TaskRecord) → IsFine t → t.status ≡ accepted → IsFine (fund_row now at t)
unfolding fund_row
fund_row-IsFine now at t h e = ground (arith, h.consented (inl e))

pub fund_row-RowObeys :
    (now at : ℕ) (t : TaskRecord) → IsFine t → t.status ≡ accepted → RowObeys t (fund_row now at t)
unfolding fund_row
fund_row-RowObeys now at t h e = (
  fund_row-IsFine now at t h e,
  record {
    same_id = refl;
    same_agent = refl;
    same_worker = refl;
    same_amount = refl;
    key_kept = refl;
    moves = next stay (rw e active_from_accepted);
    pin_kept = inr refl;
    funding_kept = inl (h.unfunded (inr (inl e)));
  },
)

pin_row-IsFine :
    (now : ℕ) (pin : String) (t : TaskRecord)
    → IsFine t
    → t.status ≡ pending
    → IsFine (pin_row now pin t)
unfolding pin_row
pin_row-IsFine now pin t h e = ground (arith, h.unfunded (inl e))

pub pin_row-RowObeys :
    (now : ℕ) (pin : String) (t : TaskRecord)
    → IsFine t
    → t.status ≡ pending
    → RowObeys t (pin_row now pin t)
unfolding pin_row
pin_row-RowObeys now pin t h e = (
  pin_row-IsFine now pin t h e,
  record {
    same_id = refl;
    same_agent = refl;
    same_worker = refl;
    same_amount = refl;
    key_kept = refl;
    moves = next stay (rw e accepted_from_pending);
    pin_kept = inl (h.unpinned (inl e));
    funding_kept = inr refl;
  },
)
