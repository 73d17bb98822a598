-- ===== src/Tasks/Lifecycle/Insert.antt =====
-- A new row begins a lifecycle.
use carbon_contractors_com.Prelude.{
  ℕ, ◌≡◌, ◌⊎◌, List, [], ◌∷◌, ◌++◌, String, arith, any, false, All, Along, lower_idem,
}
use carbon_contractors_com.Schema.{TaskStatus, pending, accepted, is, TaskRecord}
use carbon_contractors_com.World.{World, Reply, answered, refused, lost, begin}
use carbon_contractors_com.World.Keeps.{IsSound, Keeps, Keeps-bind, Keeps-draw, begin-IsSound}
use carbon_contractors_com.Tasks.Creation.{
  CreateTaskInput, or_pending, new_row, insert_on, insert_task, create_task, append_row, collides,
}
use carbon_contractors_com.Tasks.Lifecycle.{IsFine, RowEvolves, RowEvolves-refl, lifecycle}
use carbon_contractors_com.Tasks.Unique.{Unique-append}

-- The two statuses that a row may be born with.
abbrev pub IsBorn : TaskStatus → Type 0
IsBorn s = (s ≡ pending) ⊎ (s ≡ accepted)

new_row-IsFine :
    (keccak256 : String → String) (input : CreateTaskInput) (id : String) (now : ℕ)
    → IsBorn (or_pending input.status)
    → IsFine (new_row keccak256 input id now)
unfolding new_row is
new_row-IsFine keccak256 input id now born = ground (arith, lower_idem input.to_human_wallet)

append-IsFine :
    (ts : List TaskRecord) (t : TaskRecord)
    → All IsFine ts
    → IsFine t
    → All IsFine (ts ++ t ∷ []) × Along RowEvolves ts (ts ++ t ∷ [])
append-IsFine [] t h new = ((new, tt), tt)
append-IsFine (u ∷ us) t (h, hs) new =
    let (fine, evolves) = append-IsFine us t hs new in ((h, fine), (RowEvolves-refl u, evolves))

module _ (row : ℕ → TaskRecord) (fine : (now : ℕ) → IsFine (row now)) where
  append_row-IsSound :
      (ts : List TaskRecord) (w : World)
      → IsSound lifecycle w
      → Along RowEvolves ts w.tasks
      → any (collides (row w.now)) w.tasks ≡ false
      → IsSound lifecycle (append_row (row w.now) w)
        × Along RowEvolves ts (append_row (row w.now) w).tasks
  append_row-IsSound ts w h e free =
      let (all, more) = append-IsFine w.tasks (row w.now) h.tasks.0 (fine w.now) in
      (
        record { tasks = (all, Unique-append w.tasks (row w.now) free h.tasks.1); turns = h.turns },
        lifecycle.evolves_trans ts w.tasks (w.tasks ++ row w.now ∷ []) e more,
      )

  insert_on-IsSound :
      (ts : List TaskRecord) (r : Reply) (w : World)
      → IsSound lifecycle w
      → Along RowEvolves ts w.tasks
      → IsSound lifecycle (insert_on row (r, w)).1
        × Along RowEvolves ts (insert_on row (r, w)).1.tasks
  unfolding insert_on
  insert_on-IsSound ts refused w h e = (h, e)
  insert_on-IsSound ts answered w h e = ground (arith, append_row-IsSound ts w h e)
  insert_on-IsSound ts lost w h e = ground (arith, append_row-IsSound ts w h e)

  pub Keeps-insert_task : Keeps lifecycle (insert_task row)
  unfolding insert_task
  Keeps-insert_task = record {
    at = λ w h.
        let (h', e) = begin-IsSound w h in insert_on-IsSound w.tasks (begin w).0 (begin w).1 h' e;
  }

-- `createTask` keeps the lifecycle, for a row that is born pending or accepted.
pub create_task-Keeps :
    (keccak256 : String → String) (input : CreateTaskInput)
    → IsBorn (or_pending input.status)
    → Keeps lifecycle (create_task keccak256 input)
unfolding create_task
create_task-Keeps keccak256 input born = Keeps-bind _ _ Keeps-draw λ id.
    Keeps-insert_task (new_row keccak256 input id)
      (λ now. new_row-IsFine keccak256 input id now born)
