-- ===== src/Tasks/Lifecycle/Lasting.antt =====
-- What a write has made true of a row, and no later write takes back.
use carbon_contractors_com.Prelude.{
  ◌≡◌, ◌⊎◌, inl, inr, Bool, true, false, List, [], ◌∷◌, Along, arith, select, update, is_empty,
  Bool-cases,
}
use carbon_contractors_com.Schema.{TaskRecord}
use carbon_contractors_com.World.{World, M, Result, ok, err, update_tasks, begin}
use carbon_contractors_com.World.Keeps.{IsSound, Keeps, begin-IsSound}
use carbon_contractors_com.World.Ensures.{Ensures, Ensures-update_tasks, Steady, Post}
use carbon_contractors_com.Tasks.Lifecycle.{IsFine, RowEvolves, RowObeys, lifecycle, Obeys-update}

-- A row of the table is such.
abbrev pub Has : (TaskRecord → Type 0) → List TaskRecord → Type 0
Has P [] = ⊥
Has P (t ∷ ts) = P t ⊎ Has P ts

abbrev pub IsLasting : (TaskRecord → Type 0) → Type 0
IsLasting P = (t u : TaskRecord) → RowEvolves t u → P t → P u

module _ (P : TaskRecord → Type 0) where
  Has-Along : IsLasting P → (ts us : List TaskRecord) → Along RowEvolves ts us → Has P ts → Has P us
  Has-Along k (t ∷ ts) (u ∷ us) (e, es) (inl h) = inl (k t u e h)
  Has-Along k (t ∷ ts) (u ∷ us) (e, es) (inr h) = inr (Has-Along k ts us es h)
  Has-Along k [] us e h = elim h [ ]
  Has-Along k (t ∷ ts) [] e h = elim e [ ]

  -- A sound world with such a row.
  abbrev pub SoundWith : World → Type 0
  SoundWith w = IsSound lifecycle w × Has P w.tasks

  pub SoundWith-steady : IsLasting P → Steady SoundWith
  SoundWith-steady k w (h, p) =
      let (h', e) = begin-IsSound w h in (h', Has-Along k w.tasks (begin w).1.tasks e p)

  module _ {A : Type 0} where
    Post-all : (r : Result A × World) → SoundWith r.1 → Post (λ a w. SoundWith w) r
    Post-all (ok a, w) h = h
    Post-all (err e, w) h = tt

    -- An action that keeps the lifecycle keeps the row.
    pub Ensures-SoundWith :
        (m : M A) → IsLasting P → Keeps lifecycle m → Ensures SoundWith m (λ a w. SoundWith w)
    Ensures-SoundWith m k keeps = record {
      at = λ w h.
          let (h', e) = keeps.at w h.0 in
          Post-all (m w) (h', Has-Along k w.tasks (m w).1.tasks e h.1);
    }

  Has-update :
      (p : TaskRecord → Bool) (f : TaskRecord → TaskRecord)
      → ((t : TaskRecord) → p t ≡ true → P (f t))
      → (ts : List TaskRecord) → is_empty (select p ts) ≡ false
      → Has P (update p f ts)
  Has-update p f k [] e = cc
  Has-update p f k (t ∷ ts) e = elim (Bool-cases (p t)) [
    | inl hit ↦ inl (rw hit (k t hit))
    | inr miss ↦ inr (Has-update p f k ts (unless_hit miss))
  ]
    where
      unless_hit : p t ≡ false → is_empty (select p ts) ≡ false
      unless_hit miss = ground (arith, e)

  -- A write that has found a row has made one such.
  pub Ensures-write :
      (p : TaskRecord → Bool) (f : TaskRecord → TaskRecord)
      → ((t : TaskRecord) → IsFine t → p t ≡ true → RowObeys t (f t))
      → ((t : TaskRecord) → p t ≡ true → P (f t))
      → Ensures (IsSound lifecycle) (update_tasks p f) (λ l w. is_empty l ≡ false → SoundWith w)
  Ensures-write p f good k =
      Ensures-update_tasks p f (λ w h. (begin-IsSound w h).0)
        λ v h found. (
          record { tasks = (Obeys-update p f good v.tasks h.tasks).0; turns = h.turns },
          Has-update p f k v.tasks found,
        )

module _ {A : Type 0} where
  Post-IsSound :
      (r : Result A × World) → IsSound lifecycle r.1 → Post (λ a w. IsSound lifecycle w) r
  Post-IsSound (ok a, w) h = h
  Post-IsSound (err e, w) h = tt

  -- An action that keeps the lifecycle leaves the world sound.
  pub Ensures-IsSound :
      (m : M A) → Keeps lifecycle m → Ensures (IsSound lifecycle) m (λ a w. IsSound lifecycle w)
  Ensures-IsSound m keeps = record { at = λ w h. Post-IsSound (m w) (keeps.at w h).0 }
