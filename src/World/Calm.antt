-- ===== src/World/Calm.antt =====
-- What an action does in a world where nothing comes between its calls: no other request writes, no
-- call fails, and no time passes. One rule for each way to build an action; unlike Ensures, also of
-- an action that throws.
use carbon_contractors_com.Prelude.{
  ℕ, ◌≡◌, refl, Bool, true, false, List, [], ◌∷◌, String, if◌then◌else◌, select, update,
}
use carbon_contractors_com.Schema.{TaskRecord}
use carbon_contractors_com.World.{
  Event, World, Error, Result, ok, err, M, pure, throw, date_now, draw, notify, continue, attempt,
  ◌>>=◌, call, query, update_tasks, draw_from, write_tasks,
}
use carbon_contractors_com.World.Ensures.{begin-quiet}

module _ (P : List TaskRecord → Type 0) (now : ℕ) where
  pub record IsCalm (w : World) : Type 0 where
    pub quiet : w.turns ≡ []
    pub same_time : w.now ≡ now
    pub holds : P w.tasks

  pub record Calms {A : Type 0} (m : M A) (R : Result A → Type 0) : Type 0 where
    pub at : (w : World) → IsCalm w → IsCalm (m w).1 × R (m w).0

-- Nothing is said of the result.
abbrev pub Anything : {A : Type 0} → Result A → Type 0
Anything r = Unit

-- The action does not return.
abbrev pub IsThrown : {A : Type 0} → Result A → Type 0
IsThrown (ok a) = ⊥
IsThrown (err e) = Unit

module _ {P : List TaskRecord → Type 0} {now : ℕ} where
  module _ {A : Type 0} where
    pub Calms-pure : {R : Result A → Type 0} (a : A) → R (ok a) → Calms P now (pure a) R
    unfolding pure
    Calms-pure a r = record { at = λ w h. (h, r) }

    pub Calms-throw : {R : Result A → Type 0} (e : Error) → R (err e) → Calms P now (throw e) R
    unfolding throw
    Calms-throw e r = record { at = λ w h. (h, r) }

    pub Calms-if :
        {R : Result A → Type 0} (b : Bool) {m n : M A}
        → Calms P now m R
        → Calms P now n R
        → Calms P now (if b then m else n) R
    Calms-if true km kn = km
    Calms-if false km kn = kn

    -- A call that writes what may be written, and answers.
    pub Calms-call :
        {R : Result A → Type 0} (read : World → A) (write : World → World)
        → ((w : World) → IsCalm P now w → IsCalm P now (write w) × R (ok (read w)))
        → Calms P now (call read write) R
    unfolding call
    Calms-call read write k = record { at = λ w h. rw (begin-quiet w h.quiet) (k w h) }

    pub Calms-query :
        {R : Result A → Type 0} (read : World → A)
        → ((w : World) → IsCalm P now w → R (ok (read w)))
        → Calms P now (query read) R
    unfolding query
    Calms-query read k = Calms-call read (λ w. w) (λ w h. (h, k w h))

  module _ {A B : Type 0} where
    continue-Calm :
        (R : Result A → Type 0) {S : Result B → Type 0} (f : A → M B) (r : Result A) (w : World)
        → ((a : A) → R (ok a) → Calms P now (f a) S)
        → ((e : Error) → R (err e) → S (err e))
        → IsCalm P now w
        → R r
        → IsCalm P now (continue f (r, w)).1 × S (continue f (r, w)).0
    continue-Calm R f (ok a) w k t h r = (k a r).at w h
    continue-Calm R f (err e) w k t h r = (h, t e r)

    pub Calms-bind :
        {R : Result A → Type 0} {S : Result B → Type 0} (m : M A) (f : A → M B)
        → Calms P now m R
        → ((a : A) → R (ok a) → Calms P now (f a) S)
        → ((e : Error) → R (err e) → S (err e))
        → Calms P now (m >>= f) S
    unfolding ◌>>=◌
    Calms-bind {R} m f km kf t = record {
      at = λ w h. let (h', r) = km.at w h in continue-Calm R f (m w).0 (m w).1 kf t h' r;
    }

    pub Calms-attempt :
        {R : Result A → Type 0} {S : Result B → Type 0} (m : M A) (f : Result A → M B)
        → Calms P now m R
        → ((r : Result A) → R r → Calms P now (f r) S)
        → Calms P now (attempt m f) S
    unfolding attempt
    Calms-attempt m f km kf = record {
      at = λ w h. let (h', r) = km.at w h in (kf (m w).0 r).at (m w).1 h';
    }

  pub Calms-date_now : Calms P now date_now (λ r. r ≡ ok now)
  unfolding date_now
  Calms-date_now = record { at = λ w h. (h, rw h.same_time refl) }

  pub Calms-notify : (c : String) (e : Event) → Calms P now (notify c e) Anything
  unfolding notify
  Calms-notify c e = record {
    at = λ w h. (record { quiet = h.quiet; same_time = h.same_time; holds = h.holds }, tt);
  }

  drawn : (rs : List String) (w : World) → IsCalm P now w → IsCalm P now (draw_from rs w).1
  drawn [] w h = h
  drawn (r ∷ rs) w h = record { quiet = h.quiet; same_time = h.same_time; holds = h.holds }

  pub Calms-draw : Calms P now draw Anything
  unfolding draw
  Calms-draw = record { at = λ w h. (drawn w.randoms w h, tt) }

  pub Calms-update_tasks :
      (p : TaskRecord → Bool) (f : TaskRecord → TaskRecord)
      → ((ts : List TaskRecord) → P ts → P (update p f ts))
      → Calms P now (update_tasks p f) Anything
  unfolding update_tasks
  Calms-update_tasks p f k =
      Calms-call (λ w. select p w.tasks) (write_tasks (update p f))
        λ w h. (record { quiet = h.quiet; same_time = h.same_time; holds = k w.tasks h.holds }, tt)
