-- ===== src/World/Keeps.antt =====
-- What an action keeps, by one rule for each way to build an action. A discipline is an
-- invariant of the table and a relation between the table before and after; the writes of other
-- requests are taken to obey it, and an action that keeps it obeys it too, whether it returns or
-- throws.
use carbon_contractors_com.Prelude.{
  ◌≡◌, refl, Bool, true, false, List, [], ◌∷◌, String, if◌then◌else◌, All, select, update,
}
use carbon_contractors_com.Schema.{TaskRecord}
use carbon_contractors_com.World.{
  Event, Turn, World, Error, Result, ok, err, M, pure, throw, date_now, draw, notify, continue,
  attempt, ◌>>=◌, begin, call, query, update_tasks, Reply, answered, refused, lost, on_reply,
  draw_from, take_turn, database, write_tasks,
}

pub record Discipline : Type 1 where
  pub Holds : List TaskRecord → Type 0
  pub Evolves : List TaskRecord → List TaskRecord → Type 0
  pub evolves_refl : (ts : List TaskRecord) → Evolves ts ts
  pub evolves_trans : (ts us vs : List TaskRecord) → Evolves ts us → Evolves us vs → Evolves ts vs

-- A change of the table that obeys the discipline.
abbrev pub Obeys : Discipline → (List TaskRecord → List TaskRecord) → Type 0
Obeys d f = (ts : List TaskRecord) → d.Holds ts → d.Holds (f ts) × d.Evolves ts (f ts)

pub record IsSound (d : Discipline) (w : World) : Type 0 where
  pub tasks : d.Holds w.tasks
  pub turns : All (λ t. Obeys d t.others) w.turns

pub record Keeps (d : Discipline) {A : Type 0} (m : M A) : Type 0 where
  pub at : (w : World) → IsSound d w → IsSound d (m w).1 × d.Evolves w.tasks (m w).1.tasks

module _ {d : Discipline} {A : Type 0} where
  pub Keeps-pure : (a : A) → Keeps d (pure a)
  unfolding pure
  Keeps-pure a = record { at = λ w h. (h, d.evolves_refl w.tasks) }

  pub Keeps-throw : (e : Error) → Keeps d (throw {A = A} e)
  unfolding throw
  Keeps-throw e = record { at = λ w h. (h, d.evolves_refl w.tasks) }

  pub Keeps-if : (b : Bool) (m n : M A) → Keeps d m → Keeps d n → Keeps d (if b then m else n)
  Keeps-if true m n km kn = km
  Keeps-if false m n km kn = kn

module _ {d : Discipline} where
  pub Keeps-date_now : Keeps d date_now
  unfolding date_now
  Keeps-date_now = record { at = λ w h. (h, d.evolves_refl w.tasks) }

  pub Keeps-notify : (c : String) (e : Event) → Keeps d (notify c e)
  unfolding notify
  Keeps-notify c e = record {
    at = λ w h. (record { tasks = h.tasks; turns = h.turns }, d.evolves_refl w.tasks);
  }

  draw_from-IsSound :
      (rs : List String) (w : World)
      → IsSound d w
      → IsSound d (draw_from rs w).1 × d.Evolves w.tasks (draw_from rs w).1.tasks
  draw_from-IsSound [] w h = (h, d.evolves_refl w.tasks)
  draw_from-IsSound (r ∷ rs) w h =
      (record { tasks = h.tasks; turns = h.turns }, d.evolves_refl w.tasks)

  pub Keeps-draw : Keeps d draw
  unfolding draw
  Keeps-draw = record { at = λ w h. draw_from-IsSound w.randoms w h }

  take_turn-IsSound :
      (ts : List Turn) (w : World)
      → d.Holds w.tasks
      → All (λ t. Obeys d t.others) ts
      → w.turns ≡ ts
      → IsSound d (take_turn ts w).1 × d.Evolves w.tasks (take_turn ts w).1.tasks
  take_turn-IsSound [] w h o e = (record { tasks = h; turns = rw e tt }, d.evolves_refl w.tasks)
  take_turn-IsSound (t ∷ ts) w h (o, os) e =
      let (h', e') = o w.tasks h in (record { tasks = h'; turns = os }, e')

  pub begin-IsSound :
      (w : World) → IsSound d w → IsSound d (begin w).1 × d.Evolves w.tasks (begin w).1.tasks
  unfolding begin
  begin-IsSound w h = take_turn-IsSound w.turns w h.tasks h.turns refl

module _ {d : Discipline} {A B : Type 0} where
  continue-IsSound :
      (ts : List TaskRecord) (r : Result A) (w : World) (f : A → M B)
      → ((a : A) → Keeps d (f a))
      → IsSound d w
      → d.Evolves ts w.tasks
      → IsSound d (continue f (r, w)).1 × d.Evolves ts (continue f (r, w)).1.tasks
  continue-IsSound ts (ok a) w f k h e =
      let (h', e') = (k a).at w h in (h', d.evolves_trans ts w.tasks _ e e')
  continue-IsSound ts (err x) w f k h e = (h, e)

  pub Keeps-bind :
      (m : M A) (f : A → M B) → Keeps d m → ((a : A) → Keeps d (f a)) → Keeps d (m >>= f)
  unfolding ◌>>=◌
  Keeps-bind m f km kf = record {
    at = λ w h. let (h', e) = km.at w h in continue-IsSound w.tasks (m w).0 (m w).1 f kf h' e;
  }

  pub Keeps-attempt :
      (m : M A) (f : Result A → M B)
      → Keeps d m
      → ((r : Result A) → Keeps d (f r))
      → Keeps d (attempt m f)
  unfolding attempt
  Keeps-attempt m f km kf = record {
    at = λ w h.
        let (h', e) = km.at w h in
        let (h'', e') = (kf (m w).0).at (m w).1 h' in
        (h'', d.evolves_trans w.tasks (m w).1.tasks _ e e');
  }

-- A write of the world that obeys the discipline.
abbrev pub Writes : Discipline → (World → World) → Type 0
Writes d write = (w : World) → IsSound d w → IsSound d (write w) × d.Evolves w.tasks (write w).tasks

module _ {d : Discipline} {A : Type 0} where
  on_reply-IsSound :
      (ts : List TaskRecord) (e : Error) (read : World → A) (write : World → World) (r : Reply)
      (w : World)
      → Writes d write
      → IsSound d w
      → d.Evolves ts w.tasks
      → IsSound d (on_reply e read write (r, w)).1
        × d.Evolves ts (on_reply e read write (r, w)).1.tasks
  on_reply-IsSound ts e read write refused w k h ev = (h, ev)
  on_reply-IsSound ts e read write answered w k h ev =
      let (h', ev') = k w h in (h', d.evolves_trans ts w.tasks _ ev ev')
  on_reply-IsSound ts e read write lost w k h ev =
      let (h', ev') = k w h in (h', d.evolves_trans ts w.tasks _ ev ev')

  pub Keeps-call :
      (read : World → A) (write : World → World) → Writes d write → Keeps d (call read write)
  unfolding call
  Keeps-call read write k = record {
    at = λ w h.
        let (h', e) = begin-IsSound w h in
        on_reply-IsSound w.tasks database read write (begin w).0 (begin w).1 k h' e;
  }

  pub Keeps-query : (read : World → A) → Keeps d (query read)
  unfolding query
  Keeps-query read = Keeps-call read (λ w. w) (λ w h. (h, d.evolves_refl w.tasks))

module _ {d : Discipline} where
  pub Keeps-update_tasks :
      (p : TaskRecord → Bool) (f : TaskRecord → TaskRecord)
      → Obeys d (update p f)
      → Keeps d (update_tasks p f)
  unfolding update_tasks
  Keeps-update_tasks p f k =
      Keeps-call (λ w. select p w.tasks) (write_tasks (update p f))
        λ w h. let (h', e) = k w.tasks h.tasks in (record { tasks = h'; turns = h.turns }, e)

pub ruleset keeps_rules = (
  Keeps-pure, Keeps-throw, Keeps-if, Keeps-date_now, Keeps-notify, Keeps-draw, Keeps-bind,
  Keeps-query,
)
