-- ===== src/World/Ensures.antt =====
-- What an action that returns has made true, by one rule for each way to build an action. An action
-- that throws promises nothing here.
use carbon_contractors_com.Prelude.{
  ◌≡◌, refl, Bool, true, false, List, [], ◌∷◌, if◌then◌else◌, select, update,
}
use carbon_contractors_com.Schema.{TaskRecord}
use carbon_contractors_com.World.{
  Turn, World, Error, Result, ok, err, M, pure, throw, date_now, continue, settle, attempt, ◌>>=◌,
  begin, call, query, update_tasks, Reply, answered, refused, lost, on_reply, take_turn, database,
  write_tasks,
}

-- A fact that the writes of other requests, which come before a call, leave true.
abbrev pub Steady : (World → Type 0) → Type 0
Steady P = (w : World) → P w → P (begin w).1

module _ {A : Type 0} where
  abbrev pub Post : (A → World → Type 0) → Result A × World → Type 0
  Post Q (ok a, w) = Q a w
  Post Q (err e, w) = Unit

  pub record Ensures (P : World → Type 0) (m : M A) (Q : A → World → Type 0) : Type 0 where
    pub at : (w : World) → P w → Post Q (m w)

  pub Ensures-pure : {Q : A → World → Type 0} (a : A) → Ensures (Q a) (pure a) Q
  unfolding pure
  Ensures-pure a = record { at = λ w h. h }

  pub Ensures-throw :
      {P : World → Type 0} {Q : A → World → Type 0} (e : Error) → Ensures P (throw e) Q
  unfolding throw
  Ensures-throw e = record { at = λ w h. tt }

  pub Ensures-if :
      {P : World → Type 0} {Q : A → World → Type 0} (b : Bool) {m n : M A}
      → (b ≡ true → Ensures P m Q)
      → (b ≡ false → Ensures P n Q)
      → Ensures P (if b then m else n) Q
  Ensures-if true km kn = km refl
  Ensures-if false km kn = kn refl

  -- A fact that is not about the world is a hypothesis of what follows.
  pub Ensures-given :
      {X : Type 0} {P : World → Type 0} {m : M A} {Q : A → World → Type 0}
      → (X → Ensures P m Q)
      → Ensures (λ w. P w × X) m Q
  Ensures-given k = record { at = λ w h. (k h.1).at w h.0 }

  pub Post-map :
      {Q R : A → World → Type 0}
      → ((a : A) (w : World) → Q a w → R a w)
      → (r : Result A × World) → Post Q r
      → Post R r
  Post-map f (ok a, w) q = f a w q
  Post-map f (err e, w) q = tt

  -- A stronger promise from weaker facts.
  pub Ensures-map :
      {P P' : World → Type 0} {Q R : A → World → Type 0} {m : M A}
      → ((w : World) → P' w → P w)
      → ((a : A) (w : World) → Q a w → R a w)
      → Ensures P m Q
      → Ensures P' m R
  Ensures-map f g k = record { at = λ w h. Post-map g _ (k.at w (f w h)) }

  on_reply-Post :
      {P : World → Type 0} (Q : A → World → Type 0) (e : Error) (read : World → A)
      (write : World → World) (r : Reply) (w : World)
      → ((v : World) → P v → Q (read v) (write v))
      → P w
      → Post Q (on_reply e read write (r, w))
  on_reply-Post Q e read write answered w k h = k w h
  on_reply-Post Q e read write refused w k h = tt
  on_reply-Post Q e read write lost w k h = tt

  pub Ensures-call :
      {P : World → Type 0} {Q : A → World → Type 0} (read : World → A) (write : World → World)
      → Steady P
      → ((v : World) → P v → Q (read v) (write v))
      → Ensures P (call read write) Q
  unfolding call
  Ensures-call {Q} read write s k = record {
    at = λ w h. on_reply-Post Q database read write (begin w).0 (begin w).1 k (s w h);
  }

  pub Ensures-query :
      {P : World → Type 0} {Q : A → World → Type 0} (read : World → A)
      → Steady P
      → ((v : World) → P v → Q (read v) v)
      → Ensures P (query read) Q
  unfolding query
  Ensures-query read s k = Ensures-call read (λ w. w) s k

module _ {A : Type 0} where
  traced :
      (Q : A → World → Type 0) (m : M A) (start : World) (r : Result A × World)
      → m start ≡ r
      → Post Q r
      → Post (λ a w. Q a w × (m start ≡ (ok a, w))) r
  traced Q m start (ok a, w) e q = (q, e)
  traced Q m start (err x, w) e q = tt

  -- What follows an action may know the run of it that has led there.
  pub Ensures-traced :
      {P : World → Type 0} {Q : A → World → Type 0} {m : M A} (start : World)
      → Ensures P m Q
      → Ensures (λ w. (w ≡ start) × P w) m (λ a w. Q a w × (m start ≡ (ok a, w)))
  Ensures-traced {m} start k = record {
    at = λ w h. traced _ m start (m w) (rw h.0 refl) (k.at w h.1);
  }

  -- The world that an action starts from can be named.
  pub Ensures-from :
      {P : World → Type 0} {m : M A} {Q : A → World → Type 0}
      → ((start : World) → P start → Ensures (λ w. (w ≡ start) × P w) m Q)
      → Ensures P m Q
  Ensures-from k = record { at = λ w h. (k w h).at w (refl, h) }

module _ {A B : Type 0} where
  continue-Post :
      {Q : A → World → Type 0} {R : B → World → Type 0} (f : A → M B) (r : Result A × World)
      → ((a : A) → Ensures (Q a) (f a) R)
      → Post Q r
      → Post R (continue f r)
  continue-Post f (ok a, w) k q = (k a).at w q
  continue-Post f (err e, w) k q = tt

  pub Ensures-bind :
      {P : World → Type 0} {Q : A → World → Type 0} {R : B → World → Type 0} (m : M A) (f : A → M B)
      → Ensures P m Q
      → ((a : A) → Ensures (Q a) (f a) R)
      → Ensures P (m >>= f) R
  unfolding ◌>>=◌
  Ensures-bind m f km kf = record { at = λ w h. continue-Post f (m w) kf (km.at w h) }

pub Ensures-update_tasks :
    {P : World → Type 0} {Q : List TaskRecord → World → Type 0} (p : TaskRecord → Bool)
    (f : TaskRecord → TaskRecord)
    → Steady P
    → ((v : World) → P v → Q (select p v.tasks) (write_tasks (update p f) v))
    → Ensures P (update_tasks p f) Q
unfolding update_tasks
Ensures-update_tasks p f s k = Ensures-call (λ w. select p w.tasks) (write_tasks (update p f)) s k

pub Ensures-date_now : {P : World → Type 0} → Ensures P date_now (λ now w. P w × (now ≡ w.now))
unfolding date_now
Ensures-date_now = record { at = λ w h. (h, refl) }

take_turn-channels : (ts : List Turn) (w : World) → (take_turn ts w).1.channels ≡ w.channels
take_turn-channels [] w = refl
take_turn-channels (t ∷ ts) w = refl

-- Other requests leave the channels alone.
pub begin-channels : (w : World) → (begin w).1.channels ≡ w.channels
unfolding begin
begin-channels w = take_turn-channels w.turns w

module _ {A : Type 0} where
  Post-fact : {X : Type 0} (x : X) (r : Result A × World) → Post (λ a w. X) r
  Post-fact x (ok a, w) = x
  Post-fact x (err e, w) = tt

  -- A fact that is not about the world outlasts any action.
  pub Ensures-fact : {X : Type 0} (m : M A) → Ensures (λ w. X) m (λ a w. X)
  Ensures-fact m = record { at = λ w x. Post-fact x (m w) }

  -- An action of which nothing is known.
  pub Ensures-any : {P : World → Type 0} (m : M A) → Ensures P m (λ a w. Unit)
  Ensures-any m = record { at = λ w h. Post-fact tt (m w) }

module _ {A B : Type 0} where
  settle-Post :
      {Q : A → World → Type 0} {R : B → World → Type 0} (f : Result A → M B) (r : Result A × World)
      → ((a : A) → Ensures (Q a) (f (ok a)) R)
      → ((e : Error) → Ensures (λ w. Unit) (f (err e)) R)
      → Post Q r
      → Post R (settle f r)
  settle-Post f (ok a, w) k k' q = (k a).at w q
  settle-Post f (err e, w) k k' q = (k' e).at w tt

  -- A handler knows what the action promises only if it has returned.
  pub Ensures-attempt :
      {P : World → Type 0} {Q : A → World → Type 0} {R : B → World → Type 0} (m : M A)
      (f : Result A → M B)
      → Ensures P m Q
      → ((a : A) → Ensures (Q a) (f (ok a)) R)
      → ((e : Error) → Ensures (λ w. Unit) (f (err e)) R)
      → Ensures P (attempt m f) R
  unfolding attempt
  Ensures-attempt m f km kf ke = record { at = λ w h. settle-Post f (m w) kf ke (km.at w h) }

-- With no turns left a call is answered at once.
pub begin-quiet : (w : World) → w.turns ≡ [] → begin w ≡ (answered, w)
unfolding begin
begin-quiet w e = rw e refl

pub query-quiet :
    {A : Type 0} (read : World → A) (w : World) → w.turns ≡ [] → query read w ≡ (ok (read w), w)
unfolding query
query-quiet read w e = rw (begin-quiet w e) refl

pub update_tasks-quiet :
    (p : TaskRecord → Bool) (f : TaskRecord → TaskRecord) (w : World)
    → w.turns ≡ []
    → update_tasks p f w ≡ (ok (select p w.tasks), write_tasks (update p f) w)
unfolding update_tasks
update_tasks-quiet p f w e = rw (begin-quiet w e) refl
