-- ===== src/World/Yields.antt =====
-- Actions that never throw, and what holds of the value that they return in every world.
use carbon_contractors_com.Prelude.{◌≡◌, refl, Bool, true, false, String, if◌then◌else◌}
use carbon_contractors_com.World.{
  Event, World, Result, ok, err, M, pure, date_now, notify, continue, attempt, ◌>>=◌,
}

module _ {A : Type 0} where
  abbrev pub Returned : (A → Type 0) → Result A → Type 0
  Returned Q (ok a) = Q a
  Returned Q (err e) = ⊥

  pub record Yields (m : M A) (Q : A → Type 0) : Type 0 where
    pub at : (w : World) → Returned Q (m w).0

  pub Yields-pure : {Q : A → Type 0} (a : A) → Q a → Yields (pure a) Q
  unfolding pure
  Yields-pure a q = record { at = λ w. q }

  pub Yields-if :
      {Q : A → Type 0} (b : Bool) {m n : M A}
      → (b ≡ true → Yields m Q)
      → (b ≡ false → Yields n Q)
      → Yields (if b then m else n) Q
  Yields-if true km kn = km refl
  Yields-if false km kn = kn refl

  Returned-map :
      {Q R : A → Type 0} → ((a : A) → Q a → R a) → (r : Result A) → Returned Q r → Returned R r
  Returned-map f (ok a) q = f a q
  Returned-map f (err e) q = elim q [ ]

  pub Yields-map : {Q R : A → Type 0} {m : M A} → ((a : A) → Q a → R a) → Yields m Q → Yields m R
  Yields-map f k = record { at = λ w. Returned-map f _ (k.at w) }

module _ {A B : Type 0} where
  continue-Returned :
      {Q : A → Type 0} {R : B → Type 0} (f : A → M B) (r : Result A) (w : World)
      → ((a : A) → Q a → Yields (f a) R)
      → Returned Q r
      → Returned R (continue f (r, w)).0
  continue-Returned f (ok a) w k q = (k a q).at w
  continue-Returned f (err e) w k q = elim q [ ]

  pub Yields-bind :
      {Q : A → Type 0} {R : B → Type 0} (m : M A) (f : A → M B)
      → Yields m Q
      → ((a : A) → Q a → Yields (f a) R)
      → Yields (m >>= f) R
  unfolding ◌>>=◌
  Yields-bind m f km kf = record { at = λ w. continue-Returned f (m w).0 (m w).1 kf (km.at w) }

  -- A handler that deals with every result makes any action return.
  pub Yields-attempt :
      {R : B → Type 0} (m : M A) (f : Result A → M B)
      → ((r : Result A) → Yields (f r) R)
      → Yields (attempt m f) R
  unfolding attempt
  Yields-attempt m f k = record { at = λ w. (k (m w).0).at (m w).1 }

pub Yields-date_now : Yields date_now (λ _. Unit)
unfolding date_now
Yields-date_now = record { at = λ w. tt }

pub Yields-notify : (c : String) (e : Event) → Yields (notify c e) (λ _. Unit)
unfolding notify
Yields-notify c e = record { at = λ w. tt }
