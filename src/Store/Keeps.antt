-- ===== src/Store/Keeps.antt =====
-- What an action on a store keeps: a law is an invariant of the store and a relation between the
-- store before and after. The writes of others are taken to obey it, and what is shown is that the
-- action obeys it too, whether it returns or throws.
use carbon_contractors_com.Prelude.{
  ◌≡◌, refl, Bool, true, false, List, [], ◌∷◌, String, if◌then◌else◌, All,
}
use carbon_contractors_com.World.{Error, Result, ok, err, Reply, answered, refused, lost}
use carbon_contractors_com.Store.{
  Turn, Machine, M, pure, throw, date_now, draw, draw_from, take_turn, on_reply, call, query,
  continue, attempt, ◌>>=◌,
}

pub record Law (S : Type 0) : Type 1 where
  pub Holds : S → Type 0
  pub Evolves : S → S → Type 0
  pub evolves_refl : (s : S) → Evolves s s
  pub evolves_trans : (s t u : S) → Evolves s t → Evolves t u → Evolves s u

module _ {S : Type 0} where
  abbrev pub Obeys : Law S → (S → S) → Type 0
  Obeys l f = (s : S) → l.Holds s → l.Holds (f s) × l.Evolves s (f s)

  pub record IsLawful (l : Law S) (m : Machine S) : Type 0 where
    pub store : l.Holds m.store
    pub turns : All (λ t. Obeys l t.others) m.turns

  -- Where an action leads.
  abbrev pub Leads : Law S → Machine S → Machine S → Type 0
  Leads l m n = IsLawful l n × l.Evolves m.store n.store

  pub record Keeps (l : Law S) {A : Type 0} (a : M S A) : Type 0 where
    pub at : (m : Machine S) → IsLawful l m → Leads l m (a m).1

-- A write that obeys the law, given what is true when it is carried out.
abbrev pub Writes : {S : Type 0} → Law S → (Machine S → Machine S) → Type 0
Writes l write = (m : Machine _) → IsLawful l m → Leads l m (write m)

module _ {S : Type 0} {l : Law S} where
  take_turn-IsLawful :
      (ts : List (Turn S)) (m : Machine S)
      → l.Holds m.store
      → All (λ t. Obeys l t.others) ts
      → m.turns ≡ ts
      → Leads l m (take_turn ts m).1
  take_turn-IsLawful [] m h o e = (record { store = h; turns = rw e tt }, l.evolves_refl m.store)
  take_turn-IsLawful (t ∷ ts) m h (o, os) e =
      let (h', e') = o m.store h in (record { store = h'; turns = os }, e')

module _ {S : Type 0} {l : Law S} {A : Type 0} where
  pub Keeps-pure : (a : A) → Keeps l (pure a)
  unfolding pure
  Keeps-pure a = record { at = λ m h. (h, l.evolves_refl m.store) }

  pub Keeps-throw : (e : Error) → Keeps l (throw {A = A} e)
  unfolding throw
  Keeps-throw e = record { at = λ m h. (h, l.evolves_refl m.store) }

  pub Keeps-if : (b : Bool) (m n : M S A) → Keeps l m → Keeps l n → Keeps l (if b then m else n)
  Keeps-if true m n km kn = km
  Keeps-if false m n km kn = kn

  on_reply-IsLawful :
      (m : Machine S) (read : Machine S → Result A) (write : Machine S → Machine S) (r : Reply)
      (n : Machine S)
      → Writes l write
      → Leads l m n
      → Leads l m (on_reply read write (r, n)).1
  on_reply-IsLawful m read write refused n k h = h
  on_reply-IsLawful m read write answered n k (h, e) =
      let (h', e') = k n h in (h', l.evolves_trans m.store n.store _ e e')
  on_reply-IsLawful m read write lost n k (h, e) =
      let (h', e') = k n h in (h', l.evolves_trans m.store n.store _ e e')

  pub Keeps-call :
      (read : Machine S → Result A) (write : Machine S → Machine S)
      → Writes l write
      → Keeps l (call read write)
  unfolding call
  Keeps-call read write k = record {
    at = λ m h.
        on_reply-IsLawful m read write (take_turn m.turns m).0 (take_turn m.turns m).1 k
          (take_turn-IsLawful m.turns m h.store h.turns refl);
  }

  pub Keeps-query : (read : Machine S → A) → Keeps l (query read)
  unfolding query
  Keeps-query read = Keeps-call (λ m. ok (read m)) (λ m. m) (λ m h. (h, l.evolves_refl m.store))

module _ {S : Type 0} {l : Law S} where
  pub Keeps-date_now : Keeps l date_now
  unfolding date_now
  Keeps-date_now = record { at = λ m h. (h, l.evolves_refl m.store) }

  draw_from-IsLawful :
      (rs : List String) (m : Machine S) → IsLawful l m → Leads l m (draw_from rs m).1
  draw_from-IsLawful [] m h = (h, l.evolves_refl m.store)
  draw_from-IsLawful (r ∷ rs) m h =
      (record { store = h.store; turns = h.turns }, l.evolves_refl m.store)

  pub Keeps-draw : Keeps l draw
  unfolding draw
  Keeps-draw = record { at = λ m h. draw_from-IsLawful m.randoms m h }

module _ {S : Type 0} {l : Law S} {A B : Type 0} where
  continue-IsLawful :
      (m : Machine S) (r : Result A) (n : Machine S) (f : A → M S B)
      → ((a : A) → Keeps l (f a))
      → Leads l m n
      → Leads l m (continue f (r, n)).1
  continue-IsLawful m (ok a) n f k (h, e) =
      let (h', e') = (k a).at n h in (h', l.evolves_trans m.store n.store _ e e')
  continue-IsLawful m (err x) n f k h = h

  pub Keeps-bind :
      (a : M S A) (f : A → M S B) → Keeps l a → ((x : A) → Keeps l (f x)) → Keeps l (a >>= f)
  unfolding ◌>>=◌
  Keeps-bind a f ka kf = record { at = λ m h. continue-IsLawful m (a m).0 (a m).1 f kf (ka.at m h) }

  pub Keeps-attempt :
      (a : M S A) (f : Result A → M S B)
      → Keeps l a
      → ((r : Result A) → Keeps l (f r))
      → Keeps l (attempt a f)
  unfolding attempt
  Keeps-attempt a f ka kf = record {
    at = λ m h.
        let (h', e) = ka.at m h in
        let (h'', e') = (kf (a m).0).at (a m).1 h' in
        (h'', l.evolves_trans m.store (a m).1.store _ e e');
  }

pub ruleset store_rules =
    (Keeps-pure, Keeps-throw, Keeps-if, Keeps-date_now, Keeps-draw, Keeps-bind, Keeps-query)
