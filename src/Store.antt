-- ===== src/Store.antt =====
-- The calls of the database by code that works on other tables than the tasks alone, over any store.
-- As with the world of the tasks, a call takes time, others may write the store before it is
-- carried out, and it may be refused, or carried out with its answer lost.
pub mod Keeps
use carbon_contractors_com.Prelude.{
  ℕ, ◌+◌, ◌≡◌, refl, ap, Bool, true, false, List, [], ◌∷◌, String, if◌then◌else◌,
}
use carbon_contractors_com.World.{Error, Result, ok, err, Reply, answered, refused, lost, database}

pub record Turn (S : Type 0) : Type 0 where
  pub reply : Reply
  pub elapsed : ℕ
  pub others : S → S

pub record Machine (S : Type 0) : Type 0 where
  pub store : S
  pub now : ℕ
  pub turns : List (Turn S)
  pub randoms : List String

abbrev pub M : Type 0 → Type 0 → Type 0
M S A = Machine S → Result A × Machine S

abbrev pub take_turn : {S : Type 0} → List (Turn S) → Machine S → Reply × Machine S
take_turn [] m = (answered, m)
take_turn (t ∷ ts) m =
    (t.reply, record m { store = t.others m.store; now = m.now + t.elapsed; turns = ts })

module _ {S A : Type 0} where
  unfoldable pub pure : A → M S A
  pure a m = (ok a, m)

  unfoldable pub throw : Error → M S A
  throw e m = (err e, m)

  abbrev pub on_reply :
      (Machine S → Result A) → (Machine S → Machine S) → Reply × Machine S → Result A × Machine S
  on_reply read write (answered, m) = (read m, write m)
  on_reply read write (refused, m) = (err database, m)
  on_reply read write (lost, m) = (err database, write m)

  -- One statement or one stored procedure: what it answers is read, and what it writes is written,
  -- at the same moment. It may answer with an error of its own.
  unfoldable pub call : (Machine S → Result A) → (Machine S → Machine S) → M S A
  call read write m = on_reply read write (take_turn m.turns m)

  unfoldable pub query : (Machine S → A) → M S A
  unfolding call
  query read = call (λ m. ok (read m)) (λ m. m)

abbrev pub write_store : {S : Type 0} → (S → S) → Machine S → Machine S
write_store f m = record m { store = f m.store }

unfoldable pub date_now : {S : Type 0} → M S ℕ
date_now m = (ok m.now, m)

abbrev pub draw_from : {S : Type 0} → List String → M S String
draw_from [] m = (ok "", m)
draw_from (r ∷ rs) m = (ok r, record m { randoms = rs })

-- The next value of the random source.
unfoldable pub draw : {S : Type 0} → M S String
draw m = draw_from m.randoms m

module _ {S A B : Type 0} where
  abbrev pub continue : (A → M S B) → Result A × Machine S → Result B × Machine S
  continue f (ok a, m) = f a m
  continue f (err e, m) = (err e, m)

  abbrev pub settle : (Result A → M S B) → Result A × Machine S → Result B × Machine S
  settle f (r, m) = f r m

  -- `try { … } catch { … }`, and the check of the error that a call hands back.
  unfoldable pub attempt : M S A → (Result A → M S B) → M S B
  attempt m f w = settle f (m w)

  infixl 5 ◌>>=◌ ◌>>◌
  -- Opening this opens the actions above too.
  unfoldable pub ◌>>=◌ : M S A → (A → M S B) → M S B
  unfolding pure throw date_now draw attempt
  ◌>>=◌ m f w = continue f (m w)

  abbrev pub ◌>>◌ : M S A → M S B → M S B
  m >> k = m >>= λ _. k

-- With no turns left a call is answered at once.
module _ {S A : Type 0} where
  pub call-quiet :
      (read : Machine S → Result A) (write : Machine S → Machine S) (m : Machine S)
      → m.turns ≡ []
      → call read write m ≡ (read m, write m)
  unfolding call
  call-quiet read write m quiet = ap (λ ts. on_reply read write (take_turn ts m)) quiet

  pub query-quiet :
      (read : Machine S → A) (m : Machine S) → m.turns ≡ [] → query read m ≡ (ok (read m), m)
  unfolding query
  query-quiet read m quiet = call-quiet (λ m. ok (read m)) (λ m. m) m quiet
