-- ===== src/Prelude/Lists.antt =====
-- Lists over the native numbers: the operations that the program's arrays need, and predicates by
-- recursion that the tactics read.
use Prim.Native.Nat.{ℕ, zero, suc, ◌+◌}
use mathlib.Core.Path.{◌≡◌, refl}
use mathlib.Core.Bool.{Bool, true, false, not, ◌||◌, ◌&&◌}
use mathlib.Core.Option.{Option, none, some}
use mathlib.Core.List.{List, [], ◌∷◌, ◌++◌}
use native.Mathlib.Omega.{arith}
use carbon_contractors_com.Prelude.Tests.{if◌then◌else◌}

module _ {ℓ} {A : Type ℓ} where
  abbrev pub length : List A → ℕ
  length [] = 0
  length (x ∷ xs) = suc (length xs)

  abbrev pub take : ℕ → List A → List A
  take zero xs = []
  take (suc n) [] = []
  take (suc n) (x ∷ xs) = x ∷ take n xs

  abbrev pub is_empty : List A → Bool
  is_empty [] = true
  is_empty (_ ∷ _) = false

  -- `Array.prototype.filter` and `WHERE`.
  abbrev pub select : (A → Bool) → List A → List A
  select p [] = []
  select p (x ∷ xs) = let rest = select p xs in if p x then x ∷ rest else rest

  -- `Array.prototype.find`, and `LIMIT 1`.
  abbrev pub first : (A → Bool) → List A → Option A
  first p [] = none
  first p (x ∷ xs) = let rest = first p xs in if p x then some x else rest

  -- `Array.prototype.some`.
  abbrev pub any : (A → Bool) → List A → Bool
  any p [] = false
  any p (x ∷ xs) = p x || any p xs

  -- `Array.prototype.every`.
  abbrev pub every : (A → Bool) → List A → Bool
  every p [] = true
  every p (x ∷ xs) = p x && every p xs

  -- How many elements pass a test.
  abbrev pub count : (A → Bool) → List A → ℕ
  count p [] = 0
  count p (x ∷ xs) = let rest = count p xs in if p x then suc rest else rest

  -- `UPDATE … SET … WHERE`: the rows that pass are rewritten in place.
  abbrev pub update : (A → Bool) → (A → A) → List A → List A
  update p f [] = []
  update p f (x ∷ xs) = (if p x then f x else x) ∷ update p f xs

abbrev pub All {ℓ κ} : {A : Type ℓ} → (A → Type κ) → List A → Type κ
All P [] = Unit
All P (x ∷ xs) = P x × All P xs

-- The n-th rows of two lists are related, and the second may go on.
abbrev pub Along {ℓ} : {A : Type ℓ} → (A → A → Type 0) → List A → List A → Type 0
Along R [] ys = Unit
Along R (x ∷ xs) [] = ⊥
Along R (x ∷ xs) (y ∷ ys) = R x y × Along R xs ys

pub length-select {ℓ} :
    {A : Type ℓ} (p : A → Bool) (xs : List A) → length (select p xs) ≡ count p xs
length-select p [] = refl
length-select p (x ∷ xs) = ground (arith, length-select p xs)

pub Along-refl {ℓ} :
    {A : Type ℓ} (R : A → A → Type 0) → ((a : A) → R a a) → (xs : List A) → Along R xs xs
Along-refl R r [] = tt
Along-refl R r (x ∷ xs) = (r x, Along-refl R r xs)

pub Along-trans {ℓ} :
    {A : Type ℓ} (R : A → A → Type 0)
    → ((a b c : A) → R a b → R b c → R a c)
    → (xs ys zs : List A) → Along R xs ys
    → Along R ys zs
    → Along R xs zs
Along-trans R t [] ys zs p q = tt
Along-trans R t (x ∷ xs) [] zs p q = elim p [ ]
Along-trans R t (x ∷ xs) (y ∷ ys) [] p q = elim q [ ]
Along-trans R t (x ∷ xs) (y ∷ ys) (z ∷ zs) (p, ps) (q, qs) =
    (t x y z p q, Along-trans R t xs ys zs ps qs)

pub length-snoc {ℓ} : {A : Type ℓ} (xs : List A) (x : A) → length (xs ++ x ∷ []) ≡ length xs + 1
length-snoc [] x = omega arith
length-snoc (y ∷ xs) x = omega (arith, length-snoc xs x)

-- What a test adds to a count.
abbrev pub hit : Bool → ℕ
hit true = 1
hit false = 0

pub count-snoc {ℓ} :
    {A : Type ℓ} (p : A → Bool) (xs : List A) (x : A)
    → count p (xs ++ x ∷ []) ≡ count p xs + hit (p x)
count-snoc p [] x = ground arith
count-snoc p (y ∷ xs) x = ground (arith, count-snoc p xs x)

pub count-not {ℓ} :
    {A : Type ℓ} (p : A → Bool) (xs : List A) → count p xs + count (λ x. not (p x)) xs ≡ length xs
count-not p [] = refl
count-not p (x ∷ xs) = ground (arith, count-not p xs)

pub All-snoc {ℓ κ} :
    {A : Type ℓ} (P : A → Type κ) (xs : List A) (x : A) → All P xs → P x → All P (xs ++ x ∷ [])
All-snoc P [] x h p = (p, tt)
All-snoc P (y ∷ xs) x (h, hs) p = (h, All-snoc P xs x hs p)

-- What `find` has found passes the test.
abbrev pub Passes {ℓ} : {A : Type ℓ} → (A → Bool) → Option A → Type 0
Passes p none = Unit
Passes p (some x) = p x ≡ true

Passes-if {ℓ} :
    {A : Type ℓ} (p : A → Bool) (x : A) (o : Option A) (b : Bool)
    → p x ≡ b
    → Passes p o
    → Passes p (if b then some x else o)
Passes-if p x o true e h = e
Passes-if p x o false e h = h

pub first-Passes {ℓ} : {A : Type ℓ} (p : A → Bool) (xs : List A) → Passes p (first p xs)
first-Passes p [] = tt
first-Passes p (x ∷ xs) = Passes-if p x (first p xs) (p x) refl (first-Passes p xs)

-- The head is what has been found, or it is not.
module _ {ℓ} {A : Type ℓ} (x t : A) (rest : Option A) where
  pub found_here : (b : Bool) → b ≡ true → (if b then some x else rest) ≡ some t → x ≡ t
  found_here true h e = cc
  found_here false h e = cc

  pub found_there : (b : Bool) → b ≡ false → (if b then some x else rest) ≡ some t → rest ≡ some t
  found_there true h e = cc
  found_there false h e = e
