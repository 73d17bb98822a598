-- ===== src/Checker/Selections.antt =====
-- What it means that a check has selected nothing to complain of.
use carbon_contractors_com.Prelude.{
  ◌≡◌, refl, sym, ◌↔◌, Bool, true, false, not, ◌&&◌, ◌||◌, List, [], ◌∷◌, map, if◌then◌else◌,
  is_empty, select, All, arith,
}

pub absurd : {P : Type 0} → false ≡ true → P
absurd e = cc

clear_step :
    {A : Type 0} (x : A) (xs : List A) (b : Bool) (P Q : Type 0)
    → (b ≡ false) ↔ P
    → (is_empty xs ≡ true) ↔ Q
    → (is_empty (if b then x ∷ xs else xs) ≡ true) ↔ P × Q
clear_step x xs true P Q f g = ((λ e. absurd e), λ (p, q). absurd (sym (f.1 p)))
clear_step x xs false P Q f g = ((λ e. (f.0 refl, g.0 e)), λ (p, q). g.1 q)

pub All-clear :
    {A : Type 0} (p : A → Bool) (P : A → Type 0)
    → ((a : A) → (p a ≡ false) ↔ P a)
    → (xs : List A) → (is_empty (select p xs) ≡ true) ↔ All P xs
All-clear p P h [] = (λ _. tt, λ _. refl)
All-clear p P h (x ∷ xs) = clear_step x _ (p x) _ _ (h x) (All-clear p P h xs)

select-map :
    {A B : Type 0} (p : B → Bool) (f : A → B) (xs : List A)
    → is_empty (select p (map f xs)) ≡ is_empty (select (λ a. p (f a)) xs)
select-map p f [] = refl
select-map p f (x ∷ xs) = ground (arith, select-map p f xs)

-- No reading is selected exactly when each artefact is as it should be.
pub All-clear_map :
    {A B : Type 0} (p : B → Bool) (f : A → B) (P : A → Type 0)
    → ((a : A) → (p (f a) ≡ false) ↔ P a)
    → (xs : List A) → (is_empty (select p (map f xs)) ≡ true) ↔ All P xs
All-clear_map p f P h xs = rw (select-map p f xs) (All-clear (λ a. p (f a)) P h xs)

pub and_true : (b : Bool) → ((b && true) ≡ true) ↔ (b ≡ true)
and_true b = ground arith

-- The two selections are both empty exactly when the selection of either is.
pub neither_selected :
    {A : Type 0} (p q : A → Bool) (xs : List A)
    → ((is_empty (select p xs) && is_empty (select q xs)) ≡ true)
      ↔ (is_empty (select (λ x. p x || q x) xs) ≡ true)
neither_selected p q [] = (λ e. e, λ e. e)
neither_selected p q (x ∷ xs) = ground (arith, neither_selected p q xs)

pub iff_trans : {P Q R : Type 0} → P ↔ Q → Q ↔ R → P ↔ R
iff_trans f g = ((λ p. g.0 (f.0 p)), λ r. f.1 (g.1 r))

pub both_iff :
    {P Q : Type 0} (a b : Bool) → (a ≡ true) ↔ P → (b ≡ true) ↔ Q → ((a && b) ≡ true) ↔ P × Q
both_iff true b f g = ((λ e. (f.0 refl, g.0 e)), λ (p, q). g.1 q)
both_iff false b f g = ((λ e. absurd e), λ (p, q). f.1 p)

pub not-false_iff : (b : Bool) → (not b ≡ false) ↔ (b ≡ true)
not-false_iff b = ground arith
