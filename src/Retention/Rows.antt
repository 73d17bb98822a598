-- ===== src/Retention/Rows.antt =====
-- Tables whose rows have ids of their own, and what a write to the row of one id does.
use carbon_contractors_com.Prelude.{
  select, some, not, first, ◌++◌, if◌then◌else◌, Along, ◌≡◌, refl, subst, Bool, true, false, some,
  List, [], ◌∷◌, ◌++◌, String, same, same_iff, same_refl, if◌then◌else◌, All, first, update, arith,
  Bool-cases, found_here, found_there, inl, inr,
}
use carbon_contractors_com.Schema.{TaskRecord}
use carbon_contractors_com.Retention.{has_row_id}

abbrev pub Absent : String → List TaskRecord → Type 0
Absent i ts = All (λ t. same t.id i ≡ false) ts

abbrev pub Distinct : List TaskRecord → Type 0
Distinct [] = Unit
Distinct (t ∷ ts) = Absent t.id ts × Distinct ts

pub same_comm : (s t : String) → same s t ≡ false → same t s ≡ false
same_comm s t e = ground (arith, same_iff s t, same_iff t s)

module _ (f : TaskRecord → TaskRecord) (p : TaskRecord → Bool)
    (keeps : (t : TaskRecord) → (f t).id ≡ t.id) where
  Absent-if :
      (i : String) (b : Bool) (t : TaskRecord)
      → same t.id i ≡ false
      → same (if b then f t else t).id i ≡ false
  Absent-if i true t h = rw (keeps t) h
  Absent-if i false t h = h

  pub Absent-update : (i : String) (ts : List TaskRecord) → Absent i ts → Absent i (update p f ts)
  Absent-update i [] h = tt
  Absent-update i (t ∷ ts) (h, hs) = (Absent-if i (p t) t h, Absent-update i ts hs)

  id-if : (b : Bool) (t : TaskRecord) → (if b then f t else t).id ≡ t.id
  id-if true t = keeps t
  id-if false t = refl

  pub Distinct-update : (ts : List TaskRecord) → Distinct ts → Distinct (update p f ts)
  Distinct-update [] h = tt
  Distinct-update (t ∷ ts) (h, hs) =
      (rw (id-if (p t) t) (Absent-update t.id ts h), Distinct-update ts hs)

-- A write to the id of no row changes nothing.
pub update-Absent :
    (i : String) (f : TaskRecord → TaskRecord) (ts : List TaskRecord)
    → Absent i ts
    → update (has_row_id i) f ts ≡ ts
unfolding has_row_id
update-Absent i f [] h = refl
update-Absent i f (t ∷ ts) (h, hs) = ground (arith, update-Absent i f ts hs)

-- The row of an id among others.
pub first-middle :
    (t : TaskRecord) (ts us : List TaskRecord)
    → Absent t.id ts
    → first (has_row_id t.id) (ts ++ t ∷ us) ≡ some t
unfolding has_row_id
first-middle t [] us h = ground (arith, same_refl t.id)
first-middle t (x ∷ ts) us (h, hs) = ground (arith, first-middle t ts us hs)

pub update-middle :
    (f : TaskRecord → TaskRecord) (t : TaskRecord) (ts us : List TaskRecord)
    → Absent t.id ts
    → Absent t.id us
    → update (has_row_id t.id) f (ts ++ t ∷ us) ≡ ts ++ f t ∷ us
unfolding has_row_id
update-middle f t [] us h k = ground (arith, same_refl t.id, update-Absent t.id f us k)
update-middle f t (x ∷ ts) us (h, hs) k = ground (arith, update-middle f t ts us hs k)

none_other :
    (i : String) (t : TaskRecord) (ts : List TaskRecord)
    → Absent i ts
    → All (λ u. same u.id i ≡ true → u ≡ t) ts
none_other i t [] h = tt
none_other i t (x ∷ ts) (h, hs) = ((λ e. cc), none_other i t ts hs)

only_here :
    (i : String) (t x : TaskRecord) (ts : List TaskRecord)
    → Absent x.id ts
    → same x.id i ≡ true
    → x ≡ t
    → All (λ u. same u.id i ≡ true → u ≡ t) (x ∷ ts)
only_here i t x ts h here e = (
  (λ _. e),
  subst (λ j. All (λ u. same u.id j ≡ true → u ≡ t) ts) ((same_iff x.id i).0 here)
      (none_other x.id t ts h),
)

-- The row that is found by an id is the only one with it.
pub only_one :
    (i : String) (t : TaskRecord) (ts : List TaskRecord)
    → Distinct ts
    → first (has_row_id i) ts ≡ some t
    → All (λ u. same u.id i ≡ true → u ≡ t) ts
unfolding has_row_id
only_one i t [] d e = tt
only_one i t (x ∷ ts) (absent, d) e = elim (Bool-cases (same x.id i)) [
  | inl here ↦ only_here i t x ts absent here (found_here x t _ (same x.id i) here e)
  | inr there ↦ ((λ h. cc), only_one i t ts d (found_there x t _ (same x.id i) there e))
]

pub All-select :
    {A : Type 0} (P : A → Type 0) (p : A → Bool) (xs : List A) → All P xs → All P (select p xs)
All-select P p [] h = tt
All-select P p (x ∷ xs) (h, hs) = ground (arith, All-select P p xs hs)

pub not-same-select :
    (i : String) (hs : List (String × String))
    → All (λ h. same h.0 i ≡ false) (select (λ h. not (same h.0 i)) hs)
not-same-select i [] = tt
not-same-select i (x ∷ xs) = ground (arith, not-same-select i xs)

update-if-All :
    {A : Type 0} (f : A → A) (P Q : A → Type 0) (b : Bool) (x : A)
    → (b ≡ true → Q (f x))
    → (b ≡ false → P x → Q x)
    → P x
    → Q (if b then f x else x)
update-if-All f P Q true x g h k = g refl
update-if-All f P Q false x g h k = h refl k

pub update-All :
    {A : Type 0} (p : A → Bool) (f : A → A) (P Q : A → Type 0) (xs : List A)
    → All P xs
    → All (λ x. p x ≡ true → Q (f x)) xs
    → ((x : A) → p x ≡ false → P x → Q x)
    → All Q (update p f xs)
update-All p f P Q [] h g k = tt
update-All p f P Q (x ∷ xs) (h, hs) (g, gs) k =
    (update-if-All f P Q (p x) x g (k x) h, update-All p f P Q xs hs gs k)

pub update-Along :
    {A : Type 0} (p : A → Bool) (f : A → A) (R : A → A → Type 0) (xs : List A)
    → All (λ x. p x ≡ true → R x (f x)) xs
    → ((x : A) → R x x)
    → Along R xs (update p f xs)
update-Along p f R [] g k = tt
update-Along p f R (x ∷ xs) (g, gs) k = (
  update-if-All f (λ y. Unit {0}) (λ y. R x y) (p x) x g (λ _ _. k x) tt,
  update-Along p f R xs gs k,
)
