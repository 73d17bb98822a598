-- ===== src/Checker/Cap.antt =====
-- The similarity cap: the highest similarity is within it exactly when each is.
use carbon_contractors_com.Prelude.{
  ℕ, zero, suc, ◌≤◌, ◌*◌, ◌≡◌, refl, ap, subst, ◌∙◌, ◌↔◌, inl, inr, Bool, true, false, Option, none,
  some, List, [], ◌∷◌, if◌then◌else◌, length, All, arith, leb, ◌==◌, ==_iff, leb→le, Bool-cases,
}
use carbon_contractors_com.Checker.Hashes.{
  Similarity, hamming_hex, distance_from, similarity_at, highest_from, max_similarity, raise,
  is_above, is_too_similar, is_within_cap,
}
use carbon_contractors_com.Checker.Evidence.{Threshold}

pub mul_mono : (a b c : ℕ) → a ≤ b → a * c ≤ b * c
mul_mono a b zero h = omega arith
mul_mono a b (suc c) h = omega (arith, mul_mono a b c h)

mul_cancel : (a b c : ℕ) → 1 ≤ c → a * c ≤ b * c → a ≤ b
mul_cancel a b c h le = elim (Bool-cases (leb a b)) [
  | inl e ↦ leb→le a b e
  | inr e ↦ omega (arith, le, h, mul_mono (suc b) a c (ground arith))
]

lower_within : (a b n p q : ℕ) → a ≤ n → a * n ≤ b * n → b * p ≤ q * n → a * p ≤ q * n
lower_within a b zero p q h le w = omega (arith, mul_mono a 0 p h)
lower_within a b (suc n) p q h le w =
    omega (arith, w, mul_mono a b p (mul_cancel a b (suc n) (omega arith) le))

-- A similarity over the given number of bits.
IsOver : ℕ → Similarity → Type 0
IsOver n s = (s.bits ≡ n) × (s.matching ≤ n)

-- The reference has the artefact's width and is not too similar to it.
unfoldable pub Differs : Threshold → List ℕ → List ℕ → Type 0
Differs t artifact reference =
    (length reference ≡ length artifact)
    × (is_too_similar t (similarity_at (distance_from 0 reference artifact) reference) ≡ false)

pub is_too_similar_iff :
    (t : Threshold) (s : Similarity)
    → (is_too_similar t s ≡ false) ↔ (s.matching * t.denominator ≤ t.numerator * s.bits)
unfolding is_too_similar
is_too_similar_iff t s = ground arith

above_le : (s h : Similarity) → is_above s h ≡ true → h.matching * s.bits ≤ s.matching * h.bits
unfolding is_above
above_le s h e = ground arith

not_above_le : (s h : Similarity) → is_above s h ≡ false → s.matching * h.bits ≤ h.matching * s.bits
unfolding is_above
not_above_le s h e = ground arith

-- What is no more similar than one within the cap is within it.
below-within :
    (t : Threshold) (n : ℕ) (a b : Similarity)
    → IsOver n a
    → IsOver n b
    → a.matching * b.bits ≤ b.matching * a.bits
    → is_too_similar t b ≡ false
    → is_too_similar t a ≡ false
unfolding IsOver
below-within t n a b (ea, la) (eb, lb) le w =
    let w' : b.matching * t.denominator ≤ t.numerator * n =
      rw (← eb) ((is_too_similar_iff t b).0 w) in
    let le' : a.matching * n ≤ b.matching * n =
      subst (λ k. a.matching * k ≤ b.matching * n) eb
        (subst (λ k. a.matching * b.bits ≤ b.matching * k) ea le) in
    let low : a.matching * t.denominator ≤ t.numerator * a.bits =
      rw ea (lower_within (a.matching) (b.matching) n (t.denominator) (t.numerator) la le' w') in
    (is_too_similar_iff t a).1 low

raise-within :
    (t : Threshold) (n : ℕ) (s h : Similarity)
    → IsOver n s
    → IsOver n h
    → (is_too_similar t (if is_above s h then s else h) ≡ false)
      ↔ (is_too_similar t h ≡ false) × (is_too_similar t s ≡ false)
raise-within t n s h os oh = elim (Bool-cases (is_above s h)) [
  | inl e ↦ rw e ((λ w. (below-within t n h s oh os (above_le s h e) w, w)), λ (a, b). b)
  | inr e ↦ rw e ((λ w. (w, below-within t n s h os oh (not_above_le s h e) w)), λ (a, b). a)
]

highest_from-step :
    (h : Option Similarity) (artifact r : List ℕ) (rs : List (List ℕ)) (d : ℕ)
    → hamming_hex r artifact ≡ some d
    → highest_from h artifact (r ∷ rs) ≡ highest_from (raise h (similarity_at d r)) artifact rs
unfolding highest_from
highest_from-step h artifact r rs d e = rw (e, highest_from) refl

highest_from-none :
    (h : Option Similarity) (artifact r : List ℕ) (rs : List (List ℕ))
    → hamming_hex r artifact ≡ none
    → highest_from h artifact (r ∷ rs) ≡ none
unfolding highest_from
highest_from-none h artifact r rs e = rw (e, highest_from) refl

similarity_at-IsOver : (d n : ℕ) (r : List ℕ) → length r ≡ n → IsOver (n * 4) (similarity_at d r)
unfolding IsOver similarity_at
similarity_at-IsOver d n r e = omega arith

within_iff :
    (t : Threshold) (h : Similarity)
    → (is_within_cap t (some h) ≡ true) ↔ (is_too_similar t h ≡ false) × Unit {0}
unfolding is_within_cap
within_iff t h = ground arith

highest_from-nil : (h : Option Similarity) (artifact : List ℕ) → highest_from h artifact [] ≡ h
unfolding highest_from
highest_from-nil h artifact = refl

hamming_hex-same :
    (r artifact : List ℕ)
    → (length r == length artifact) ≡ true
    → hamming_hex r artifact ≡ some (distance_from 0 r artifact)
unfolding hamming_hex
hamming_hex-same r artifact e = rw e refl

hamming_hex-other :
    (r artifact : List ℕ) → (length r == length artifact) ≡ false → hamming_hex r artifact ≡ none
unfolding hamming_hex
hamming_hex-other r artifact e = rw e refl

raise-some : (h s : Similarity) → raise (some h) s ≡ some (if is_above s h then s else h)
unfolding raise
raise-some h s = refl

raise-none : (s : Similarity) → raise none s ≡ some s
unfolding raise
raise-none s = refl

if-IsOver :
    (n : ℕ) (s h : Similarity) (b : Bool) → IsOver n s → IsOver n h → IsOver n (if b then s else h)
if-IsOver n s h true os oh = os
if-IsOver n s h false os oh = oh

uncomparable :
    (t : Threshold) (artifact r : List ℕ) (rs : List (List ℕ)) (P : Type 0)
    → (length r == length artifact) ≡ false
    → (is_within_cap t none ≡ true) ↔ P × All (Differs t artifact) (r ∷ rs)
unfolding is_within_cap Differs
uncomparable t artifact r rs P e = (
  (λ x. ground arith),
  λ (p, ((width, apart), q)). ground (arith, ==_iff (length r) (length artifact)),
)

regroup : {P Q R S X : Type 0} → (X ↔ R × S) → (R ↔ P × Q) → X ↔ P × (Q × S)
regroup f g = (
  (λ x. let (r, s) = f.0 x in let (p, q) = g.0 r in (p, (q, s))),
  λ (p, (q, s)). f.1 (g.1 (p, q), s),
)

highest_from-within :
    (t : Threshold) (artifact : List ℕ) (h : Similarity) (rs : List (List ℕ))
    → IsOver (length artifact * 4) h
    → (is_within_cap t (highest_from (some h) artifact rs) ≡ true)
      ↔ (is_too_similar t h ≡ false) × All (Differs t artifact) rs
unfolding Differs
highest_from-within t artifact h [] o = rw (highest_from-nil (some h) artifact) (within_iff t h)
highest_from-within t artifact h (r ∷ rs) o = elim (Bool-cases (length r == length artifact)) [
  | inl e ↦
      let s = similarity_at (distance_from 0 r artifact) r in
      let over =
        similarity_at-IsOver (distance_from 0 r artifact) (length artifact) r
          ((==_iff (length r) (length artifact)).0 e) in
      let higher = if is_above s h then s else h in
      let step : highest_from (some h) artifact (r ∷ rs) ≡ highest_from (some higher) artifact rs =
        highest_from-step (some h) artifact r rs _ (hamming_hex-same r artifact e)
        ∙ ap (λ o. highest_from o artifact rs) (raise-some h s) in
      let rest = highest_from-within t artifact higher rs (if-IsOver _ s h (is_above s h) over o) in
      let width = (==_iff (length r) (length artifact)).0 e in
      let (first, second) = raise-within t _ s h over o in
      rw step (
        regroup rest ((λ x. let (p, q) = first x in (p, (width, q))), λ (p, (w, q)). second (p, q)))
  | inr e ↦
      rw (highest_from-none (some h) artifact r rs (hamming_hex-other r artifact e))
        (uncomparable t artifact r rs _ e)
]

-- A reading of the artefact's hash is within the cap exactly when there is a reference, and each
-- has the artefact's width and is not too similar.
pub max_similarity-within :
    (t : Threshold) (artifact r : List ℕ) (rs : List (List ℕ))
    → (is_within_cap t (max_similarity artifact (r ∷ rs)) ≡ true)
      ↔ All (Differs t artifact) (r ∷ rs)
unfolding max_similarity Differs
max_similarity-within t artifact r rs = elim (Bool-cases (length r == length artifact)) [
  | inl e ↦
      let s = similarity_at (distance_from 0 r artifact) r in
      let width = (==_iff (length r) (length artifact)).0 e in
      let over = similarity_at-IsOver (distance_from 0 r artifact) (length artifact) r width in
      let step : max_similarity artifact (r ∷ rs) ≡ highest_from (some s) artifact rs =
        highest_from-step none artifact r rs _ (hamming_hex-same r artifact e)
        ∙ ap (λ o. highest_from o artifact rs) (raise-none s) in
      let rest = highest_from-within t artifact s rs over in
      rw step ((λ x. let (p, q) = rest.0 x in ((width, p), q)), λ ((w, p), q). rest.1 (p, q))
  | inr e ↦
      let (to, from) = uncomparable t artifact r rs Unit e in
      rw (highest_from-none none artifact r rs (hamming_hex-other r artifact e))
        ((λ x. (to x).1), λ all. from (tt, all))
]
