-- ===== src/Checker/Reupload.antt =====
-- The cap against material that is not new: what becomes of a reference that is submitted again.
use carbon_contractors_com.Prelude.{
  ℕ, zero, suc, ◌≤◌, ◌<◌, ◌+◌, ◌-◌, ◌*◌, ◌/◌, ◌≡◌, refl, sym, ap, ◌∙◌, subst, inl, inr, String,
  true, false, Option, none, some, List, [], ◌∷◌, ◌++◌, length, is_empty, if◌then◌else◌, All, arith,
  Bool-cases,
}
use carbon_contractors_com.Checker.Hashes.{
  normalize_hex, digits, and_digits, digit, distance_from, popcount, xor, similarity_at,
  is_too_similar, valid_references, with_reference, normalized,
}
use carbon_contractors_com.Checker.Evidence.{
  Instruments, EvidenceArtifact, EvidenceBundle, AcceptanceSpec, TaskContext, PhashCriterion,
  Verdict, Threshold,
}
use carbon_contractors_com.Checker.{evaluate_evidence}
use carbon_contractors_com.Checker.Cap.{Differs, is_too_similar_iff, mul_mono}
use carbon_contractors_com.Checker.Criteria.{Meets, Asked, IsNew}
use carbon_contractors_com.Checker.Sound.{evaluate_evidence-passed_iff}

xor_self : (n a : ℕ) → xor n a a ≡ 0
unfolding xor
xor_self zero a = refl
xor_self (suc n) a = omega (arith, xor_self n (a / 2))

popcount-zero : (n : ℕ) → popcount n 0 ≡ 0
unfolding popcount
popcount-zero zero = refl
popcount-zero (suc n) = omega (arith, popcount-zero n)

self_bits : (d a : ℕ) → d + popcount 4 (xor 4 a a) ≡ d
self_bits d a = omega (arith, ap (popcount 4) (xor_self 4 a) ∙ popcount-zero 4)

distance_from_self : (d : ℕ) (r : List ℕ) → distance_from d r r ≡ d
unfolding distance_from
distance_from_self d [] = refl
distance_from_self d (a ∷ r) = rw (self_bits d a) (distance_from_self d r)

All-middle :
    {A : Type 0} (P : A → Type 0) (xs : List A) (x : A) (ys : List A) → All P (xs ++ x ∷ ys) → P x
All-middle P [] x ys (p, ps) = p
All-middle P (y ∷ xs) x ys (p, ps) = All-middle P xs x ys ps

and_digits-length :
    (o : Option ℕ) (p : Option (List ℕ)) (ds : List ℕ) → and_digits o p ≡ some ds → 1 ≤ length ds
unfolding and_digits
and_digits-length none p ds e = cc
and_digits-length (some d) none ds e = cc
and_digits-length (some d) (some ds') ds e =
    let f : some (d ∷ ds') ≡ some ds = e in
    let g : d ∷ ds' ≡ ds = cc in subst (λ l. 1 ≤ length l) g (omega arith)

bare-length :
    (bare ds : List ℕ) → (if is_empty bare then none else digits bare) ≡ some ds → 1 ≤ length ds
unfolding digits
bare-length [] ds e = cc
bare-length (n ∷ ns) ds e = and_digits-length (digit n) (digits ns) ds e

normalize_hex-length : (s : String) (ds : List ℕ) → normalize_hex s ≡ some ds → 1 ≤ length ds
unfolding normalize_hex
normalize_hex-length s ds e = bare-length _ ds e

same_is_too_similar :
    (t : Threshold) (r : List ℕ)
    → 1 ≤ length r
    → t.numerator < t.denominator
    → is_too_similar t (similarity_at (distance_from 0 r r) r) ≡ true
unfolding similarity_at
same_is_too_similar t r l h = elim (Bool-cases (is_too_similar t (similarity_at 0 r))) [
  | inl e ↦ rw (distance_from_self 0 r) e
  | inr e ↦
      let n = length r * 4 in
      let w : (n - 0) * t.denominator ≤ t.numerator * n =
        (is_too_similar_iff t (similarity_at 0 r)).0 e in
      let up = mul_mono (suc (t.numerator)) (t.denominator) n h in
      let no : ⊥ = omega (arith, w, l, up, mul_mono n (n - 0) (t.denominator) (omega arith)) in
      elim no [ ]
]

parts :
    (o : Option (List ℕ)) (p : Option (List (List ℕ))) (refs : List (List ℕ))
    → with_reference o p ≡ some refs
    → (r : List ℕ) × (rest : List (List ℕ)) × (o ≡ some r) × (p ≡ some rest) × (refs ≡ r ∷ rest)
unfolding with_reference
parts none p refs e = cc
parts (some ds) none refs e = cc
parts (some ds) (some rest) refs e = (ds, rest, refl, refl, cc)

-- A reference is among those that are compared.
valid_references-middle :
    (P : List ℕ → Type 0) (before after : List String) (s : String) (refs : List (List ℕ))
    → valid_references (before ++ s ∷ after) ≡ some refs
    → All P refs
    → (r : List ℕ) × (normalize_hex s ≡ some r) × P r
unfolding valid_references
valid_references-middle P [] after s refs e all =
    let (r, rest, q, q', both) = parts (normalize_hex s) (valid_references after) refs e in
    (r, q, (subst (λ l. All P l) both all).0)
valid_references-middle P (b ∷ before) after s refs e all =
    let (r, rest, q, q', both) =
      parts (normalize_hex b) (valid_references (before ++ s ∷ after)) refs e in
    valid_references-middle P before after s rest q' ((subst (λ l. All P l) both all).1)

module _ (i : Instruments) where
  IsNew-reference :
      (c : PhashCriterion i) (a : EvidenceArtifact i) (before after : List String) (s p : String)
      → c.source ≡ before ++ s ∷ after
      → a.phash ≡ some p
      → normalize_hex p ≡ normalize_hex s
      → c.threshold.numerator < c.threshold.denominator
      → ¬ (IsNew i c a)
  unfolding IsNew normalized Differs
  IsNew-reference c a before after s p es ep eq below (r, rs, hash, valid, own, all) =
      let (ref, found, (width, apart)) =
        valid_references-middle (Differs (c.threshold) hash) before after s (r ∷ rs)
          (rw (← es) valid) all in
      let read : normalized (a.phash) ≡ normalize_hex p = rw ep refl in
      let same : some hash ≡ some ref = sym own ∙ read ∙ eq ∙ found in
      let it : hash ≡ ref = cc in
      let same_hash =
        same_is_too_similar (c.threshold) ref (normalize_hex-length s ref found) below in
      let differs : is_too_similar (c.threshold) (similarity_at (distance_from 0 ref ref) ref)
          ≡ false =
        subst
          (λ h. is_too_similar (c.threshold) (similarity_at (distance_from 0 ref h) ref) ≡ false) it
          apart in
      cc

  phash_asked :
      (o : Option (PhashCriterion i)) (c : PhashCriterion i) (xs : List (EvidenceArtifact i))
      → o ≡ some c
      → Asked i o (λ p. All (IsNew i p) xs)
      → All (IsNew i c) xs
  phash_asked none c xs e h = cc
  phash_asked (some d) c xs e h = let f : d ≡ c = cc in subst (λ p. All (IsNew i p) xs) f h

  -- Under a cap below one, evidence with an artefact whose hash is that of a reference, whatever the
  -- case of its digits, the space around them or the `0x` before them, never passes.
  pub reupload_fails :
      (hash : String) (spec : AcceptanceSpec i) (bundle : EvidenceBundle i)
      (context : TaskContext i) (v : Verdict) (c : PhashCriterion i) (a : EvidenceArtifact i)
      (xs ys : List (EvidenceArtifact i)) (before after : List String) (s p : String)
      → evaluate_evidence i hash spec bundle context ≡ some v
      → spec.criteria.phash_max_similarity_to ≡ some c
      → c.threshold.numerator < c.threshold.denominator
      → c.source ≡ before ++ s ∷ after
      → bundle.artifacts ≡ xs ++ a ∷ ys
      → a.phash ≡ some p
      → normalize_hex p ≡ normalize_hex s
      → v.passed ≡ false
  unfolding Meets
  reupload_fails hash spec bundle context v c a xs ys before after s p e ec below es ea ep eq =
      elim (Bool-cases (v.passed)) [
        | inl ok ↦
            let (m1, (m2, (m3, (m4, (m5, m6))))) =
              (evaluate_evidence-passed_iff i hash spec bundle context v e).0 ok in
            let all =
              phash_asked (spec.criteria.phash_max_similarity_to) c (bundle.artifacts) ec m6 in
            let new = All-middle (IsNew i c) xs a ys (subst (λ l. All (IsNew i c) l) ea all) in
            elim (IsNew-reference c a before after s p es ep eq below new) [ ]
        | inr no_pass ↦ no_pass
      ]
