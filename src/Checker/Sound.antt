-- ===== src/Checker/Sound.antt =====
-- What a verdict of the checker means.
use carbon_contractors_com.Prelude.{
  ◌≡◌, refl, ◌↔◌, String, Bool, true, false, ◌&&◌, none, some, List, [], ◌∷◌, ◌++◌, every, arith,
  if◌then◌else◌,
}
use carbon_contractors_com.Checker.Evidence.{
  Instruments, EvidenceBundle, CriteriaV1, AcceptanceSpec, TaskContext, CheckResult, Verdict,
}
use carbon_contractors_com.Checker.{
  check_min_artefacts, check_gps, check_captured_after, check_camera, check_c2pa, check_phash,
  evaluate_v1, verdict_on, evaluate_evidence,
}
use carbon_contractors_com.Checker.Selections.{both_iff}
use carbon_contractors_com.Checker.Criteria.{
  Meets, min_iff, gps_iff, time_iff, camera_iff, c2pa_iff, phash_iff,
}

every-++ :
    (xs ys : List CheckResult)
    → every (λ c. c.passed) (xs ++ ys) ≡ every (λ c. c.passed) xs && every (λ c. c.passed) ys
every-++ [] ys = refl
every-++ (x ∷ xs) ys = ground (arith, every-++ xs ys)

-- The checks of two lists all pass when those of each do.
append_iff :
    {P Q : Type 0} (xs ys : List CheckResult)
    → (every (λ c. c.passed) xs ≡ true) ↔ P
    → (every (λ c. c.passed) ys ≡ true) ↔ Q
    → (every (λ c. c.passed) (xs ++ ys) ≡ true) ↔ P × Q
append_iff xs ys f g = rw (every-++ xs ys) (both_iff _ _ f g)

module _ (i : Instruments) where
  evaluate_v1_iff :
      (c : CriteriaV1 i) (bundle : EvidenceBundle i) (context : TaskContext i)
      → (every (λ c. c.passed) (evaluate_v1 i c bundle context) ≡ true) ↔ Meets i c bundle context
  unfolding evaluate_v1 Meets
  evaluate_v1_iff c bundle context =
      let xs = bundle.artifacts in
      let c6 = check_phash i (c.phash_max_similarity_to) xs in
      let c5 = check_c2pa i (c.reject_c2pa_ai_generated) xs in
      let c4 = check_camera i (c.require_camera_model) xs in
      let c3 = check_captured_after i context (c.captured_after) xs in
      let c2 = check_gps i (c.exif_gps_within_m) xs in
      append_iff (check_min_artefacts i (c.min_artefacts) xs) (c2 ++ (c3 ++ (c4 ++ (c5 ++ c6))))
        (min_iff i (c.min_artefacts) xs)
        (append_iff c2 (c3 ++ (c4 ++ (c5 ++ c6))) (gps_iff i (c.exif_gps_within_m) xs) (
          append_iff c3 (c4 ++ (c5 ++ c6)) (time_iff i context (c.captured_after) xs) (
            append_iff c4 (c5 ++ c6) (camera_iff i (c.require_camera_model) xs) (
              append_iff c5 c6 (c2pa_iff i (c.reject_c2pa_ai_generated) xs)
                (phash_iff i (c.phash_max_similarity_to) xs)))))

  passed_if :
      (hash : String) (spec : AcceptanceSpec i) (bundle : EvidenceBundle i)
      (context : TaskContext i) (v : Verdict) (b : Bool)
      → (if b
          then some (verdict_on i hash bundle (evaluate_v1 i (spec.criteria) bundle context))
          else none)
        ≡ some v
      → (v.passed ≡ true) ↔ Meets i (spec.criteria) bundle context
  unfolding verdict_on
  passed_if hash spec bundle context v true e =
      let p : every (λ c. c.passed) (evaluate_v1 i (spec.criteria) bundle context) ≡ v.passed =
        cc in
      rw (← p) (evaluate_v1_iff (spec.criteria) bundle context)
  passed_if hash spec bundle context v false e = cc

  -- A verdict that is given is a pass exactly when every criterion that the spec has holds of the
  -- evidence: enough artefacts; coordinates on each, none beyond the radius; a readable capture
  -- time on each, at or after a threshold that can be read; a camera named on each; no artefact
  -- positively asserted to be AI generated; and for each a hash of the width of every reference,
  -- with none of which it is more similar than the cap.
  pub evaluate_evidence-passed_iff :
      (hash : String) (spec : AcceptanceSpec i) (bundle : EvidenceBundle i)
      (context : TaskContext i) (v : Verdict)
      → evaluate_evidence i hash spec bundle context ≡ some v
      → (v.passed ≡ true) ↔ Meets i (spec.criteria) bundle context
  unfolding evaluate_evidence
  evaluate_evidence-passed_iff hash spec bundle context v e =
      passed_if hash spec bundle context v _ e
