-- ===== src/Checker/Criteria.antt =====
-- Each criterion of a spec, and that the check of it passes exactly when the criterion holds.
use carbon_contractors_com.Prelude.{
  ℕ, ◌≤◌, ◌≡◌, refl, sym, ◌≢◌, ◌↔◌, Bool, true, false, not, ◌||◌, Option, none, some, List, [], ◌∷◌,
  map, length, every, All, arith,
}
use carbon_contractors_com.Checker.Hashes.{
  max_similarity, highest_from, valid_references, normalized, similarity_to, is_within_cap,
}
use carbon_contractors_com.Checker.Selections.{
  absurd, All-clear, All-clear_map, and_true, neither_selected, iff_trans, not-false_iff,
}
use carbon_contractors_com.Checker.Cap.{Differs, max_similarity-within}
use carbon_contractors_com.Checker.Evidence.{
  Instruments, EvidenceArtifact, EvidenceBundle, GpsCriterion, Since, PhashCriterion, CriteriaV1,
  TaskContext, Threshold,
}
use carbon_contractors_com.Checker.{
  result, lat_of, lon_of, time_of, has_camera_model, distance_of, gps_distance, gps_distances,
  is_missing, is_outside, check_min_artefacts, check_gps, threshold_of, is_at_least, captured_at,
  capture_reading, check_captured_after, check_camera, is_flagged, check_c2pa, similarity_reading,
  check_phash,
}

flagged_iff : (o : Option Bool) → (is_flagged o ≡ false) ↔ (o ≢ some true)
unfolding is_flagged
flagged_iff none = ((λ _. λ e. cc), λ _. refl)
flagged_iff (some true) = ((λ e. absurd (sym e)), λ h. elim (h refl) [ ])
flagged_iff (some false) = ((λ _. λ e. cc), λ _. refl)

module _ (i : Instruments) where
  -- The artefact has coordinates, and they are not beyond the radius.
  unfoldable pub IsNear : GpsCriterion i → EvidenceArtifact i → Type 0
  IsNear g a =
      (lat : i.Degrees) × (lon : i.Degrees) × (lat_of i (a.exif) ≡ some lat)
      × (lon_of i (a.exif) ≡ some lon)
      × (i.is_more (i.distance lat lon (g.lat) (g.lon)) (g.radius_m) ≡ false)

  -- The artefact has a time that can be read, at or after the threshold, which can be read too.
  unfoldable pub IsCapturedSince : TaskContext i → Since i → EvidenceArtifact i → Type 0
  IsCapturedSince context since a =
      (t : i.Seconds) × (u : i.Seconds) × (captured_at i (time_of i (a.exif)) ≡ some t)
      × (threshold_of i context since ≡ some u)
      × (i.is_since t u ≡ true)

  -- Every reference is a hash, there is one, the artefact has a hash, and it differs from each.
  unfoldable pub IsNew : PhashCriterion i → EvidenceArtifact i → Type 0
  IsNew c a =
      (r : List ℕ) × (rs : List (List ℕ)) × (hash : List ℕ) × (valid_references (c.source)
        ≡ some (r ∷ rs))
      × (normalized (a.phash) ≡ some hash)
      × All (Differs (c.threshold) hash) (r ∷ rs)

  abbrev pub Asked : {A : Type 0} → Option A → (A → Type 0) → Type 0
  Asked none P = Unit
  Asked (some a) P = P a

  abbrev pub Required : Bool → Type 0 → Type 0
  Required false P = Unit
  Required true P = P

  -- What the criteria ask for.
  unfoldable pub Meets : CriteriaV1 i → EvidenceBundle i → TaskContext i → Type 0
  unfolding IsNear IsCapturedSince IsNew
  Meets c bundle context =
      Asked (c.min_artefacts) (λ n. n ≤ length (bundle.artifacts))
      × (Asked (c.exif_gps_within_m) (λ g. All (IsNear g) (bundle.artifacts))
          × (Asked (c.captured_after) (λ s. All (IsCapturedSince context s) (bundle.artifacts))
              × (Required (c.require_camera_model)
                    (All (λ a. has_camera_model i a ≡ true) (bundle.artifacts))
                  × (Required (c.reject_c2pa_ai_generated)
                        (All (λ a. a.c2pa_ai_generated ≢ some true) (bundle.artifacts))
                      × Asked (c.phash_max_similarity_to)
                          (λ p. All (IsNew p) (bundle.artifacts))))))

  near_parts :
      {g : GpsCriterion i} (la lo : Option (i.Degrees))
      → ((is_missing i (distance_of i g la lo) || is_outside i (g.radius_m) (distance_of i g la lo))
          ≡ false)
        ↔ ((lat : i.Degrees) × (lon : i.Degrees) × (la ≡ some lat)
            × (lo ≡ some lon)
            × (i.is_more (i.distance lat lon (g.lat) (g.lon)) (g.radius_m) ≡ false))
  unfolding is_missing is_outside distance_of
  near_parts none lo = ((λ e. absurd (sym e)), λ (lat, lon, e, e', h). cc)
  near_parts (some lat) none = ((λ e. absurd (sym e)), λ (lat, lon, e, e', h). cc)
  near_parts (some lat) (some lon) = ((λ e. (lat, lon, refl, refl, e)), λ (x, y, e, e', h). cc)

  at_least_iff :
      (a b : Option (i.Seconds))
      → (is_at_least i a b ≡ true) ↔ (
          (t : i.Seconds) × (u : i.Seconds) × (a ≡ some t) × (b ≡ some u) × (i.is_since t u ≡ true))
  unfolding is_at_least
  at_least_iff none b = ((λ e. absurd e), λ (t, u, e, e', h). cc)
  at_least_iff (some t) none = ((λ e. absurd e), λ (t, u, e, e', h). cc)
  at_least_iff (some t) (some u) = ((λ e. (t, u, refl, refl, e)), λ (x, y, e, e', h). cc)

  new_parts :
      (t : Threshold) (refs : Option (List (List ℕ))) (o : Option (List ℕ))
      → (is_within_cap t (similarity_to refs o) ≡ true) ↔ (
          (r : List ℕ) × (rs : List (List ℕ)) × (hash : List ℕ) × (refs ≡ some (r ∷ rs))
          × (o ≡ some hash)
          × All (Differs t hash) (r ∷ rs))
  unfolding is_within_cap similarity_to max_similarity highest_from
  new_parts t none o = ((λ e. absurd e), λ (r, rs, h, e, e', d). cc)
  new_parts t (some rs) none = ((λ e. absurd e), λ (r, rs', h, e, e', d). cc)
  new_parts t (some []) (some hash) = ((λ e. absurd e), λ (r, rs, h, e, e', d). cc)
  new_parts t (some (r ∷ rs)) (some hash) = (
    (λ e. (r, rs, hash, refl, refl, (max_similarity-within t hash r rs).0 e)),
    λ (r', rs', h, e, e', d). let w = (max_similarity-within t h r' rs').1 d in cc,
  )

  pub min_iff :
      (o : Option ℕ) (xs : List (EvidenceArtifact i))
      → (every (λ c. c.passed) (check_min_artefacts i o xs) ≡ true) ↔ Asked o (λ n. n ≤ length xs)
  unfolding check_min_artefacts result
  min_iff none xs = (λ _. tt, λ _. refl)
  min_iff (some n) xs = ground arith

  pub camera_iff :
      (b : Bool) (xs : List (EvidenceArtifact i))
      → (every (λ c. c.passed) (check_camera i b xs) ≡ true)
        ↔ Required b (All (λ a. has_camera_model i a ≡ true) xs)
  unfolding check_camera result
  camera_iff false xs = (λ _. tt, λ _. refl)
  camera_iff true xs = iff_trans (and_true _) (
      All-clear (λ a. not (has_camera_model i a)) (λ a. has_camera_model i a ≡ true)
        (λ a. not-false_iff (has_camera_model i a)) xs)

  pub c2pa_iff :
      (b : Bool) (xs : List (EvidenceArtifact i))
      → (every (λ c. c.passed) (check_c2pa i b xs) ≡ true)
        ↔ Required b (All (λ a. a.c2pa_ai_generated ≢ some true) xs)
  unfolding check_c2pa result
  c2pa_iff false xs = (λ _. tt, λ _. refl)
  c2pa_iff true xs = iff_trans (and_true _) (
      All-clear (λ a. is_flagged (a.c2pa_ai_generated)) (λ a. a.c2pa_ai_generated ≢ some true)
        (λ a. flagged_iff (a.c2pa_ai_generated)) xs)

  IsNear-iff :
      (g : GpsCriterion i) (a : EvidenceArtifact i)
      → ((is_missing i ((gps_distance i g a).value)
            || is_outside i (g.radius_m) ((gps_distance i g a).value))
          ≡ false)
        ↔ IsNear g a
  unfolding gps_distance IsNear
  IsNear-iff g a = near_parts (lat_of i (a.exif)) (lon_of i (a.exif))

  captured_iff :
      (context : TaskContext i) (s : Since i) (a : EvidenceArtifact i)
      → (not ((capture_reading i (threshold_of i context s) a).value) ≡ false)
        ↔ IsCapturedSince context s a
  unfolding capture_reading IsCapturedSince
  captured_iff context s a =
      iff_trans (not-false_iff _)
        (at_least_iff (captured_at i (time_of i (a.exif))) (threshold_of i context s))

  pub gps_iff :
      (o : Option (GpsCriterion i)) (xs : List (EvidenceArtifact i))
      → (every (λ c. c.passed) (check_gps i o xs) ≡ true) ↔ Asked o (λ g. All (IsNear g) xs)
  unfolding check_gps gps_distances result
  gps_iff none xs = (λ _. tt, λ _. refl)
  gps_iff (some g) xs = iff_trans (and_true _) (
      iff_trans
        (neither_selected (λ r. is_missing i (r.value)) (λ r. is_outside i (g.radius_m) (r.value))
          (map (gps_distance i g) xs))
        (All-clear_map (λ r. is_missing i (r.value) || is_outside i (g.radius_m) (r.value))
          (gps_distance i g) (IsNear g) (IsNear-iff g) xs))

  pub time_iff :
      (context : TaskContext i) (o : Option (Since i)) (xs : List (EvidenceArtifact i))
      → (every (λ c. c.passed) (check_captured_after i context o xs) ≡ true)
        ↔ Asked o (λ s. All (IsCapturedSince context s) xs)
  unfolding check_captured_after result
  time_iff context none xs = (λ _. tt, λ _. refl)
  time_iff context (some s) xs = iff_trans (and_true _) (
      All-clear_map (λ r. not (r.value)) (capture_reading i (threshold_of i context s))
        (IsCapturedSince context s) (captured_iff context s) xs)

  IsNew-iff :
      (c : PhashCriterion i) (a : EvidenceArtifact i)
      → (not (
            is_within_cap
              (c.threshold)
              ((similarity_reading i (valid_references (c.source)) a).value))
          ≡ false)
        ↔ IsNew c a
  unfolding similarity_reading IsNew
  IsNew-iff c a =
      iff_trans (not-false_iff _)
        (new_parts (c.threshold) (valid_references (c.source)) (normalized (a.phash)))

  pub phash_iff :
      (o : Option (PhashCriterion i)) (xs : List (EvidenceArtifact i))
      → (every (λ c. c.passed) (check_phash i o xs) ≡ true) ↔ Asked o (λ c. All (IsNew c) xs)
  unfolding check_phash result
  phash_iff none xs = (λ _. tt, λ _. refl)
  phash_iff (some c) xs = iff_trans (and_true _) (
      All-clear_map (λ r. not (is_within_cap (c.threshold) (r.value)))
        (similarity_reading i (valid_references (c.source))) (IsNew c) (IsNew-iff c) xs)
