-- ===== src/Checker.antt =====
-- The deterministic evidence checker, src/lib/checker/evaluator.ts and types.ts: which checks a spec
-- asks for, and what each says of the artefacts. Left out is the `details` field of a check, and a
-- reason is the data of its message. Degrees, metres and seconds, with the arithmetic of doubles and
-- of dates on them, are parameters.
pub mod Evidence
pub mod Hashes
pub mod Cap
pub mod Selections
pub mod Criteria
pub mod Sound
pub mod Reupload
pub mod Tests
use carbon_contractors_com.Prelude.{
  ℕ, suc, String, same, Bool, true, false, not, ◌&&◌, ◌||◌, Option, none, some, List, [], ◌∷◌, ◌++◌,
  map, leb, if◌then◌else◌, length, is_empty, select, every, ◌*◌, ◌==◌,
}
use carbon_contractors_com.Checker.Hashes.{
  Similarity, normalize_hex, max_similarity, trim, codes, is_too_similar, with_reference,
  valid_references, bad_reference_index, normalized, similarity_to, is_within_cap, is_above_cap,
  is_uncomparable,
}
use carbon_contractors_com.Checker.Evidence.{
  Instruments, Threshold, Exif, EvidenceArtifact, EvidenceBundle, GpsCriterion, Since,
  task_funding_block_timestamp, time, PhashCriterion, CriteriaV1, AcceptanceSpec, TaskContext,
  Reason, CheckResult, Verdict, Reading, too_few, no_coordinates, beyond_radius, no_time_or_before,
  no_camera, ai_generated, bad_reference, too_similar, not_comparable,
}

unfoldable pub or_empty : Option String → String
or_empty none = ""
or_empty (some s) = s

-- `passed`, and a reason unless it has.
unfoldable pub result : String → Bool → Reason → CheckResult
result name ok why = record { check = name; passed = ok; reason = if ok then none else some why }

unfoldable pub is_flagged : Option Bool → Bool
is_flagged none = false
is_flagged (some b) = b

unfoldable pub is_blank : String → Bool
is_blank s = is_empty (trim (codes s))

module _ (i : Instruments) where
  unfoldable pub lat_of : Option (Exif i) → Option (i.Degrees)
  lat_of none = none
  lat_of (some e) = e.lat

  unfoldable pub lon_of : Option (Exif i) → Option (i.Degrees)
  lon_of none = none
  lon_of (some e) = e.lon

  unfoldable pub time_of : Option (Exif i) → Option String
  time_of none = none
  time_of (some e) = e.date_time_original

  unfoldable pub has_camera_model : EvidenceArtifact i → Bool
  unfolding or_empty
  has_camera_model a = elim (a.exif) [
    | none ↦ false
    | some e ↦
        not (is_blank (or_empty (e.camera_make))) || not (is_blank (or_empty (e.camera_model)))
  ]

  -- The `distance_m` of gpsDistances.
  unfoldable pub distance_of :
      GpsCriterion i → Option (i.Degrees) → Option (i.Degrees) → Option (i.Metres)
  distance_of g none lon = none
  distance_of g (some lat) none = none
  distance_of g (some lat) (some lon) = some (i.distance lat lon (g.lat) (g.lon))

  unfoldable pub gps_distance : GpsCriterion i → EvidenceArtifact i → Reading (Option (i.Metres))
  unfolding distance_of lat_of lon_of
  gps_distance g a = record {
    uri = a.uri;
    value = distance_of g (lat_of (a.exif)) (lon_of (a.exif));
  }

  unfoldable pub gps_distances :
      List (EvidenceArtifact i) → GpsCriterion i → List (Reading (Option (i.Metres)))
  unfolding gps_distance
  gps_distances artifacts g = map (gps_distance g) artifacts

  unfoldable pub is_missing : Option (i.Metres) → Bool
  is_missing none = true
  is_missing (some d) = false

  unfoldable pub is_outside : i.Metres → Option (i.Metres) → Bool
  is_outside radius none = false
  is_outside radius (some d) = i.is_more d radius

  unfoldable pub check_min_artefacts : Option ℕ → List (EvidenceArtifact i) → List CheckResult
  unfolding result
  check_min_artefacts none artifacts = []
  check_min_artefacts (some n) artifacts =
      result "min_artefacts" (leb n (length artifacts)) (too_few (length artifacts) n) ∷ []

  unfoldable pub check_gps : Option (GpsCriterion i) → List (EvidenceArtifact i) → List CheckResult
  unfolding result gps_distances is_missing is_outside
  check_gps none artifacts = []
  check_gps (some g) artifacts =
      let results = gps_distances artifacts g in
      let missing = select (λ r. is_missing (r.value)) results in
      let outside = select (λ r. is_outside (g.radius_m) (r.value)) results in
      result "exif_gps_within_m" (is_empty missing && is_empty outside) (
        if is_empty missing
        then beyond_radius (length outside)
        else no_coordinates (map (λ r. r.uri) missing))
      ∷ []

  unfoldable pub threshold_of : TaskContext i → Since i → Option (i.Seconds)
  threshold_of context task_funding_block_timestamp = some (context.funding_block_timestamp)
  threshold_of context (time s) = i.parse_timestamp s

  -- A comparison with NaN is false.
  unfoldable pub is_at_least : Option (i.Seconds) → Option (i.Seconds) → Bool
  is_at_least none threshold = false
  is_at_least (some t) none = false
  is_at_least (some t) (some threshold) = i.is_since t threshold

  unfoldable pub captured_at : Option String → Option (i.Seconds)
  captured_at none = none
  captured_at (some raw) = i.parse_timestamp raw

  unfoldable pub capture_reading : Option (i.Seconds) → EvidenceArtifact i → Reading Bool
  unfolding is_at_least captured_at time_of
  capture_reading threshold a = record {
    uri = a.uri;
    value = is_at_least (captured_at (time_of (a.exif))) threshold;
  }

  unfoldable pub check_captured_after :
      TaskContext i → Option (Since i) → List (EvidenceArtifact i) → List CheckResult
  unfolding result threshold_of capture_reading
  check_captured_after context none artifacts = []
  check_captured_after context (some since) artifacts =
      let threshold = threshold_of context since in
      let results = map (capture_reading threshold) artifacts in
      let failing = select (λ r. not (r.value)) results in
      result "captured_after" (is_empty failing) (no_time_or_before (map (λ r. r.uri) failing)) ∷ []

  unfoldable pub check_camera : Bool → List (EvidenceArtifact i) → List CheckResult
  unfolding result has_camera_model
  check_camera false artifacts = []
  check_camera true artifacts =
      let failing = select (λ a. not (has_camera_model a)) artifacts in
      result "provenance.require_camera_model" (is_empty failing)
        (no_camera (map (λ a. a.uri) failing))
      ∷ []

  unfoldable pub check_c2pa : Bool → List (EvidenceArtifact i) → List CheckResult
  unfolding result is_flagged
  check_c2pa false artifacts = []
  check_c2pa true artifacts =
      let flagged = select (λ a. is_flagged (a.c2pa_ai_generated)) artifacts in
      result "provenance.reject_c2pa_ai_generated" (is_empty flagged)
        (ai_generated (map (λ a. a.uri) flagged))
      ∷ []

  unfoldable pub similarity_reading :
      Option (List (List ℕ)) → EvidenceArtifact i → Reading (Option Similarity)
  unfolding similarity_to normalized
  similarity_reading references a = record {
    uri = a.uri;
    value = similarity_to references (normalized (a.phash));
  }

  unfoldable pub phash_reason :
      PhashCriterion i → Option (List (List ℕ)) → List (Reading (Option Similarity)) → Reason
  unfolding is_above_cap is_uncomparable bad_reference_index
  phash_reason c none results = bad_reference (bad_reference_index 0 (c.source))
  phash_reason c (some references) results =
      let too_close = select (λ r. is_above_cap (c.threshold) (r.value)) results in
      if is_empty too_close
      then not_comparable (map (λ r. r.uri) (select (λ r. is_uncomparable (r.value)) results))
      else too_similar (map (λ r. r.uri) too_close)

  unfoldable pub check_phash :
      Option (PhashCriterion i) → List (EvidenceArtifact i) → List CheckResult
  unfolding result valid_references similarity_reading is_within_cap phash_reason
  check_phash none artifacts = []
  check_phash (some c) artifacts =
      let references = valid_references (c.source) in
      let results = map (similarity_reading references) artifacts in
      let failing = select (λ r. not (is_within_cap (c.threshold) (r.value))) results in
      result "phash_max_similarity_to" (is_empty failing) (phash_reason c references results) ∷ []

  unfoldable pub evaluate_v1 : CriteriaV1 i → EvidenceBundle i → TaskContext i → List CheckResult
  unfolding check_min_artefacts check_gps check_captured_after check_camera check_c2pa check_phash
  evaluate_v1 c bundle context =
      check_min_artefacts (c.min_artefacts) (bundle.artifacts)
      ++ (check_gps (c.exif_gps_within_m) (bundle.artifacts)
          ++ (check_captured_after context (c.captured_after) (bundle.artifacts)
              ++ (check_camera (c.require_camera_model) (bundle.artifacts)
                  ++ (check_c2pa (c.reject_c2pa_ai_generated) (bundle.artifacts)
                      ++ check_phash (c.phash_max_similarity_to) (bundle.artifacts)))))

  unfoldable pub verdict_on : String → EvidenceBundle i → List CheckResult → Verdict
  unfolding or_empty
  verdict_on hash bundle checks = record {
    passed = every (λ c. c.passed) checks;
    checks = checks;
    checker_hash = hash;
    rule_version = 1;
    evaluated_at = or_empty (bundle.submitted_at);
  }

  -- None where the source throws.
  unfoldable pub evaluate_evidence :
      String → AcceptanceSpec i → EvidenceBundle i → TaskContext i → Option Verdict
  unfolding verdict_on evaluate_v1
  evaluate_evidence hash spec bundle context =
      if spec.schema_version == 1
      then some (verdict_on hash bundle (evaluate_v1 (spec.criteria) bundle context))
      else none
