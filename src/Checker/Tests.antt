-- ===== src/Checker/Tests.antt =====
-- A spec with every criterion, a photograph that meets it, and a re-upload of the reference.
use carbon_contractors_com.Prelude.{
  ℕ, ◌≡◌, ◌↔◌, refl, String, same, Bool, true, false, Option, none, some, List, [], ◌∷◌, ltb, not,
  ◌-◌, ◌+◌, map, arith, if◌then◌else◌, lower,
}
use carbon_contractors_com.Checker.Evidence.{
  Instruments, EvidenceArtifact, EvidenceBundle, AcceptanceSpec, TaskContext, Verdict,
  task_funding_block_timestamp,
}
use carbon_contractors_com.Checker.{evaluate_evidence, evaluate_v1, verdict_on, is_blank}
use carbon_contractors_com.Checker.Hashes.{
  normalize_hex, trim, drop_prefix, trim_start, codes, is_space, digits, digit, max_similarity,
  highest_from, hamming_hex, similarity_at, distance_from, popcount, xor, is_too_similar,
}
use carbon_contractors_com.Checker.Criteria.{Meets}
use carbon_contractors_com.Checker.Reupload.{reupload_fails}
use carbon_contractors_com.Checker.Sound.{evaluate_evidence-passed_iff}

-- Positions on a line, and one time that can be read.
abbrev instruments : Instruments
instruments = record {
  Degrees = ℕ;
  Metres = ℕ;
  Seconds = ℕ;
  distance = λ a b c d. a - c + (c - a);
  is_more = λ a b. ltb b a;
  parse_timestamp = λ s. if same s "2026-08-20T04:12:09Z" then some 500 else none;
  is_since = λ a b. not (ltb a b);
}

abbrev photo : String → EvidenceArtifact instruments
photo phash = record {
  uri = "s3://bucket/1.jpg";
  exif = some (record {
    lat = some 30;
    lon = some 40;
    date_time_original = some "2026-08-20T04:12:09Z";
    camera_make = none;
    camera_model = some " X100 ";
  });
  c2pa_ai_generated = none;
  phash = some phash;
}

abbrev spec : AcceptanceSpec instruments
spec = record {
  schema_version = 1;
  criteria = record {
    min_artefacts = some 1;
    exif_gps_within_m = some (record { lat = 32; lon = 40; radius_m = 5 });
    captured_after = some task_funding_block_timestamp;
    require_camera_model = true;
    reject_c2pa_ai_generated = true;
    phash_max_similarity_to =
        some (record {
          source = "0xff00" ∷ [];
          threshold = record { numerator = 9; denominator = 10 };
        });
  };
}

abbrev bundle : String → EvidenceBundle instruments
bundle phash = record { artifacts = photo phash ∷ []; submitted_at = none }

abbrev context : TaskContext instruments
context = record { funding_block_timestamp = 400 }

abbrev verdict : String → Option Verdict
verdict phash = evaluate_evidence instruments "0xabc" spec (bundle phash) context

abbrev passes : Option Verdict → List Bool
passes none = []
passes (some v) = v.passed ∷ map (λ c. c.passed) (v.checks)

-- A new photograph passes; the reference again, in capitals and with spaces, does not, and neither
-- does a hash of another width.
new_test : passes (verdict " 0x00FF ") ≡ true ∷ true ∷ true ∷ true ∷ true ∷ true ∷ true ∷ []
unfolding evaluate_evidence same is_blank normalize_hex trim drop_prefix trim_start codes is_space
    lower digits digit max_similarity highest_from hamming_hex is_too_similar similarity_at
    distance_from popcount xor
new_test = refl

reupload_test : passes (verdict " FF00") ≡ false ∷ true ∷ true ∷ true ∷ true ∷ true ∷ false ∷ []
unfolding evaluate_evidence same is_blank normalize_hex trim drop_prefix trim_start codes is_space
    lower digits digit max_similarity highest_from hamming_hex is_too_similar similarity_at
    distance_from popcount xor
reupload_test = refl

width_test : passes (verdict "00") ≡ false ∷ true ∷ true ∷ true ∷ true ∷ true ∷ false ∷ []
unfolding evaluate_evidence same is_blank normalize_hex trim drop_prefix trim_start codes is_space
    lower digits digit max_similarity highest_from hamming_hex
width_test = refl

abbrev given : String → Verdict
given phash =
    verdict_on instruments "0xabc" (bundle phash)
      (evaluate_v1 instruments (spec.criteria) (bundle phash) context)

given_lem : (phash : String) → verdict phash ≡ some (given phash)
unfolding evaluate_evidence
given_lem phash = refl

evaluate_evidence-passed_iff_example :
    ((given "0x00FF").passed ≡ true) ↔ Meets instruments (spec.criteria) (bundle "0x00FF") context
evaluate_evidence-passed_iff_example =
    evaluate_evidence-passed_iff instruments "0xabc" spec (bundle "0x00FF") context (given "0x00FF")
      (given_lem "0x00FF")

same_hash : normalize_hex " FF00" ≡ normalize_hex "0xff00"
unfolding normalize_hex trim drop_prefix trim_start codes is_space lower digits digit
same_hash = refl

reupload_fails_example : (given " FF00").passed ≡ false
reupload_fails_example =
    reupload_fails instruments "0xabc" spec (bundle " FF00") context (given " FF00")
      (record { source = "0xff00" ∷ []; threshold = record { numerator = 9; denominator = 10 } })
      (photo " FF00") [] [] [] [] "0xff00" " FF00" (given_lem " FF00") refl (omega arith) refl refl
      refl same_hash
