-- ===== src/Checker/Evidence.antt =====
-- What the checker is given and what it gives, src/lib/checker/types.ts and the criteria of
-- src/lib/spec/schema.ts.
use carbon_contractors_com.Prelude.{ℕ, String, Bool, Option, List}

pub record Instruments : Type 1 where
  pub Degrees : Type 0
  pub Metres : Type 0
  pub Seconds : Type 0
  -- haversineDistanceM.
  pub distance : Degrees → Degrees → Degrees → Degrees → Metres
  pub is_more : Metres → Metres → Bool
  -- parseExifTimestamp, with none for NaN.
  pub parse_timestamp : String → Option Seconds
  pub is_since : Seconds → Seconds → Bool

pub record Threshold : Type 0 where
  pub numerator : ℕ
  pub denominator : ℕ

module _ (i : Instruments) where
  pub record Exif : Type 0 where
    pub lat : Option (i.Degrees)
    pub lon : Option (i.Degrees)
    pub date_time_original : Option String
    pub camera_make : Option String
    pub camera_model : Option String

  pub record EvidenceArtifact : Type 0 where
    pub uri : String
    pub exif : Option Exif
    pub c2pa_ai_generated : Option Bool
    pub phash : Option String

  pub record EvidenceBundle : Type 0 where
    pub artifacts : List EvidenceArtifact
    pub submitted_at : Option String

  pub record GpsCriterion : Type 0 where
    pub lat : i.Degrees
    pub lon : i.Degrees
    pub radius_m : i.Metres

  pub data Since : Type 0 where
    task_funding_block_timestamp : Since
    time : String → Since

  pub record PhashCriterion : Type 0 where
    pub source : List String
    pub threshold : Threshold

  pub record CriteriaV1 : Type 0 where
    pub min_artefacts : Option ℕ
    pub exif_gps_within_m : Option GpsCriterion
    pub captured_after : Option Since
    pub require_camera_model : Bool
    pub reject_c2pa_ai_generated : Bool
    pub phash_max_similarity_to : Option PhashCriterion

  pub record AcceptanceSpec : Type 0 where
    pub schema_version : ℕ
    pub criteria : CriteriaV1

  pub record TaskContext : Type 0 where
    pub funding_block_timestamp : i.Seconds

-- What a reason tells.
pub data Reason : Type 0 where
  too_few : (submitted required : ℕ) → Reason
  no_coordinates : List String → Reason
  beyond_radius : (how_many : ℕ) → Reason
  no_time_or_before : List String → Reason
  no_camera : List String → Reason
  ai_generated : List String → Reason
  bad_reference : (index : ℕ) → Reason
  too_similar : List String → Reason
  not_comparable : List String → Reason

pub record CheckResult : Type 0 where
  pub check : String
  pub passed : Bool
  pub reason : Option Reason

pub record Verdict : Type 0 where
  pub passed : Bool
  pub checks : List CheckResult
  pub checker_hash : String
  pub rule_version : ℕ
  pub evaluated_at : String

-- What a check reads of one artefact.
pub record Reading (A : Type 0) : Type 0 where
  pub uri : String
  pub value : A
