-- ===== src/Verdicts/Tests.antt =====
-- A task with a spec that asks for two artefacts, and evidence of one.
use carbon_contractors_com.Prelude.{
  arith, ℕ, ◌≡◌, refl, true, false, ◌&&◌, none, some, [], ◌∷◌, String, same, lower,
}
use carbon_contractors_com.World.{answered, ok}
use carbon_contractors_com.World.Ensures.{Post}
use carbon_contractors_com.Chain.{delivered, funded}
use carbon_contractors_com.FundTask.{is_configured}
use carbon_contractors_com.Checker.{evaluate_evidence}
use carbon_contractors_com.Checker.Evidence.{Instruments, AcceptanceSpec, EvidenceBundle}
use carbon_contractors_com.Dispute.{
  dispute, disputed_with_verdict, dispute_task, is_party, is_disputable, mark_disputed,
}
use carbon_contractors_com.Tasks.Transitions.{transitions_code}
use carbon_contractors_com.Kms.{try_each}
use carbon_contractors_com.Verdicts.{
  SignedVerdict, Platform, ComputedVerdict, VerdictResult, computed, faulty, valid, is_set,
  compute_and_sign_verdict, sign_verdict, is_undelivered, verdict_for_task,
}
use carbon_contractors_com.Checker.Hashes.{codes}
use carbon_contractors_com.Verdicts.Json.{
  decimal_of, decimals_within, text_of, digit_char, is_hash, object_of, serialize_verdict, parsed,
  parse_verdict_payload,
}
use carbon_contractors_com.Verdicts.RoundTrip.{parse_verdict_payload-serialize}
use carbon_contractors_com.Verdicts.Backed.{IsBacked, compute_and_sign_verdict-IsBacked}
use carbon_contractors_com.Verdicts.Disputed.{Justified, computed_of, verdict_of, dispute-Justified}
use carbon_contractors_com.Scenario.{
  running, running-IsFine, world, world-IsSound, worker_wallet, chain,
}

abbrev pub instruments : Instruments
instruments = record {
  Degrees = ℕ;
  Metres = ℕ;
  Seconds = ℕ;
  distance = λ a b c d. 0;
  is_more = λ a b. false;
  parse_timestamp = λ s. none;
  is_since = λ a b. true;
}

abbrev spec : AcceptanceSpec instruments
spec = record {
  schema_version = 1;
  criteria = record {
    min_artefacts = some 2;
    exif_gps_within_m = none;
    captured_after = none;
    require_camera_model = false;
    reject_c2pa_ai_generated = false;
    phash_max_similarity_to = none;
  };
}

abbrev bundle : EvidenceBundle instruments
bundle = record {
  artifacts = record { uri = "s3://1"; exif = none; c2pa_ai_generated = none; phash = none } ∷ [];
  submitted_at = none;
}

abbrev pub platform : Platform instruments
platform = record {
  Hash = String;
  escrow_address = some "0xe5c";
  on_chain_task =
      λ id. some (record { state = delivered; spec_hash = "0x59"; evidence_hash = "0xe7" });
  parse_and_hash_spec = λ s. valid spec "0x59";
  parse_and_hash_evidence_bundle = λ s. valid bundle "0xe7";
  seconds = λ n. n;
  checker_hash = "0xc4";
  hash_breakdown = λ checks. "0xb4";
  to_task_id = λ id. id;
  hash_typed_data = λ escrow v. v.task_id;
  kms_sign = λ h. ok (48 ∷ 8 ∷ 2 ∷ 3 ∷ 0 ∷ 0x80 ∷ 0xff ∷ 2 ∷ 1 ∷ 5 ∷ []);
  signer_address = "0xAb";
  recover_address = λ h sig. some "0xab";
}

abbrev answer : VerdictResult
answer = compute_and_sign_verdict instruments platform running "[]" 9000 77

abbrev blank : ComputedVerdict
blank = record {
  verdict = record {
    task_id = "";
    spec_hash = "";
    evidence_hash = "";
    checker_hash = "";
    passed = false;
    breakdown_hash = "";
    expiry = 0;
    nonce = 0;
  };
  signature = [];
  checks = [];
}

abbrev verdict_in : VerdictResult → ComputedVerdict
verdict_in (computed r) = r
verdict_in (faulty f) = blank

is_computed : answer ≡ computed (verdict_in answer)
unfolding compute_and_sign_verdict evaluate_evidence same lower sign_verdict is_undelivered try_each
    verdict_for_task
is_computed = refl

fails_test : (verdict_in answer).verdict.passed ≡ false
unfolding compute_and_sign_verdict evaluate_evidence same lower sign_verdict is_undelivered try_each
    verdict_for_task
fails_test = refl

compute_and_sign_verdict-IsBacked_example :
    (is_set running.acceptance_spec && is_set running.spec_hash ≡ true)
    × (is_configured platform.escrow_address ≡ true)
    × IsBacked instruments platform running "[]" 9000 77 (verdict_in answer)
compute_and_sign_verdict-IsBacked_example =
    compute_and_sign_verdict-IsBacked instruments platform running "[]" 9000 77 (verdict_in answer)
      is_computed

dispute-Justified_example :
    Post
      (λ a v.
        Justified instruments platform
          (λ h. "text")
          9000
          77
          (chain funded)
          (some worker_wallet)
          "t1"
          (some "[]")
          (world running (answered ∷ []))
          a)
      (dispute
        (chain funded)
        (verdict_of instruments platform (λ h. "text") 9000 77)
        (some worker_wallet)
        "t1"
        (some "[]")
        (world running (answered ∷ [])))
dispute-Justified_example =
    dispute-Justified instruments platform (λ h. "text") 9000 77 (chain funded) (some worker_wallet)
      "t1" (some "[]") (world running (answered ∷ []))
      (world-IsSound running (answered ∷ []) running-IsFine)

-- The worker's dispute is recorded with the failing verdict.
recorded_test :
    (dispute
      (chain funded)
      (verdict_of instruments platform (λ h. "text") 9000 77)
      (some worker_wallet)
      "t1"
      (some "[]")
      (world running (answered ∷ []))).0
    ≡ ok (disputed_with_verdict "text")
unfolding compute_and_sign_verdict evaluate_evidence same lower sign_verdict is_undelivered try_each
    verdict_for_task computed_of transitions_code dispute dispute_task is_party is_disputable
    mark_disputed
recorded_test = refl

abbrev hash : String
hash = "0x00000000000000000000000000000000000000000000000000000000000000Ab"

abbrev signed : SignedVerdict
signed = record {
  task_id = hash;
  spec_hash = hash;
  evidence_hash = hash;
  checker_hash = hash;
  passed = true;
  breakdown_hash = hash;
  expiry = 3609;
  nonce = 0xffff_ffff_ffff_ffff;
}

decimal_test : decimal_of 3609 ≡ "3609"
unfolding decimal_of decimals_within text_of digit_char
decimal_test = refl

parse_verdict_payload-serialize_example :
    parse_verdict_payload (some (object_of (serialize_verdict signed))) ≡ parsed signed
unfolding is_hash codes
parse_verdict_payload-serialize_example =
    parse_verdict_payload-serialize signed refl refl refl refl refl (omega arith) (omega arith)
