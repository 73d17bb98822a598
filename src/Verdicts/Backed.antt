-- ===== src/Verdicts/Backed.antt =====
-- What stands behind a verdict that is signed.
use carbon_contractors_com.Prelude.{
  ℕ, ◌+◌, ◌/◌, ◌≡◌, ◌↔◌, refl, subst, Bool, true, false, not, ◌&&◌, Option, none, some, String,
  same, same_iff, if◌then◌else◌, arith,
}
use carbon_contractors_com.Schema.{TaskRecord}
use carbon_contractors_com.World.{Result, ok, err}
use carbon_contractors_com.FundTask.{is_configured}
use carbon_contractors_com.Checker.{or_empty, evaluate_evidence}
use carbon_contractors_com.Checker.Criteria.{Meets}
use carbon_contractors_com.Checker.Sound.{evaluate_evidence-passed_iff}
use carbon_contractors_com.Checker.Evidence.{
  Instruments, AcceptanceSpec, EvidenceBundle, TaskContext, Verdict,
}
use carbon_contractors_com.Kms.{Hex, EthSignature, encode_signature}
use carbon_contractors_com.Kms.Signer.{RecoversSigner, sign-Recovers}
use carbon_contractors_com.Verdicts.{
  SignedVerdict, Commitments, Parsed, valid, invalid, broken, Platform, ComputedVerdict,
  VerdictResult, VerdictFault, computed, faulty, is_set, is_undelivered, sign_verdict,
  verdict_for_task, with_signature, with_verdict, with_funding, with_evidence, with_spec, with_task,
  compute_and_sign_verdict, verdict_signature_validity_seconds,
}

module _ (i : Instruments) (p : Platform i) (task : TaskRecord) (raw : String) (now nonce : ℕ) where
  abbrev pub context_at : ℕ → TaskContext i
  context_at funded_at = record { funding_block_timestamp = p.seconds (funded_at / 1000) }

  pub record IsBacked (r : ComputedVerdict) : Type 0 where
    pub chain : Commitments
    pub spec : AcceptanceSpec i
    pub bundle : EvidenceBundle i
    pub funded_at : ℕ
    -- The task is on chain and delivered, and is the row's own.
    pub on_chain : p.on_chain_task task.payment_request_id ≡ some chain
    pub delivered : is_undelivered chain.state ≡ false
    pub this_task : r.verdict.task_id ≡ p.to_task_id task.payment_request_id
    -- The stored spec and the given bundle are those committed to on chain, and their hashes signed.
    pub stored_spec :
        p.parse_and_hash_spec (or_empty task.acceptance_spec) ≡ valid spec chain.spec_hash
    pub given_bundle : p.parse_and_hash_evidence_bundle raw ≡ valid bundle chain.evidence_hash
    pub spec_hash : r.verdict.spec_hash ≡ chain.spec_hash
    pub evidence_hash : r.verdict.evidence_hash ≡ chain.evidence_hash
    -- It is a pass just when the evidence meets the spec's criteria.
    pub funded : task.funded_at ≡ some funded_at
    pub judged : (r.verdict.passed ≡ true) ↔ Meets i spec.criteria bundle (context_at funded_at)
    pub breakdown : r.verdict.breakdown_hash ≡ p.hash_breakdown r.checks
    pub expires : r.verdict.expiry ≡ now / 1000 + verdict_signature_validity_seconds
    -- The signature recovers to the platform's signer, for this verdict and the escrow's address.
    pub parts : EthSignature
    pub encoded : r.signature ≡ encode_signature (p.Hash) (p.recover_address) parts
    pub signed :
        RecoversSigner
          (p.Hash)
          (p.recover_address)
          (p.hash_typed_data (or_empty p.escrow_address) r.verdict)
          (p.signer_address)
          parts

  module _ (c : Commitments) (spec : AcceptanceSpec i) (bundle : EvidenceBundle i)
      (spec_hash evidence_hash : String)
      (on_chain : p.on_chain_task task.payment_request_id ≡ some c)
      (delivered : is_undelivered c.state ≡ false)
      (stored : p.parse_and_hash_spec (or_empty task.acceptance_spec) ≡ valid spec spec_hash)
      (same_spec : spec_hash ≡ c.spec_hash)
      (given : p.parse_and_hash_evidence_bundle raw ≡ valid bundle evidence_hash)
      (same_evidence : evidence_hash ≡ c.evidence_hash) where
    abbrev to_sign : Verdict → SignedVerdict
    to_sign v = verdict_for_task i p task raw now nonce spec_hash evidence_hash v

    abbrev issued : Verdict → Hex → ComputedVerdict
    issued v s = record { verdict = to_sign v; signature = s; checks = v.checks }

    issued-IsBacked :
        (at : ℕ) (v : Verdict) (s : Hex)
        → task.funded_at ≡ some at
        → evaluate_evidence i (p.checker_hash) spec bundle (context_at at) ≡ some v
        → sign_verdict i p (or_empty p.escrow_address) (to_sign v) ≡ ok s
        → IsBacked (issued v s)
    unfolding sign_verdict verdict_for_task
    issued-IsBacked at v s funded judged signed =
        let hash = p.hash_typed_data (or_empty p.escrow_address) (to_sign v) in
        let (parts, encoded, recovers) =
          sign-Recovers (p.Hash) (p.recover_address) hash (p.signer_address) (p.kms_sign hash) s
            signed in
        record {
          chain = c;
          spec = spec;
          bundle = bundle;
          funded_at = at;
          on_chain = on_chain;
          delivered = delivered;
          this_task = refl;
          stored_spec = rw (← same_spec) stored;
          given_bundle = rw (← same_evidence) given;
          spec_hash = same_spec;
          evidence_hash = same_evidence;
          funded = funded;
          judged =
              evaluate_evidence-passed_iff i (p.checker_hash) spec bundle (context_at at) v judged;
          breakdown = refl;
          expires = refl;
          parts = parts;
          encoded = encoded;
          signed = recovers;
        }

    signature-IsBacked :
        (at : ℕ) (v : Verdict) (s : Result Hex) (r : ComputedVerdict)
        → task.funded_at ≡ some at
        → evaluate_evidence i (p.checker_hash) spec bundle (context_at at) ≡ some v
        → sign_verdict i p (or_empty p.escrow_address) (to_sign v) ≡ s
        → with_signature i p task raw now nonce (to_sign v) v.checks s ≡ computed r
        → IsBacked r
    signature-IsBacked at v (err e) r funded judged signed h = cc
    signature-IsBacked at v (ok s) r funded judged signed h =
        let same_result : issued v s ≡ r = cc in
        subst IsBacked same_result (issued-IsBacked at v s funded judged signed)

    verdict-IsBacked :
        (at : ℕ) (o : Option Verdict) (r : ComputedVerdict)
        → task.funded_at ≡ some at
        → evaluate_evidence i (p.checker_hash) spec bundle (context_at at) ≡ o
        → with_verdict i p task raw now nonce spec_hash evidence_hash o ≡ computed r
        → IsBacked r
    verdict-IsBacked at none r funded judged h = cc
    verdict-IsBacked at (some v) r funded judged h =
        signature-IsBacked at v (sign_verdict i p (or_empty p.escrow_address) (to_sign v)) r funded
          judged refl h

    funding-IsBacked :
        (o : Option ℕ) (r : ComputedVerdict)
        → task.funded_at ≡ o
        → with_funding i p task raw now nonce c spec spec_hash bundle evidence_hash o ≡ computed r
        → IsBacked r
    funding-IsBacked none r funded h = cc
    funding-IsBacked (some at) r funded h =
        verdict-IsBacked at (evaluate_evidence i (p.checker_hash) spec bundle (context_at at)) r
          funded refl h

  holds : (b : Bool) → not b ≡ false → b ≡ true
  holds true h = refl
  holds false h = cc

  computed-else :
      (b : Bool) (f : VerdictFault) (x : VerdictResult) (r : ComputedVerdict)
      → (if b then faulty f else x) ≡ computed r
      → (b ≡ false) × (x ≡ computed r)
  computed-else true f x r h = cc
  computed-else false f x r h = (refl, h)

  evidence-IsBacked :
      (c : Commitments) (spec : AcceptanceSpec i) (spec_hash : String)
      (o : Parsed (EvidenceBundle i)) (r : ComputedVerdict)
      → p.on_chain_task task.payment_request_id ≡ some c
      → is_undelivered c.state ≡ false
      → p.parse_and_hash_spec (or_empty task.acceptance_spec) ≡ valid spec spec_hash
      → spec_hash ≡ c.spec_hash
      → p.parse_and_hash_evidence_bundle raw ≡ o
      → with_evidence i p task raw now nonce c spec spec_hash o ≡ computed r
      → IsBacked r
  evidence-IsBacked c spec spec_hash invalid r on_chain delivered stored same_spec given h = cc
  evidence-IsBacked c spec spec_hash broken r on_chain delivered stored same_spec given h = cc
  evidence-IsBacked c spec spec_hash (valid bundle hash) r on_chain delivered stored same_spec given
        h =
      let (ne, rest) = computed-else (not (same hash c.evidence_hash)) _ _ r h in
      funding-IsBacked c spec bundle spec_hash hash on_chain delivered stored same_spec given
        ((same_iff hash c.evidence_hash).0 (ground arith)) task.funded_at r refl rest

  spec-IsBacked :
      (c : Commitments) (o : Parsed (AcceptanceSpec i)) (r : ComputedVerdict)
      → p.on_chain_task task.payment_request_id ≡ some c
      → is_undelivered c.state ≡ false
      → p.parse_and_hash_spec (or_empty task.acceptance_spec) ≡ o
      → with_spec i p task raw now nonce c o ≡ computed r
      → IsBacked r
  spec-IsBacked c invalid r on_chain delivered stored h = cc
  spec-IsBacked c broken r on_chain delivered stored h = cc
  spec-IsBacked c (valid spec hash) r on_chain delivered stored h =
      let (ne, rest) = computed-else (not (same hash c.spec_hash)) _ _ r h in
      evidence-IsBacked c spec hash (p.parse_and_hash_evidence_bundle raw) r on_chain delivered
        stored ((same_iff hash c.spec_hash).0 (ground arith)) refl rest

  task-IsBacked :
      (o : Option Commitments) (r : ComputedVerdict)
      → p.on_chain_task task.payment_request_id ≡ o
      → with_task i p task raw now nonce o ≡ computed r
      → IsBacked r
  task-IsBacked none r on_chain h = cc
  task-IsBacked (some c) r on_chain h =
      let (delivered, rest) = computed-else (is_undelivered c.state) _ _ r h in
      spec-IsBacked c (p.parse_and_hash_spec (or_empty task.acceptance_spec)) r on_chain delivered
        refl rest

  -- If a verdict is signed then the row has a spec and the escrow is configured; the task is on chain
  -- and has been delivered; the stored spec and the given evidence have the hashes that are
  -- committed to on chain, which are the hashes that are signed; the verdict is a pass exactly when
  -- that evidence meets every criterion of that spec; it can be presented for an hour; and the
  -- signature is one of this very verdict that recovers to the platform's signer.
  pub compute_and_sign_verdict-IsBacked :
      (r : ComputedVerdict)
      → compute_and_sign_verdict i p task raw now nonce ≡ computed r
      → (is_set task.acceptance_spec && is_set task.spec_hash ≡ true)
        × (is_configured p.escrow_address ≡ true)
        × IsBacked r
  unfolding compute_and_sign_verdict
  compute_and_sign_verdict-IsBacked r h =
      let (has_spec, rest) =
        computed-else (not (is_set task.acceptance_spec && is_set task.spec_hash)) _ _ r h in
      let (configured, more) = computed-else (not (is_configured p.escrow_address)) _ _ r rest in
      (
        holds _ has_spec,
        holds _ configured,
        task-IsBacked (p.on_chain_task task.payment_request_id) r refl more,
      )
