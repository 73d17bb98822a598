-- ===== src/Verdicts.antt =====
-- The verdict on a delivered task: src/lib/contracts/verdict-service.ts, and the signing of
-- src/lib/contracts/verdict.ts by the key service. The parsing and hashing of a spec and of a bundle,
-- the reads of the chain, the key service and the hashes are parameters.
pub mod Backed
pub mod Disputed
pub mod Json
pub mod RoundTrip
pub mod Tests
use carbon_contractors_com.Prelude.{
  ℕ, ◌+◌, ◌*◌, ◌/◌, Bool, true, false, not, ◌&&◌, ◌||◌, Option, none, some, List, [], ◌∷◌, String,
  same, if◌then◌else◌,
}
use carbon_contractors_com.Schema.{TaskRecord}
use carbon_contractors_com.World.{Result, ok, err}
use carbon_contractors_com.Chain.{OnChainTaskState, absent, funded}
use carbon_contractors_com.FundTask.{is_configured}
use carbon_contractors_com.Checker.{or_empty, evaluate_evidence}
use carbon_contractors_com.Checker.Evidence.{
  Instruments, AcceptanceSpec, EvidenceBundle, TaskContext, CheckResult, Verdict,
}
use carbon_contractors_com.Kms.{Hex, EthSignature, sign}

abbrev pub verdict_signature_validity_seconds : ℕ
verdict_signature_validity_seconds = 60 * 60

-- The struct that the contract checks.
pub record SignedVerdict : Type 0 where
  pub task_id : String
  pub spec_hash : String
  pub evidence_hash : String
  pub checker_hash : String
  pub passed : Bool
  pub breakdown_hash : String
  pub expiry : ℕ
  pub nonce : ℕ

-- What the verdict needs of a task on chain.
pub record Commitments : Type 0 where
  pub state : OnChainTaskState
  pub spec_hash : String
  pub evidence_hash : String

pub data Parsed (A : Type 0) : Type 0 where
  valid : A → (hash : String) → Parsed A
  -- EvidenceBundleValidationError, SpecValidationError
  invalid : Parsed A
  broken : Parsed A

pub record Platform (i : Instruments) : Type 1 where
  pub Hash : Type 0
  pub escrow_address : Option String
  pub on_chain_task : String → Option Commitments
  pub parse_and_hash_spec : String → Parsed (AcceptanceSpec i)
  pub parse_and_hash_evidence_bundle : String → Parsed (EvidenceBundle i)
  pub seconds : ℕ → i.Seconds
  -- `checkerHash` and `hashBreakdown` are keccak256 of a text.
  pub checker_hash : String
  pub hash_breakdown : List CheckResult → String
  pub to_task_id : String → String
  -- hashTypedData, for the escrow's address as the verifying contract.
  pub hash_typed_data : String → SignedVerdict → Hash
  pub kms_sign : Hash → Result (List ℕ)
  pub signer_address : String
  pub recover_address : Hash → EthSignature → Option String

pub data VerdictFault : Type 0 where
  -- VerdictInputError
  no_committed_spec : VerdictFault
  not_delivered : OnChainTaskState → VerdictFault
  evidence_invalid : VerdictFault
  evidence_uncommitted : VerdictFault
  -- Error
  escrow_not_configured : VerdictFault
  chain_read_failed : VerdictFault
  stored_spec_invalid : VerdictFault
  stored_spec_uncommitted : VerdictFault
  evidence_unreadable : VerdictFault
  no_funded_at : OnChainTaskState → VerdictFault
  evaluation_failed : VerdictFault
  signing_failed : VerdictFault

unfoldable pub is_input_fault : VerdictFault → Bool
is_input_fault no_committed_spec = true
is_input_fault (not_delivered _) = true
is_input_fault evidence_invalid = true
is_input_fault evidence_uncommitted = true
is_input_fault _ = false

pub record ComputedVerdict : Type 0 where
  pub verdict : SignedVerdict
  pub signature : Hex
  pub checks : List CheckResult

pub data VerdictResult : Type 0 where
  computed : ComputedVerdict → VerdictResult
  faulty : VerdictFault → VerdictResult

-- A text that is not null and not empty.
abbrev pub is_set : Option String → Bool
is_set none = false
is_set (some s) = not (same s "")

unfoldable pub is_undelivered : OnChainTaskState → Bool
is_undelivered absent = true
is_undelivered funded = true
is_undelivered _ = false

module _ (i : Instruments) (p : Platform i) where
  unfoldable pub sign_verdict : String → SignedVerdict → Result Hex
  unfolding sign
  sign_verdict escrow verdict =
      sign (p.Hash) (p.recover_address) (p.hash_typed_data escrow verdict)
        (p.kms_sign (p.hash_typed_data escrow verdict)) (p.signer_address)

  module _ (task : TaskRecord) (evidence_bundle_raw : String) (now nonce : ℕ) where
    unfoldable pub verdict_for_task : (spec_hash evidence_hash : String) → Verdict → SignedVerdict
    verdict_for_task spec_hash evidence_hash v = record {
      task_id = p.to_task_id task.payment_request_id;
      spec_hash = spec_hash;
      evidence_hash = evidence_hash;
      checker_hash = v.checker_hash;
      passed = v.passed;
      breakdown_hash = p.hash_breakdown v.checks;
      expiry = now / 1000 + verdict_signature_validity_seconds;
      nonce = nonce;
    }

    abbrev pub with_signature : SignedVerdict → List CheckResult → Result Hex → VerdictResult
    with_signature v checks (err e) = faulty signing_failed
    with_signature v checks (ok s) =
        computed (record { verdict = v; signature = s; checks = checks })

    abbrev pub with_verdict : (spec_hash evidence_hash : String) → Option Verdict → VerdictResult
    with_verdict spec_hash evidence_hash none = faulty evaluation_failed
    with_verdict spec_hash evidence_hash (some v) =
        with_signature (verdict_for_task spec_hash evidence_hash v) v.checks
          (sign_verdict (or_empty p.escrow_address) (verdict_for_task spec_hash evidence_hash v))

    abbrev pub with_funding :
        Commitments
        → AcceptanceSpec i
        → (spec_hash : String) → EvidenceBundle i
        → (evidence_hash : String) → Option ℕ
        → VerdictResult
    with_funding c spec spec_hash bundle evidence_hash none = faulty (no_funded_at c.state)
    with_funding c spec spec_hash bundle evidence_hash (some funded_at) =
        with_verdict spec_hash evidence_hash (
          evaluate_evidence i (p.checker_hash) spec bundle
            (record { funding_block_timestamp = p.seconds (funded_at / 1000) }))

    abbrev pub with_evidence :
        Commitments
        → AcceptanceSpec i
        → (spec_hash : String) → Parsed (EvidenceBundle i)
        → VerdictResult
    with_evidence c spec spec_hash invalid = faulty evidence_invalid
    with_evidence c spec spec_hash broken = faulty evidence_unreadable
    with_evidence c spec spec_hash (valid bundle hash) =
        if not (same hash c.evidence_hash)
        then faulty evidence_uncommitted
        else with_funding c spec spec_hash bundle hash task.funded_at

    abbrev pub with_spec : Commitments → Parsed (AcceptanceSpec i) → VerdictResult
    with_spec c invalid = faulty stored_spec_invalid
    with_spec c broken = faulty stored_spec_invalid
    with_spec c (valid spec hash) =
        if not (same hash c.spec_hash)
        then faulty stored_spec_uncommitted
        else with_evidence c spec hash (p.parse_and_hash_evidence_bundle evidence_bundle_raw)

    abbrev pub with_task : Option Commitments → VerdictResult
    with_task none = faulty chain_read_failed
    with_task (some c) =
        if is_undelivered c.state
        then faulty (not_delivered c.state)
        else with_spec c (p.parse_and_hash_spec (or_empty task.acceptance_spec))

    unfoldable pub compute_and_sign_verdict : VerdictResult
    compute_and_sign_verdict =
        if not (is_set task.acceptance_spec && is_set task.spec_hash)
        then faulty no_committed_spec
        else if not (is_configured p.escrow_address)
        then faulty escrow_not_configured
        else with_task (p.on_chain_task task.payment_request_id)
