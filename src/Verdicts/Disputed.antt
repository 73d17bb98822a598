-- ===== src/Verdicts/Disputed.antt =====
-- The dispute route with the verdict service behind it: src/app/api/dispute/route.ts and
-- src/lib/contracts/verdict-service.ts together.
use carbon_contractors_com.Prelude.{
  ℕ, ◌≡◌, ◌≢◌, refl, sym, ◌∙◌, Bool, true, false, Option, some, String, if◌then◌else◌,
}
use carbon_contractors_com.Schema.{TaskRecord}
use carbon_contractors_com.World.{World}
use carbon_contractors_com.World.Keeps.{IsSound}
use carbon_contractors_com.World.Ensures.{Post, Post-map}
use carbon_contractors_com.Chain.{Chain}
use carbon_contractors_com.Tasks.Lifecycle.{lifecycle}
use carbon_contractors_com.Checker.Evidence.{Instruments}
use carbon_contractors_com.Checker.Criteria.{Meets}
use carbon_contractors_com.Dispute.{
  Computed, input_rejected, computation_failed, verdict_passes, verdict_fails, DisputeResponse,
  disputed_with_verdict, dispute,
}
use carbon_contractors_com.Dispute.Guarded.{IsParty, Guarded, dispute-Guarded}
use carbon_contractors_com.Kms.{Hex}
use carbon_contractors_com.Verdicts.{
  Platform, ComputedVerdict, VerdictResult, computed, faulty, is_input_fault,
  compute_and_sign_verdict,
}
use carbon_contractors_com.Verdicts.Backed.{IsBacked, context_at, compute_and_sign_verdict-IsBacked}

unfoldable pub computed_of : (Hex → String) → VerdictResult → Computed
computed_of hex_text (faulty f) = if is_input_fault f then input_rejected else computation_failed
computed_of hex_text (computed r) =
    if r.verdict.passed then verdict_passes else verdict_fails (hex_text r.signature)

module _ (i : Instruments) (p : Platform i) (hex_text : Hex → String) (now nonce : ℕ) where
  abbrev pub verdict_of : TaskRecord → String → Computed
  verdict_of task bundle = computed_of hex_text (compute_and_sign_verdict i p task bundle now nonce)

  fails-if :
      (b : Bool) (x : Computed) (signature text : String)
      → (if b then x else verdict_fails text) ≡ verdict_fails signature
      → ((s : String) → x ≢ verdict_fails s)
      → (b ≡ false) × (text ≡ signature)
  fails-if true x signature text e apart = elim (apart signature e) [ ]
  fails-if false x signature text e apart = (refl, cc)

  no_fault :
      (b : Bool) (signature : String)
      → (if b then input_rejected else computation_failed) ≢ verdict_fails signature
  no_fault true signature e = cc
  no_fault false signature e = cc

  computed-fails :
      (x : VerdictResult) (signature : String)
      → computed_of hex_text x ≡ verdict_fails signature
      → (r : ComputedVerdict) × (x ≡ computed r)
        × (r.verdict.passed ≡ false)
        × (hex_text r.signature ≡ signature)
  unfolding computed_of
  computed-fails (faulty f) signature e = elim (no_fault (is_input_fault f) signature e) [ ]
  computed-fails (computed r) signature e =
      let (fails, text) =
        fails-if r.verdict.passed verdict_passes signature (hex_text r.signature) e (λ s f. cc) in
      (r, refl, fails, text)

  module _ (chain : Chain) (caller : Option String) (id : String) (bundle : Option String)
      (start : World) where
    -- A party's dispute on work that does not meet what was agreed.
    pub record IsUnmet (signature : String) : Type 0 where
      pub task : TaskRecord
      pub party : IsParty chain verdict_of caller id bundle start task
      pub evidence : String
      pub given : bundle ≡ some evidence
      pub verdict : ComputedVerdict
      pub text : hex_text verdict.signature ≡ signature
      pub backed : IsBacked i p task evidence now nonce verdict
      pub unmet :
          Meets i
            (backed.spec.criteria)
            backed.bundle
            (context_at i p task evidence now nonce backed.funded_at)
          → ⊥

    abbrev pub Justified : DisputeResponse → Type 0
    Justified (disputed_with_verdict signature) = IsUnmet signature
    Justified _ = Unit

    Guarded-Justified :
        (r : DisputeResponse) → Guarded chain verdict_of caller id bundle start r → Justified r
    Guarded-Justified (disputed_with_verdict signature) g =
        let (r, e, fails, text) = computed-fails _ signature g.fails in
        let (_, _, backed) =
          compute_and_sign_verdict-IsBacked i p g.task g.evidence now nonce r e in
        record {
          task = g.task;
          party = g.party;
          evidence = g.evidence;
          given = g.given;
          verdict = r;
          text = text;
          backed = backed;
          unmet = λ m. let no : true ≡ false = sym (backed.judged.1 m) ∙ fails in cc;
        }
    Guarded-Justified _ g = tt

  -- From a sound table, in every interleaving: a dispute that is recorded with evidence is one by
  -- the worker or the agent of the row read, the first of that id in the table of the moment of the
  -- read, on a signed verdict, and the evidence is what the worker has committed to on chain and
  -- does not meet the criteria of the spec that is committed to on chain.
  pub dispute-Justified :
      (chain : Chain) (caller : Option String) (id : String) (bundle : Option String) (w : World)
      → IsSound lifecycle w
      → Post
          (λ a v. Justified chain caller id bundle w a)
          (dispute chain verdict_of caller id bundle w)
  dispute-Justified chain caller id bundle w h =
      Post-map (λ a v g. Guarded-Justified chain caller id bundle w a g) _
        (dispute-Guarded chain verdict_of caller id bundle w h)
