-- ===== src/Dispute/Guarded.antt =====
-- What has been checked of a dispute that is recorded.
use carbon_contractors_com.Prelude.{◌≡◌, refl, true, not, Option, none, some, String, same, arith}
use carbon_contractors_com.Schema.{TaskRecord}
use carbon_contractors_com.World.{World, pure}
use carbon_contractors_com.World.Keeps.{IsSound}
use carbon_contractors_com.World.Ensures.{
  Post, Ensures, Ensures-pure, Ensures-bind, Ensures-any, Ensures-if, Ensures-map, Ensures-given,
  Ensures-attempt,
}
use carbon_contractors_com.Chain.{OnChainTaskState, Chain}
use carbon_contractors_com.Tasks.Transitions.{get_task_by_payment_id}
use carbon_contractors_com.Tasks.Lifecycle.{lifecycle}
use carbon_contractors_com.Tasks.Lifecycle.Shown.{IsShown, Shown, get_task_by_payment_id-shows}
use carbon_contractors_com.Dispute.{
  Computed, input_rejected, computation_failed, verdict_passes, verdict_fails, DisputeResponse,
  disputed_with_verdict, recorded_from_chain, is_party, is_disputable, is_dispute_on_chain,
  mark_disputed, on_chain_state, dispute_on, record_dispute, with_bundle, dispute_task,
  dispute_found, dispute_as, dispute,
}

module _ (chain : Chain) (verdict_of : TaskRecord → String → Computed) (caller : Option String)
    (id : String) (bundle : Option String) (start : World) where
  -- A party to the row that the run from `start` has read, which could be disputed.
  pub record IsParty (task : TaskRecord) : Type 0 where
    pub wallet : String
    pub authenticated : caller ≡ some wallet
    pub shown : IsShown (get_task_by_payment_id id) id start task
    pub party : is_party wallet task ≡ true
    pub disputable : is_disputable task.status ≡ true

  pub record HasVerdict (signature : String) : Type 0 where
    pub task : TaskRecord
    pub party : IsParty task
    pub evidence : String
    pub given : bundle ≡ some evidence
    pub fails : verdict_of task evidence ≡ verdict_fails signature

  pub record IsOnChain (state : OnChainTaskState) : Type 0 where
    pub task : TaskRecord
    pub party : IsParty task
    pub given : bundle ≡ none
    pub was_read : on_chain_state chain verdict_of id ≡ some state
    pub disputed : is_dispute_on_chain state ≡ true

  abbrev pub Guarded : DisputeResponse → Type 0
  Guarded (disputed_with_verdict signature) = HasVerdict signature
  Guarded (recorded_from_chain state) = IsOnChain state
  Guarded _ = Unit

  answer_with :
      {P : World → Type 0} (r : DisputeResponse) → Guarded r → Ensures P (pure r) (λ a w. Guarded a)
  answer_with r g = Ensures-map (λ w h. g) (λ a w h. h) (Ensures-pure r)

  module _ (task : TaskRecord) (party : IsParty task) where
    dispute_on-Guarded :
        (evidence : String)
        → bundle ≡ some evidence
        → (c : Computed) → verdict_of task evidence ≡ c
        → Ensures (IsSound lifecycle) (dispute_on chain verdict_of id task c) (λ a w. Guarded a)
    dispute_on-Guarded evidence given input_rejected e = answer_with _ tt
    dispute_on-Guarded evidence given computation_failed e = answer_with _ tt
    dispute_on-Guarded evidence given verdict_passes e = answer_with _ tt
    dispute_on-Guarded evidence given (verdict_fails signature) e =
        Ensures-bind _ _ (Ensures-any (mark_disputed id task)) λ u.
          answer_with _
            record { task = task; party = party; evidence = evidence; given = given; fails = e }

    record_dispute-Guarded :
        bundle ≡ none
        → (o : Option OnChainTaskState) → on_chain_state chain verdict_of id ≡ o
        → Ensures (IsSound lifecycle) (record_dispute chain verdict_of id task o) (λ a w. Guarded a)
    record_dispute-Guarded given none e = answer_with _ tt
    record_dispute-Guarded given (some state) e =
        Ensures-if (is_dispute_on_chain state)
          (λ h. Ensures-bind _ _ (Ensures-any (mark_disputed id task)) λ u.
            answer_with _
              record { task = task; party = party; given = given; was_read = e; disputed = h })
          (λ h. answer_with _ tt)

    with_bundle-Guarded :
        (o : Option String)
        → bundle ≡ o
        → Ensures (IsSound lifecycle) (with_bundle chain verdict_of id task o) (λ a w. Guarded a)
    with_bundle-Guarded (some evidence) given = dispute_on-Guarded evidence given _ refl
    with_bundle-Guarded none given = record_dispute-Guarded given _ refl

  dispute_found-Guarded :
      (wallet : String)
      → caller ≡ some wallet
      → (o : Option TaskRecord)
      → Ensures
          (λ w. IsSound lifecycle w × Shown (get_task_by_payment_id id) id start o)
          (dispute_found chain verdict_of wallet id bundle o)
          (λ a w. Guarded a)
  unfolding dispute_task
  dispute_found-Guarded wallet e none = answer_with _ tt
  dispute_found-Guarded wallet e (some task) = Ensures-given λ was_shown.
      Ensures-if (not (is_party wallet task)) (λ h. answer_with _ tt)
        λ party.
          Ensures-if (not (is_disputable task.status)) (λ h. answer_with _ tt)
            λ open_.
              with_bundle-Guarded task
                record {
                  wallet = wallet;
                  authenticated = e;
                  shown = was_shown;
                  party = ground arith;
                  disputable = ground arith;
                }
                bundle refl

  dispute_as-Guarded :
      (o : Option String)
      → caller ≡ o
      → Ensures
          (λ w. (w ≡ start) × IsSound lifecycle w)
          (dispute_as chain verdict_of o id bundle)
          (λ a w. Guarded a)
  dispute_as-Guarded none e = answer_with _ tt
  dispute_as-Guarded (some wallet) e =
      Ensures-if (same id "") (λ h. answer_with _ tt)
        λ h.
          Ensures-bind _ _ (get_task_by_payment_id-shows id start) (dispute_found-Guarded wallet e)

  dispute-ensures :
      Ensures
        (λ w. (w ≡ start) × IsSound lifecycle w)
        (dispute chain verdict_of caller id bundle)
        (λ a w. Guarded a)
  unfolding dispute
  dispute-ensures =
      Ensures-attempt _ _ (dispute_as-Guarded caller refl)
        (λ r. Ensures-map (λ w h. h) (λ a w h. h) (Ensures-pure r)) (λ e. answer_with _ tt)

-- From a sound table, in every interleaving: a dispute is recorded only for an authenticated
-- wallet that is the worker or the agent of the row read, the first of that id in the table of the
-- moment of the read, which had a status that can be disputed, and only on a signed verdict of that
-- row that the evidence given fails, or, with no evidence, on a state of the task on chain that is a
-- dispute or the outcome of one.
pub dispute-Guarded :
    (chain : Chain) (verdict_of : TaskRecord → String → Computed) (caller : Option String)
    (id : String) (bundle : Option String) (w : World)
    → IsSound lifecycle w
    → Post
        (λ a v. Guarded chain verdict_of caller id bundle w a)
        (dispute chain verdict_of caller id bundle w)
dispute-Guarded chain verdict_of caller id bundle w h =
    (dispute-ensures chain verdict_of caller id bundle w).at w (refl, h)
