-- ===== src/Tools/Released.antt =====
-- Who gets a signed verdict from the tool get_signed_verdict, and of what.
use carbon_contractors_com.Prelude.{
  ℕ, ◌≡◌, refl, Bool, true, false, not, ◌||◌, Option, none, some, String, same, if◌then◌else◌,
  arith,
}
use carbon_contractors_com.Schema.{TaskRecord}
use carbon_contractors_com.World.{World, pure}
use carbon_contractors_com.World.Keeps.{IsSound}
use carbon_contractors_com.World.Ensures.{
  Post, Ensures, Ensures-pure, Ensures-bind, Ensures-any, Ensures-if, Ensures-map, Ensures-given,
  Ensures-attempt,
}
use carbon_contractors_com.Tasks.Transitions.{get_task_by_payment_id}
use carbon_contractors_com.Tasks.Lifecycle.{lifecycle}
use carbon_contractors_com.Tasks.Lifecycle.Shown.{IsShown, Shown, get_task_by_payment_id-shows}
use carbon_contractors_com.Checker.Evidence.{Instruments}
use carbon_contractors_com.Verdicts.{
  Platform, ComputedVerdict, VerdictResult, computed, faulty, is_input_fault,
  compute_and_sign_verdict,
}
use carbon_contractors_com.Verdicts.Backed.{IsBacked, compute_and_sign_verdict-IsBacked}
use carbon_contractors_com.Hire.{ToolErrorCode}
use carbon_contractors_com.Tools.{ToolResult, answer, tool_error}
use carbon_contractors_com.Tools.Parties.{
  caller_is_worker, caller_is_agent, release, verdict_found, verdict_as, get_signed_verdict,
}

abbrev pub service : (i : Instruments) → Platform i → ℕ → ℕ → TaskRecord → String → VerdictResult
service i p now nonce t raw = compute_and_sign_verdict i p t raw now nonce

module _ (i : Instruments) (p : Platform i) (now nonce : ℕ) (caller : Option String)
    (id bundle : String) (start : World) where
  -- A party of the row that the run from `start` has read, and a verdict with everything behind it.
  pub record IsReleased (r : ComputedVerdict) : Type 0 where
    pub task : TaskRecord
    pub shown : IsShown (get_task_by_payment_id id) id start task
    pub wallet : String
    pub authenticated : caller ≡ some wallet
    pub party : (caller_is_worker wallet task || caller_is_agent wallet task) ≡ true
    pub backed : IsBacked i p task bundle now nonce r

  abbrev pub Released : ToolResult ComputedVerdict → Type 0
  Released (answer r) = IsReleased r
  Released (tool_error code) = Unit

  say :
      {P : World → Type 0} (r : ToolResult ComputedVerdict)
      → Released r
      → Ensures P (pure r) (λ a w. Released a)
  say r g = Ensures-map (λ w h. g) (λ a w h. h) (Ensures-pure r)

  fault-Released :
      (b : Bool) (c d : ToolErrorCode) → Released (if b then tool_error c else tool_error d)
  fault-Released true c d = tt
  fault-Released false c d = tt

  release-Released :
      (t : TaskRecord) (wallet : String) (v : VerdictResult)
      → service i p now nonce t bundle ≡ v
      → IsShown (get_task_by_payment_id id) id start t
      → caller ≡ some wallet
      → (caller_is_worker wallet t || caller_is_agent wallet t) ≡ true
      → Ensures (IsSound lifecycle) (release (service i p now nonce) id t v) (λ a w. Released a)
  release-Released t wallet (faulty f) e was_shown known party =
      say _ (fault-Released (is_input_fault f) _ _)
  release-Released t wallet (computed r) e was_shown known party =
      let (_, _, backed) = compute_and_sign_verdict-IsBacked i p t bundle now nonce r e in
      Ensures-bind _ _ (Ensures-any _) λ u. say _ record {
        task = t;
        shown = was_shown;
        wallet = wallet;
        authenticated = known;
        party = party;
        backed = backed;
      }

  found-Released :
      (wallet : String)
      → caller ≡ some wallet
      → (o : Option TaskRecord)
      → Ensures
          (λ w. IsSound lifecycle w × Shown (get_task_by_payment_id id) id start o)
          (verdict_found (service i p now nonce) wallet id bundle o)
          (λ a w. Released a)
  found-Released wallet known none = say _ tt
  found-Released wallet known (some t) = Ensures-given λ was_shown.
      Ensures-if (not (caller_is_worker wallet t || caller_is_agent wallet t)) (λ h. say _ tt)
        λ h.
          release-Released t wallet (service i p now nonce t bundle) refl was_shown known
            (ground arith)

  as-Released :
      (o : Option String)
      → caller ≡ o
      → Ensures
          (λ w. (w ≡ start) × IsSound lifecycle w)
          (verdict_as (service i p now nonce) o id bundle)
          (λ a w. Released a)
  as-Released none e = say _ tt
  as-Released (some wallet) e =
      Ensures-if (same wallet "") (λ h. say _ tt)
        λ h. Ensures-bind _ _ (get_task_by_payment_id-shows id start) (found-Released wallet e)

  released :
      Ensures
        (λ w. (w ≡ start) × IsSound lifecycle w)
        (get_signed_verdict (service i p now nonce) caller id bundle)
        (λ a w. Released a)
  unfolding get_signed_verdict
  released =
      Ensures-attempt _ _ (as-Released caller refl)
        (λ r. Ensures-map (λ w h. h) (λ a w h. h) (Ensures-pure r)) (λ e. say _ tt)

-- From a sound table, in every interleaving: the tool gives a verdict only to an authenticated wallet
-- that is the worker or the agent of the row read, the first of that id in the table of the moment
-- of the read, and only one that is backed, of that row, and of the evidence that the worker has
-- committed to on chain.
pub get_signed_verdict-Released :
    (i : Instruments) (p : Platform i) (now nonce : ℕ) (caller : Option String) (id bundle : String)
    (w : World)
    → IsSound lifecycle w
    → Post
        (λ a v. Released i p now nonce caller id bundle w a)
        (get_signed_verdict (service i p now nonce) caller id bundle w)
get_signed_verdict-Released i p now nonce caller id bundle w h =
    (released i p now nonce caller id bundle w).at w (refl, h)
