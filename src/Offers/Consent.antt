-- ===== src/Offers/Consent.antt =====
-- What holds when an offer is answered.
use carbon_contractors_com.Prelude.{
  ℕ, ◌/◌, ◌≡◌, refl, not, Option, none, some, String, same, lower, leb, arith, same_iff,
}
use carbon_contractors_com.Schema.{declined, lapsed, pending, is, TaskRecord}
use carbon_contractors_com.World.{World, pure}
use carbon_contractors_com.World.Keeps.{IsSound}
use carbon_contractors_com.World.Ensures.{
  Post, Ensures, Ensures-pure, Ensures-bind, Ensures-any, Ensures-if, Ensures-map, Ensures-given,
  Ensures-date_now, Ensures-traced,
}
use carbon_contractors_com.Registry.{Keeps-get_human_by_wallet}
use carbon_contractors_com.Tasks.Transitions.{
  Acceptance, taken, not_found, wrong_state, brief_changed, hash_description, expiry_passed,
  update_task_status,
}
use carbon_contractors_com.Tasks.Queries.{worker_concurrency_cap}
use carbon_contractors_com.Tasks.Lifecycle.{lifecycle}
use carbon_contractors_com.Tasks.Lifecycle.Writes.{lapse_expired_offers-Keeps}
use carbon_contractors_com.Tasks.Lifecycle.Lasting.{
  Has, IsLasting, SoundWith, Ensures-SoundWith, Ensures-IsSound,
}
use carbon_contractors_com.Tasks.Lifecycle.Made.{
  IsMoved, IsMoved-lasting, IsConsented, IsConsented-lasting, Taken, accept_task-makes,
  update_task_status-makes,
}
use carbon_contractors_com.Tasks.Lifecycle.Shown.{IsShown, Shown, swept_read, swept_read-shows}
use carbon_contractors_com.Offers.{
  OfferDecision, accept, decline, OfferResponse, answered, rejected, decided_status, announce,
  after_accept, accept_if_free, carry_out, answer_open, answer_task, answer_found, respond_to_offer,
}
use carbon_contractors_com.Offers.Invariant.{Keeps-tell, Keeps-count_committed}

module _ (keccak256 : String → String) (caller id : String) (start : World) where
  -- What an answer leaves on record: the hash of the description shown to an accepting worker.
  abbrev pub Recorded : OfferDecision → TaskRecord → TaskRecord → Type 0
  Recorded accept task = IsConsented id (hash_description keccak256 task.task_description)
  Recorded decline task = IsMoved id declined

  -- The row that the run from `start` has shown to the caller, and what is on record of it.
  pub record IsAnswered (d : OfferDecision) (w : World) : Type 0 where
    pub task : TaskRecord
    pub shown : IsShown (swept_read id) id start task
    pub by_worker : lower task.to_human_wallet ≡ lower caller
    pub row : Has (Recorded d task) w.tasks

  abbrev pub Answered : OfferDecision → OfferResponse → World → Type 0
  Answered d (answered named status) w = (named ≡ id) × (status ≡ decided_status d) × IsAnswered d w
  Answered d (rejected code why) w = Unit

  Recorded-lasting : (d : OfferDecision) (task : TaskRecord) → IsLasting (Recorded d task)
  Recorded-lasting accept task = IsConsented-lasting id _
  Recorded-lasting decline task = IsMoved-lasting id declined

  refused :
      {P : World → Type 0} (d : OfferDecision) (r : OfferResponse)
      → ((w : World) → Answered d r w)
      → Ensures P (pure r) (Answered d)
  refused d r k = Ensures-map (λ w h. k w) (λ a w h. h) (Ensures-pure r)

  module _ (task : TaskRecord) (was_shown : IsShown (swept_read id) id start task)
      (by_worker : lower task.to_human_wallet ≡ lower caller) where
    announce-Answered :
        (d : OfferDecision)
        → Ensures (SoundWith (Recorded d task)) (announce d id task) (Answered d)
    unfolding announce
    announce-Answered d =
        Ensures-bind _ _
          (Ensures-SoundWith (Recorded d task) _ (Recorded-lasting d task)
            (Keeps-get_human_by_wallet _))
          λ worker.
            Ensures-bind _ _
              (Ensures-SoundWith (Recorded d task) _ (Recorded-lasting d task)
                (Keeps-tell d id worker))
              λ u.
                Ensures-map
                  (λ w h. (
                    refl,
                    refl,
                    record { task = task; shown = was_shown; by_worker = by_worker; row = h.1 },
                  ))
                  (λ a w h. h) (Ensures-pure _)

    after_accept-Answered :
        (a : Acceptance)
        → Ensures
            (Taken (SoundWith (Recorded accept task)) a)
            (after_accept id task a)
            (Answered accept)
    after_accept-Answered taken = announce-Answered accept
    after_accept-Answered not_found = refused accept _ (λ w. tt)
    after_accept-Answered (wrong_state s) = refused accept _ (λ w. tt)
    after_accept-Answered brief_changed = refused accept _ (λ w. tt)

    carry_out-Answered :
        (d : OfferDecision)
        → Ensures (IsSound lifecycle) (carry_out keccak256 d id task) (Answered d)
    unfolding carry_out accept_if_free
    carry_out-Answered accept =
        Ensures-bind _ _ (Ensures-IsSound _ (Keeps-count_committed _)) λ committed.
          Ensures-if (leb worker_concurrency_cap committed) (λ e. refused accept _ (λ w. tt))
            λ e.
              Ensures-bind _ _ (accept_task-makes keccak256 id task.task_description)
                after_accept-Answered
    carry_out-Answered decline =
        Ensures-bind _ _ (update_task_status-makes id declined (λ e. cc, λ e. cc, λ e. cc))
          λ u. announce-Answered decline

    answer_open-Answered :
        (d : OfferDecision) (now : ℕ)
        → Ensures (IsSound lifecycle) (answer_open keccak256 d id task now) (Answered d)
    unfolding answer_open
    answer_open-Answered d now =
        Ensures-if (expiry_passed (now / 1000) task.offer_expiry_unix)
          (λ e.
            Ensures-bind _ _ (Ensures-any (update_task_status id lapsed))
              λ u. refused d _ (λ w. tt))
          (λ e. carry_out-Answered d)

  answer_task-Answered :
      (d : OfferDecision) (task : TaskRecord)
      → IsShown (swept_read id) id start task
      → Ensures (IsSound lifecycle) (answer_task keccak256 caller d id task) (Answered d)
  unfolding answer_task
  answer_task-Answered d task was_shown =
      Ensures-if (not (same (lower task.to_human_wallet) (lower caller)))
        (λ e. refused d _ (λ w. tt))
        λ mine.
          Ensures-if (is task.status lapsed) (λ e. refused d _ (λ w. tt))
            λ e.
              Ensures-if (not (is task.status pending)) (λ e. refused d _ (λ w. tt))
                λ e. Ensures-bind _ _ Ensures-date_now λ now.
                  Ensures-map (λ w h. h.0) (λ a w h. h)
                    (answer_open-Answered task was_shown
                      ((same_iff (lower task.to_human_wallet) (lower caller)).0 (ground arith)) d
                      now)

  answer_found-Answered :
      (d : OfferDecision) (o : Option TaskRecord)
      → Ensures
          (λ w. IsSound lifecycle w × Shown (swept_read id) id start o)
          (answer_found keccak256 caller d id o)
          (Answered d)
  answer_found-Answered d none = refused d _ (λ w. tt)
  answer_found-Answered d (some task) = Ensures-given (answer_task-Answered d task)

  respond-ensures :
      (d : OfferDecision)
      → Ensures
          (λ w. (w ≡ start) × IsSound lifecycle w)
          (respond_to_offer keccak256 caller id d)
          (Answered d)
  unfolding respond_to_offer
  respond-ensures d =
      Ensures-bind _ _ (Ensures-traced start (Ensures-IsSound _ lapse_expired_offers-Keeps))
        λ n. Ensures-bind _ _ (swept_read-shows id start n) (answer_found-Answered d)

-- From a sound table, in every interleaving: an answer that is taken is for that id and with the
-- status of the decision, and the row that the run has read, the first of that id in the table of
-- that moment, is the caller's. After an acceptance the table has a row of that id which is
-- accepted, or has moved on from it, and whose recorded consent is the hash of the description of
-- the row read; after a refusal, one that is declined.
pub respond_to_offer-Answered :
    (keccak256 : String → String) (caller id : String) (d : OfferDecision) (w : World)
    → IsSound lifecycle w
    → Post (Answered keccak256 caller id w d) (respond_to_offer keccak256 caller id d w)
respond_to_offer-Answered keccak256 caller id d w h =
    (respond-ensures keccak256 caller id w d).at w (refl, h)
