-- ===== src/Offers/Invariant.antt =====
-- An answer to an offer keeps the lifecycle of every row.
use carbon_contractors_com.Prelude.{◌/◌, not, Option, none, some, String, same, lower}
use carbon_contractors_com.Schema.{is, pending, lapsed, declined, TaskRecord, HumanRecord}
use carbon_contractors_com.World.Keeps.{
  Discipline, Keeps, Keeps-bind, Keeps-pure, Keeps-if, Keeps-date_now, Keeps-notify, Keeps-query,
}
use carbon_contractors_com.Registry.{Keeps-get_human_by_wallet}
use carbon_contractors_com.Tasks.Transitions.{
  Acceptance, taken, not_found, wrong_state, brief_changed, expiry_passed,
}
use carbon_contractors_com.Tasks.Queries.{count_committed_tasks}
use carbon_contractors_com.Tasks.Lifecycle.{lifecycle}
use carbon_contractors_com.Tasks.Lifecycle.Writes.{
  update_task_status-Keeps, accept_task-Keeps, lapse_expired_offers-Keeps,
  get_task_by_payment_id-Keeps,
}
use carbon_contractors_com.Offers.{
  OfferDecision, accept, decline, tell, announce, after_accept, accept_if_free, carry_out,
  answer_open, answer_task, answer_found, respond_to_offer,
}

pub Keeps-tell :
    {kept : Discipline} (d : OfferDecision) (id : String) (h : Option HumanRecord)
    → Keeps kept (tell d id h)
Keeps-tell d id none = Keeps-pure tt
Keeps-tell d id (some h) = Keeps-notify _ _

pub Keeps-announce :
    {kept : Discipline} (d : OfferDecision) (id : String) (t : TaskRecord)
    → Keeps kept (announce d id t)
unfolding announce
Keeps-announce d id t =
    Keeps-bind _ _ (Keeps-get_human_by_wallet _)
      λ h. Keeps-bind _ _ (Keeps-tell d id h) (λ u. Keeps-pure _)

pub Keeps-after_accept :
    {kept : Discipline} (id : String) (t : TaskRecord) (a : Acceptance)
    → Keeps kept (after_accept id t a)
Keeps-after_accept id t taken = Keeps-announce accept id t
Keeps-after_accept id t brief_changed = Keeps-pure _
Keeps-after_accept id t (wrong_state s) = Keeps-pure _
Keeps-after_accept id t not_found = Keeps-pure _

pub Keeps-count_committed :
    {kept : Discipline} (wallet : String) → Keeps kept (count_committed_tasks wallet)
unfolding count_committed_tasks
Keeps-count_committed wallet = Keeps-query _

module _ (keccak256 : String → String) where
  Keeps-carry_out :
      (d : OfferDecision) (id : String) (t : TaskRecord)
      → Keeps lifecycle (carry_out keccak256 d id t)
  unfolding carry_out accept_if_free
  Keeps-carry_out accept id t = Keeps-bind _ _ (Keeps-count_committed _) λ n.
      Keeps-if _ _ _ (Keeps-pure _)
        (Keeps-bind _ _ (accept_task-Keeps keccak256 id _) (Keeps-after_accept id t))
  Keeps-carry_out decline id t =
      Keeps-bind _ _ (update_task_status-Keeps id declined (λ e. cc, λ e. cc, λ e. cc))
        (λ u. Keeps-announce decline id t)

  Keeps-answer_task :
      (caller : String) (d : OfferDecision) (id : String) (t : TaskRecord)
      → Keeps lifecycle (answer_task keccak256 caller d id t)
  unfolding answer_task answer_open
  Keeps-answer_task caller d id t =
      Keeps-if (not (same (lower t.to_human_wallet) (lower caller))) _ _ (Keeps-pure _) (
        Keeps-if (is t.status lapsed) _ _ (Keeps-pure _) (
          Keeps-if (not (is t.status pending)) _ _ (Keeps-pure _) (
            Keeps-bind _ _ Keeps-date_now λ now.
              Keeps-if (expiry_passed (now / 1000) t.offer_expiry_unix) _ _
                (Keeps-bind _ _ (update_task_status-Keeps id lapsed (λ e. cc, λ e. cc, λ e. cc))
                  (λ u. Keeps-pure _))
                (Keeps-carry_out d id t))))

  Keeps-answer_found :
      (caller : String) (d : OfferDecision) (id : String) (o : Option TaskRecord)
      → Keeps lifecycle (answer_found keccak256 caller d id o)
  Keeps-answer_found caller d id none = Keeps-pure _
  Keeps-answer_found caller d id (some t) = Keeps-answer_task caller d id t

  -- Whatever the answer, the other requests and the calls that fail, every row stays fine and
  -- changes only as its lifecycle allows.
  pub respond_to_offer-Keeps :
      (caller id : String) (d : OfferDecision)
      → Keeps lifecycle (respond_to_offer keccak256 caller id d)
  unfolding respond_to_offer
  respond_to_offer-Keeps caller id d =
      Keeps-bind _ _ lapse_expired_offers-Keeps
        λ n. Keeps-bind _ _ (get_task_by_payment_id-Keeps id) (Keeps-answer_found caller d id)
