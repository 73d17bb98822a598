-- ===== src/Reminders/Invariant.antt =====
-- A scan for offers that are about to expire keeps the lifecycle of every row, and its counts add up.
use carbon_contractors_com.Prelude.{
  ℕ, ◌+◌, ◌≡◌, refl, inr, Bool, false, not, ◌||◌, List, [], ◌∷◌, Option, none, some, String, same,
  length, arith,
}
use carbon_contractors_com.Schema.{TaskRecord}
use carbon_contractors_com.World.{World, Result, ok, err}
use carbon_contractors_com.World.Keeps.{
  Keeps, Keeps-bind, Keeps-attempt, Keeps-update_tasks, Keeps-pure, Keeps-if, Keeps-date_now,
  Keeps-notify, Keeps-query,
}
use carbon_contractors_com.World.Yields.{
  Yields, Yields-pure, Yields-if, Yields-map, Yields-bind, Yields-attempt, Yields-notify, Returned,
}
use carbon_contractors_com.Registry.{Keeps-get_human_by_wallet}
use carbon_contractors_com.Tasks.Queries.{
  is_remindable, remind_row, mark_offer_reminder_sent, get_offers_needing_reminder,
}
use carbon_contractors_com.Tasks.Lifecycle.{IsFine, RowObeys, stay, lifecycle, Obeys-update}
use carbon_contractors_com.Reminders.{
  ReminderRun, or_unclaimed, claim, id_of, if_claimed, remind_offer, remind_offers, no_reminders,
  remind_all, remind_found, scan, offer_reminders,
}

-- A reminder changes the marker alone.
remind_row-RowObeys : (now : ℕ) (t : TaskRecord) → IsFine t → RowObeys t (remind_row now t)
unfolding remind_row
remind_row-RowObeys now t h = (
  record {
    unpinned = h.unpinned;
    consented = h.consented;
    funded_consented = h.funded_consented;
    active_funded = h.active_funded;
    unfunded = h.unfunded;
    worker_lower = h.worker_lower;
    never_unsent = λ e. cc;
  },
  record {
    same_id = refl;
    same_agent = refl;
    same_worker = refl;
    same_amount = refl;
    key_kept = refl;
    moves = stay;
    pin_kept = inr refl;
    funding_kept = inr refl;
  },
)

Keeps-mark : (id : String) → Keeps lifecycle (mark_offer_reminder_sent id)
unfolding mark_offer_reminder_sent
Keeps-mark id = Keeps-bind _ _ Keeps-date_now λ now.
    Keeps-bind _ _
      (Keeps-update_tasks (is_remindable id) (remind_row now) (
        Obeys-update (is_remindable id) (remind_row now)
          (λ t h passed. remind_row-RowObeys now t h)))
      (λ marked. Keeps-pure _)

Keeps-or_unclaimed : (r : Result Bool) → Keeps lifecycle (or_unclaimed r)
Keeps-or_unclaimed (ok b) = Keeps-pure _
Keeps-or_unclaimed (err e) = Keeps-pure _

Keeps-if_claimed :
    (t : TaskRecord) (run : ReminderRun) (b : Bool) → Keeps lifecycle (if_claimed t run b)
Keeps-if_claimed t run b = Keeps-if (not b) _ _ (Keeps-pure _) (
    Keeps-attempt _ _ (Keeps-get_human_by_wallet _) λ found.
      Keeps-if (same (id_of found) "") _ _ (Keeps-pure _)
        (Keeps-bind _ _ (Keeps-notify _ _) (λ u. Keeps-pure _)))

Keeps-remind_offers :
    (offers : List TaskRecord) (run : ReminderRun) → Keeps lifecycle (remind_offers offers run)
unfolding remind_offers remind_offer claim
Keeps-remind_offers [] run = Keeps-pure _
Keeps-remind_offers (t ∷ ts) run =
    Keeps-bind _ _
      (Keeps-bind _ _ (Keeps-attempt _ _ (Keeps-mark _) Keeps-or_unclaimed)
        (Keeps-if_claimed t run))
      (Keeps-remind_offers ts)

Keeps-remind_found : (r : Result (List TaskRecord)) → Keeps lifecycle (remind_found r)
unfolding remind_all
Keeps-remind_found (ok ts) =
    Keeps-bind _ _ (Keeps-remind_offers ts no_reminders) (λ run. Keeps-pure _)
Keeps-remind_found (err e) = Keeps-pure _

Keeps-scan : Keeps lifecycle scan
unfolding scan get_offers_needing_reminder
Keeps-scan =
    Keeps-bind _ _ Keeps-date_now λ now. Keeps-attempt _ _ (Keeps-query _) Keeps-remind_found

-- A scan keeps the lifecycle.
pub offer_reminders-Keeps :
    (secret : Option String) (provided : String) → Keeps lifecycle (offer_reminders secret provided)
unfolding offer_reminders
offer_reminders-Keeps none provided = Keeps-pure _
offer_reminders-Keeps (some secret) provided =
    Keeps-if (same secret "") _ _ (Keeps-pure _)
      (Keeps-if (same provided "" || not (same provided secret)) _ _ (Keeps-pure _) Keeps-scan)

abbrev pub counted : ReminderRun → ℕ
counted run = run.dispatched + run.skipped_race + run.no_worker

claim_yields : (t : TaskRecord) → Yields (claim t) (λ _. Unit)
unfolding claim
claim_yields t = Yields-attempt _ _ or_unclaimed_yields
  where
    or_unclaimed_yields : (r : Result Bool) → Yields (or_unclaimed r) (λ _. Unit)
    or_unclaimed_yields (ok b) = Yields-pure b tt
    or_unclaimed_yields (err e) = Yields-pure false tt

remind_offer_yields :
    (t : TaskRecord) (run : ReminderRun)
    → Yields (remind_offer t run) (λ run'. counted run' ≡ counted run + 1)
unfolding remind_offer
remind_offer_yields t run = Yields-bind _ _ (claim_yields t) λ claimed u.
    Yields-if (not claimed) (λ _. Yields-pure _ (omega arith))
      (λ _. Yields-attempt _ _ λ found.
        Yields-if (same (id_of found) "") (λ _. Yields-pure _ (omega arith))
          (λ _. Yields-bind _ _ (Yields-notify _ _) λ u' v. Yields-pure _ (omega arith)))

remind_offers_yields :
    (offers : List TaskRecord) (run : ReminderRun)
    → Yields (remind_offers offers run) (λ run'. counted run' ≡ counted run + length offers)
unfolding remind_offers
remind_offers_yields [] run = Yields-pure run (omega arith)
remind_offers_yields (t ∷ ts) run =
    Yields-bind _ _ (remind_offer_yields t run)
      λ run' e. Yields-map (λ run'' e'. omega (arith, e, e')) (remind_offers_yields ts run')

-- The loop over the offers returns in every interleaving, whatever calls fail, and has counted
-- every offer once: as sent, as lost to another run, or as one without a worker.
pub remind_offers-counted :
    (offers : List TaskRecord) (run : ReminderRun) (w : World)
    → Returned (λ run'. counted run' ≡ counted run + length offers) (remind_offers offers run w).0
remind_offers-counted offers run w = (remind_offers_yields offers run).at w
