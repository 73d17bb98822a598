-- ===== src/Reminders.antt =====
-- The scan for offers that are about to expire (src/app/api/cron/offer-reminders/route.ts).
pub mod Invariant
pub mod Silent
pub mod Tests
use carbon_contractors_com.Prelude.{
  ℕ, zero, suc, ◌+◌, ◌/◌, ◌≡◌, Bool, true, false, not, ◌||◌, List, [], ◌∷◌, Option, none, some,
  String, if◌then◌else◌, same, length,
}
use carbon_contractors_com.Schema.{TaskRecord, HumanRecord}
use carbon_contractors_com.World.{
  Error, Result, ok, err, M, pure, ◌>>=◌, ◌>>◌, attempt, date_now, notify, offer_expiring,
}
use carbon_contractors_com.Registry.{get_human_by_wallet}
use carbon_contractors_com.Tasks.Queries.{get_offers_needing_reminder, mark_offer_reminder_sent}

pub record ReminderRun : Type 0 where
  pub dispatched : ℕ
  pub skipped_race : ℕ
  pub no_worker : ℕ

pub data ReminderResponse : Type 0 where
  secret_not_configured : ReminderResponse  -- 503
  unauthorized : ReminderResponse  -- 401
  scan_failed : Error → ReminderResponse  -- `safeErrorResponse`
  ran : (candidates : ℕ) → ReminderRun → ReminderResponse

abbrev pub or_unclaimed : Result Bool → M Bool
or_unclaimed (ok b) = pure b
or_unclaimed (err e) = pure false

unfoldable pub claim : TaskRecord → M Bool
claim offer = attempt (mark_offer_reminder_sent offer.payment_request_id) or_unclaimed

-- An empty id counts as none.
abbrev pub id_of : Result (Option HumanRecord) → String
id_of (ok (some h)) = h.id
id_of (ok none) = ""
id_of (err e) = ""

abbrev pub expiry_of : Option ℕ → ℕ
expiry_of none = 0
expiry_of (some n) = n

abbrev pub tell_expiring : TaskRecord → ReminderRun → String → M ReminderRun
tell_expiring offer run worker_id =
    if same worker_id "" then pure (record run { no_worker = run.no_worker + 1 }) else do
      notify worker_id (
          offer_expiring offer.payment_request_id offer.amount_usdc
            (expiry_of offer.offer_expiry_unix))
      pure (record run { dispatched = run.dispatched + 1 })

abbrev pub tell_found : TaskRecord → ReminderRun → Result (Option HumanRecord) → M ReminderRun
tell_found offer run found = tell_expiring offer run (id_of found)

abbrev pub if_claimed : TaskRecord → ReminderRun → Bool → M ReminderRun
if_claimed offer run claimed =
    if not claimed
    then pure (record run { skipped_race = run.skipped_race + 1 })
    else attempt (get_human_by_wallet offer.to_human_wallet) (tell_found offer run)

-- One turn of the loop.
unfoldable pub remind_offer : TaskRecord → ReminderRun → M ReminderRun
remind_offer offer run = do claimed ← claim offer; if_claimed offer run claimed

unfoldable pub remind_offers : List TaskRecord → ReminderRun → M ReminderRun
remind_offers [] run = pure run
remind_offers (offer ∷ offers) run = do run' ← remind_offer offer run; remind_offers offers run'

abbrev pub no_reminders : ReminderRun
no_reminders = record { dispatched = 0; skipped_race = 0; no_worker = 0 }

unfoldable pub remind_all : List TaskRecord → M ReminderResponse
remind_all candidates = do
  run ← remind_offers candidates no_reminders
  pure (ran (length candidates) run)

abbrev pub remind_found : Result (List TaskRecord) → M ReminderResponse
remind_found (ok candidates) = remind_all candidates
remind_found (err e) = pure (scan_failed e)

unfoldable pub scan : M ReminderResponse
scan = do now ← date_now; attempt (get_offers_needing_reminder (now / 1000)) remind_found

abbrev pub scan_if : Option String → String → M ReminderResponse
scan_if none provided = pure secret_not_configured
scan_if (some secret) provided =
    if same secret ""
    then pure secret_not_configured
    else if same provided "" || not (same provided secret)
    then pure unauthorized
    else scan

-- `GET`, with the configured secret and what follows `Bearer ` in the header.
unfoldable pub offer_reminders :
    (cron_secret : Option String) (provided : String) → M ReminderResponse
offer_reminders cron_secret provided = scan_if cron_secret provided
