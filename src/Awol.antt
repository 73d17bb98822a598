-- ===== src/Awol.antt =====
-- Switching auto-booking off for a worker who has gone silent (src/lib/awol.ts). The log lines
-- have no counterpart; the delivery of the notice contains its own faults.
pub mod Streaks
pub mod Booking
pub mod Tests
pub mod Invariant
use carbon_contractors_com.Prelude.{
  ℕ, suc, ◌+◌, ◌≡◌, Bool, true, false, not, ◌&&◌, List, [], ◌∷◌, Option, none, some, String, map,
  reverse, if◌then◌else◌, leb, same, any, is_empty,
}
use carbon_contractors_com.Schema.{
  TaskStatus, pending, accepted, declined, lapsed, active, completed, disputed, expired, is,
  TaskRecord, NotificationChannel,
}
use carbon_contractors_com.World.{
  Event, lapsed_offers_notice, expired_tasks_notice, M, pure, ◌>>=◌, ◌>>◌, notify,
}
use carbon_contractors_com.Registry.{
  get_channels_for_contractor, set_accepts_auto_booking_for_contractor,
}
use carbon_contractors_com.Tasks.Queries.{get_tasks_by_wallet}

abbrev pub awol_lapsed_offer_threshold : ℕ
awol_lapsed_offer_threshold = 3

abbrev pub awol_expired_task_threshold : ℕ
awol_expired_task_threshold = 3

pub data AwolSignal : Type 0 where
  lapsed_offers expired_tasks : AwolSignal

-- `delivered` is a member of the source's type that no status maps to.
pub data AwolOutcome : Type 0 where
  lapsed_offer expired_no_submission was_declined was_accepted delivered was_completed : AwolOutcome
  was_disputed other : AwolOutcome

pub record AwolStreaks : Type 0 where
  pub consecutive_lapsed_offers : ℕ
  pub consecutive_expired_tasks : ℕ

unfoldable pub task_status_to_awol_outcome : TaskStatus → AwolOutcome
task_status_to_awol_outcome expired = expired_no_submission
task_status_to_awol_outcome completed = was_completed
task_status_to_awol_outcome disputed = was_disputed
task_status_to_awol_outcome lapsed = lapsed_offer
task_status_to_awol_outcome declined = was_declined
task_status_to_awol_outcome accepted = was_accepted
task_status_to_awol_outcome pending = other
task_status_to_awol_outcome active = other

-- A nullable text where a condition is wanted: null and "" are false.
unfoldable pub is_truthy : Option String → Bool
is_truthy none = false
is_truthy (some s) = not (same s "")

unfoldable pub task_to_awol_outcome : TaskRecord → AwolOutcome
task_to_awol_outcome task =
    if is task.status lapsed && is_truthy task.accepted_description_hash
    then was_accepted
    else task_status_to_awol_outcome task.status

-- The two kinds of silence.
pub data Silence : Type 0 where
  no_answer no_work : Silence

-- The loop of `computeAwolStreaks`, over the outcomes from the newest to the oldest, with the kind
-- and the length of the run so far; the clauses that return at once are its `break`s.
unfoldable pub count_run : Option Silence → ℕ → List AwolOutcome → Option Silence × ℕ
count_run kind run [] = (kind, run)
count_run kind run (other ∷ rest) = count_run kind run rest
count_run none run (lapsed_offer ∷ rest) = count_run (some no_answer) 1 rest
count_run none run (expired_no_submission ∷ rest) = count_run (some no_work) 1 rest
count_run (some no_answer) run (lapsed_offer ∷ rest) = count_run (some no_answer) (run + 1) rest
count_run (some no_work) run (expired_no_submission ∷ rest) =
    count_run (some no_work) (run + 1) rest
count_run kind run (_ ∷ rest) = (kind, run)

abbrev pub streaks_of : Option Silence × ℕ → AwolStreaks
streaks_of (some no_answer, run) = record {
  consecutive_lapsed_offers = run;
  consecutive_expired_tasks = 0;
}
streaks_of (some no_work, run) = record {
  consecutive_lapsed_offers = 0;
  consecutive_expired_tasks = run;
}
streaks_of (none, run) = record { consecutive_lapsed_offers = 0; consecutive_expired_tasks = 0 }

unfoldable pub compute_awol_streaks : List AwolOutcome → AwolStreaks
unfolding count_run
compute_awol_streaks outcomes = streaks_of (count_run none 0 (reverse outcomes))

-- The signal, where a threshold is crossed.
unfoldable pub evaluate_awol : AwolStreaks → Option AwolSignal
evaluate_awol streaks =
    if leb awol_lapsed_offer_threshold streaks.consecutive_lapsed_offers
    then some lapsed_offers
    else if leb awol_expired_task_threshold streaks.consecutive_expired_tasks
    then some expired_tasks
    else none

-- `triggered` is that there is a signal.
pub record AwolBookingDecision : Type 0 where
  pub evaluated : Bool
  pub signal : Option AwolSignal
  pub consecutive_lapsed_offers : ℕ
  pub consecutive_expired_tasks : ℕ

abbrev pub unevaluated : AwolBookingDecision
unevaluated = record {
  evaluated = false;
  signal = none;
  consecutive_lapsed_offers = 0;
  consecutive_expired_tasks = 0;
}

abbrev pub decision_of : AwolStreaks → Option AwolSignal → AwolBookingDecision
decision_of streaks signal = record {
  evaluated = true;
  signal = signal;
  consecutive_lapsed_offers = streaks.consecutive_lapsed_offers;
  consecutive_expired_tasks = streaks.consecutive_expired_tasks;
}

abbrev pub notice_of : AwolSignal → Event
notice_of lapsed_offers = lapsed_offers_notice
notice_of expired_tasks = expired_tasks_notice

-- `notifyAutoBookingDisabled` of src/lib/notifications/dispatch.ts: no channel, no notice.
unfoldable pub notify_auto_booking_disabled :
    String → List NotificationChannel → AwolSignal → M (Unit {0})
notify_auto_booking_disabled worker_id channels signal =
    if is_empty channels then pure tt else notify worker_id (notice_of signal)

abbrev pub disable_if :
    String → List NotificationChannel → AwolStreaks → Option AwolSignal → M AwolBookingDecision
disable_if worker_id channels streaks none = pure (decision_of streaks none)
disable_if worker_id channels streaks (some signal) = do
  set_accepts_auto_booking_for_contractor worker_id false
  notify_auto_booking_disabled worker_id channels signal
  pure (decision_of streaks (some signal))

-- The rows come newest first; the streaks are counted over the oldest first.
unfoldable pub history_streaks : List TaskRecord → AwolStreaks
history_streaks tasks = compute_awol_streaks (map task_to_awol_outcome (reverse tasks))

unfoldable pub evaluate_history : String → String → List NotificationChannel → M AwolBookingDecision
evaluate_history worker_id wallet channels = do
  tasks ← get_tasks_by_wallet wallet
  let streaks = history_streaks tasks
  disable_if worker_id channels streaks (evaluate_awol streaks)

abbrev pub accepts : NotificationChannel → Bool
accepts c = c.accepts_auto_booking

unfoldable pub evaluate_if_bookable :
    String → String → List NotificationChannel → M AwolBookingDecision
evaluate_if_bookable worker_id wallet channels =
    if any accepts channels then evaluate_history worker_id wallet channels else pure unevaluated

unfoldable pub evaluate_awol_at_booking : String → String → M AwolBookingDecision
evaluate_awol_at_booking worker_id wallet = do
  channels ← get_channels_for_contractor worker_id
  evaluate_if_bookable worker_id wallet channels
