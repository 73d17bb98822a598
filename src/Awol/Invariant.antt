-- ===== src/Awol/Invariant.antt =====
-- The check at a booking writes no task.
use carbon_contractors_com.Prelude.{Option, none, some, List, String, is_empty, any}
use carbon_contractors_com.Schema.{NotificationChannel}
use carbon_contractors_com.World.Keeps.{
  Keeps, Keeps-bind, Keeps-pure, Keeps-if, Keeps-notify, Keeps-query,
}
use carbon_contractors_com.Registry.{Keeps-get_channels_for_contractor, Keeps-set_accepts}
use carbon_contractors_com.Tasks.Queries.{get_tasks_by_wallet}
use carbon_contractors_com.Tasks.Lifecycle.{lifecycle}
use carbon_contractors_com.Awol.{
  AwolSignal, AwolStreaks, accepts, disable_if, evaluate_history, evaluate_if_bookable,
  evaluate_awol_at_booking, notify_auto_booking_disabled,
}

Keeps-notice :
    (id : String) (cs : List NotificationChannel) (signal : AwolSignal)
    → Keeps lifecycle (notify_auto_booking_disabled id cs signal)
unfolding notify_auto_booking_disabled
Keeps-notice id cs signal = Keeps-if (is_empty cs) _ _ (Keeps-pure _) (Keeps-notify _ _)

Keeps-disable_if :
    (id : String) (cs : List NotificationChannel) (streaks : AwolStreaks) (o : Option AwolSignal)
    → Keeps lifecycle (disable_if id cs streaks o)
Keeps-disable_if id cs streaks none = Keeps-pure _
Keeps-disable_if id cs streaks (some signal) =
    Keeps-bind _ _ (Keeps-set_accepts _ _)
      λ n. Keeps-bind _ _ (Keeps-notice id cs signal) (λ u. Keeps-pure _)

Keeps-bookable :
    (id wallet : String) (cs : List NotificationChannel)
    → Keeps lifecycle (evaluate_if_bookable id wallet cs)
unfolding evaluate_if_bookable evaluate_history get_tasks_by_wallet
Keeps-bookable id wallet cs =
    Keeps-if (any accepts cs) _ _
      (Keeps-bind _ _ (Keeps-query _) (λ ts. Keeps-disable_if id cs _ _)) (Keeps-pure _)

-- It keeps the lifecycle, since it writes channels alone.
pub evaluate_awol_at_booking-Keeps :
    (id wallet : String) → Keeps lifecycle (evaluate_awol_at_booking id wallet)
unfolding evaluate_awol_at_booking
evaluate_awol_at_booking-Keeps id wallet =
    Keeps-bind _ _ (Keeps-get_channels_for_contractor id) (Keeps-bookable id wallet)
