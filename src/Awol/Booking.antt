-- ===== src/Awol/Booking.antt =====
-- The check at booking time, on every run that returns, and on every table.
use carbon_contractors_com.Prelude.{
  ◌≡◌, ◌≢◌, refl, ap, ◌∙◌, ◌⊎◌, inl, inr, true, false, List, [], ◌∷◌, none, some, Option, String,
  arith, All, select, update, any, is_empty,
}
use carbon_contractors_com.Schema.{NotificationChannel}
use carbon_contractors_com.World.{World, notify}
use carbon_contractors_com.World.Ensures.{
  Post, Ensures, Steady, Ensures-pure, Ensures-if, Ensures-map, Ensures-call, Ensures-query,
  Ensures-bind, begin-channels,
}
use carbon_contractors_com.Registry.{
  is_owned_by, set_flag, get_channels_for_contractor, set_accepts_auto_booking_for_contractor,
}
use carbon_contractors_com.Tasks.Queries.{get_tasks_by_wallet}
use carbon_contractors_com.Awol.{
  AwolSignal, AwolStreaks, AwolBookingDecision, unevaluated, decision_of, accepts, disable_if,
  notify_auto_booking_disabled, evaluate_history, evaluate_if_bookable, evaluate_awol_at_booking,
  history_streaks, evaluate_awol,
}

-- No channel of the worker takes bookings without them.
abbrev pub IsManual : String → List NotificationChannel → Type 0
IsManual worker_id channels =
    All (λ c. is_owned_by worker_id c ≡ true → c.accepts_auto_booking ≡ false) channels

update-IsManual :
    (id : String) (cs : List NotificationChannel)
    → IsManual id (update (is_owned_by id) (set_flag false) cs)
update-IsManual id [] = tt
update-IsManual id (c ∷ cs) = (ground arith, update-IsManual id cs)

none_accept-IsManual :
    (id : String) (cs : List NotificationChannel)
    → any accepts (select (is_owned_by id) cs) ≡ false
    → IsManual id cs
none_accept-IsManual id [] h = tt
none_accept-IsManual id (c ∷ cs) h = (ground arith, none_accept-IsManual id cs (ground arith))

-- What a decision says of the channels, which were `cs` before.
abbrev pub Decides : String → List NotificationChannel → AwolBookingDecision → World → Type 0
Decides id cs d w =
    ((d.evaluated ≡ true) × (d.signal ≡ none) × (w.channels ≡ cs))
    ⊎ (IsManual id w.channels × ((d.evaluated ≡ false) ⊎ (d.signal ≢ none)))

module _ (id : String) (cs : List NotificationChannel) where
  abbrev HasChannels : World → Type 0
  HasChannels w = w.channels ≡ cs

  HasChannels-steady : Steady HasChannels
  HasChannels-steady w h = begin-channels w ∙ h

  abbrev AllManual : World → Type 0
  AllManual w = IsManual id w.channels

  notice_ensures :
      (channels : List NotificationChannel) (signal : AwolSignal)
      → Ensures AllManual (notify_auto_booking_disabled id channels signal) (λ _ w. AllManual w)
  unfolding notify_auto_booking_disabled notify
  notice_ensures channels signal =
      Ensures-if (is_empty channels) (λ _. Ensures-pure tt) (λ _. record { at = λ w h. h })

  switch_off_ensures :
      Ensures HasChannels (set_accepts_auto_booking_for_contractor id false) (λ _ w. AllManual w)
  unfolding set_accepts_auto_booking_for_contractor
  switch_off_ensures = Ensures-call _ _ HasChannels-steady (λ v h. update-IsManual id v.channels)

  disable_if_ensures :
      (channels : List NotificationChannel) (streaks : AwolStreaks) (signal : Option AwolSignal)
      → Ensures HasChannels (disable_if id channels streaks signal) (Decides id cs)
  disable_if_ensures channels streaks none =
      Ensures-map (λ w h. inl (refl, refl, h)) (λ a w h. h)
        (Ensures-pure (decision_of streaks none))
  disable_if_ensures channels streaks (some signal) = Ensures-bind _ _ switch_off_ensures λ n.
      Ensures-bind _ _ (notice_ensures channels signal) λ u.
        Ensures-map (λ w h. inr (h, inr (λ e. cc))) (λ a w h. h)
          (Ensures-pure (decision_of streaks (some signal)))

  history_ensures :
      (wallet : String) (channels : List NotificationChannel)
      → Ensures HasChannels (evaluate_history id wallet channels) (Decides id cs)
  unfolding evaluate_history get_tasks_by_wallet
  history_ensures wallet channels =
      Ensures-bind _ _ (Ensures-query {Q = λ _ w. HasChannels w} _ HasChannels-steady (λ v h. h))
        λ tasks.
          disable_if_ensures channels (history_streaks tasks)
            (evaluate_awol (history_streaks tasks))

  bookable_ensures :
      (wallet : String) (channels : List NotificationChannel)
      → Ensures
          (λ w. HasChannels w × (channels ≡ select (is_owned_by id) cs))
          (evaluate_if_bookable id wallet channels)
          (Decides id cs)
  unfolding evaluate_if_bookable
  bookable_ensures wallet channels =
      Ensures-if (any accepts channels)
        (λ _. Ensures-map (λ w h. h.0) (λ a w h. h) (history_ensures wallet channels))
        (λ manual.
          Ensures-map
            (λ w h. inr (rw h.0 (none_accept-IsManual id cs (rw (← h.1) manual)), inl refl))
            (λ a w h. h) (Ensures-pure unevaluated))

  booking_ensures :
      (wallet : String) → Ensures HasChannels (evaluate_awol_at_booking id wallet) (Decides id cs)
  unfolding evaluate_awol_at_booking get_channels_for_contractor
  booking_ensures wallet =
      Ensures-bind _ _
        (Ensures-query {Q = λ l w. HasChannels w × (l ≡ select (is_owned_by id) cs)} _
          HasChannels-steady (λ v h. (h, ap (select (is_owned_by id)) h)))
        (bookable_ensures wallet)

-- If the check returns, then either it found the worker active and left every channel as it was,
-- or no channel of the worker takes bookings any more (none did, or the check has just switched
-- them off). It never returns a signal with a channel of theirs still open to booking.
pub evaluate_awol_at_booking-Decides :
    (id wallet : String) (w : World)
    → Post (Decides id w.channels) (evaluate_awol_at_booking id wallet w)
evaluate_awol_at_booking-Decides id wallet w = (booking_ensures id w.channels wallet).at w refl
