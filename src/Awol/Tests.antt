-- ===== src/Awol/Tests.antt =====
-- A worker who let three offers lapse, and one who answered in between.
use carbon_contractors_com.Prelude.{
  ◌≡◌, ◌↔◌, ◌⊎◌, refl, [], ◌∷◌, some, none, List, ◌/◌, true, reverse,
}
use carbon_contractors_com.Schema.{pending, accepted, lapsed, includes}
use carbon_contractors_com.World.{answered as reply}
use carbon_contractors_com.World.Ensures.{Post}
use carbon_contractors_com.Tasks.Transitions.{move_row, is_expired_offer}
use carbon_contractors_com.Awol.{
  AwolOutcome, lapsed_offer, was_accepted, other, lapsed_offers, expired_tasks, no_answer, no_work,
  compute_awol_streaks, evaluate_awol, evaluate_awol_at_booking, task_to_awol_outcome, count_run,
}
use carbon_contractors_com.Awol.Streaks.{
  expected_streaks, EndsInThree, compute_awol_streaks_lem, evaluate_awol_iff, lapse_outcome,
}
use carbon_contractors_com.Awol.Booking.{Decides, evaluate_awol_at_booking-Decides}
use carbon_contractors_com.Scenario.{offer, offer-IsFine, booked, world, worker_wallet, channel}

abbrev silent : List AwolOutcome
silent = was_accepted ∷ lapsed_offer ∷ lapsed_offer ∷ other ∷ lapsed_offer ∷ []

abbrev answering : List AwolOutcome
answering = lapsed_offer ∷ lapsed_offer ∷ was_accepted ∷ lapsed_offer ∷ []

evaluate_awol_tests :
    (evaluate_awol (compute_awol_streaks silent) ≡ some lapsed_offers)
    × (evaluate_awol (compute_awol_streaks answering) ≡ none)
unfolding evaluate_awol compute_awol_streaks count_run
evaluate_awol_tests = (refl, refl)

compute_awol_streaks_lem_example : compute_awol_streaks silent ≡ expected_streaks (reverse silent)
compute_awol_streaks_lem_example = compute_awol_streaks_lem silent

evaluate_awol_iff_example :
    ((evaluate_awol (compute_awol_streaks silent) ≡ some lapsed_offers)
      ↔ EndsInThree no_answer (reverse silent))
    × ((evaluate_awol (compute_awol_streaks silent) ≡ some expired_tasks)
        ↔ EndsInThree no_work (reverse silent))
evaluate_awol_iff_example = evaluate_awol_iff silent

offer_expired : is_expired_offer (200000000 / 1000) offer ≡ true
unfolding is_expired_offer includes
offer_expired = refl

lapse_outcome_example :
    ((offer.status ≡ pending)
      × (task_to_awol_outcome (move_row 200000000 lapsed offer) ≡ lapsed_offer))
    ⊎ ((offer.status ≡ accepted)
        × (task_to_awol_outcome (move_row 200000000 lapsed offer) ≡ was_accepted))
lapse_outcome_example = lapse_outcome 200000000 offer offer-IsFine (λ e. cc) offer_expired

evaluate_awol_at_booking-Decides_example :
    Post
      (Decides "w1" (channel true ∷ []))
      (evaluate_awol_at_booking "w1" worker_wallet (world booked (reply ∷ reply ∷ [])))
evaluate_awol_at_booking-Decides_example =
    evaluate_awol_at_booking-Decides "w1" worker_wallet (world booked (reply ∷ reply ∷ []))
