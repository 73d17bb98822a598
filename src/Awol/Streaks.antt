-- ===== src/Awol/Streaks.antt =====
-- What the streaks count, and when they trigger.
use carbon_contractors_com.Prelude.{
  ℕ, suc, ◌+◌, ◌/◌, ◌≤◌, ◌≡◌, ◌≢◌, ◌↔◌, ◌⊎◌, inl, inr, refl, Bool, true, false, List, [], ◌∷◌, none,
  some, Option, String, reverse, arith, if◌then◌else◌, select, same_iff,
}
use carbon_contractors_com.Schema.{pending, accepted, lapsed, is, TaskRecord}
use carbon_contractors_com.Tasks.Transitions.{is_expired_offer, move_row}
use carbon_contractors_com.Tasks.Lifecycle.{IsFine}
use carbon_contractors_com.Awol.{
  AwolOutcome, lapsed_offer, expired_no_submission, was_accepted, other, AwolStreaks, lapsed_offers,
  expired_tasks, Silence, no_answer, no_work, count_run, streaks_of, compute_awol_streaks,
  evaluate_awol, task_to_awol_outcome, task_status_to_awol_outcome, is_truthy,
}

-- The outcomes that say something of the worker.
abbrev is_meaningful : AwolOutcome → Bool
is_meaningful other = false
is_meaningful _ = true

abbrev pub is_silence : Silence → AwolOutcome → Bool
is_silence no_answer lapsed_offer = true
is_silence no_work expired_no_submission = true
is_silence _ _ = false

-- How many outcomes a list begins with that are one kind of silence.
abbrev pub leading : Silence → List AwolOutcome → ℕ
leading k [] = 0
leading k (o ∷ rest) = let n = suc (leading k rest) in if is_silence k o then n else 0

abbrev pub meaningful : List AwolOutcome → List AwolOutcome
meaningful outcomes = select is_meaningful outcomes

count_run-some :
    (k : Silence) (run : ℕ) (l : List AwolOutcome)
    → count_run (some k) run l ≡ (some k, run + leading k (meaningful l))
unfolding count_run
count_run-some k run [] = ground arith
count_run-some no_answer run (lapsed_offer ∷ rest) =
    ground (arith, count_run-some no_answer (run + 1) rest)
count_run-some no_work run (expired_no_submission ∷ rest) =
    ground (arith, count_run-some no_work (run + 1) rest)
count_run-some no_answer run (other ∷ rest) = count_run-some no_answer run rest
count_run-some no_work run (other ∷ rest) = count_run-some no_work run rest
count_run-some no_answer run (_ ∷ rest) = ground arith
count_run-some no_work run (_ ∷ rest) = ground arith

-- The run of silence that a worker's newest outcomes make, of each kind.
abbrev pub expected_streaks : List AwolOutcome → AwolStreaks
expected_streaks newest = record {
  consecutive_lapsed_offers = leading no_answer (meaningful newest);
  consecutive_expired_tasks = leading no_work (meaningful newest);
}

count_run-none : (l : List AwolOutcome) → streaks_of (count_run none 0 l) ≡ expected_streaks l
unfolding count_run
count_run-none [] = refl
count_run-none (lapsed_offer ∷ rest) = ground (arith, count_run-some no_answer 1 rest)
count_run-none (expired_no_submission ∷ rest) = ground (arith, count_run-some no_work 1 rest)
count_run-none (other ∷ rest) = count_run-none rest
count_run-none (_ ∷ rest) = refl

-- The loop with its early exits computes, for each kind of silence, the number of outcomes of
-- that kind that the history ends with, in-flight items left out.
pub compute_awol_streaks_lem :
    (outcomes : List AwolOutcome)
    → compute_awol_streaks outcomes ≡ expected_streaks (reverse outcomes)
unfolding compute_awol_streaks
compute_awol_streaks_lem outcomes = count_run-none (reverse outcomes)

-- The last three outcomes that say something are of one kind.
abbrev pub EndsInThree : Silence → List AwolOutcome → Type 0
EndsInThree k newest = 3 ≤ leading k (meaningful newest)

leading_exclusive : (l : List AwolOutcome) → (leading no_answer l ≡ 0) ⊎ (leading no_work l ≡ 0)
leading_exclusive [] = inl refl
leading_exclusive (lapsed_offer ∷ rest) = inr refl
leading_exclusive (_ ∷ rest) = inl refl

-- Auto-booking is switched off for lapsed offers exactly when the last three meaningful outcomes
-- are lapsed offers, for expired tasks exactly when they are expired tasks, and not otherwise.
pub evaluate_awol_iff :
    (outcomes : List AwolOutcome)
    → let signal = evaluate_awol (compute_awol_streaks outcomes) in
      ((signal ≡ some lapsed_offers) ↔ EndsInThree no_answer (reverse outcomes))
      × ((signal ≡ some expired_tasks) ↔ EndsInThree no_work (reverse outcomes))
unfolding evaluate_awol
evaluate_awol_iff outcomes =
    ground
      (arith, compute_awol_streaks_lem outcomes, leading_exclusive (meaningful (reverse outcomes)))

is_truthy_of_ne : (pin : Option String) → pin ≢ none → pin ≢ some "" → is_truthy pin ≡ true
unfolding is_truthy
is_truthy_of_ne none h k = absurd (h refl)
is_truthy_of_ne (some s) h k = ground (arith, same_iff s "")

expired-offered :
    (now : ℕ) (t : TaskRecord)
    → is_expired_offer now t ≡ true
    → (t.status ≡ pending) ⊎ (t.status ≡ accepted)
unfolding is_expired_offer
expired-offered now t h = ground arith

-- A row that lapses is held against the worker exactly when it was still their move: a pending
-- offer counts as silence, and an accepted one, which the agent left unfunded, as acceptance. The
-- pins are texts that are not empty, as a keccak256 digest is.
pub lapse_outcome :
    (now : ℕ) (t : TaskRecord)
    → IsFine t
    → t.accepted_description_hash ≢ some ""
    → is_expired_offer (now / 1000) t ≡ true
    → let outcome = task_to_awol_outcome (move_row now lapsed t) in
      ((t.status ≡ pending) × (outcome ≡ lapsed_offer))
      ⊎ ((t.status ≡ accepted) × (outcome ≡ was_accepted))
unfolding task_to_awol_outcome move_row task_status_to_awol_outcome is
lapse_outcome now t h pin expired = elim (expired-offered (now / 1000) t expired) [
  | inl open_offer ↦ inl (open_offer, rw (h.unpinned (inl open_offer)) (unfold is_truthy in refl))
  | inr booked ↦
      inr (
        booked,
        rw (is_truthy_of_ne t.accepted_description_hash (h.consented (inl booked)) pin) refl,
      )
]
