-- ===== src/Reminders/Silent.antt =====
-- What the scan finds in a table that this code has written.
use carbon_contractors_com.Prelude.{
  ℕ, ◌≡◌, refl, Bool, true, false, List, [], ◌∷◌, Option, none, some, All, select, arith,
}
use carbon_contractors_com.Schema.{TaskRecord}
use carbon_contractors_com.World.{World}
use carbon_contractors_com.World.Keeps.{IsSound, begin-IsSound}
use carbon_contractors_com.World.Ensures.{Ensures, Ensures-query, Steady, Post}
use carbon_contractors_com.Tasks.Queries.{is_not_sent, needs_reminder, get_offers_needing_reminder}
use carbon_contractors_com.Tasks.Lifecycle.{IsFine, lifecycle}

is_not_sent-false : (o : Option Bool) → ¬ (o ≡ some false) → is_not_sent o ≡ false
unfolding is_not_sent
is_not_sent-false none k = refl
is_not_sent-false (some true) k = refl
is_not_sent-false (some false) k = elim (k refl) [ ]

needs_reminder-false : (now : ℕ) (t : TaskRecord) → IsFine t → needs_reminder now t ≡ false
unfolding needs_reminder
needs_reminder-false now t h =
    ground (arith, is_not_sent-false t.offer_reminder_sent h.never_unsent)

none_need : (now : ℕ) (ts : List TaskRecord) → All IsFine ts → select (needs_reminder now) ts ≡ []
none_need now [] h = refl
none_need now (t ∷ ts) (h, hs) = rw (needs_reminder-false now t h, none_need now ts hs) refl

IsSound-steady : Steady (IsSound lifecycle)
IsSound-steady w h = (begin-IsSound w h).0

query_finds_none :
    (now : ℕ) → Ensures (IsSound lifecycle) (get_offers_needing_reminder now) (λ ts w. ts ≡ [])
unfolding get_offers_needing_reminder
query_finds_none now = Ensures-query _ IsSound-steady (λ v h. none_need now v.tasks h.tasks.0)

-- In a table whose rows this code has written, and in every interleaving with its own writes, the
-- scan never finds an offer to remind a worker of: a new row has NULL for its marker, and SQL's
-- `<> true` lets no NULL pass.
pub get_offers_needing_reminder-empty :
    (now : ℕ) (w : World)
    → IsSound lifecycle w
    → Post (λ ts v. ts ≡ []) (get_offers_needing_reminder now w)
get_offers_needing_reminder-empty now w h = (query_finds_none now).at w h
