-- ===== src/Tasks/Tests.antt =====
-- The read of an offer that ran out.
use carbon_contractors_com.Prelude.{Along, length, refl, [], first, ◌∷◌, ◌≡◌}
use carbon_contractors_com.World.{World, ok}
use carbon_contractors_com.Tasks.Transitions.{has_id, get_task_by_payment_id}
use carbon_contractors_com.Tasks.Lapse.{Lapses, get_task_by_payment_id-live}
use carbon_contractors_com.Scenario.{offer, world}

abbrev late : World
late = record (world offer []) { now = 200000000 }

get_task_by_payment_id-live_example :
    Along (Lapses 200000000) (offer ∷ []) (get_task_by_payment_id "t1" late).1.tasks
    × (length (get_task_by_payment_id "t1" late).1.tasks ≡ 1)
    × ((get_task_by_payment_id "t1" late).0
        ≡ ok (first (has_id "t1") (get_task_by_payment_id "t1" late).1.tasks))
get_task_by_payment_id-live_example = get_task_by_payment_id-live "t1" late refl
