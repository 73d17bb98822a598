-- ===== src/Registry.antt =====
-- The worker registry (src/lib/db/whitepages.ts) and the notification channels
-- (src/lib/db/notifications.ts). Other requests are not taken to write these two tables.
use carbon_contractors_com.Prelude.{
  ℕ, Bool, List, Option, String, same, lower, first, select, update, length,
}
use carbon_contractors_com.Schema.{NotificationChannel, HumanRecord}
use carbon_contractors_com.World.{M, call, query}
use carbon_contractors_com.World.Keeps.{Discipline, Keeps, Keeps-call, Keeps-query}

unfoldable pub get_human_by_wallet : String → M (Option HumanRecord)
get_human_by_wallet wallet = query (λ w. first (λ h. same h.wallet (lower wallet)) w.humans)

unfoldable pub get_human_by_id : String → M (Option HumanRecord)
get_human_by_id id = query (λ w. first (λ h. same h.id id) w.humans)

unfoldable pub is_owned_by : String → NotificationChannel → Bool
is_owned_by contractor_id c = same c.contractor_id contractor_id

unfoldable pub get_channels_for_contractor : String → M (List NotificationChannel)
get_channels_for_contractor contractor_id =
    query (λ w. select (is_owned_by contractor_id) w.channels)

abbrev pub set_flag : Bool → NotificationChannel → NotificationChannel
set_flag accepts c = record c { accepts_auto_booking = accepts }

-- How many channels were changed.
unfoldable pub set_accepts_auto_booking_for_contractor : String → Bool → M ℕ
set_accepts_auto_booking_for_contractor contractor_id accepts =
    call (λ w. length (select (is_owned_by contractor_id) w.channels))
      (λ w. record w {
        channels = update (is_owned_by contractor_id) (set_flag accepts) w.channels;
      })

module _ {d : Discipline} where
  pub Keeps-get_human_by_wallet : (wallet : String) → Keeps d (get_human_by_wallet wallet)
  unfolding get_human_by_wallet
  Keeps-get_human_by_wallet wallet = Keeps-query _

  pub Keeps-get_channels_for_contractor : (id : String) → Keeps d (get_channels_for_contractor id)
  unfolding get_channels_for_contractor
  Keeps-get_channels_for_contractor id = Keeps-query _

  pub Keeps-set_accepts :
      (id : String) (accepts : Bool) → Keeps d (set_accepts_auto_booking_for_contractor id accepts)
  unfolding set_accepts_auto_booking_for_contractor
  Keeps-set_accepts id accepts =
      Keeps-call _ _ λ w h. (record { tasks = h.tasks; turns = h.turns }, d.evolves_refl w.tasks)
