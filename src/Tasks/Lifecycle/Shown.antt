-- ===== src/Tasks/Lifecycle/Shown.antt =====
-- The row that a request has read: `getTaskByPaymentId` of src/lib/db/tasks.ts, as a fact about the
-- run that has called it.
use carbon_contractors_com.Prelude.{ℕ, ◌≡◌, refl, Option, none, some, String, first}
use carbon_contractors_com.Schema.{TaskRecord}
use carbon_contractors_com.World.{World, ok, M, ◌>>=◌}
use carbon_contractors_com.World.Keeps.{IsSound, begin-IsSound}
use carbon_contractors_com.World.Ensures.{
  Ensures, Ensures-bind, Ensures-map, Ensures-query, Ensures-traced, Ensures-from,
}
use carbon_contractors_com.Tasks.Transitions.{
  has_id, read_row, get_task_by_payment_id, lapse_expired_offers,
}
use carbon_contractors_com.Tasks.Lifecycle.{lifecycle}
use carbon_contractors_com.Tasks.Lifecycle.Lasting.{Ensures-IsSound}
use carbon_contractors_com.Tasks.Lifecycle.Writes.{lapse_expired_offers-Keeps}

-- The row that reading by `m`, from the world `start`, answers with: the first row of the id in
-- the table of the moment of the read.
pub record IsShown (m : M (Option TaskRecord)) (id : String) (start : World) (task : TaskRecord)
    : Type 0 where
  pub moment : World
  pub ran : m start ≡ (ok (some task), moment)
  pub stood : first (has_id id) moment.tasks ≡ some task

abbrev pub Shown : M (Option TaskRecord) → String → World → Option TaskRecord → Type 0
Shown m id start none = Unit
Shown m id start (some task) = IsShown m id start task

shown :
    (m : M (Option TaskRecord)) (id : String) (start : World) (o : Option TaskRecord) (w : World)
    → m start ≡ (ok o, w)
    → first (has_id id) w.tasks ≡ o
    → Shown m id start o
shown m id start none w e f = tt
shown m id start (some t) w e f = record { moment = w; ran = e; stood = f }

reads_first :
    (id : String)
    → Ensures
        (IsSound lifecycle)
        (get_task_by_payment_id id)
        (λ o w. IsSound lifecycle w × (first (has_id id) w.tasks ≡ o))
unfolding get_task_by_payment_id read_row
reads_first id =
    Ensures-bind _ _ (Ensures-IsSound _ lapse_expired_offers-Keeps)
      λ n. Ensures-query _ (λ w h. (begin-IsSound w h).0) (λ w h. (h, refl))

-- What follows a read of the table knows whose row it has.
pub get_task_by_payment_id-shows :
    (id : String) (start : World)
    → Ensures
        (λ w. (w ≡ start) × IsSound lifecycle w)
        (get_task_by_payment_id id)
        (λ o w. IsSound lifecycle w × Shown (get_task_by_payment_id id) id start o)
get_task_by_payment_id-shows id start =
    Ensures-map (λ w h. h) (λ o w h. (h.0.0, shown _ id start o w h.1 h.0.1))
      (Ensures-traced start (reads_first id))

-- `lapseExpiredOffers()` and then the read, the way an answer to an offer begins.
abbrev pub swept_read : String → M (Option TaskRecord)
swept_read id = lapse_expired_offers >>= λ n. get_task_by_payment_id id

after_sweep :
    (id : String) (start swept w : World) (n : ℕ) (o : Option TaskRecord)
    → lapse_expired_offers start ≡ (ok n, swept)
    → get_task_by_payment_id id swept ≡ (ok o, w)
    → swept_read id start ≡ (ok o, w)
unfolding ◌>>=◌
after_sweep id start swept w n o e f = rw (e, f) refl

-- The same of a read that comes after a sweep of the offers.
pub swept_read-shows :
    (id : String) (start : World) (n : ℕ)
    → Ensures
        (λ w. IsSound lifecycle w × (lapse_expired_offers start ≡ (ok n, w)))
        (get_task_by_payment_id id)
        (λ o w. IsSound lifecycle w × Shown (swept_read id) id start o)
swept_read-shows id start n = Ensures-from λ swept h.
    Ensures-map (λ w k. (k.0, k.1.0))
      (λ o w k. (k.0.0, shown _ id start o w (after_sweep id start swept w n o h.1 k.1) k.0.1))
      (Ensures-traced swept (reads_first id))
