-- ===== src/World.antt =====
-- What a request of the server works on, and the calls by which it reaches the database. A call
-- takes time, other requests may write the tasks before it is carried out, and it may fail in two
-- ways: not carried out, or carried out with its answer lost. The three are read off a list of
-- turns, one for each call, so that a theorem about every list is about every interleaving. Code
-- that only logs has no counterpart here.
pub mod Keeps
pub mod Ensures
pub mod Yields
pub mod Calm
use carbon_contractors_com.Prelude.{
  ℕ, ◌+◌, ◌/◌, ◌≡◌, refl, Bool, true, false, List, [], ◌∷◌, ◌++◌, Option, none, some, String,
  if◌then◌else◌, select, update,
}
use carbon_contractors_com.Schema.{TaskStatus, TaskRecord, NotificationChannel, HumanRecord}

-- The messages of src/lib/notifications/dispatch.ts.
pub data Event : Type 0 where
  offer_received : (payment_request_id : String) (amount_usdc : ℕ) (expiry : Option ℕ) → Event
  offer_expiring : (payment_request_id : String) (amount_usdc : ℕ) (expiry : ℕ) → Event
  task_funded : (payment_request_id : String) (amount_usdc : ℕ) (deadline_unix : ℕ) → Event
  task_accepted : (payment_request_id : String) → Event
  task_declined : (payment_request_id : String) → Event
  lapsed_offers_notice : Event
  expired_tasks_notice : Event
  verdict_signed : (payment_request_id : String) (passed : Bool) (amount_usdc : ℕ) → Event
  payment_claimable : (payment_request_id : String) (amount_usdc : ℕ) → Event

pub data Reply : Type 0 where
  answered refused lost : Reply

pub record Turn : Type 0 where
  pub reply : Reply
  pub elapsed : ℕ
  pub others : List TaskRecord → List TaskRecord

pub record World : Type 0 where
  pub tasks : List TaskRecord
  pub channels : List NotificationChannel
  pub humans : List HumanRecord
  pub now : ℕ
  pub turns : List Turn
  pub randoms : List String
  pub sent : List (String × Event)

-- The errors that the modelled code throws.
pub data Error : Type 0 where
  database : Error
  unique_violation : Error
  numeric_overflow : Error
  no_source_state : TaskStatus → Error
  task_not_found : String → Error
  invalid_transition : TaskStatus → TaskStatus → Error
  invalid_argument : String → Error
  not_configured : Error
  malformed_address : Error
  chain_unreadable : Error

pub data Result {ℓ} (A : Type ℓ) : Type ℓ where
  ok : A → Result A
  err : Error → Result A

abbrev pub M : Type 0 → Type 0
M A = World → Result A × World

module _ {A : Type 0} where
  unfoldable pub pure : A → M A
  pure a w = (ok a, w)

  unfoldable pub throw : Error → M A
  throw e w = (err e, w)

-- `Date.now()`, in milliseconds.
unfoldable pub date_now : M ℕ
date_now w = (ok w.now, w)

abbrev pub draw_from : List String → M String
draw_from [] w = (ok "", w)
draw_from (r ∷ rs) w = (ok r, record w { randoms = rs })

-- The next value of the random source; a source that has run out gives the empty text.
unfoldable pub draw : M String
draw w = draw_from w.randoms w

-- A message handed to the delivery engine, which contains its own faults.
unfoldable pub notify : String → Event → M (Unit {0})
notify contractor e w = (ok tt, record w { sent = w.sent ++ (contractor, e) ∷ [] })

module _ {A B : Type 0} where
  abbrev pub continue : (A → M B) → Result A × World → Result B × World
  continue f (ok a, w) = f a w
  continue f (err e, w) = (err e, w)

  abbrev pub settle : (Result A → M B) → Result A × World → Result B × World
  settle f (r, w) = f r w

  -- `try { … } catch { … }`: the handler is given the value or the error.
  unfoldable pub attempt : M A → (Result A → M B) → M B
  attempt m f w = settle f (m w)

  infixl 5 ◌>>=◌ ◌>>◌
  -- Opening this opens the actions above too.
  unfoldable pub ◌>>=◌ : M A → (A → M B) → M B
  unfolding pure throw date_now draw notify attempt
  ◌>>=◌ m f w = continue f (m w)

  abbrev pub ◌>>◌ : M A → M B → M B
  m >> k = m >>= λ _. k

-- The turn that a call takes.
abbrev pub take_turn : List Turn → World → Reply × World
take_turn [] w = (answered, w)
take_turn (t ∷ ts) w =
    (t.reply, record w { tasks = t.others w.tasks; now = w.now + t.elapsed; turns = ts })

unfoldable pub begin : World → Reply × World
begin w = take_turn w.turns w

module _ {A : Type 0} where
  abbrev on_reply : Error → (World → A) → (World → World) → Reply × World → Result A × World
  on_reply e read write (answered, w) = (ok (read w), write w)
  on_reply e read write (refused, w) = (err e, w)
  on_reply e read write (lost, w) = (err e, write w)

  -- One call of the database: what it answers is read, and what it writes is written, at the
  -- same moment.
  unfoldable pub call : (World → A) → (World → World) → M A
  call read write w = on_reply database read write (begin w)

  -- `select`.
  unfoldable pub query : (World → A) → M A
  unfolding call
  query read = call read (λ w. w)

abbrev pub write_tasks : (List TaskRecord → List TaskRecord) → World → World
write_tasks f w = record w { tasks = f w.tasks }

-- `update(…).….select()`: the rows that pass the filters are changed, and handed back.
unfoldable pub update_tasks : (TaskRecord → Bool) → (TaskRecord → TaskRecord) → M (List TaskRecord)
unfolding call
update_tasks p f = call (λ w. select p w.tasks) (write_tasks (update p f))
