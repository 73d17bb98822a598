-- ===== src/FundTask/Confirmed.antt =====
-- What holds when a task is confirmed as funded.
use carbon_contractors_com.Prelude.{
  ℕ, ◌*◌, ◌≡◌, refl, true, false, not, Option, none, some, String, same, arith,
}
use carbon_contractors_com.Schema.{accepted, is, is_iff, TaskRecord}
use carbon_contractors_com.World.{World, pure}
use carbon_contractors_com.World.Keeps.{IsSound, Keeps-attempt}
use carbon_contractors_com.World.Ensures.{
  Post, Ensures, Ensures-pure, Ensures-throw, Ensures-bind, Ensures-attempt, Ensures-if,
  Ensures-map, Ensures-given,
}
use carbon_contractors_com.Chain.{OnChainTaskState, OnChainTask, Chain}
use carbon_contractors_com.Registry.{Keeps-get_human_by_wallet}
use carbon_contractors_com.Settlement.{chain_matches_row}
use carbon_contractors_com.Tasks.Transitions.{get_task_by_payment_id}
use carbon_contractors_com.Tasks.Lifecycle.{lifecycle}
use carbon_contractors_com.Tasks.Lifecycle.Lasting.{Has, Ensures-SoundWith}
use carbon_contractors_com.Tasks.Lifecycle.Made.{IsFunded, IsFunded-lasting, mark_task_funded-makes}
use carbon_contractors_com.Tasks.Lifecycle.Shown.{IsShown, Shown, get_task_by_payment_id-shows}
use carbon_contractors_com.FundTask.{
  FundResponse, activated, is_absent, block_time, is_configured, activate, check_chain, check_task,
  check_found, confirm_funding, fund_task,
}
use carbon_contractors_com.FundTask.Invariant.{Keeps-tell_worker}

-- The row that the run from `start` has read, what the chain says of its task, and the row that is funded now.
pub record IsConfirmed (chain : Chain) (id : String) (start : World) (state : OnChainTaskState)
    (w : World) : Type 0 where
  pub task : TaskRecord
  pub shown : IsShown (get_task_by_payment_id id) id start task
  pub consented : task.status ≡ accepted
  pub on_chain : OnChainTask
  pub was_read : chain.on_chain_task id ≡ some on_chain
  pub in_state : on_chain.state ≡ state
  pub exists : is_absent state ≡ false
  pub matches : chain_matches_row on_chain task ≡ true
  pub seconds : ℕ
  pub block : chain.block_timestamp ≡ some seconds
  pub row : Has (IsFunded id (seconds * 1000)) w.tasks

block_time_ensures :
    {P : World → Type 0} (o : Option ℕ) → Ensures P (block_time o) (λ n w. P w × (o ≡ some n))
block_time_ensures none = Ensures-throw _
block_time_ensures (some n) = Ensures-map (λ w h. (h, refl)) (λ a w h. h) (Ensures-pure n)

module _ (chain : Chain) (id : String) (start : World) where
  abbrev pub Confirmed : FundResponse → World → Type 0
  Confirmed (activated named state) w = (named ≡ id) × IsConfirmed chain id start state w
  Confirmed _ w = Unit

  nothing_to_show :
      {P : World → Type 0} (r : FundResponse)
      → ((w : World) → Confirmed r w)
      → Ensures P (pure r) Confirmed
  nothing_to_show r k = Ensures-map (λ w h. k w) (λ a w h. h) (Ensures-pure r)

  module _ (task : TaskRecord) (was_shown : IsShown (get_task_by_payment_id id) id start task)
      (consented : task.status ≡ accepted) where
    activate-Confirmed :
        (on_chain : OnChainTask)
        → chain.on_chain_task id ≡ some on_chain
        → is_absent on_chain.state ≡ false
        → chain_matches_row on_chain task ≡ true
        → Ensures (IsSound lifecycle) (activate chain id task on_chain) Confirmed
    unfolding activate
    activate-Confirmed on_chain was_read exists matches =
        Ensures-bind _ _ (block_time_ensures chain.block_timestamp) λ seconds.
          Ensures-given λ block. Ensures-bind _ _ (mark_task_funded-makes id seconds) λ u.
            Ensures-bind _ _
              (Ensures-SoundWith (IsFunded id (seconds * 1000)) _ (IsFunded-lasting id _)
                (Keeps-attempt _ _ (Keeps-get_human_by_wallet _) (Keeps-tell_worker task id)))
              λ v.
                Ensures-map
                  (λ w h. (
                    refl,
                    record {
                      task = task;
                      shown = was_shown;
                      consented = consented;
                      on_chain = on_chain;
                      was_read = was_read;
                      in_state = refl;
                      exists = exists;
                      matches = matches;
                      seconds = seconds;
                      block = block;
                      row = h.1;
                    },
                  ))
                  (λ a w h. h) (Ensures-pure _)

    check_chain-Confirmed :
        (o : Option OnChainTask)
        → chain.on_chain_task id ≡ o
        → Ensures (IsSound lifecycle) (check_chain chain id task o) Confirmed
    unfolding check_chain
    check_chain-Confirmed none e = Ensures-map (λ w h. tt) (λ a w h. h) (Ensures-pure _)
    check_chain-Confirmed (some on_chain) e =
        Ensures-if (is_absent on_chain.state) (λ h. nothing_to_show _ (λ w. tt))
          λ exists.
            Ensures-if (not (chain_matches_row on_chain task)) (λ h. nothing_to_show _ (λ w. tt))
              λ matches. activate-Confirmed on_chain e exists (ground arith)

  check_task-Confirmed :
      (task : TaskRecord)
      → IsShown (get_task_by_payment_id id) id start task
      → Ensures (IsSound lifecycle) (check_task chain id task) Confirmed
  unfolding check_task
  check_task-Confirmed task was_shown =
      Ensures-if (not (is task.status accepted)) (λ h. nothing_to_show _ (λ w. tt))
        λ open_.
          Ensures-if (not (is_configured chain.escrow_address)) (λ h. nothing_to_show _ (λ w. tt))
            λ set.
              check_chain-Confirmed task was_shown ((is_iff task.status accepted).0 (ground arith))
                _ refl

  check_found-Confirmed :
      (o : Option TaskRecord)
      → Ensures
          (λ w. IsSound lifecycle w × Shown (get_task_by_payment_id id) id start o)
          (check_found chain id o)
          Confirmed
  check_found-Confirmed none = nothing_to_show _ (λ w. tt)
  check_found-Confirmed (some task) = Ensures-given (check_task-Confirmed task)

  fund_task-ensures :
      Ensures (λ w. (w ≡ start) × IsSound lifecycle w) (fund_task chain id) Confirmed
  unfolding fund_task confirm_funding
  fund_task-ensures =
      Ensures-attempt _ _
        (Ensures-if (same id "") (λ h. nothing_to_show _ (λ w. tt))
          λ h. Ensures-bind _ _ (get_task_by_payment_id-shows id start) check_found-Confirmed)
        (λ r. Ensures-map (λ w h. h) (λ a w h. h) (Ensures-pure r))
        (λ e. nothing_to_show _ (λ w. tt))

-- From a sound table, in every interleaving: a confirmation that answers that the task is active
-- has read the first row of that id in the table of that moment, which the worker had accepted,
-- has read a task on chain that exists, in the state that it answers, with the worker and the
-- amount of the row read, and leaves a row of that id that is active, or has moved on from it, and
-- whose funding time is the time of a block.
pub fund_task-Confirmed :
    (chain : Chain) (id : String) (w : World)
    → IsSound lifecycle w
    → Post (Confirmed chain id w) (fund_task chain id w)
fund_task-Confirmed chain id w h = (fund_task-ensures chain id w).at w (refl, h)
