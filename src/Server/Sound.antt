-- ===== src/Server/Sound.antt =====
-- What holds of the tasks table whatever requests the server serves.
use carbon_contractors_com.Prelude.{List, [], ◌∷◌, Along}
use carbon_contractors_com.World.{World}
use carbon_contractors_com.World.Keeps.{IsSound}
use carbon_contractors_com.Tasks.Lifecycle.{RowEvolves, lifecycle}
use carbon_contractors_com.Tasks.Lifecycle.Writes.{get_task_by_payment_id-Keeps}
use carbon_contractors_com.Offers.Invariant.{respond_to_offer-Keeps}
use carbon_contractors_com.Settlement.Invariant.{sync_settled_tasks-Keeps}
use carbon_contractors_com.FundTask.Invariant.{fund_task-Keeps}
use carbon_contractors_com.Reminders.Invariant.{offer_reminders-Keeps}
use carbon_contractors_com.Hire.Invariant.{request_human_work-Keeps}
use carbon_contractors_com.Dispute.Invariant.{dispute-Keeps}
use carbon_contractors_com.Tools.Disputes.{route_of}
use carbon_contractors_com.Tools.Invariant.{
  get_task_status-Keeps, confirm_task_completion-Keeps, get_signed_verdict-Keeps,
  dispute_task_tool-Keeps,
}
use carbon_contractors_com.Server.{
  Deployment, Request, hire, answer, confirm_funded, contest, settle, remind, look, ask_status,
  confirm_done, ask_verdict, contest_by_tool, handle, serve,
}

module _ (d : Deployment) where
  handle-IsSound :
      (r : Request) (w : World)
      → IsSound lifecycle w
      → IsSound lifecycle (handle d r w) × Along RowEvolves w.tasks (handle d r w).tasks
  unfolding handle
  handle-IsSound (hire caller req) = (request_human_work-Keeps d.config d.services caller req).at
  handle-IsSound (answer caller id decision) =
      (respond_to_offer-Keeps d.config.keccak256 caller id decision).at
  handle-IsSound (confirm_funded id) = (fund_task-Keeps d.chain id).at
  handle-IsSound (contest caller id bundle) =
      (dispute-Keeps d.chain (route_of d.hex_text d.chain d.verdict_of) caller id bundle).at
  handle-IsSound settle = (sync_settled_tasks-Keeps d.chain).at
  handle-IsSound (remind secret provided) = (offer_reminders-Keeps secret provided).at
  handle-IsSound (look id) = (get_task_by_payment_id-Keeps id).at
  handle-IsSound (ask_status caller id) = (get_task_status-Keeps d.escrow caller id).at
  handle-IsSound (confirm_done caller id) = (confirm_task_completion-Keeps d.escrow caller id).at
  handle-IsSound (ask_verdict caller id bundle) =
      (get_signed_verdict-Keeps d.verdict_of caller id bundle).at
  handle-IsSound (contest_by_tool caller id bundle) =
      (dispute_task_tool-Keeps d.chain d.verdict_of caller id bundle).at

  -- From any table of fine rows that no two of which share an id, or an agent and a key, and with
  -- writes of others that keep the lifecycle, a sequence of requests of any length, each of whose
  -- calls may be delayed, refused or lost, leaves the table so: an offer that nobody has answered
  -- carries no consent, an accepted or active task carries the worker's, an active task has its
  -- funding time, and an offer has none; and no retry has made a second row for a key. No row is
  -- removed, its parties, its amount and its key stay, its status has moved only along the allowed
  -- transitions, and neither a consent nor a funding time is ever rewritten.
  pub serve-IsSound :
      (rs : List Request) (w : World)
      → IsSound lifecycle w
      → IsSound lifecycle (serve d rs w) × Along RowEvolves w.tasks (serve d rs w).tasks
  unfolding serve
  serve-IsSound [] w h = (h, lifecycle.evolves_refl w.tasks)
  serve-IsSound (r ∷ rs) w h =
      let (h', e) = handle-IsSound r w h in
      let (h'', e') = serve-IsSound rs (handle d r w) h' in
      (h'', lifecycle.evolves_trans w.tasks (handle d r w).tasks _ e e')
