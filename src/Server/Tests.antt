-- ===== src/Server/Tests.antt =====
-- A hire, an answer, a confirmation and a settlement, with calls that fail.
use carbon_contractors_com.Prelude.{[], ◌∷◌, List, some, none, Along}
use carbon_contractors_com.World.{World, answered as reply, refused, lost}
use carbon_contractors_com.World.Keeps.{IsSound}
use carbon_contractors_com.Chain.{funded}
use carbon_contractors_com.Tasks.Lifecycle.{RowEvolves, lifecycle}
use carbon_contractors_com.Offers.{accept}
use carbon_contractors_com.Verdicts.{faulty, evidence_uncommitted}
use carbon_contractors_com.Server.{
  Deployment, Request, hire, answer, confirm_funded, contest, settle, remind, contest_by_tool,
  ask_status, confirm_done, ask_verdict, serve,
}
use carbon_contractors_com.Server.Sound.{serve-IsSound}
use carbon_contractors_com.Scenario.{
  offer, offer-IsFine, world, world-IsSound, worker_wallet, agent_wallet, chain, config, services,
  hire_request,
}

abbrev deployment : Deployment
deployment = record {
  config = config;
  services = services;
  chain = chain funded;
  escrow = record { address = none; to_task_id = λ id. id; on_chain_task = λ id. none };
  verdict_of = λ task bundle. faulty evidence_uncommitted;
  hex_text = λ h. "";
}

abbrev requests : List Request
requests =
    hire (some agent_wallet) hire_request
    ∷ answer worker_wallet "t1" accept
    ∷ confirm_funded "t1"
    ∷ contest (some agent_wallet) "t1" none
    ∷ contest_by_tool (some worker_wallet) "t1" (some "[]")
    ∷ ask_status none "t1"
    ∷ confirm_done (some agent_wallet) "t1"
    ∷ ask_verdict (some worker_wallet) "t1" "[]"
    ∷ remind (some "s") "s"
    ∷ settle
    ∷ []

abbrev start : World
start = world offer (reply ∷ refused ∷ lost ∷ [])

serve-IsSound_example :
    IsSound lifecycle (serve deployment requests start)
    × Along RowEvolves start.tasks (serve deployment requests start).tasks
serve-IsSound_example =
    serve-IsSound deployment requests start
      (world-IsSound offer (reply ∷ refused ∷ lost ∷ []) offer-IsFine)
