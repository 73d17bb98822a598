-- ===== src/Lib.antt =====
-- The task marketplace of carbon-contractors: agents hire workers, an escrow contract holds the
-- money, and a server on a shared Postgres table brings the two together. This is a model of the
-- server's core, written from the TypeScript sources.
--
-- A request is an action on a `World` (World.antt): the tasks, the channels and the workers, a
-- clock, a random source, the messages sent, and a list of turns. Each database call takes one
-- turn, which says how long the call takes, what other requests write to the tasks before it, and
-- whether it is answered, refused, or carried out with its answer lost; a list that has run out
-- gives prompt answers. A theorem about every world is so one about every interleaving.
-- World/Keeps.antt has the rules for invariants, World/Ensures.antt those for what an action that
-- returns has made true, World/Yields.antt those for actions that never throw, World/Calm.antt those
-- for actions between whose calls nothing comes. Tasks/Lifecycle/Shown.antt names the row that a
-- request has read, as a fact about its run.
--
-- Files and sources:
--   Prelude        the shared names: tests, lists and texts.
--   Schema         the rows (src/lib/db/types.ts, src/lib/db/tasks.ts).
--   Tasks          src/lib/db/tasks.ts: Transitions has updateTaskStatus, markTaskFunded,
--                  acceptTask, lapseExpiredOffers and getTaskByPaymentId; Creation has createTask
--                  and findTaskByIdempotencyKey; Queries the other reads and the reminder marker;
--                  Lifecycle the invariant of a row and that each write keeps it.
--   Registry       src/lib/db/whitepages.ts, src/lib/db/notifications.ts.
--   Offers         src/lib/offers.ts.
--   Awol           src/lib/awol.ts.
--   Chain          the types of src/lib/contracts/escrow.ts; what the RPC reads answer is a
--                  parameter, since neither viem nor the contract is part of the server.
--   Settlement     src/lib/db/settlement-sync.ts.
--   Funding        src/lib/payments/funding.ts.
--   FundTask       src/app/api/fund-task/route.ts.
--   Hire           request_human_work of src/lib/mcp/server.ts, and src/lib/mcp/errors.ts.
--   Checker        src/lib/checker/evaluator.ts: Hashes has the perceptual hashes.
--   Dispute        src/app/api/dispute/route.ts.
--   Reminders      src/app/api/cron/offer-reminders/route.ts.
--   Kms            src/lib/contracts/kms-signer.ts: from the key service's DER to a signature for the
--                  chain. 510 is the fuel for the digits of a number, since DER gives one 255 bytes
--                  at most.
--   Verdicts       src/lib/contracts/verdict-service.ts and src/lib/contracts/verdict.ts; Disputed
--                  has the dispute route with the service behind it, Json
--                  src/lib/contracts/verdict-json.ts.
--   Tools          get_task_status and confirm_task_completion of src/lib/mcp/server.ts; Parties has
--                  get_signed_verdict and dispute_task.
--   RateLimit      src/lib/ratelimit.ts.
--   Sanctions      src/lib/sanctions/index.ts.
--   Store          actions on other tables than the tasks alone: a `Machine` is a store of any kind
--                  with a clock, a random source and turns; Keeps has the rules for invariants.
--   Retention      src/lib/db/retention.ts, and prune_task_content of
--                  supabase/migrations/020_task_content_retention.sql.
--   Auth           src/lib/auth/wallet-challenge.ts and the challenge route; Sessions has
--                  src/lib/auth/session.ts, Promise the map of grants that it implements.
--   Server         the requests together.
--   Scenario       the worlds of the tests.
--
-- Conventions. Amounts are whole numbers of micro-USDC, so that `Math.round(x * 10 ** 6)` is the
-- amount itself; the NUMERIC(10,2) column rounds to cents. Times in `_unix` fields are seconds, all
-- others milliseconds. Loops are structural recursion; only the digits of a number have fuel, 510
-- and 78, for the numbers of the key service and those of 256 bits. A text is compared by `same`,
-- `lower` is the lower case of ASCII, which is that of a hex address. In a `World` the writes of
-- others range over the tasks alone; the log lines have no counterpart.
--
-- In the checker a similarity is an exact fraction, and degrees, metres and seconds are parameters.
--
-- Not modelled: the pages, the scripts, the contract, and the parsing of specs and of the
-- environment; evidence credentials, which answer through parameters; the delivery of
-- notifications, reputation, attestations and the export of backups; the client of the key service.
pub mod Prelude
pub mod Schema
pub mod World
pub mod Store
pub mod Retention
pub mod Auth
pub mod Kms
pub mod Verdicts
pub mod Tools
pub mod Tasks
pub mod Registry
pub mod Offers
pub mod Awol
pub mod Chain
pub mod Checker
pub mod Settlement
pub mod Funding
pub mod FundTask
pub mod Reminders
pub mod Hire
pub mod Dispute
pub mod Server
pub mod RateLimit
pub mod Sanctions
pub mod Scenario
