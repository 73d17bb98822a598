-- ===== src/Settlement/Tests.antt =====
-- One active row whose task the agent has completed on chain.
use carbon_contractors_com.Prelude.{same, [], ◌∷◌}
use carbon_contractors_com.World.{answered as reply, refused, lost}
use carbon_contractors_com.World.Yields.{Returned}
use carbon_contractors_com.Chain.{completed, resolved}
use carbon_contractors_com.Settlement.{sync_batch}
use carbon_contractors_com.Settlement.Accounting.{IsAccount, sync_batch-accounted}
use carbon_contractors_com.Settlement.Justified.{AllJustified, sync_batch-IsJustified}
use carbon_contractors_com.Scenario.{running, world, escrow, chain}

sync_batch-accounted_example :
    Returned
      (IsAccount (running ∷ []) (same "t1"))
      (sync_batch
        (chain completed)
        60000000
        escrow
        (running ∷ [])
        (world running (lost ∷ refused ∷ []))).0
sync_batch-accounted_example =
    sync_batch-accounted (chain completed) 60000000 escrow (running ∷ []) (same "t1")
      (world running (lost ∷ refused ∷ []))

sync_batch-IsJustified_example :
    Returned
      (AllJustified (chain resolved) escrow (running ∷ []))
      (sync_batch (chain resolved) 60000000 escrow (running ∷ []) (world running (reply ∷ []))).0
sync_batch-IsJustified_example =
    sync_batch-IsJustified (chain resolved) 60000000 escrow (running ∷ [])
      (world running (reply ∷ []))
