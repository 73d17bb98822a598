-- ===== src/Chain.antt =====
-- What the server sees of the escrow contract (the types of src/lib/contracts/escrow.ts). The reads
-- themselves are viem's, and the contract's: a `Chain` says what they answer.
use carbon_contractors_com.Prelude.{
  ℕ, ◌+◌, Bool, true, false, ◌&&◌, ◌||◌, Option, String, ◌==◌, leb,
}
use Prim.Native.Char.{code}
use Prim.Native.String.{count}
use carbon_contractors_com.World.{ok, M}

pub data OnChainTaskState : Type 0 where
  absent funded delivered completed disputed arbitrating resolved expired : OnChainTaskState

pub record OnChainTask : Type 0 where
  pub worker : String
  pub amount : ℕ
  pub state : OnChainTaskState

pub record Chain : Type 0 where
  -- `getEscrowConfig().address`.
  pub escrow_address : Option String
  -- `getOnChainTask`; `none` is a read that is rejected.
  pub on_chain_task : String → Option OnChainTask
  -- `getTaskResolvedOutcome`; `none` is a lookup that throws, `some none` that there is no event.
  pub resolved_outcome : String → Option (Option Bool)
  -- How long such a lookup takes, in milliseconds.
  pub lookup_ms : String → ℕ
  -- `getCurrentBlockTimestamp`.
  pub block_timestamp : Option ℕ

-- `BigInt(Math.round(amount_usdc * 10 ** 6))`, for an amount in micro-USDC.
unfoldable pub to_wei : ℕ → ℕ
to_wei micro = micro

is_hex : ℕ → Bool
is_hex c = (leb b'0' c && leb c b'9') || (leb b'a' c && leb c b'f') || (leb b'A' c && leb c b'F')

all_hex : String → Bool
all_hex String.[] = true
all_hex (String.◌∷◌ c s) = is_hex (code c) && all_hex s

after_zero : String → Bool
after_zero String.[] = false
after_zero (String.◌∷◌ c s) = code c == b'x' && all_hex s && count s == 40

-- /^0x[0-9a-fA-F]{40}$/.
unfoldable pub is_hex_address : String → Bool
unfolding is_hex all_hex after_zero
is_hex_address String.[] = false
is_hex_address (String.◌∷◌ c s) = code c == b'0' && after_zero s

-- Time that passes while the chain is read.
unfoldable pub wait : ℕ → M (Unit {0})
wait ms w = (ok tt, record w { now = w.now + ms })
