-- ===== src/Contract/Pool.antt =====
-- The contract's storage as a pool, and the states in which the pool is open.
pub mod Payout
pub mod Liquidity
pub mod Steps
pub mod Withdrawal
pub mod RoundTrip
pub mod Runs
use pendulum_amm.Base.{ℕ, ◌*◌, ◌≤◌, ◌<◌, ◌≡◌, none}
use pendulum_amm.Base.Word.{max_u128}
use pendulum_amm.Contract.State.{Host, World}
use pendulum_amm.Contract.Bank.{held}
use pendulum_amm.Pool.{Pool}

-- The pool of a state of the contract.
abbrev pub pool_of : {L : Type 0} → World L → Pool
pool_of w = record { x = w.pair.reserve_0; y = w.pair.reserve_1; shares = w.pair.total_supply }

-- A state in which the pool is open: it has shares, nobody takes the protocol's fee, the contract
-- holds its reserves, and the numbers fit 128 bits.
pub record IsOpen {L : Type 0} (h : Host L) (w : World L) : Type 0 where
  pub no_fee : w.pair.fee_to ≡ none
  pub some_shares : 0 < w.pair.total_supply
  pub supply_fits : w.pair.total_supply ≤ max_u128
  pub product_fits : w.pair.reserve_0 * w.pair.reserve_1 * 1000000 ≤ max_u128
  pub covered_0 : w.pair.reserve_0 ≤ held h w.ledger h.account_id w.pair.asset_0
  pub covered_1 : w.pair.reserve_1 ≤ held h w.ledger h.account_id w.pair.asset_1
