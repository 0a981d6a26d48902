-- ===== src/Pallet/Pool.antt =====
-- The pallet's storage as a pool, and the states in which the pool is open.
pub mod Liquidity
pub mod Steps
pub mod Trades
pub mod Withdrawal
pub mod Runs
use pendulum_amm.Base.{ℕ, ◌*◌, ◌≤◌, ◌<◌, ◌≡◌, none, some}
use pendulum_amm.Base.Word.{max_u128}
use pendulum_amm.Pallet.State.{Config, World}
use pendulum_amm.Pool.{Pool}

-- The pool of a state of the pallet.
abbrev pub pool_of : {L : Type 0} → World L → Pool
pool_of w = record {
  x = w.storage.reserves.reserve_0;
  y = w.storage.reserves.reserve_1;
  shares = w.storage.total_supply;
}

-- A state in which the pool is open: the pallet's account is set and holds the reserves, the pool
-- has shares, nobody takes the protocol's fee, and the numbers fit 128 bits.
pub record IsOpen {O L C : Type 0} (t : Config O L C) (contract : ℕ) (w : World L) : Type 0 where
  pub known : w.storage.pallet_account_id ≡ some contract
  pub no_fee : w.storage.fee_to ≡ none
  pub some_shares : 0 < w.storage.total_supply
  pub supply_fits : w.storage.total_supply ≤ max_u128
  pub product_fits :
      w.storage.reserves.reserve_0 * w.storage.reserves.reserve_1 * 1000000 ≤ max_u128
  pub covered_0 :
      w.storage.reserves.reserve_0 ≤ t.amm_extension.fetch_balance w.ledger contract t.asset_0
  pub covered_1 :
      w.storage.reserves.reserve_1 ≤ t.amm_extension.fetch_balance w.ledger contract t.asset_1
