-- ===== src/Pallet/Pool/Runs.antt =====
-- The calls of the pallet, taken together, as steps of the pool.
use pendulum_amm.Base.{ℕ, ◌<◌, ◌≡◌, ◌≢◌}
use pendulum_amm.Base.Action.{ok}
use pendulum_amm.Base.Word.{max_u128}
use pendulum_amm.Pallet.State.{Config, World}
use pendulum_amm.Pallet.Bank.Lawful.{IsLawful}
use pendulum_amm.Pallet.Calls.{
  Extrinsic, set_fee_to, skim, sync, deposit_asset_1, deposit_asset_2, withdraw,
  swap_asset_1_for_asset_2, swap_asset_2_for_asset_1, dispatch,
}
use pendulum_amm.Pool.{Step}
use pendulum_amm.Pallet.Pool.{IsOpen, pool_of}
use pendulum_amm.Pallet.Pool.Steps.{skim-Step, set_fee_to-Step, sync-Step}
use pendulum_amm.Pallet.Pool.Trades.{
  deposit_asset_1-Step, deposit_asset_2-Step, swap_asset_1_for_asset_2-Step,
  swap_asset_2_for_asset_1-Step,
}
use pendulum_amm.Pallet.Pool.Withdrawal.{withdraw-Step}

module _ {O L C : Type 0} (t : Config O L C) (contract : ℕ) where
  -- With tokens that move as they promise: a successful call of the pallet, from a state in which
  -- the pool is open, to a supply below the cap of 128 bits, signed by another account than the
  -- pallet's, is a step of the pool.
  pub dispatch-Step :
      IsLawful t
      → (o : O) (e : Extrinsic) (w w' : World L) → dispatch t o e w ≡ (ok tt, w')
      → IsOpen t contract w
      → w'.storage.total_supply < max_u128
      → ((k : ℕ) → t.ensure_signed o ≡ ok k → contract ≢ k)
      → Step (pool_of w) (pool_of w')
  unfolding dispatch
  dispatch-Step lawful o (set_fee_to a) w w' done open_pool below apart =
      set_fee_to-Step t contract o a w w' done
  dispatch-Step lawful o skim w w' done open_pool below apart =
      skim-Step t contract o w w' done open_pool
  dispatch-Step lawful o sync w w' done open_pool below apart =
      sync-Step t contract o w w' done open_pool
  dispatch-Step lawful o (deposit_asset_1 n) w w' done open_pool below apart =
      deposit_asset_1-Step t contract o n w w' done open_pool below
  dispatch-Step lawful o (deposit_asset_2 n) w w' done open_pool below apart =
      deposit_asset_2-Step t contract o n w w' done open_pool below
  dispatch-Step lawful o (withdraw n) w w' done open_pool below apart =
      withdraw-Step t contract lawful o n w w' done open_pool apart
  dispatch-Step lawful o (swap_asset_1_for_asset_2 n) w w' done open_pool below apart =
      swap_asset_1_for_asset_2-Step t contract o n w w' done open_pool
  dispatch-Step lawful o (swap_asset_2_for_asset_1 n) w w' done open_pool below apart =
      swap_asset_2_for_asset_1-Step t contract o n w w' done open_pool
