-- ===== src/Pallet/Calls.antt =====
-- The dispatchable calls as data, and the worlds that they reach. Tokens also move between the
-- calls, by whoever holds them.
use pendulum_amm.Base.{ℕ}
use pendulum_amm.Pallet.State.{Config, World, Call}
use pendulum_amm.Pallet.Extrinsics

-- `enum Call`, which FRAME derives from the extrinsics.
pub data Extrinsic : Type 0 where
  set_fee_to : ℕ → Extrinsic
  skim sync : Extrinsic
  deposit_asset_1 deposit_asset_2 withdraw : ℕ → Extrinsic
  swap_asset_1_for_asset_2 swap_asset_2_for_asset_1 : ℕ → Extrinsic

unfoldable pub dispatch : {O L C : Type 0} → Config O L C → O → Extrinsic → Call L Unit
dispatch t o (set_fee_to a) = Extrinsics.set_fee_to t o a
dispatch t o skim = Extrinsics.skim t o
dispatch t o sync = Extrinsics.sync t o
dispatch t o (deposit_asset_1 n) = Extrinsics.deposit_asset_1 t o n
dispatch t o (deposit_asset_2 n) = Extrinsics.deposit_asset_2 t o n
dispatch t o (withdraw n) = Extrinsics.withdraw t o n
dispatch t o (swap_asset_1_for_asset_2 n) = Extrinsics.swap_asset_1_for_asset_2 t o n
dispatch t o (swap_asset_2_for_asset_1 n) = Extrinsics.swap_asset_2_for_asset_1 t o n

-- A call leaves its world also after an error: the pallet does not ask FRAME for a roll-back.
pub data Reached {L : Type 0} (s : World L) : World L → Type 1 where
  here : Reached s s
  call :
      {O C : Type 0} {w : World L}
      → Reached s w
      → (t : Config O L C) (o : O) (e : Extrinsic) → Reached s (dispatch t o e w).1
  outside : {w : World L} → Reached s w → (l : L) → Reached s (record w { ledger = l })
