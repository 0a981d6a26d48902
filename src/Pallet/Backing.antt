-- ===== src/Pallet/Backing.antt =====
-- The backing of the supply of liquidity tokens under all calls of the pallet.
use pendulum_amm.Base.{ℕ, Option, none, some}
use pendulum_amm.Base.Action.Stable.{Stable, stable_rules, Stable-modify}
use pendulum_amm.Pallet.State.{Config, World}
use pendulum_amm.Pallet.Token.Supply.{
  IsBacked, _mint-IsBacked, _burn-IsBacked, _transfer_liquidity-IsBacked,
}
use pendulum_amm.Pallet.Bank.{extension_transfer, transfer_tokens}
use pendulum_amm.Pallet.Reserves.{_update, mint_growth, collect_fee, _mint_fee}
use pendulum_amm.Pallet.Liquidity.{new_liquidity, mint_liquidity, burn_liquidity}
use pendulum_amm.Pallet.Exchange.{_swap}
use pendulum_amm.Pallet.Calls.{Extrinsic, dispatch, Reached, here, call, outside}
use pendulum_amm.Pallet.Extrinsics.{
  set_fee_to, send_surplus, skim, sync, deposit_asset_1, deposit_asset_2, withdraw,
  swap_asset_1_for_asset_2, swap_asset_2_for_asset_1,
}

module _ {O L C : Type 0} (t : Config O L C) where
  extension_transfer-IsBacked :
      (from to : ℕ) (s : C) (n : ℕ) → Stable IsBacked (extension_transfer t from to s n)
  extension_transfer-IsBacked from to s n = record { after = λ {w} v. v }

  transfer_tokens-IsBacked :
      (from to : ℕ) (s : C) (n : ℕ) → Stable IsBacked (transfer_tokens t from to s n)
  unfolding transfer_tokens
  transfer_tokens-IsBacked from to s n = search (stable_rules, extension_transfer-IsBacked)

  mint_growth-IsBacked : (to k l : ℕ) → Stable {S = World L} IsBacked (mint_growth t to k l)
  unfolding mint_growth
  mint_growth-IsBacked to k l = search (stable_rules, _mint-IsBacked)

  _update-IsBacked : (b c r s : ℕ) → Stable IsBacked (_update t b c r s)
  unfolding _update
  _update-IsBacked b c r s = search (stable_rules, Stable-modify) depth 20

  collect_fee-IsBacked : (to : Option ℕ) (k r s : ℕ) → Stable IsBacked (collect_fee t to k r s)
  unfolding collect_fee
  collect_fee-IsBacked none k r s = search (stable_rules, Stable-modify) depth 20
  collect_fee-IsBacked (some to) k r s = search (stable_rules, mint_growth-IsBacked) depth 20

  _mint_fee-IsBacked : (r s : ℕ) → Stable IsBacked (_mint_fee t r s)
  unfolding _mint_fee
  _mint_fee-IsBacked r s = search (stable_rules, collect_fee-IsBacked)

  ruleset parts = (
    stable_rules, Stable-modify, _mint-IsBacked, _burn-IsBacked, _transfer_liquidity-IsBacked,
    transfer_tokens-IsBacked, _update-IsBacked, _mint_fee-IsBacked,
  )

  new_liquidity-IsBacked :
      (q a b r s : ℕ) → Stable {S = World L} IsBacked (new_liquidity t q a b r s)
  unfolding new_liquidity
  new_liquidity-IsBacked q a b r s = search parts depth 20

  mint_liquidity-IsBacked : (to caller : ℕ) → Stable IsBacked (mint_liquidity t to caller)
  unfolding mint_liquidity
  mint_liquidity-IsBacked to caller = search (parts, new_liquidity-IsBacked) depth 20

  burn_liquidity-IsBacked : (to caller : ℕ) → Stable IsBacked (burn_liquidity t to caller)
  unfolding burn_liquidity
  burn_liquidity-IsBacked to caller = search parts depth 30

  _swap-IsBacked : (a b to sender : ℕ) → Stable IsBacked (_swap t a b to sender)
  unfolding _swap
  _swap-IsBacked a b to sender = search parts depth 20

  send_surplus-IsBacked :
      (contract to : ℕ) (s : C) (o : Option ℕ) → Stable IsBacked (send_surplus t contract to s o)
  unfolding send_surplus
  send_surplus-IsBacked contract to s none = search parts
  send_surplus-IsBacked contract to s (some n) = search parts

  ruleset calls = (
    parts, mint_liquidity-IsBacked, burn_liquidity-IsBacked, _swap-IsBacked, send_surplus-IsBacked,
  )

  dispatch-IsBacked : (o : O) (e : Extrinsic) → Stable IsBacked (dispatch t o e)
  unfolding dispatch set_fee_to skim sync deposit_asset_1 deposit_asset_2 withdraw
      swap_asset_1_for_asset_2 swap_asset_2_for_asset_1
  dispatch-IsBacked o Extrinsic.sync = search calls depth 20
  dispatch-IsBacked o _ = search calls depth 20

-- Whatever calls are made, in whatever order, from whatever origin, also with errors whose writes
-- stay and with tokens moved in between: from a world where no more liquidity tokens are in
-- circulation than the holders have, every world reached is such a world.
pub Reached-IsBacked : {L : Type 0} {s w : World L} → IsBacked s → Reached s w → IsBacked w
Reached-IsBacked v here = v
Reached-IsBacked v (call r t o e) = (dispatch-IsBacked t o e).after (Reached-IsBacked v r)
Reached-IsBacked v (outside r l) = Reached-IsBacked v r
