-- ===== src/Contract/Backing.antt =====
-- The backing of the supply of liquidity tokens under all messages of the contract.
use pendulum_amm.Base.{ℕ, Option, none, some}
use pendulum_amm.Base.Action.Stable.{Stable, stable_rules, Stable-modify}
use pendulum_amm.Contract.State.{Asset, Host, World, Event, emit_event}
use pendulum_amm.Contract.Token.Supply.{
  IsBacked, _mint-IsBacked, _burn-IsBacked, _transfer_liquidity-IsBacked,
}
use pendulum_amm.Contract.Bank.{transfer_tokens}
use pendulum_amm.Contract.Reserves.{_update, mint_growth, collect_fee, _mint_fee}
use pendulum_amm.Contract.Liquidity.{
  new_liquidity, finish_mint, mint_liquidity, finish_burn, burn_liquidity,
}
use pendulum_amm.Contract.Exchange.{_swap}
use pendulum_amm.Contract.Calls.{Message, execute, Reach, here, call, outside}
use pendulum_amm.Contract.Messages.{
  set_fee_to, send_surplus, skim, sync, deposit_asset_1, deposit_asset_2, withdraw,
  swap_asset_1_for_asset_2, swap_asset_2_for_asset_1,
}

module _ {L : Type 0} where
  -- A write that leaves the supply and the balances alone.
  emit_event-IsBacked : (e : Event) → Stable {S = World L} IsBacked (emit_event e)
  emit_event-IsBacked e = search (Stable-modify)

  mint_growth-IsBacked : (to k l : ℕ) → Stable {S = World L} IsBacked (mint_growth to k l)
  unfolding mint_growth
  mint_growth-IsBacked to k l = search (stable_rules, _mint-IsBacked)

module _ {L : Type 0} (h : Host L) where
  transfer_tokens-IsBacked :
      (from to : ℕ) (s : Asset) (n : ℕ) → Stable IsBacked (transfer_tokens h from to s n)
  unfolding transfer_tokens
  transfer_tokens-IsBacked from to s n = search (stable_rules, Stable-modify)

  _update-IsBacked : (b c r s : ℕ) → Stable IsBacked (_update h b c r s)
  unfolding _update
  _update-IsBacked b c r s = search (stable_rules, Stable-modify)

  collect_fee-IsBacked : (to : Option ℕ) (k r s : ℕ) → Stable IsBacked (collect_fee h to k r s)
  unfolding collect_fee
  collect_fee-IsBacked none k r s = search (stable_rules, Stable-modify)
  collect_fee-IsBacked (some to) k r s = search (stable_rules, mint_growth-IsBacked)

  _mint_fee-IsBacked : (r s : ℕ) → Stable IsBacked (_mint_fee h r s)
  unfolding _mint_fee
  _mint_fee-IsBacked r s = search (stable_rules, collect_fee-IsBacked)

  ruleset parts = (
    stable_rules, Stable-modify, _mint-IsBacked, _burn-IsBacked, _transfer_liquidity-IsBacked,
    transfer_tokens-IsBacked, _update-IsBacked, _mint_fee-IsBacked,
  )

  new_liquidity-IsBacked : (t a b r s : ℕ) → Stable IsBacked (new_liquidity h t a b r s)
  unfolding new_liquidity
  new_liquidity-IsBacked t a b r s = search parts

  mint_liquidity-IsBacked : (to : ℕ) → Stable IsBacked (mint_liquidity h to)
  unfolding mint_liquidity finish_mint
  mint_liquidity-IsBacked to = search (parts, new_liquidity-IsBacked) depth 20

  burn_liquidity-IsBacked : (to : ℕ) → Stable IsBacked (burn_liquidity h to)
  unfolding burn_liquidity finish_burn
  burn_liquidity-IsBacked to = search parts depth 20

  _swap-IsBacked : (a b to : ℕ) → Stable IsBacked (_swap h a b to)
  unfolding _swap
  _swap-IsBacked a b to = search parts depth 20

  ruleset messages = (parts, mint_liquidity-IsBacked, burn_liquidity-IsBacked, _swap-IsBacked)

  send_surplus-IsBacked :
      (to : ℕ) (s : Asset) (o : Option ℕ) → Stable IsBacked (send_surplus h to s o)
  unfolding send_surplus
  send_surplus-IsBacked to s none = search parts
  send_surplus-IsBacked to s (some n) = search parts

  execute-IsBacked : (m : Message) → Stable IsBacked (execute h m)
  unfolding execute set_fee_to skim sync deposit_asset_1 deposit_asset_2 withdraw
      swap_asset_1_for_asset_2 swap_asset_2_for_asset_1
  execute-IsBacked (Message.skim to) = search (messages, send_surplus-IsBacked) depth 20
  execute-IsBacked _ = search messages depth 20

-- Whatever calls are made, in whatever order, by whomever, also with errors and with tokens moved
-- in between: from a world where no more liquidity tokens are in circulation than the holders
-- have, every world reached is such a world.
pub Reach-IsBacked : {L : Type 0} {s w : World L} → IsBacked s → Reach s w → IsBacked w
Reach-IsBacked v here = v
Reach-IsBacked v (call r h m) = (execute-IsBacked h m).after (Reach-IsBacked v r)
Reach-IsBacked v (outside r l) = Reach-IsBacked v r
