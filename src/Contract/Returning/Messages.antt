-- ===== src/Contract/Returning/Messages.antt =====
-- Where the contract's messages come back without a panic.
use pendulum_amm.Base.{◌<◌}
use pendulum_amm.Base.Action.Returning.{return_rules}
use pendulum_amm.Contract.State.{Host, World}
use pendulum_amm.Contract.Bank.{Answers}
use pendulum_amm.Contract.Messages.{swap_asset_1_for_asset_2, swap_asset_2_for_asset_1}
use pendulum_amm.Contract.Calls.{Message}
use pendulum_amm.Contract.Returning.{
  balance_of-Returns, _transfer_liquidity-Returns, transfer_tokens-Returns, _update-Returns,
}

module _ {L : Type 0} (h : Host L) (answers : Answers h) where
  ruleset parts = (
    return_rules, balance_of-Returns, _transfer_liquidity-Returns, transfer_tokens-Returns,
    _update-Returns,
  )

-- What a message must not ask: a whole reserve or more.
abbrev pub Asks : {L : Type 0} → Message → World L → Type 0
Asks (Message.swap_asset_1_for_asset_2 n) w = n < w.pair.reserve_1
Asks (Message.swap_asset_2_for_asset_1 n) w = n < w.pair.reserve_0
Asks _ w = Unit
