-- ===== src/Contract/Messages.antt =====
-- The contract's messages: the getters, `set_fee_to`, `skim`, `sync`, the deposits, `withdraw`
-- and the swaps.
use pendulum_amm.Base.{ℕ, Option, none, some, not, ◌&&◌, ◌==◌, if◌then◌else◌}
use pendulum_amm.Base.Action.{raise, pure, lift, gets, ◌>>=◌, ◌>>◌}
use pendulum_amm.Base.Word.{checked_sub}
use pendulum_amm.Contract.State.{
  Asset, forbidden, withdraw_without_supply, Pair, Host, Call, set_pair,
}
use pendulum_amm.Contract.Token.{_transfer_liquidity}
use pendulum_amm.Contract.Pricing.{get_amount_in, quote}
use pendulum_amm.Contract.Bank.{balance_of, transfer_tokens}
use pendulum_amm.Contract.Reserves.{_update}
use pendulum_amm.Contract.Liquidity.{mint_liquidity, burn_liquidity}
use pendulum_amm.Contract.Exchange.{_swap}

abbrev pub total_supply : Pair → ℕ
total_supply p = p.total_supply

abbrev pub get_reserves : Pair → ℕ × ℕ × ℕ
get_reserves p = (p.reserve_0, p.reserve_1, p.block_timestamp_last)

module _ {L : Type 0} (h : Host L) where
  unfoldable pub set_fee_to : ℕ → Call L Unit
  set_fee_to fee_to = do
    p ← gets (λ w. w.pair)
    if not (h.caller == p.fee_to_setter)
        then raise forbidden
        else set_pair (λ q. record q { fee_to = some fee_to })

  -- `if let Some(amount) = …checked_sub…` of `skim`.
  unfoldable pub send_surplus : ℕ → Asset → Option ℕ → Call L Unit
  send_surplus to asset none = pure tt
  send_surplus to asset (some amount) = transfer_tokens h h.account_id to asset amount

  unfoldable pub skim : ℕ → Call L Unit
  unfolding send_surplus
  skim to = do
    p ← gets (λ w. w.pair)
    balance_0 ← balance_of h h.account_id p.asset_0
    send_surplus to p.asset_0 (checked_sub balance_0 p.reserve_0)
    balance_1 ← balance_of h h.account_id p.asset_1
    send_surplus to p.asset_1 (checked_sub balance_1 p.reserve_1)

  unfoldable pub sync : Call L Unit
  sync = do
    p ← gets (λ w. w.pair)
    balance_0 ← balance_of h h.account_id p.asset_0
    balance_1 ← balance_of h h.account_id p.asset_1
    _update h balance_0 balance_1 p.reserve_0 p.reserve_1

  unfoldable pub deposit_asset_1 : ℕ → Call L ℕ
  deposit_asset_1 amount = do
    p ← gets (λ w. w.pair)
    amount_1 ←
        (if p.reserve_0 == 0 && p.reserve_1 == 0
          then pure amount
          else lift (quote amount p.reserve_0 p.reserve_1))
    transfer_tokens h h.caller h.account_id p.asset_0 amount
    transfer_tokens h h.caller h.account_id p.asset_1 amount_1
    mint_liquidity h h.caller

  unfoldable pub deposit_asset_2 : ℕ → Call L ℕ
  deposit_asset_2 amount = do
    p ← gets (λ w. w.pair)
    amount_0 ←
        (if p.reserve_0 == 0 && p.reserve_1 == 0
          then pure amount
          else lift (quote amount p.reserve_1 p.reserve_0))
    transfer_tokens h h.caller h.account_id p.asset_0 amount_0
    transfer_tokens h h.caller h.account_id p.asset_1 amount
    mint_liquidity h h.caller

  unfoldable pub withdraw : ℕ → Call L (ℕ × ℕ)
  withdraw amount = do
    supply ← gets (λ w. total_supply w.pair)
    if supply == 0
        then raise withdraw_without_supply
        else do _transfer_liquidity h.caller h.account_id amount; burn_liquidity h h.caller

  unfoldable pub swap_asset_1_for_asset_2 : ℕ → Call L Unit
  swap_asset_1_for_asset_2 amount_to_receive = do
    p ← gets (λ w. w.pair)
    amount_0_in ← lift (get_amount_in amount_to_receive p.reserve_0 p.reserve_1)
    transfer_tokens h h.caller h.account_id p.asset_0 amount_0_in
    _swap h 0 amount_to_receive h.caller

  unfoldable pub swap_asset_2_for_asset_1 : ℕ → Call L Unit
  swap_asset_2_for_asset_1 amount_to_receive = do
    p ← gets (λ w. w.pair)
    amount_1_in ← lift (get_amount_in amount_to_receive p.reserve_1 p.reserve_0)
    transfer_tokens h h.caller h.account_id p.asset_1 amount_1_in
    _swap h amount_to_receive 0 h.caller
