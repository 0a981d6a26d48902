-- ===== src/Pallet/Extrinsics.antt =====
-- The dispatchable calls of pallet/src/lib.rs. A call of the source unwraps storage values and
-- stops with a panic where they are not set.
use pendulum_amm.Base.{ℕ, Option, none, some, not, ◌&&◌, ◌==◌, if◌then◌else◌}
use pendulum_amm.Base.Action.{pure, lift, gets, unwrap, ensure, ◌>>=◌, ◌>>◌}
use pendulum_amm.Base.Word.{checked_sub}
use pendulum_amm.Pallet.State.{amm, forbidden, withdraw_without_supply, Config, Call, set_storage}
use pendulum_amm.Pallet.Token.{_transfer_liquidity}
use pendulum_amm.Pallet.Pricing.{get_amount_in, quote}
use pendulum_amm.Pallet.Bank.{balance_of, transfer_tokens}
use pendulum_amm.Pallet.Reserves.{_update}
use pendulum_amm.Pallet.Liquidity.{mint_liquidity, burn_liquidity}
use pendulum_amm.Pallet.Exchange.{_swap}

module _ {O L C : Type 0} (t : Config O L C) where
  unfoldable pub set_fee_to : O → ℕ → Call L Unit
  set_fee_to origin fee_to = do
    caller ← lift (t.ensure_signed origin)
    s ← gets (λ w. w.storage)
    setter ← unwrap s.fee_to_setter
    ensure (caller == setter) (amm forbidden)
    set_storage (λ q. record q { fee_to = some fee_to })

  -- `if let Some(amount) = …checked_sub…` of `skim`.
  unfoldable pub send_surplus : ℕ → ℕ → C → Option ℕ → Call L Unit
  send_surplus contract to asset none = pure tt
  send_surplus contract to asset (some amount) = transfer_tokens t contract to asset amount

  unfoldable pub skim : O → Call L Unit
  unfolding send_surplus
  skim origin = do
    to ← lift (t.ensure_signed origin)
    s ← gets (λ w. w.storage)
    contract ← unwrap s.pallet_account_id
    balance_0 ← balance_of t contract t.asset_0
    send_surplus contract to t.asset_0 (checked_sub balance_0 s.reserves.reserve_0)
    balance_1 ← balance_of t contract t.asset_1
    send_surplus contract to t.asset_1 (checked_sub balance_1 s.reserves.reserve_1)

  unfoldable pub sync : O → Call L Unit
  sync origin = do
    caller ← lift (t.ensure_signed origin)
    s ← gets (λ w. w.storage)
    contract ← unwrap s.pallet_account_id
    balance_0 ← balance_of t contract t.asset_0
    balance_1 ← balance_of t contract t.asset_1
    _update t balance_0 balance_1 s.reserves.reserve_0 s.reserves.reserve_1

  unfoldable pub deposit_asset_1 : O → ℕ → Call L Unit
  deposit_asset_1 origin amount = do
    caller ← lift (t.ensure_signed origin)
    s ← gets (λ w. w.storage)
    contract ← unwrap s.pallet_account_id
    amount_1 ←
        (if s.reserves.reserve_0 == 0 && s.reserves.reserve_1 == 0
          then pure amount
          else lift (quote amount s.reserves.reserve_0 s.reserves.reserve_1))
    transfer_tokens t caller contract t.asset_0 amount
    transfer_tokens t caller contract t.asset_1 amount_1
    mint_liquidity t caller caller

  unfoldable pub deposit_asset_2 : O → ℕ → Call L Unit
  deposit_asset_2 origin amount = do
    caller ← lift (t.ensure_signed origin)
    s ← gets (λ w. w.storage)
    contract ← unwrap s.pallet_account_id
    amount_0 ←
        (if s.reserves.reserve_0 == 0 && s.reserves.reserve_1 == 0
          then pure amount
          else lift (quote amount s.reserves.reserve_1 s.reserves.reserve_0))
    transfer_tokens t caller contract t.asset_0 amount_0
    transfer_tokens t caller contract t.asset_1 amount
    mint_liquidity t caller caller

  unfoldable pub withdraw : O → ℕ → Call L Unit
  withdraw origin amount = do
    caller ← lift (t.ensure_signed origin)
    s ← gets (λ w. w.storage)
    contract ← unwrap s.pallet_account_id
    ensure (not (s.total_supply == 0)) (amm withdraw_without_supply)
    _transfer_liquidity caller contract amount
    burn_liquidity t caller caller

  unfoldable pub swap_asset_1_for_asset_2 : O → ℕ → Call L Unit
  swap_asset_1_for_asset_2 origin amount_to_receive = do
    caller ← lift (t.ensure_signed origin)
    s ← gets (λ w. w.storage)
    contract ← unwrap s.pallet_account_id
    amount_0_in ← lift (get_amount_in amount_to_receive s.reserves.reserve_0 s.reserves.reserve_1)
    transfer_tokens t caller contract t.asset_0 amount_0_in
    _swap t 0 amount_to_receive caller caller

  unfoldable pub swap_asset_2_for_asset_1 : O → ℕ → Call L Unit
  swap_asset_2_for_asset_1 origin amount_to_receive = do
    caller ← lift (t.ensure_signed origin)
    s ← gets (λ w. w.storage)
    contract ← unwrap s.pallet_account_id
    amount_1_in ← lift (get_amount_in amount_to_receive s.reserves.reserve_1 s.reserves.reserve_0)
    transfer_tokens t caller contract t.asset_1 amount_1_in
    _swap t amount_to_receive 0 caller caller
