-- ===== src/Pallet/Liquidity.antt =====
-- `mint` and `burn` of pallet/src/helper.rs.
pub mod First
pub mod Minting
pub mod Burning
use pendulum_amm.Base.{ℕ, min, ◌&&◌, ltb, ◌==◌, if◌then◌else◌}
use pendulum_amm.Base.Action.{pure, gets, unwrap, ensure, when, ◌>>=◌, ◌>>◌}
use pendulum_amm.Base.Dict.{lookup}
use pendulum_amm.Base.Word.{saturating_sub, saturating_mul, checked_sub, checked_div, unwrap_or}
use pendulum_amm.Pallet.State.{
  amm, insufficient_liquidity_minted, insufficient_liquidity_burned, mint, burn, Config, Call,
  deposit_event, set_storage,
}
use pendulum_amm.Pallet.Token.{_mint, _burn}
use pendulum_amm.Pallet.Bank.{balance_of, transfer_tokens}
use pendulum_amm.Pallet.Reserves.{_update, _mint_fee}

-- The share `amount` of `reserve`, as shares of `total_supply`; 0 where the reserve is 0.
unfoldable pub share : ℕ → ℕ → ℕ → ℕ
share amount total_supply reserve =
    unwrap_or (checked_div (saturating_mul amount total_supply) reserve) 0

module _ {O L C : Type 0} (t : Config O L C) where
  -- The `if total_supply == zero` of `mint`.
  unfoldable pub new_liquidity : ℕ → ℕ → ℕ → ℕ → ℕ → Call L ℕ
  new_liquidity total_supply amount_0 amount_1 reserve_0 reserve_1 =
      if total_supply == 0
      then (do
        let to_sqrt = saturating_mul amount_0 amount_1
        let liquidity = saturating_sub (t.integer_sqrt to_sqrt) t.minimum_liquidity
        zero_account ← gets (λ w. w.storage.address_zero)
        address_zero ← unwrap zero_account
        _mint address_zero t.minimum_liquidity
        pure liquidity)
      else pure
          (min (share amount_0 total_supply reserve_0) (share amount_1 total_supply reserve_1))

  unfoldable pub mint_liquidity : ℕ → ℕ → Call L Unit
  mint_liquidity to caller = do
    s ← gets (λ w. w.storage)
    contract ← unwrap s.pallet_account_id
    let reserve_0 = s.reserves.reserve_0
    let reserve_1 = s.reserves.reserve_1
    balance_0 ← balance_of t contract t.asset_0
    balance_1 ← balance_of t contract t.asset_1
    let amount_0 = unwrap_or (checked_sub balance_0 reserve_0) 0
    let amount_1 = unwrap_or (checked_sub balance_1 reserve_1) 0
    fee_on ← _mint_fee t reserve_0 reserve_1
    total_supply ← gets (λ w. w.storage.total_supply)
    liquidity ← new_liquidity total_supply amount_0 amount_1 reserve_0 reserve_1
    ensure (ltb 0 liquidity) (amm insufficient_liquidity_minted)
    _mint to liquidity
    _update t balance_0 balance_1 reserve_0 reserve_1
    when fee_on (set_storage (λ q. record q { k_last = saturating_mul reserve_0 reserve_1 }))
    deposit_event (mint caller amount_0 amount_1)

  unfoldable pub burn_liquidity : ℕ → ℕ → Call L Unit
  burn_liquidity to caller = do
    s ← gets (λ w. w.storage)
    contract ← unwrap s.pallet_account_id
    let reserve_0 = s.reserves.reserve_0
    let reserve_1 = s.reserves.reserve_1
    balance_0 ← balance_of t contract t.asset_0
    balance_1 ← balance_of t contract t.asset_1
    liquidity ← unwrap (lookup contract s.lp_balances)
    fee_on ← _mint_fee t reserve_0 reserve_1
    total_supply ← gets (λ w. w.storage.total_supply)
    let amount_0 = share liquidity balance_0 total_supply
    let amount_1 = share liquidity balance_1 total_supply
    ensure (ltb 0 amount_0 && ltb 0 amount_1) (amm insufficient_liquidity_burned)
    _burn contract liquidity
    transfer_tokens t contract to t.asset_0 amount_0
    transfer_tokens t contract to t.asset_1 amount_1
    left_0 ← balance_of t contract t.asset_0
    left_1 ← balance_of t contract t.asset_1
    _update t left_0 left_1 reserve_0 reserve_1
    when fee_on (set_storage (λ q. record q { k_last = saturating_mul reserve_0 reserve_1 }))
    deposit_event (burn caller to amount_0 amount_1)
