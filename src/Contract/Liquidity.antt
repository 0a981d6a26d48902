-- ===== src/Contract/Liquidity.antt =====
-- `mint` and `burn`: liquidity shares against deposited tokens, and back.
pub mod Minting
pub mod Payment
pub mod Burning
pub mod Success
use pendulum_amm.Base.{ℕ, min, Bool, not, ◌&&◌, ltb, ◌==◌, if◌then◌else◌}
use pendulum_amm.Base.Action.{Outcome, raise, pure, lift, gets, ensure, when, ◌>>=◌, ◌>>◌}
use pendulum_amm.Base.Word.{saturating_sub, saturating_mul, checked_sub, unwrap_or}
use pendulum_amm.Contract.State.{
  Asset, Error, insufficient_liquidity_minted, insufficient_liquidity_burned, Event, mint, burn,
  minimum_liquidity, Host, World, Call, emit_event, set_pair,
}
use pendulum_amm.Contract.Token.{lp_balance_of, _mint, _burn}
use pendulum_amm.Contract.Pricing.{saturating_div}
use pendulum_amm.Contract.Bank.{balance_of, transfer_tokens}
use pendulum_amm.Contract.Reserves.{_update, _mint_fee}

-- The share `amount` of `reserve`, as shares of `total_supply`.
unfoldable pub share : ℕ → ℕ → ℕ → Outcome Error ℕ
share amount total_supply reserve = saturating_div (saturating_mul amount total_supply) reserve

-- `AccountId::from([0x0; 32])`
abbrev pub address_zero : ℕ
address_zero = 0

module _ {L : Type 0} (h : Host L) where
  -- The `if total_supply == 0` of `mint`.
  unfoldable pub new_liquidity : ℕ → ℕ → ℕ → ℕ → ℕ → Call L ℕ
  new_liquidity total_supply amount_0 amount_1 reserve_0 reserve_1 =
      if total_supply == 0
      then (do
        let liquidity = saturating_sub (h.sqrt (saturating_mul amount_0 amount_1)) minimum_liquidity
        _mint address_zero minimum_liquidity
        pure liquidity)
      else (do
        share_0 ← lift (share amount_0 total_supply reserve_0)
        share_1 ← lift (share amount_1 total_supply reserve_1)
        pure (min share_0 share_1))

  -- The rest of `mint`, once the liquidity is known.
  unfoldable pub finish_mint : ℕ → ℕ → Bool → ℕ → ℕ → ℕ → ℕ → ℕ → ℕ → Call L ℕ
  finish_mint to liquidity fee_on balance_0 balance_1 reserve_0 reserve_1 amount_0 amount_1 = do
    ensure (ltb 0 liquidity) insufficient_liquidity_minted
    _mint to liquidity
    _update h balance_0 balance_1 reserve_0 reserve_1
    when fee_on (set_pair (λ q. record q { k_last = saturating_mul reserve_0 reserve_1 }))
    emit_event (mint h.caller amount_0 amount_1)
    pure liquidity

  unfoldable pub mint_liquidity : ℕ → Call L ℕ
  mint_liquidity to = do
    p ← gets (λ w. w.pair)
    let reserve_0 = p.reserve_0
    let reserve_1 = p.reserve_1
    balance_0 ← balance_of h h.account_id p.asset_0
    balance_1 ← balance_of h h.account_id p.asset_1
    let amount_0 = unwrap_or (checked_sub balance_0 reserve_0) 0
    let amount_1 = unwrap_or (checked_sub balance_1 reserve_1) 0
    fee_on ← _mint_fee h reserve_0 reserve_1
    total_supply ← gets (λ w. w.pair.total_supply)
    liquidity ← new_liquidity total_supply amount_0 amount_1 reserve_0 reserve_1
    finish_mint to liquidity fee_on balance_0 balance_1 reserve_0 reserve_1 amount_0 amount_1

  -- The rest of `burn`, once the amounts are known.
  unfoldable pub finish_burn : ℕ → ℕ → Bool → ℕ → ℕ → ℕ → ℕ → Asset → Asset → Call L (ℕ × ℕ)
  finish_burn to liquidity fee_on amount_0 amount_1 reserve_0 reserve_1 asset_0 asset_1 = do
    ensure (ltb 0 amount_0 && ltb 0 amount_1) insufficient_liquidity_burned
    _burn h.account_id liquidity
    transfer_tokens h h.account_id to asset_0 amount_0
    transfer_tokens h h.account_id to asset_1 amount_1
    balance_0 ← balance_of h h.account_id asset_0
    balance_1 ← balance_of h h.account_id asset_1
    _update h balance_0 balance_1 reserve_0 reserve_1
    when fee_on (set_pair (λ q. record q { k_last = saturating_mul reserve_0 reserve_1 }))
    emit_event (burn h.caller to amount_0 amount_1)
    pure (amount_0, amount_1)

  unfoldable pub burn_liquidity : ℕ → Call L (ℕ × ℕ)
  burn_liquidity to = do
    p ← gets (λ w. w.pair)
    let reserve_0 = p.reserve_0
    let reserve_1 = p.reserve_1
    balance_0 ← balance_of h h.account_id p.asset_0
    balance_1 ← balance_of h h.account_id p.asset_1
    liquidity ← gets (lp_balance_of h.account_id)
    fee_on ← _mint_fee h reserve_0 reserve_1
    total_supply ← gets (λ w. w.pair.total_supply)
    amount_0 ← lift (share liquidity balance_0 total_supply)
    amount_1 ← lift (share liquidity balance_1 total_supply)
    finish_burn to liquidity fee_on amount_0 amount_1 reserve_0 reserve_1 p.asset_0 p.asset_1
