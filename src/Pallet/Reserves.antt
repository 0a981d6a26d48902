-- ===== src/Pallet/Reserves.antt =====
-- `_update` and `_mint_fee` of pallet/src/helper.rs.
pub mod Frame
use pendulum_amm.Base.{ℕ, ◌-◌, ◌^◌, Bool, true, false, not, ◌&&◌, Option, none, some, ltb, ◌==◌}
use pendulum_amm.Base.Action.{pure, gets, when, ◌>>=◌, ◌>>◌}
use pendulum_amm.Base.Word.{
  max_u128, saturating_add, saturating_sub, saturating_mul, checked_div, unwrap_or,
}
use pendulum_amm.Pallet.State.{Config, Call, sync, deposit_event, set_storage}
use pendulum_amm.Pallet.Token.{_mint}
use pendulum_amm.Pallet.Overflowing.{overflowing_add, overflowing_sub}

abbrev pub max_u64 : ℕ
max_u64 = 2 ^ 64 - 1

-- The closure `mutate_cumulative_price`, which gives the new price.
unfoldable pub mutate_cumulative_price : ℕ → ℕ → ℕ → ℕ → ℕ
mutate_cumulative_price price reserve_x reserve_y time_elapsed =
    let to_add = saturating_mul (unwrap_or (checked_div reserve_x reserve_y) 0) time_elapsed in
    (overflowing_add max_u128 price to_add).0

-- The protocol fee for the growth from `root_k_last` to `root_k`.
unfoldable pub fee_liquidity : ℕ → ℕ → ℕ → ℕ → ℕ
fee_liquidity mint_fee total_supply root_k root_k_last =
    let sub_k_last = saturating_sub root_k root_k_last in
    let numerator = saturating_mul total_supply sub_k_last in
    let denominator = saturating_add (saturating_mul root_k mint_fee) root_k_last in
    unwrap_or (checked_div numerator denominator) 0

module _ {O L C : Type 0} (t : Config O L C) where
  -- The unused `checked_sub` of the source has no effect and is left out.
  unfoldable pub _update : ℕ → ℕ → ℕ → ℕ → Call L Unit
  _update balance_0 balance_1 reserve_0 reserve_1 = do
    last ← gets (λ w. w.storage.reserves.block_timestamp_last)
    let time_elapsed = t.amm_extension.moment_to_balance_type (overflowing_sub max_u64 t.now last).0
    when (ltb 0 time_elapsed && not (reserve_0 == 0) && not (reserve_1 == 0)) (
        set_storage (λ s. record s {
          price_0_cumulative_last =
              mutate_cumulative_price s.price_0_cumulative_last reserve_1 reserve_0 time_elapsed;
          price_1_cumulative_last =
              mutate_cumulative_price s.price_1_cumulative_last reserve_0 reserve_1 time_elapsed;
        }))
    set_storage (λ s. record s {
      reserves = record {
        reserve_0 = balance_0;
        reserve_1 = balance_1;
        block_timestamp_last = t.now;
      };
    })
    deposit_event (sync reserve_0 reserve_1)

  unfoldable pub mint_growth : ℕ → ℕ → ℕ → Call L Unit
  mint_growth fee_to root_k root_k_last = do
    total_supply ← gets (λ w. w.storage.total_supply)
    let liquidity = fee_liquidity t.mint_fee total_supply root_k root_k_last
    when (ltb 0 liquidity) (_mint fee_to liquidity)

  -- The `match` of `_mint_fee`.
  unfoldable pub collect_fee : Option ℕ → ℕ → ℕ → ℕ → Call L Bool
  unfolding mint_growth
  collect_fee (some fee_to) k_last reserve_0 reserve_1 =
      let root_k = t.integer_sqrt (saturating_mul reserve_0 reserve_1) in
      let root_k_last = t.integer_sqrt k_last in
      when (not (k_last == 0))
        (when (ltb root_k_last root_k) (mint_growth fee_to root_k root_k_last))
      >> pure true
  collect_fee none k_last reserve_0 reserve_1 =
      when (not (k_last == 0)) (set_storage (λ s. record s { k_last = 0 })) >> pure false

  unfoldable pub _mint_fee : ℕ → ℕ → Call L Bool
  unfolding collect_fee
  _mint_fee reserve_0 reserve_1 = do
    k_last ← gets (λ w. w.storage.k_last)
    fee_to ← gets (λ w. w.storage.fee_to)
    collect_fee fee_to k_last reserve_0 reserve_1
