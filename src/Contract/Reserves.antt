-- ===== src/Contract/Reserves.antt =====
-- `_update` and `_mint_fee`: the reserves with their price accumulators, and the protocol fee.
pub mod Fee
pub mod Frame
pub mod Oracle
use pendulum_amm.Base.{
  ℕ, ◌/◌, Bool, true, false, not, ◌&&◌, Option, none, some, ltb, ◌==◌, if◌then◌else◌,
}
use pendulum_amm.Base.Action.{Outcome, pure, lift, gets, when, ◌>>=◌, ◌>>◌}
use pendulum_amm.Base.Word.{
  saturating_add, saturating_sub, saturating_mul, checked_div, unwrap_or, wrapping_add_u128,
  wrapping_sub_u64,
}
use pendulum_amm.Contract.State.{Error, Pair, Host, World, Call, Event, sync, emit_event, set_pair}
use pendulum_amm.Contract.Token.{_mint}
use pendulum_amm.Contract.Pricing.{saturating_div}

-- One accumulator's step in `_update`.
unfoldable pub accumulate : ℕ → ℕ → ℕ → ℕ → ℕ
accumulate price reserve_x reserve_y time_elapsed =
    wrapping_add_u128 price
      (saturating_mul (unwrap_or (checked_div reserve_x reserve_y) 0) time_elapsed)

-- The share of new liquidity that `_mint_fee` grants, given the two roots.
unfoldable pub fee_liquidity : ℕ → ℕ → ℕ → Outcome Error ℕ
fee_liquidity total_supply root_k root_k_last =
    let numerator = saturating_mul total_supply (saturating_sub root_k root_k_last) in
    let denominator = saturating_add (saturating_mul root_k 5) root_k_last in
    saturating_div numerator denominator

abbrev pub is_some : Option ℕ → Bool
is_some none = false
is_some (some _) = true

module _ {L : Type 0} where
  unfoldable pub mint_growth : ℕ → ℕ → ℕ → Call L Unit
  mint_growth fee_to root_k root_k_last = do
    total_supply ← gets (λ w. w.pair.total_supply)
    liquidity ← lift (fee_liquidity total_supply root_k root_k_last)
    when (ltb 0 liquidity) (_mint fee_to liquidity)

module _ {L : Type 0} (h : Host L) where
  unfoldable pub _update : ℕ → ℕ → ℕ → ℕ → Call L Unit
  _update balance_0 balance_1 reserve_0 reserve_1 = do
    last ← gets (λ w. w.pair.block_timestamp_last)
    let time_elapsed = wrapping_sub_u64 h.block_timestamp last
    when (ltb 0 time_elapsed && not (reserve_0 == 0) && not (reserve_1 == 0)) (
        set_pair (λ p. record p {
          price_0_cumulative_last =
              accumulate p.price_0_cumulative_last reserve_1 reserve_0 time_elapsed;
          price_1_cumulative_last =
              accumulate p.price_1_cumulative_last reserve_0 reserve_1 time_elapsed;
        }))
    set_pair (λ p. record p {
      reserve_0 = balance_0;
      reserve_1 = balance_1;
      block_timestamp_last = h.block_timestamp;
    })
    emit_event (sync reserve_0 reserve_1)

  unfoldable pub collect_fee : Option ℕ → ℕ → ℕ → ℕ → Call L Unit
  unfolding mint_growth
  collect_fee (some fee_to) k_last reserve_0 reserve_1 =
      let root_k = h.sqrt (saturating_mul reserve_0 reserve_1) in
      let root_k_last = h.sqrt k_last in
      when (not (k_last == 0))
        (when (ltb root_k_last root_k) (mint_growth fee_to root_k root_k_last))
  collect_fee none k_last reserve_0 reserve_1 =
      when (not (k_last == 0)) (set_pair (λ p. record p { k_last = 0 }))

  unfoldable pub _mint_fee : ℕ → ℕ → Call L Bool
  unfolding collect_fee
  _mint_fee reserve_0 reserve_1 = do
    fee_to ← gets (λ w. w.pair.fee_to)
    k_last ← gets (λ w. w.pair.k_last)
    collect_fee fee_to k_last reserve_0 reserve_1
    pure (is_some fee_to)
