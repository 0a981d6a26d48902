-- ===== src/Contract/Reserves/Fee.antt =====
-- The size of the protocol fee.
use pendulum_amm.Base.{ℕ, ◌+◌, ◌-◌, ◌*◌, ◌/◌, ◌≤◌, ◌<◌, ◌≡◌, arith}
use pendulum_amm.Base.Word.{max_u128, saturating_mul}
use pendulum_amm.Base.Nonlinear.{div-mul-le, mul-sub_add}
use native.Mathlib.Nat.{min-eq_left, min-le_left}
use pendulum_amm.Base.Action.{ok}
use pendulum_amm.Contract.Reserves.{fee_liquidity}

-- The protocol gets at most a sixth of the growth: of the shares after the grant, the new ones
-- are at most the sixth part of the fraction by which the root of the product has grown. The
-- division does not panic. The divisor has to fit 128 bits.
pub fee_liquidity_bound :
    (total_supply root_k root_k_last : ℕ)
    → root_k_last < root_k
    → root_k * 5 + root_k_last ≤ max_u128
    → (fee : ℕ) × (fee_liquidity total_supply root_k root_k_last ≡ ok fee)
      × (fee * (root_k * 6) ≤ (total_supply + fee) * (root_k - root_k_last))
unfolding fee_liquidity
fee_liquidity_bound t k l grown fits =
    let n : ℕ = saturating_mul t (k - l) in
    let d : ℕ = k * 5 + l in
    let f : ℕ = n / d in
    let above : n ≤ t * (k - l) = min-le_left (t * (k - l)) max_u128 in
    (
      f,
      ground (arith, min-eq_left fits, min-eq_left {n = k * 5} {m = max_u128} (omega arith)),
      omega (arith, above, div-mul-le n d, mul-sub_add f k l (omega arith)),
    )
