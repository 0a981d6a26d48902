-- ===== src/Contract/Pricing.antt =====
-- The pure price functions of the contract: `get_amount_out`, `get_amount_in` and `quote`.
pub mod Swap
pub mod Quote
use pendulum_amm.Base.{ℕ, ◌/◌, Bool, not, ◌&&◌, ltb, ◌==◌, if◌then◌else◌}
use pendulum_amm.Base.Action.{Outcome, ok, err, panic}
use pendulum_amm.Base.Word.{saturating_add, saturating_sub, saturating_mul}
use pendulum_amm.Contract.State.{
  Error, insufficient_input_amount, insufficient_output_amount, insufficient_liquidity,
}

-- `saturating_div` of `u128`, which panics on a zero divisor.
abbrev pub saturating_div : ℕ → ℕ → Outcome Error ℕ
saturating_div a b = if b == 0 then panic else ok (a / b)

abbrev pub map_ok : (ℕ → ℕ) → Outcome Error ℕ → Outcome Error ℕ
map_ok f (ok a) = ok (f a)
map_ok f (err e) = err e
map_ok f panic = panic

unfoldable pub get_amount_out : ℕ → ℕ → ℕ → Outcome Error ℕ
get_amount_out amount_in reserve_in reserve_out =
    if not (ltb 0 amount_in)
    then err insufficient_input_amount
    else if not (ltb 0 reserve_in && ltb 0 reserve_out)
    then err insufficient_liquidity
    else (let amount_in_with_fee = saturating_mul amount_in 997 in
        let numerator = saturating_mul amount_in_with_fee reserve_out in
        let denominator = saturating_add (saturating_mul reserve_in 1000) amount_in_with_fee in
        saturating_div numerator denominator)

unfoldable pub get_amount_in : ℕ → ℕ → ℕ → Outcome Error ℕ
get_amount_in amount_out reserve_in reserve_out =
    if not (ltb 0 amount_out)
    then err insufficient_output_amount
    else if not (ltb 0 reserve_in && ltb 0 reserve_out)
    then err insufficient_liquidity
    else (let numerator = saturating_mul (saturating_mul reserve_in reserve_out) 1000 in
        let denominator = saturating_mul (saturating_sub reserve_out amount_out) 997 in
        map_ok (λ q. saturating_add q 1) (saturating_div numerator denominator))

unfoldable pub quote : ℕ → ℕ → ℕ → Outcome Error ℕ
quote amount_a reserve_a reserve_b =
    if not (ltb 0 amount_a)
    then err insufficient_input_amount
    else if not (ltb 0 reserve_a && ltb 0 reserve_b)
    then err insufficient_liquidity
    else saturating_div (saturating_mul amount_a reserve_b) reserve_a
