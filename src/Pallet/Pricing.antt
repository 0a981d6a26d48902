-- ===== src/Pallet/Pricing.antt =====
-- `_get_amount_out`, `get_amount_in` and `quote` of pallet/src/helper.rs. A division by zero
-- gives the default 0 there.
pub mod Agreement
use pendulum_amm.Base.{ℕ, Option, none, some, not, ◌&&◌, ◌||◌, Bool, ltb, leb, if◌then◌else◌}
use pendulum_amm.Base.Action.{Outcome, ok, err}
use pendulum_amm.Base.Word.{saturating_add, saturating_sub, saturating_mul, checked_div, unwrap_or}
use pendulum_amm.Pallet.State.{
  DispatchError, amm, insufficient_input_amount, insufficient_output_amount, insufficient_liquidity,
}

unfoldable pub _get_amount_out : ℕ → ℕ → ℕ → Outcome DispatchError ℕ
_get_amount_out amount_in reserve_in reserve_out =
    if not (ltb 0 amount_in)
    then err (amm insufficient_input_amount)
    else if not (ltb 0 reserve_in && ltb 0 reserve_out)
    then err (amm insufficient_liquidity)
    else (let amount_in_with_fee = saturating_mul amount_in 997 in
        let numerator = saturating_mul amount_in_with_fee reserve_out in
        let denominator = saturating_add (saturating_mul reserve_in 1000) amount_in_with_fee in
        ok (unwrap_or (checked_div numerator denominator) 0))

-- `.map(|res| res.saturating_add(1))`
abbrev pub add_one : Option ℕ → Option ℕ
add_one none = none
add_one (some res) = some (saturating_add res 1)

unfoldable pub get_amount_in : ℕ → ℕ → ℕ → Outcome DispatchError ℕ
get_amount_in amount_out reserve_in reserve_out =
    if leb amount_out 0
    then err (amm insufficient_output_amount)
    else if leb reserve_in 0 || leb reserve_out 0
    then err (amm insufficient_liquidity)
    else (let numerator = saturating_mul (saturating_mul reserve_in reserve_out) 1000 in
        let denominator = saturating_mul (saturating_sub reserve_out amount_out) 997 in
        ok (unwrap_or (add_one (checked_div numerator denominator)) 0))

unfoldable pub quote : ℕ → ℕ → ℕ → Outcome DispatchError ℕ
quote amount_a reserve_a reserve_b =
    if not (ltb 0 amount_a)
    then err (amm insufficient_input_amount)
    else if not (ltb 0 reserve_a && ltb 0 reserve_b)
    then err (amm insufficient_liquidity)
    else ok (unwrap_or (checked_div (saturating_mul amount_a reserve_b) reserve_a) 0)
