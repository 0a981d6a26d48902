-- ===== src/Contract/Pricing/Swap.antt =====
-- `get_amount_in` and `get_amount_out` against the constant product, and against the formula of
-- Uniswap V2, which the README says that the calculations follow.
use pendulum_amm.Base.{ℕ, ◌+◌, ◌-◌, ◌*◌, ◌/◌, ◌≤◌, ◌<◌, ◌≡◌, arith}
use pendulum_amm.Base.Word.{max_u128}
use pendulum_amm.Base.Nonlinear.{
  lt-suc_div-mul, div-mul-le, div-add-le, div-lt, mul_mono, mul_mono_left, mul-sub_add, mul_pos,
}
use native.Mathlib.Nat.{min-eq_left, mul_assoc}
use pendulum_amm.Base.Action.{ok, panic}
use pendulum_amm.Contract.Pricing.{get_amount_out, get_amount_in}

-- `getAmountIn` of UniswapV2Library.
abbrev pub uniswap_amount_in : ℕ → ℕ → ℕ → ℕ
uniswap_amount_in amount_out reserve_in reserve_out =
    reserve_in * amount_out * 1000 / ((reserve_out - amount_out) * 997) + 1

-- The true denominator is positive, and is not cut off where the numerator is not.
denominator_bounds :
    (amount_out reserve_in reserve_out : ℕ)
    → amount_out < reserve_out
    → 0 < reserve_in
    → reserve_in * reserve_out * 1000 ≤ max_u128
    → (997 ≤ (reserve_out - amount_out) * 997) × ((reserve_out - amount_out) * 997 ≤ max_u128)
denominator_bounds o r s covered stocked fits = omega (arith, mul_mono_left 1 r s stocked)

-- A quotient by at least 2, plus one, still fits.
suc_div-le : (n d : ℕ) → 2 ≤ d → n ≤ max_u128 → n / d + 1 ≤ max_u128
suc_div-le n d h fits = omega (arith, div-mul-le n d, mul_mono (n / d) (n / d) 2 d (omega arith) h)

module _ (amount_out reserve_in reserve_out : ℕ) (wants : 0 < amount_out)
    (covered : amount_out < reserve_out) (stocked : 0 < reserve_in)
    (fits : reserve_in * reserve_out * 1000 ≤ max_u128) where
  -- The amount charged, in closed form.
  pub get_amount_in-eq :
      get_amount_in amount_out reserve_in reserve_out
      ≡ ok (reserve_in * reserve_out * 1000 / ((reserve_out - amount_out) * 997) + 1)
  unfolding get_amount_in
  get_amount_in-eq =
      let (low, high) = denominator_bounds amount_out reserve_in reserve_out covered stocked fits in
      let n : ℕ = reserve_in * reserve_out * 1000 in
      let d : ℕ = (reserve_out - amount_out) * 997 in
      ground (
        arith,
        low,
        high,
        min-eq_left {n = reserve_in * reserve_out} {m = max_u128} (omega arith),
        min-eq_left fits,
        min-eq_left high,
        min-eq_left (suc_div-le n d (omega arith) fits),
      )

  -- A buyer who pays what `get_amount_in` asks meets the product check with its 0.3 % fee: for a
  -- positive output below its reserve and a positive reserve of the input, where the product of
  -- the reserves times 1000 fits 128 bits, an amount is returned, and with it the adjusted product
  -- is at least the old one.
  pub get_amount_in_covers :
      (a : ℕ) × (get_amount_in amount_out reserve_in reserve_out ≡ ok a)
      × (reserve_in * reserve_out * 1000000
          ≤ ((reserve_in + a) * 1000 - a * 3) * ((reserve_out - amount_out) * 1000))
  get_amount_in_covers =
      let n : ℕ = reserve_in * reserve_out * 1000 in
      let r : ℕ = reserve_out - amount_out in
      let a : ℕ = n / (r * 997) + 1 in
      let paid : n < a * (r * 997) = lt-suc_div-mul n (r * 997) (omega arith) in
      let more : a * 997 * (r * 1000) ≤ ((reserve_in + a) * 1000 - a * 3) * (r * 1000) =
        mul_mono_left (a * 997) ((reserve_in + a) * 1000 - a * 3) (r * 1000) (omega arith) in
      (a, get_amount_in-eq, omega (arith, paid, more))

  -- The charge is not Uniswap's: under the same conditions it exceeds the amount of
  -- UniswapV2Library by at least the whole input reserve, since the numerator has `reserve_out`
  -- where Uniswap has `amount_out`.
  pub get_amount_in_overcharges :
      (a : ℕ) × (get_amount_in amount_out reserve_in reserve_out ≡ ok a)
      × (uniswap_amount_in amount_out reserve_in reserve_out + reserve_in ≤ a)
  get_amount_in_overcharges =
      let d : ℕ = (reserve_out - amount_out) * 997 in
      let split : reserve_in * amount_out * 1000 + reserve_in * d
          ≤ reserve_in * reserve_out * 1000 =
        omega (
          arith,
          mul-sub_add reserve_in reserve_out amount_out (omega arith),
          mul_assoc reserve_in (reserve_out - amount_out) 997,
        ) in
      (
        reserve_in * reserve_out * 1000 / d + 1,
        get_amount_in-eq,
        omega (
          arith,
          div-add-le (reserve_in * amount_out * 1000) reserve_in (reserve_in * reserve_out * 1000) d
              (omega arith) split,
        ),
      )

-- An output as large as its reserve or larger makes the divisor zero: the call panics, while the
-- reserves are not empty.
pub get_amount_in_panics :
    (amount_out reserve_in reserve_out : ℕ)
    → 0 < amount_out
    → 0 < reserve_in
    → 0 < reserve_out
    → reserve_out ≤ amount_out
    → get_amount_in amount_out reserve_in reserve_out ≡ panic
unfolding get_amount_in
get_amount_in_panics o r s wants stocked_in stocked_out drained = ground arith

-- What `get_amount_out` gives is below the output reserve, and taking it leaves the product of
-- the reserves no smaller, the input less its fee of 0.3 %: for a positive input and reserves,
-- where the two products of the quotient fit 128 bits.
pub get_amount_out_bounds :
    (amount_in reserve_in reserve_out : ℕ)
    → 0 < amount_in
    → 0 < reserve_in
    → 0 < reserve_out
    → amount_in * 997 * reserve_out ≤ max_u128
    → reserve_in * 1000 + amount_in * 997 ≤ max_u128
    → (b : ℕ) × (get_amount_out amount_in reserve_in reserve_out ≡ ok b)
      × (b < reserve_out)
      × (reserve_in * 1000 * reserve_out
          ≤ (reserve_in * 1000 + amount_in * 997) * (reserve_out - b))
unfolding get_amount_out
get_amount_out_bounds a r s pos_in pos_r pos_s fits_n fits_d =
    let n : ℕ = a * 997 * s in
    let d : ℕ = r * 1000 + a * 997 in
    let small : a * 997 ≤ n = omega (arith, mul_mono (a * 997) (a * 997) 1 s (omega arith) pos_s) in
    let b : ℕ = n / d in
    let below : b < s = div-lt n d s (omega arith) (omega (arith, mul_pos r s pos_r pos_s)) in
    (
      b,
      ground (
        arith,
        small,
        min-eq_left {n = a * 997} {m = max_u128} (omega arith),
        min-eq_left fits_n,
        min-eq_left {n = r * 1000} {m = max_u128} (omega arith),
        min-eq_left fits_d,
      ),
      below,
      omega (arith, div-mul-le n d, mul-sub_add d s b (omega arith)),
    )
