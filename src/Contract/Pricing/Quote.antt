-- ===== src/Contract/Pricing/Quote.antt =====
-- `quote` against the exact proportion of the reserves.
use pendulum_amm.Base.{ℕ, ◌+◌, ◌*◌, ◌/◌, ◌≤◌, ◌<◌, ◌≡◌, arith}
use pendulum_amm.Base.Word.{max_u128}
use pendulum_amm.Base.Nonlinear.{lt-suc_div-mul, div-mul-le}
use native.Mathlib.Nat.{min-eq_left}
use pendulum_amm.Base.Action.{ok}
use pendulum_amm.Contract.Pricing.{quote}

-- For positive amounts whose product fits 128 bits, `quote` gives the proportional amount of the
-- other asset, rounded down by less than one unit.
pub quote_proportional :
    (amount_a reserve_a reserve_b : ℕ)
    → 0 < amount_a
    → 0 < reserve_a
    → 0 < reserve_b
    → amount_a * reserve_b ≤ max_u128
    → (b : ℕ) × (quote amount_a reserve_a reserve_b ≡ ok b)
      × (b * reserve_a ≤ amount_a * reserve_b)
      × (amount_a * reserve_b < (b + 1) * reserve_a)
unfolding quote
quote_proportional a r s pos_a pos_r pos_s fits = (
  a * s / r,
  ground (arith, min-eq_left fits),
  div-mul-le (a * s) r,
  lt-suc_div-mul (a * s) r pos_r,
)
