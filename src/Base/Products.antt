-- ===== src/Base/Products.antt =====
-- The saturated test of scaled products, and shares in proportion.
use Prim.Native.Nat.{ℕ, ◌+◌, ◌-◌, ◌*◌, ◌≤◌, ◌<◌}
use mathlib.Core.Path.{◌≡◌}
use mathlib.Core.Logic.{inl, inr}
use native.Mathlib.Omega.{arith}
use native.Mathlib.Nat.{min-eq_left, mul-sub}
use pendulum_amm.Base.Word.{max_u128, saturating_mul, checked_sub, unwrap_or}
use pendulum_amm.Base.Nonlinear.{mul_mono, mul_mono_left, mul-sub_add}
use pendulum_amm.Base.Tests.{leb, Bool-cases}

-- Where the product of `r` and `s`, scaled, fits 128 bits, a test against two factors that are at
-- most the scaled `b` and `c` tells that the product of `b` and `c` is not smaller.
pub scaled_products :
    (r s b c x y : ℕ)
    → r * s * 1000000 ≤ max_u128
    → saturating_mul (saturating_mul r s) 1000000 ≤ saturating_mul x y
    → x ≤ b * 1000
    → y ≤ c * 1000
    → r * s ≤ b * c
scaled_products r s b c x y fits tested below_b below_c = omega (
  arith,
  tested,
  min-eq_left {n = r * s} {m = max_u128} (omega arith),
  mul_mono x (b * 1000) y (c * 1000) below_b below_c,
)

-- Shares granted in proportion leave every share of the pool its part of the reserve.
pub undiluted :
    (r r' t n : ℕ) → 0 < n → n * r ≤ unwrap_or (checked_sub r' r) 0 * t → r * (t + n) ≤ r' * t
undiluted r r' t n some_shares h = elim (Bool-cases (leb r r')) [
  | inl grown ↦
      let le : r ≤ r' = ground arith in
      let part : n * r ≤ (r' - r) * t = ground arith in omega (arith, part, mul-sub_add t r' r le)
  | inr fallen ↦
      let none_left : n * r ≤ 0 = ground arith in
      let empty : r ≡ 0 = omega (arith, none_left, mul_mono 1 n r r some_shares (omega arith)) in
      rw empty (omega arith)
]

-- What is left of a holding after a proportional payment, against the reserve in it.
pub left_over :
    (reserve holding shares burned paid : ℕ)
    → reserve ≤ holding
    → paid * shares ≤ burned * holding
    → reserve * (shares - burned) ≤ (holding - paid) * shares
left_over r c t l x covered part =
    omega (arith, part, mul_mono_left r c (t - l) covered, mul-sub c t l, mul-sub t c x)
