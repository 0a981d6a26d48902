-- ===== src/Base/Nonlinear.antt =====
-- Facts on products and quotients that linear arithmetic does not reach.
use Prim.Native.Nat.{ℕ, zero, suc, ◌+◌, ◌-◌, ◌*◌, ◌/◌, ◌≤◌, ◌<◌}
use mathlib.Core.Path.{◌≡◌}
use native.Mathlib.Omega.{arith}
use native.Mathlib.Nat.{
  div-mul-le_self, lt-div-mul-add, le-div_iff_mul-le, div-lt_iff_lt-mul, mul-le-mul,
  mul-le-mul_left, mul-le-mul_right, mul-sub,
}

-- A quotient times its divisor is at most the dividend.
pub div-mul-le : (n d : ℕ) → n / d * d ≤ n
div-mul-le n d = div-mul-le_self n d

-- One more than the quotient, times the divisor, is above the dividend.
pub lt-suc_div-mul : (n d : ℕ) → 0 < d → n < (n / d + 1) * d
lt-suc_div-mul n d h = omega (arith, lt-div-mul-add {a = n} {b = d} h)

pub div_mono : (m n d : ℕ) → m ≤ n → m / d ≤ n / d
div_mono m n zero h = omega arith
div_mono m n (suc d) h =
    (le-div_iff_mul-le (omega arith)).1 (omega (arith, div-mul-le_self m (suc d)))

-- A multiple of the divisor beside the dividend adds to the quotient.
pub div-add-le : (x k n d : ℕ) → 0 < d → x + k * d ≤ n → x / d + k ≤ n / d
div-add-le x k n d pos h = (le-div_iff_mul-le pos).1 (omega (arith, div-mul-le_self x d))

-- A quotient is below `r` if the dividend is below `r` times the divisor.
pub div-lt : (n d r : ℕ) → 0 < d → n < r * d → n / d < r
div-lt n d r pos h = (div-lt_iff_lt-mul pos).1 h

pub mul_mono_left : (a b c : ℕ) → a ≤ b → a * c ≤ b * c
mul_mono_left a b c h = mul-le-mul_right c h

pub mul_mono : (a b c d : ℕ) → a ≤ b → c ≤ d → a * c ≤ b * d
mul_mono a b c d h k = mul-le-mul h k

-- A product with a difference, without subtraction.
pub mul-sub_add : (r s o : ℕ) → o ≤ s → r * (s - o) + r * o ≡ r * s
mul-sub_add r s o h = omega (arith, mul-sub r s o, mul-le-mul_left r h)

pub mul_pos : (a b : ℕ) → 0 < a → 0 < b → 0 < a * b
mul_pos a b h k = omega (arith, mul-le-mul h k)
