-- ===== src/Pallet/Overflowing/Wrapping.antt =====
-- The two helpers against modular arithmetic.
use pendulum_amm.Base.{ℕ, ◌+◌, ◌-◌, ◌%◌, ◌≤◌, ◌≡◌, arith, ltb, leb, Bool-cases, inl, inr}
use native.Mathlib.Nat.{mod-eq_of_lt, mod-eq-sub-mod}
use pendulum_amm.Pallet.Overflowing.{overflowing_add, overflowing_sub}

-- For two values of the type, `overflowing_add` gives the sum modulo the type's size, and true
-- exactly where the sum exceeds the greatest value.
overflowing_add_wraps :
    (max_value a b : ℕ)
    → a ≤ max_value
    → b ≤ max_value
    → overflowing_add max_value a b ≡ ((a + b) % (max_value + 1), ltb max_value (a + b))
unfolding overflowing_add
overflowing_add_wraps m a b ha hb = elim (Bool-cases (leb (a + b) m)) [
  | inl fits ↦ ground (arith, mod-eq_of_lt {n = a + b} {m = m + 1} (ground arith))
  | inr over ↦ ground (
    arith,
    mod-eq-sub-mod {n = a + b} {m = m + 1} (ground arith),
    mod-eq_of_lt {n = a + b - (m + 1)} {m = m + 1} (ground arith),
  )
]

-- For two values of the type, `overflowing_sub` gives the difference modulo the type's size, and
-- true exactly where the subtrahend is greater.
overflowing_sub_wraps :
    (max_value a b : ℕ)
    → a ≤ max_value
    → b ≤ max_value
    → overflowing_sub max_value a b ≡ ((a + (max_value + 1) - b) % (max_value + 1), ltb a b)
unfolding overflowing_sub
overflowing_sub_wraps m a b ha hb = elim (Bool-cases (leb b a)) [
  | inl fits ↦ ground (
    arith,
    mod-eq-sub-mod {n = a + (m + 1) - b} {m = m + 1} (ground arith),
    mod-eq_of_lt {n = a + (m + 1) - b - (m + 1)} {m = m + 1} (ground arith),
  )
  | inr under ↦ ground (arith, mod-eq_of_lt {n = a + (m + 1) - b} {m = m + 1} (ground arith))
]

-- For two values of the type, `overflowing_add` and `overflowing_sub` give the sum and the
-- difference modulo the type's size, and true exactly where the sum exceeds the greatest value, or
-- the subtrahend is greater.
pub overflowing_wraps :
    (max_value a b : ℕ)
    → a ≤ max_value
    → b ≤ max_value
    → (overflowing_add max_value a b ≡ ((a + b) % (max_value + 1), ltb max_value (a + b)))
      × (overflowing_sub max_value a b ≡ ((a + (max_value + 1) - b) % (max_value + 1), ltb a b))
overflowing_wraps m a b ha hb =
    (overflowing_add_wraps m a b ha hb, overflowing_sub_wraps m a b ha hb)
