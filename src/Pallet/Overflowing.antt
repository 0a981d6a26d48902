-- ===== src/Pallet/Overflowing.antt =====
-- `overflowing_add` and `overflowing_sub` of pallet/src/helper.rs, at an integer type with the
-- given `max_value`.
pub mod Wrapping
use pendulum_amm.Base.{ℕ, ◌+◌, ◌-◌, Bool, true, false, Option, none, some, leb, if◌then◌else◌}
use pendulum_amm.Base.Word.{checked_sub}

-- `checked_add` of that type
abbrev pub checked_add : ℕ → ℕ → ℕ → Option ℕ
checked_add max_value a b = if leb (a + b) max_value then some (a + b) else none

unfoldable pub overflowing_add : ℕ → ℕ → ℕ → ℕ × Bool
overflowing_add max_value augend addend = elim (checked_add max_value augend addend) [
  | none ↦ (augend - (max_value - addend) - 1, true)
  | some sum ↦ (sum, false)
]

unfoldable pub overflowing_sub : ℕ → ℕ → ℕ → ℕ × Bool
overflowing_sub max_value minuend subtrahend = elim (checked_sub minuend subtrahend) [
  | none ↦ (max_value - subtrahend + minuend + 1, true)
  | some difference ↦ (difference, false)
]
