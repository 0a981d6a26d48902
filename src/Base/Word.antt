-- ===== src/Base/Word.antt =====
-- Rust's unsigned machine words: the saturating, checked and overflowing operations on `u128`
-- (`Balance`) and `u64` (`Moment`).
use Prim.Native.Nat.{ℕ, ◌+◌, ◌-◌, ◌*◌, ◌/◌, ◌%◌, ◌^◌, min}
use mathlib.Core.Option.{Option, none, some}
use pendulum_amm.Base.Tests.{leb, ◌==◌, if◌then◌else◌}

abbrev pub max_u128 : ℕ
max_u128 = 2 ^ 128 - 1

abbrev pub saturating_add : ℕ → ℕ → ℕ
saturating_add a b = min (a + b) max_u128

abbrev pub saturating_sub : ℕ → ℕ → ℕ
saturating_sub a b = a - b

abbrev pub saturating_mul : ℕ → ℕ → ℕ
saturating_mul a b = min (a * b) max_u128

abbrev pub checked_sub : ℕ → ℕ → Option ℕ
checked_sub a b = if leb b a then some (a - b) else none

abbrev pub checked_div : ℕ → ℕ → Option ℕ
checked_div a b = if b == 0 then none else some (a / b)

abbrev pub unwrap_or : Option ℕ → ℕ → ℕ
unwrap_or none d = d
unwrap_or (some a) d = a

-- `overflowing_add` of `u128` and `overflowing_sub` of `u64`, their first components.
abbrev pub wrapping_add_u128 : ℕ → ℕ → ℕ
wrapping_add_u128 a b = (a + b) % 2 ^ 128

abbrev pub wrapping_sub_u64 : ℕ → ℕ → ℕ
wrapping_sub_u64 a b = (a + 2 ^ 64 - b) % 2 ^ 64
