-- ===== src/Base/Bits.antt =====
-- The bit operations at variables: their equation for the lowest bit, and what follows for fields
-- of bits, for masks and for the size of results.
use Prim.Native.Nat.{
  ℕ, zero, suc, ◌+◌, ◌-◌, ◌*◌, ◌/◌, ◌%◌, ◌^◌, ◌≤◌, ◌<◌, min, max, bit_and, bit_or, bit_xor, digits,
  bitwise, differ, bit_and-bitwise, bit_or-bitwise, bit_xor-bitwise,
}
use mathlib.Core.Path.{◌≡◌, refl, ap, ◌∙◌}
use native.Mathlib.Nat.{pow-suc, one-le-pow}
use native.Mathlib.Omega.{arith}

-- A number has at most as many bits as its value, so any greater count reads the same bits.
module _ (last : ℕ → ℕ) (bit : ℕ → ℕ → ℕ) where
  count_irrelevant :
      (x y : ℕ) (count other : ℕ)
      → x ≤ other
      → x ≤ count
      → digits last bit count x y ≡ digits last bit other x y
  count_irrelevant zero y zero zero lo lc = refl
  count_irrelevant zero y (suc c) zero lo lc = refl
  count_irrelevant zero y zero (suc o) lo lc = refl
  count_irrelevant zero y (suc c) (suc o) lo lc = refl
  count_irrelevant (suc x) y zero o lo lc = absurd (omega arith)
  count_irrelevant (suc x) y (suc c) zero lo lc = absurd (omega arith)
  count_irrelevant (suc x) y (suc c) (suc o) lo lc =
      ap (λ h. h * 2 + bit (suc x % 2) (y % 2))
        (count_irrelevant (suc x / 2) (y / 2) c o (omega arith) (omega arith))

  lowest_bit :
      (x y : ℕ)
      → bitwise last bit (suc x) y
        ≡ bitwise last bit (suc x / 2) (y / 2) * 2 + bit (suc x % 2) (y % 2)
  lowest_bit x y =
      ap (λ h. h * 2 + bit (suc x % 2) (y % 2))
        (count_irrelevant (suc x / 2) (y / 2) x (suc x / 2) (omega arith) (omega arith))

pub bit_or_lowest : (x y : ℕ) → bit_or x y ≡ bit_or (x / 2) (y / 2) * 2 + max (x % 2) (y % 2)
bit_or_lowest (suc x) y = simp bit_or-bitwise (lowest_bit (λ b. b) max x y)
bit_or_lowest zero y = simp bit_or-bitwise (omega arith)

pub bit_and_lowest : (x y : ℕ) → bit_and x y ≡ bit_and (x / 2) (y / 2) * 2 + min (x % 2) (y % 2)
bit_and_lowest (suc x) y = simp bit_and-bitwise (lowest_bit (λ b. 0) min x y)
bit_and_lowest zero y = simp bit_and-bitwise (omega arith)

pub bit_xor_lowest : (x y : ℕ) → bit_xor x y ≡ bit_xor (x / 2) (y / 2) * 2 + differ (x % 2) (y % 2)
bit_xor_lowest (suc x) y = simp bit_xor-bitwise (lowest_bit (λ b. b) differ x y)
bit_xor_lowest zero y = simp bit_xor-bitwise (omega arith)

differ_bit : (x y : ℕ) → x < 2 → y < 2 → differ x y < 2
differ_bit zero y hx hy = hy
differ_bit (suc zero) zero hx hy = omega arith
differ_bit (suc zero) (suc zero) hx hy = omega arith
differ_bit (suc zero) (suc (suc y)) hx hy = absurd (omega arith)
differ_bit (suc (suc x)) y hx hy = absurd (omega arith)

-- Operands of `k` bits give a result of `k` bits.
pub bit_or_size : (k x y : ℕ) → x < 2 ^ k → y < 2 ^ k → bit_or x y < 2 ^ k
bit_or_size zero zero zero hx hy = omega arith
bit_or_size zero zero (suc y) hx hy = absurd (omega arith)
bit_or_size zero (suc x) y hx hy = absurd (omega arith)
bit_or_size (suc k) x y hx hy = omega (
  arith,
  pow-suc 2 k,
  bit_or_lowest x y,
  bit_or_size k (x / 2) (y / 2) (omega (arith, pow-suc 2 k)) (omega (arith, pow-suc 2 k)),
)

pub bit_xor_size : (k x y : ℕ) → x < 2 ^ k → y < 2 ^ k → bit_xor x y < 2 ^ k
bit_xor_size zero zero zero hx hy = omega arith
bit_xor_size zero zero (suc y) hx hy = absurd (omega arith)
bit_xor_size zero (suc x) y hx hy = absurd (omega arith)
bit_xor_size (suc k) x y hx hy = omega (
  arith,
  pow-suc 2 k,
  bit_xor_lowest x y,
  differ_bit (x % 2) (y % 2) (omega arith) (omega arith),
  bit_xor_size k (x / 2) (y / 2) (omega (arith, pow-suc 2 k)) (omega (arith, pow-suc 2 k)),
)

-- `x & 0` by halving, with a bound to recur on.
and_nothing : (bound x : ℕ) → x ≤ bound → bit_and x 0 ≡ 0
and_nothing zero zero h = refl
and_nothing zero (suc x) h = absurd (omega arith)
and_nothing (suc bound) x h =
    omega (arith, bit_and_lowest x 0, and_nothing bound (x / 2) (omega arith))

or_nothing : (bound x : ℕ) → x ≤ bound → bit_or x 0 ≡ x
or_nothing zero zero h = refl
or_nothing zero (suc x) h = absurd (omega arith)
or_nothing (suc bound) x h =
    omega (arith, bit_or_lowest x 0, or_nothing bound (x / 2) (omega arith))

double_high : (high k : ℕ) → high * 2 ^ suc k ≡ high * 2 ^ k * 2
double_high high k = omega (arith, ap (λ (p : ℕ). high * p) (pow-suc 2 k))

-- Two fields that do not overlap are joined by a sum.
pub bit_or_join : (k high low : ℕ) → low < 2 ^ k → bit_or (high * 2 ^ k) low ≡ high * 2 ^ k + low
bit_or_join zero high zero fits = ground (arith, or_nothing high high (omega arith))
bit_or_join zero high (suc low) fits = absurd (omega arith)
bit_or_join (suc k) high low fits = ground (
  arith,
  pow-suc 2 k,
  double_high high k,
  bit_or_lowest (high * 2 ^ suc k) low,
  bit_or_join k high (low / 2),
)

-- A mask of `k` ones keeps the low field.
bit_and_low : (k high low : ℕ) → low < 2 ^ k → bit_and (high * 2 ^ k + low) (2 ^ k - 1) ≡ low
bit_and_low zero high zero fits = ground (arith, and_nothing high high (omega arith))
bit_and_low zero high (suc low) fits = absurd (omega arith)
bit_and_low (suc k) high low fits = ground (
  arith,
  pow-suc 2 k,
  one-le-pow k 2,
  double_high high k,
  bit_and_lowest (high * 2 ^ suc k + low) (2 ^ suc k - 1),
  bit_and_low k high (low / 2),
)

pub bit_and_31 : (x : ℕ) → bit_and x 0x1f ≡ x % 32
bit_and_31 x = ap (λ n. bit_and n 0x1f) (split_32 x) ∙ bit_and_low 5 (x / 32) (x % 32) (omega arith)
  where
    split_32 : (x : ℕ) → x ≡ x / 32 * 2 ^ 5 + x % 32
    split_32 x = omega arith

pub bit_and_255 : (x : ℕ) → bit_and x 0xff ≡ x % 256
bit_and_255 x =
    ap (λ n. bit_and n 0xff) (split_256 x) ∙ bit_and_low 8 (x / 256) (x % 256) (omega arith)
  where
    split_256 : (x : ℕ) → x ≡ x / 256 * 2 ^ 8 + x % 256
    split_256 x = omega arith

pub bit_and_65535 : (x : ℕ) → bit_and x 0xffff ≡ x % 65536
bit_and_65535 x =
    ap (λ n. bit_and n 0xffff) (split x) ∙ bit_and_low 16 (x / 65536) (x % 65536) (omega arith)
  where
    split : (x : ℕ) → x ≡ x / 65536 * 2 ^ 16 + x % 65536
    split x = omega arith
