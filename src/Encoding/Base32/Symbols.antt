-- ===== src/Encoding/Base32/Symbols.antt =====
-- The alphabet of base 32: the symbol of a value, read back.
use pendulum_amm.Base.{ℕ, ◌%◌, ◌<◌, ◌≡◌, ap, false, some, ◌==◌, arith}
use pendulum_amm.Base.Bits.{bit_and_31}
use pendulum_amm.Encoding.Base32.{alphabet, ascii_to_value_5bit, symbol}

-- Every symbol of the alphabet stands for its index.
pub ascii_to_value_5bit-alphabet : (v : ℕ) → v < 32 → ascii_to_value_5bit (alphabet v) ≡ some v
unfolding ascii_to_value_5bit alphabet
ascii_to_value_5bit-alphabet v fits = ground arith

pub symbol_lem : (v : ℕ) → symbol v ≡ alphabet (v % 32)
unfolding symbol
symbol_lem v = ap alphabet (bit_and_31 v)

pub alphabet_letter : (v : ℕ) → v < 32 → (alphabet v == b'=') ≡ false
unfolding alphabet
alphabet_letter v fits = ground arith

-- Whatever character is read, its value has 5 bits.
pub ascii_to_value_5bit_bound : (c v : ℕ) → ascii_to_value_5bit c ≡ some v → v < 32
unfolding ascii_to_value_5bit
ascii_to_value_5bit_bound c v read = ground arith
