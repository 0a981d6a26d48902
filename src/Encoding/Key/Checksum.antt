-- ===== src/Encoding/Key/Checksum.antt =====
-- The checksum of Stellar keys as two bytes, low byte first.
use Prim.Native.Nat.{bit_and, bit_or, bit_xor}
use pendulum_amm.Base.{ℕ, ◌+◌, ◌*◌, ◌/◌, ◌%◌, ◌^◌, ◌<◌, ◌≡◌, ap, ◌∙◌, List, [], ◌∷◌, arith}
use pendulum_amm.Base.Bits.{bit_xor_size, bit_or_join, bit_and_255, bit_and_65535}
use pendulum_amm.Encoding.Base32.Bytes.{AreBytes}
use pendulum_amm.Encoding.Key.{crc_byte, crc_from, crc, shl_u16}

-- The checksum fits 16 bits.
crc_byte_size : (c byte : ℕ) → byte < 256 → crc_byte c byte < 2 ^ 16
unfolding crc_byte
crc_byte_size c byte fits =
    let code_1 : ℕ = bit_and (c / 2 ^ 8) 0xff in
    let code_2 : ℕ = bit_xor code_1 byte in
    let code_3 : ℕ = bit_xor code_2 (code_2 / 2 ^ 4) in
    let high : ℕ = bit_and (shl_u16 c 8) 0xffff in
    let crc_1 : ℕ = bit_xor high code_3 in
    let code_4 : ℕ = bit_and (shl_u16 code_3 5) 0xffff in
    let code_5 : ℕ = bit_and (shl_u16 code_4 7) 0xffff in
    let b_2 : code_2 < 2 ^ 8 = bit_xor_size 8 _ _ (omega (arith, bit_and_255 (c / 2 ^ 8))) fits in
    let b_3 : code_3 < 2 ^ 8 = bit_xor_size 8 _ _ b_2 (omega (arith, b_2)) in
    let b_1 : crc_1 < 2 ^ 16 =
      bit_xor_size 16 _ _ (omega (arith, bit_and_65535 (shl_u16 c 8))) (omega (arith, b_3)) in
    bit_xor_size 16 _ _ (bit_xor_size 16 _ _ b_1 (omega (arith, bit_and_65535 (shl_u16 code_3 5))))
      (omega (arith, bit_and_65535 (shl_u16 code_4 7)))

crc_from_size : (c : ℕ) (bytes : List ℕ) → c < 2 ^ 16 → AreBytes bytes → crc_from c bytes < 2 ^ 16
unfolding crc_from
crc_from_size c [] hc hs = hc
crc_from_size c (byte ∷ bytes) hc (h, hs) =
    crc_from_size (crc_byte c byte) bytes (crc_byte_size c byte h) hs

pub crc_size : (bytes : List ℕ) → AreBytes bytes → crc bytes < 2 ^ 16
unfolding crc
crc_size bytes hs = crc_from_size 0 bytes (omega arith) hs

-- The two bytes, put together again.
pub join_bytes : (c : ℕ) → c < 2 ^ 16 → bit_or (shl_u16 (c / 2 ^ 8) 8) (bit_and c 0xff) ≡ c
join_bytes c fits =
    ap (bit_or (shl_u16 (c / 2 ^ 8) 8)) (bit_and_255 c)
    ∙ ap (λ n. bit_or n (c % 256)) (shifted c fits)
    ∙ bit_or_join 8 (c / 2 ^ 8) (c % 256) (omega arith)
    ∙ omega arith
  where
    shifted : (c : ℕ) → c < 2 ^ 16 → shl_u16 (c / 2 ^ 8) 8 ≡ c / 2 ^ 8 * 2 ^ 8
    shifted c fits = omega arith

-- Two bytes, taken from what they make.
pub split_bytes :
    (high low : ℕ)
    → high < 256
    → low < 256
    → (bit_or (shl_u16 high 8) low / 2 ^ 8 ≡ high)
      × (bit_and (bit_or (shl_u16 high 8) low) 0xff ≡ low)
split_bytes high low hh hl =
    let shifted : shl_u16 high 8 ≡ high * 2 ^ 8 = omega arith in
    let joined : bit_or (shl_u16 high 8) low ≡ high * 2 ^ 8 + low =
      ap (λ n. bit_or n low) shifted ∙ bit_or_join 8 high low hl in
    (omega (arith, joined), omega (arith, joined, bit_and_255 (bit_or (shl_u16 high 8) low)))
