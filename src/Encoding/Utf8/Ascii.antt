-- ===== src/Encoding/Utf8/Ascii.antt =====
-- ASCII and UTF-8.
use pendulum_amm.Base.{
  ℕ, ◌<◌, ◌≡◌, refl, Bool, true, false, if◌then◌else◌, ltb, ◌/◌, ◌^◌, ◌-◌, List, [], ◌∷◌, arith,
}
use pendulum_amm.Base.Bits.{bit_and_31}
use pendulum_amm.Base.Lists.{All, All-append, all}
use pendulum_amm.Encoding.Utf8.{is_utf8_from, is_utf8}
use pendulum_amm.Encoding.Util.{is_ascii_alphanumeric}
use pendulum_amm.Encoding.Base32.{symbol, encode_byte, encode_from, encode, rest_shift, shl_u8}
use pendulum_amm.Encoding.Key.{encode_stellar_key}

abbrev pub AreAscii : List ℕ → Type 0
AreAscii = All (λ b. b < 128)

ascii_step :
    (b : ℕ) (bytes : List ℕ) → b < 128 → is_utf8_from [] (b ∷ bytes) ≡ is_utf8_from [] bytes
unfolding is_utf8_from
ascii_step b bytes h = ground arith

pub is_utf8-ascii : (bytes : List ℕ) → AreAscii bytes → is_utf8 bytes ≡ true
unfolding is_utf8
is_utf8-ascii [] h = refl
is_utf8-ascii (b ∷ bytes) (hb, h) = rw (ascii_step b bytes hb) (is_utf8-ascii bytes h)

pub alphanumeric-AreAscii : (s : List ℕ) → all is_ascii_alphanumeric s ≡ true → AreAscii s
unfolding is_ascii_alphanumeric
alphanumeric-AreAscii [] h = tt
alphanumeric-AreAscii (c ∷ s) h = ground (arith, alphanumeric-AreAscii s)

-- Base 32 is ASCII.
symbol_ascii : (v : ℕ) → symbol v < 128
unfolding symbol
symbol_ascii v = ground (arith, bit_and_31 v)

optional_symbol : (b : Bool) (v : ℕ) → AreAscii (if b then symbol v ∷ [] else [])
optional_symbol true v = (symbol_ascii v, tt)
optional_symbol false v = tt

encode_byte-AreAscii : (shift carry byte : ℕ) → AreAscii (encode_byte shift carry byte)
unfolding encode_byte
encode_byte-AreAscii shift carry byte =
    (symbol_ascii _, optional_symbol (ltb 5 shift) (byte / 2 ^ (shift - 5)))

encode_from-AreAscii : (shift carry : ℕ) (bytes : List ℕ) → AreAscii (encode_from shift carry bytes)
unfolding encode_from
encode_from-AreAscii shift carry [] = ground (arith, symbol_ascii carry)
encode_from-AreAscii shift carry (byte ∷ bytes) =
    All-append _ (encode_byte shift carry byte) _ (encode_byte-AreAscii shift carry byte)
      (encode_from-AreAscii (8 - rest_shift shift) (shl_u8 byte (rest_shift shift)) bytes)

pub encode-AreAscii : (bytes : List ℕ) → AreAscii (encode bytes)
unfolding encode
encode-AreAscii bytes = encode_from-AreAscii 3 0 bytes

pub encode_stellar_key-AreAscii : (key : List ℕ) (v : ℕ) → AreAscii (encode_stellar_key key v)
unfolding encode_stellar_key
encode_stellar_key-AreAscii key v = encode-AreAscii _
