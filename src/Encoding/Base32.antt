-- ===== src/Encoding/Base32.antt =====
-- `mod base32` of smart_contract/src/lib.rs. `u8` values are numbers below 256; a shift to the
-- left drops what leaves the byte.
pub mod Symbols
pub mod Reading
pub mod Roundtrip
pub mod Bytes
use Prim.Native.Nat.{bit_and, bit_or}
use pendulum_amm.Base.{
  ℕ, ◌+◌, ◌-◌, ◌*◌, ◌/◌, ◌%◌, ◌^◌, true, false, not, ◌&&◌, Option, none, some, List, [], ◌∷◌, ◌++◌,
  ltb, leb, ◌==◌, if◌then◌else◌,
}
use pendulum_amm.Base.Action.{Outcome, ok, err, panic}
use pendulum_amm.Contract.State.{Error, invalid_base32_character}

abbrev pub shl_u8 : ℕ → ℕ → ℕ
shl_u8 x k = x * 2 ^ k % 256

abbrev pub shr_u8 : ℕ → ℕ → ℕ
shr_u8 x k = x / 2 ^ k

-- `ALPHABET[v as usize]` for a value of 5 bits: the letters, then the digits from 2 on.
unfoldable pub alphabet : ℕ → ℕ
alphabet v = if ltb v 26 then b'A' + v else b'2' + (v - 26)

unfoldable pub ascii_to_value_5bit : ℕ → Option ℕ
ascii_to_value_5bit char =
    if leb b'a' char && leb char b'z'
    then some (char - b'a')
    else if leb b'A' char && leb char b'Z'
    then some (char - b'A')
    else if leb b'2' char && leb char b'7'
    then some (char - b'2' + 26)
    else if char == b'0'
    then some 14
    else if char == b'1'
    then some 8
    else none

-- `ALPHABET[(value & 0x1f) as usize]`
unfoldable pub symbol : ℕ → ℕ
unfolding alphabet
symbol value_5bit = alphabet (bit_and value_5bit 0x1f)

-- What one byte pushes, in the state `shift`, `carry`.
unfoldable pub encode_byte : ℕ → ℕ → ℕ → List ℕ
unfolding symbol
encode_byte shift carry byte =
    let value_5bit = if shift == 8 then carry else bit_or carry (shr_u8 byte shift) in
    symbol value_5bit ∷ (if ltb 5 shift then symbol (shr_u8 byte (shift - 5)) ∷ [] else [])

-- `shift` after the `if shift > 5`, and after the byte.
unfoldable pub rest_shift : ℕ → ℕ
rest_shift shift = 5 - (if ltb 5 shift then shift - 5 else shift)

-- The loop of `encode`, with the push after it.
unfoldable pub encode_from : ℕ → ℕ → List ℕ → List ℕ
unfolding encode_byte rest_shift
encode_from shift carry [] = if not (shift == 3) then symbol carry ∷ [] else []
encode_from shift carry (byte ∷ bytes) =
    encode_byte shift carry byte
    ++ encode_from (8 - rest_shift shift) (shl_u8 byte (rest_shift shift)) bytes

unfoldable pub encode : List ℕ → List ℕ
unfolding encode_from
encode = encode_from 3 0

-- One symbol in the state `shift`, `carry` of `decode`: what is pushed, and the next state. The
-- signed `shift` after `shift -= 5` is below, at or above 0 as `shift` is against 5.
unfoldable pub decode_symbol : ℕ → ℕ → ℕ → List ℕ × ℕ × ℕ
decode_symbol shift carry value_5bit =
    if ltb 5 shift
    then ([], shift - 5, bit_or carry (shl_u8 value_5bit (shift - 5)))
    else if ltb shift 5
    then (
      bit_or carry (shr_u8 value_5bit (5 - shift)) ∷ [],
      shift + 3,
      shl_u8 value_5bit (shift + 3),
    )
    else (bit_or carry value_5bit ∷ [], 8, 0)

-- Bytes pushed before the rest of a result.
abbrev pub prepend : List ℕ → Outcome Error (List ℕ) → Outcome Error (List ℕ)
prepend pushed (ok bytes) = ok (pushed ++ bytes)
prepend pushed (err e) = err e
prepend pushed panic = panic

-- The loop of `decode`, with the push after it.
unfoldable pub decode_from : ℕ → ℕ → List ℕ → Outcome Error (List ℕ)
unfolding ascii_to_value_5bit decode_symbol
decode_from shift carry [] = if not (shift == 8) && not (carry == 0) then ok (carry ∷ []) else ok []
decode_from shift carry (ascii ∷ rest) = elim (ascii == b'=') [
  | true ↦ if not (shift == 8) && not (carry == 0) then ok (carry ∷ []) else ok []
  | false ↦ elim (ascii_to_value_5bit ascii) [
    | none ↦ err invalid_base32_character
    | some value_5bit ↦
        let (pushed, shift', carry') = decode_symbol shift carry value_5bit in
        prepend pushed (decode_from shift' carry' rest)
  ]
]

unfoldable pub decode : List ℕ → Outcome Error (List ℕ)
unfolding decode_from
decode = decode_from 8 0
