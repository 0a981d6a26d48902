-- ===== src/Encoding/Key.antt =====
-- `mod key_encoding` of smart_contract/src/lib.rs: Stellar's keys, which are a version byte, the
-- key and a checksum of two bytes, in base 32.
pub mod Checksum
pub mod Array
pub mod Roundtrip
use Prim.Native.Nat.{bit_and, bit_or, bit_xor}
use pendulum_amm.Base.{
  ℕ, ◌+◌, ◌-◌, ◌*◌, ◌/◌, ◌%◌, ◌^◌, Bool, true, false, not, ◌&&◌, List, [], ◌∷◌, ◌++◌, ◌==◌,
  if◌then◌else◌,
}
use pendulum_amm.Base.Word.{unwrap_or}
use pendulum_amm.Base.Lists.{length, get_elem?, take, drop}
use pendulum_amm.Base.Action.{Outcome, ok, err, panic}
use pendulum_amm.Encoding.Base32.{encode, decode}
use pendulum_amm.Contract.State.{
  Error, invalid_stellar_key_encoding, invalid_stellar_key_encoding_length,
  invalid_stellar_key_checksum, invalid_stellar_key_encoding_version,
}

abbrev pub ed25519_public_key_byte_length : ℕ
ed25519_public_key_byte_length = 32

-- `6 << 3`
abbrev pub ed25519_public_key_version_byte : ℕ
ed25519_public_key_version_byte = 48

abbrev pub shl_u16 : ℕ → ℕ → ℕ
shl_u16 x k = x * 2 ^ k % 65536

-- One round of `crc`.
unfoldable pub crc_byte : ℕ → ℕ → ℕ
crc_byte crc byte =
    let code_1 = bit_and (crc / 2 ^ 8) 0xff in
    let code_2 = bit_xor code_1 byte in
    let code_3 = bit_xor code_2 (code_2 / 2 ^ 4) in
    let crc_1 = bit_xor (bit_and (shl_u16 crc 8) 0xffff) code_3 in
    let code_4 = bit_and (shl_u16 code_3 5) 0xffff in
    let crc_2 = bit_xor crc_1 code_4 in
    let code_5 = bit_and (shl_u16 code_4 7) 0xffff in bit_xor crc_2 code_5

unfoldable pub crc_from : ℕ → List ℕ → ℕ
unfolding crc_byte
crc_from crc [] = crc
crc_from crc (byte ∷ bytes) = crc_from (crc_byte crc byte) bytes

unfoldable pub crc : List ℕ → ℕ
unfolding crc_from
crc = crc_from 0

unfoldable pub encode_stellar_key : List ℕ → ℕ → List ℕ
encode_stellar_key key version_byte =
    let unencoded = version_byte ∷ key in
    let crc_value = crc unencoded in
    encode (unencoded ++ bit_and crc_value 0xff ∷ crc_value / 2 ^ 8 ∷ [])

abbrev pub same_bytes : List ℕ → List ℕ → Bool
same_bytes [] [] = true
same_bytes (a ∷ xs) (b ∷ ys) = a == b && same_bytes xs ys
same_bytes _ _ = false

-- `array[i]`, at an index that the length test has put in range.
abbrev pub at : List ℕ → ℕ → ℕ
at array i = unwrap_or (get_elem? array i) 0

-- The checks of `decode_stellar_key` on the decoded array.
unfoldable pub check_key : ℕ → List ℕ → List ℕ → ℕ → Outcome Error (List ℕ)
check_key byte_length encoded_key decoded_array version_byte =
    let array_length = length decoded_array in
    if not (same_bytes encoded_key (encode decoded_array))
    then err invalid_stellar_key_encoding
    else if not (array_length == 3 + byte_length)
    then err invalid_stellar_key_encoding_length
    else (let crc_value =
          bit_or (shl_u16 (at decoded_array (array_length - 1)) 8)
            (at decoded_array (array_length - 2)) in
        let expected_crc_value = crc (take (array_length - 2) decoded_array) in
        if not (crc_value == expected_crc_value)
        then err (invalid_stellar_key_checksum expected_crc_value crc_value)
        else if not (at decoded_array 0 == version_byte)
        then err invalid_stellar_key_encoding_version
        else ok (drop 1 (take (array_length - 2) decoded_array)))

unfoldable pub decode_stellar_key : ℕ → List ℕ → ℕ → Outcome Error (List ℕ)
unfolding check_key
decode_stellar_key byte_length encoded_key version_byte = elim (decode encoded_key) [
  | ok decoded_array ↦ check_key byte_length encoded_key decoded_array version_byte
  | err e ↦ err e
  | panic ↦ panic
]
