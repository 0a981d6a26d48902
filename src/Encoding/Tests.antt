-- ===== src/Encoding/Tests.antt =====
-- Runs of the encodings on the issuer and an asset code of the contract's tests.
use pendulum_amm.Base.{arith, ℕ, true, none, some, List, [], ◌∷◌, ◌≡◌, refl}
use pendulum_amm.Base.Lists.{length, all}
use pendulum_amm.Base.Action.{Outcome, ok, ◌>>=◌}
use pendulum_amm.Encoding.Base32.{decode, encode}
use pendulum_amm.Encoding.Base32.Bytes.{AreBytes}
use pendulum_amm.Encoding.Base32.Roundtrip.{decode-encode}
use pendulum_amm.Encoding.Key.Roundtrip.{
  decode_stellar_key-encode_stellar_key, encode_stellar_key-decode_stellar_key,
}
use pendulum_amm.Contract.State.{Error, Event, transfer, Pair}
use pendulum_amm.Contract.Constructor.{initialize, new, asset_1, issuer_1, asset_2, issuer_2}
use pendulum_amm.Contract.Constructor.Texts.{new_prints}
use pendulum_amm.Encoding.Util.{is_ascii_alphanumeric, asset_from_string, trim_zeros}
use pendulum_amm.Encoding.Util.Codes.{asset_from_string_roundtrip}
use pendulum_amm.Encoding.Key.{crc, decode_stellar_key, encode_stellar_key}

abbrev issuer_string : List ℕ
issuer_string =
    71 ∷ 65 ∷ 80 ∷ 52 ∷ 83 ∷ 70 ∷ 75 ∷ 86 ∷ 70 ∷ 86 ∷ 75 ∷ 69 ∷ 78 ∷ 74 ∷ 55 ∷ 66 ∷ 55 ∷ 86 ∷ 79
    ∷ 82 ∷ 65 ∷ 89 ∷ 75 ∷ 80 ∷ 66 ∷ 51 ∷ 67 ∷ 74 ∷ 73 ∷ 65 ∷ 74 ∷ 50 ∷ 76 ∷ 77 ∷ 75 ∷ 68 ∷ 74 ∷ 50
    ∷ 50 ∷ 90 ∷ 70 ∷ 72 ∷ 73 ∷ 65 ∷ 73 ∷ 86 ∷ 89 ∷ 81 ∷ 79 ∷ 82 ∷ 54 ∷ 87 ∷ 51 ∷ 67 ∷ 88 ∷ 70 ∷ []

abbrev issuer : List ℕ
issuer =
    31 ∷ 201 ∷ 21 ∷ 85 ∷ 45 ∷ 84 ∷ 70 ∷ 167 ∷ 225 ∷ 253 ∷ 93 ∷ 16 ∷ 97 ∷ 79 ∷ 14 ∷ 196 ∷ 148 ∷ 1
    ∷ 58 ∷ 91 ∷ 20 ∷ 52 ∷ 235 ∷ 89 ∷ 41 ∷ 208 ∷ 4 ∷ 87 ∷ 16 ∷ 116 ∷ 125 ∷ 109 ∷ []

decode_stellar_key-issuer : decode_stellar_key 32 issuer_string 48 ≡ ok issuer
unfolding decode_stellar_key decode encode crc
decode_stellar_key-issuer = refl

encode_stellar_key-issuer : encode_stellar_key issuer 48 ≡ issuer_string
unfolding encode_stellar_key encode crc
encode_stellar_key-issuer = refl

is_code : all is_ascii_alphanumeric (b'E' ∷ b'U' ∷ b'R' ∷ []) ≡ true
unfolding is_ascii_alphanumeric
is_code = refl

asset_from_string_roundtrip_example :
    (code : List ℕ) × (asset_from_string (b'E' ∷ b'U' ∷ b'R' ∷ []) ≡ ok code)
    × (length code ≡ 12)
    × (trim_zeros code ≡ b'E' ∷ b'U' ∷ b'R' ∷ [])
asset_from_string_roundtrip_example =
    asset_from_string_roundtrip (b'E' ∷ b'U' ∷ b'R' ∷ []) (omega arith) is_code

issuer_bytes : AreBytes issuer
issuer_bytes = omega arith

decode-encode_example : decode (encode issuer) ≡ ok issuer
decode-encode_example = decode-encode issuer issuer_bytes

decode_stellar_key-encode_stellar_key_example :
    decode_stellar_key 32 (encode_stellar_key issuer 48) 48 ≡ ok issuer
decode_stellar_key-encode_stellar_key_example =
    decode_stellar_key-encode_stellar_key 32 issuer 48 issuer_bytes refl (omega arith)

encode_stellar_key-decode_stellar_key_example :
    (encode_stellar_key issuer 48 ≡ issuer_string) × (length issuer ≡ 32) × AreBytes issuer
encode_stellar_key-decode_stellar_key_example =
    encode_stellar_key-decode_stellar_key 32 issuer_string 48 decode_stellar_key-issuer

-- A pair of EUR and USDC from that issuer, made by account 5.
abbrev made : Outcome Error Pair × List Event
made =
    new 5 (b'E' ∷ b'U' ∷ b'R' ∷ []) issuer_string (b'U' ∷ b'S' ∷ b'D' ∷ b'C' ∷ []) issuer_string []

abbrev pair : Pair
pair =
    initialize 5 (issuer, b'E' ∷ b'U' ∷ b'R' ∷ 0 ∷ 0 ∷ 0 ∷ 0 ∷ 0 ∷ 0 ∷ 0 ∷ 0 ∷ 0 ∷ [])
      (issuer, b'U' ∷ b'S' ∷ b'D' ∷ b'C' ∷ 0 ∷ 0 ∷ 0 ∷ 0 ∷ 0 ∷ 0 ∷ 0 ∷ 0 ∷ [])

made_pair : made ≡ (ok pair, transfer none (some 5) 0 ∷ [])
unfolding new asset_from_string decode_stellar_key decode encode crc ◌>>=◌
made_pair = refl

new_prints_example :
    (asset_1 pair ≡ ok (b'E' ∷ b'U' ∷ b'R' ∷ []))
    × (issuer_1 pair ≡ ok issuer_string)
    × (asset_2 pair ≡ ok (b'U' ∷ b'S' ∷ b'D' ∷ b'C' ∷ []))
    × (issuer_2 pair ≡ ok issuer_string)
    × (pair.fee_to_setter ≡ 5)
    × (pair.fee_to ≡ none)
    × (pair.total_supply ≡ 0)
    × (pair.lp_balances ≡ [])
    × (pair.reserve_0 ≡ 0)
    × (pair.reserve_1 ≡ 0)
new_prints_example =
    new_prints 5 (b'E' ∷ b'U' ∷ b'R' ∷ []) issuer_string (b'U' ∷ b'S' ∷ b'D' ∷ b'C' ∷ [])
      issuer_string [] made_pair
