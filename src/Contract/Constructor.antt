-- ===== src/Contract/Constructor.antt =====
-- The contract's constructor `new`, and the getters that print what it was given.
pub mod Texts
use pendulum_amm.Base.{ℕ, Option, none, some, List, [], ◌∷◌, ◌++◌, if◌then◌else◌}
use pendulum_amm.Base.Action.{Outcome, ok, err, panic, Action, pure, lift, modify, ◌>>=◌, ◌>>◌}
use pendulum_amm.Encoding.Util.{asset_from_string, trim_zeros}
use pendulum_amm.Encoding.Key.{
  ed25519_public_key_byte_length, ed25519_public_key_version_byte, decode_stellar_key,
  encode_stellar_key,
}
use pendulum_amm.Encoding.Utf8.{is_utf8}
use pendulum_amm.Contract.State.{Asset, Error, Event, transfer, Pair}

-- `.expect(…)` of a `Result`.
abbrev pub expect : {A : Type 0} → Outcome Error A → Outcome Error A
expect (ok a) = ok a
expect (err e) = panic
expect panic = panic

-- `decode_stellar_key::<String, ED25519_PUBLIC_KEY_BYTE_LENGTH>`
abbrev pub decode_issuer : List ℕ → Outcome Error (List ℕ)
decode_issuer s =
    expect (decode_stellar_key ed25519_public_key_byte_length s ed25519_public_key_version_byte)

-- The closure of `initialize_contract`, on a storage of zeros and an empty mapping.
abbrev pub initialize : ℕ → Asset → Asset → Pair
initialize caller asset_0 asset_1 = record {
  asset_0 = asset_0;
  asset_1 = asset_1;
  reserve_0 = 0;
  reserve_1 = 0;
  block_timestamp_last = 0;
  price_0_cumulative_last = 0;
  price_1_cumulative_last = 0;
  k_last = 0;
  fee_to = none;
  fee_to_setter = caller;
  total_supply = 0;
  lp_balances = [];
}

-- The state of a call of `new` is the list of events.
unfoldable pub new : ℕ → List ℕ → List ℕ → List ℕ → List ℕ → Action Error (List Event) Pair
new caller asset_code_0 issuer_0 asset_code_1 issuer_1 = do
  code_0 ← lift (expect (asset_from_string asset_code_0))
  code_1 ← lift (expect (asset_from_string asset_code_1))
  key_0 ← lift (decode_issuer issuer_0)
  key_1 ← lift (decode_issuer issuer_1)
  modify (λ events. events ++ transfer none (some caller) 0 ∷ [])
  pure (initialize caller (key_0, code_0) (key_1, code_1))

-- `String::from_utf8(…).unwrap()`
abbrev pub from_utf8_unwrap : List ℕ → Outcome Error (List ℕ)
from_utf8_unwrap bytes = if is_utf8 bytes then ok bytes else panic

unfoldable pub asset_1 : Pair → Outcome Error (List ℕ)
asset_1 p = from_utf8_unwrap (trim_zeros (p.asset_0).1)

unfoldable pub issuer_1 : Pair → Outcome Error (List ℕ)
issuer_1 p = from_utf8_unwrap (encode_stellar_key (p.asset_0).0 ed25519_public_key_version_byte)

unfoldable pub asset_2 : Pair → Outcome Error (List ℕ)
asset_2 p = from_utf8_unwrap (trim_zeros (p.asset_1).1)

unfoldable pub issuer_2 : Pair → Outcome Error (List ℕ)
issuer_2 p = from_utf8_unwrap (encode_stellar_key (p.asset_1).0 ed25519_public_key_version_byte)
