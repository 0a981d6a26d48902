-- ===== src/Encoding/Key/Array.antt =====
-- The checks of `decode_stellar_key` on an array in its parts.
use Prim.Native.Nat.{bit_or}
use pendulum_amm.Base.{
  ℕ, suc, ◌+◌, ◌-◌, ◌≡◌, refl, ap, ◌∙◌, true, not, List, [], ◌∷◌, ◌++◌, arith, ◌==◌, if◌then◌else◌,
}
use pendulum_amm.Base.Word.{unwrap_or}
use pendulum_amm.Base.Lists.{length, take, length-append, take-append_length, get_elem?-append}
use pendulum_amm.Base.Action.{ok, err}
use pendulum_amm.Contract.State.{
  invalid_stellar_key_encoding, invalid_stellar_key_encoding_length, invalid_stellar_key_checksum,
  invalid_stellar_key_encoding_version,
}
use pendulum_amm.Encoding.Base32.{encode}
use pendulum_amm.Encoding.Key.{crc, shl_u16, same_bytes, at, check_key}

same_bytes_refl : (xs : List ℕ) → same_bytes xs xs ≡ true
same_bytes_refl [] = refl
same_bytes_refl (x ∷ xs) = ground (arith, same_bytes_refl xs)

pub same_bytes_sound : (xs ys : List ℕ) → same_bytes xs ys ≡ true → xs ≡ ys
same_bytes_sound [] [] h = refl
same_bytes_sound [] (y ∷ ys) h = cc
same_bytes_sound (x ∷ xs) [] h = cc
same_bytes_sound (x ∷ xs) (y ∷ ys) h = ground (arith, same_bytes_sound xs ys)

-- The decoded array: the version, the key and the checksum.
module _ (version : ℕ) (key : List ℕ) (low high : ℕ) where
  abbrev pub array : List ℕ
  array = (version ∷ key) ++ low ∷ high ∷ []

  length-array : length array ≡ suc (suc (suc (length key)))
  length-array = omega (arith, length-append key (low ∷ high ∷ []))

  at_high : at array (length array - 1) ≡ high
  at_high =
      let i : length array - 1 ≡ 1 + length (version ∷ key) = omega (arith, length-array) in
      ap (at array) i
      ∙ ap (λ o. unwrap_or o 0) (get_elem?-append (version ∷ key) (low ∷ high ∷ []) 1)

  at_low : at array (length array - 2) ≡ low
  at_low =
      let i : length array - 2 ≡ 0 + length (version ∷ key) = omega (arith, length-array) in
      ap (at array) i
      ∙ ap (λ o. unwrap_or o 0) (get_elem?-append (version ∷ key) (low ∷ high ∷ []) 0)

  front : take (length array - 2) array ≡ version ∷ key
  front =
      let i : length array - 2 ≡ length (version ∷ key) = omega (arith, length-array) in
      ap (λ n. take n array) i ∙ take-append_length (version ∷ key) (low ∷ high ∷ [])

  check_key-array :
      (n : ℕ) (s : List ℕ) (v : ℕ)
      → check_key n s array v ≡ (
          if not (same_bytes s (encode array))
          then err invalid_stellar_key_encoding
          else if not (suc (suc (suc (length key))) == 3 + n)
          then err invalid_stellar_key_encoding_length
          else if not (bit_or (shl_u16 high 8) low == crc (version ∷ key))
          then err
              (invalid_stellar_key_checksum (crc (version ∷ key)) (bit_or (shl_u16 high 8) low))
          else if not (version == v)
          then err invalid_stellar_key_encoding_version
          else ok key)
  unfolding check_key
  check_key-array n s v = rw (at_high, at_low, front, length-array) refl

  -- What a key that passes the checks has.
  pub passed :
      (n : ℕ) (s : List ℕ) (v : ℕ) {result : List ℕ}
      → check_key n s array v ≡ ok result
      → (same_bytes s (encode array) ≡ true)
        × (length key ≡ n)
        × (bit_or (shl_u16 high 8) low ≡ crc (version ∷ key))
        × (version ≡ v)
        × (result ≡ key)
  passed n s v h = ground (arith, check_key-array n s v)

  -- And what passes them.
  pub passes :
      (n : ℕ)
      → length key ≡ n
      → bit_or (shl_u16 high 8) low ≡ crc (version ∷ key)
      → check_key n (encode array) array version ≡ ok key
  passes n size sum =
      ground (arith, check_key-array n (encode array) version, same_bytes_refl (encode array))
