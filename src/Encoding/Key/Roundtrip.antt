-- ===== src/Encoding/Key/Roundtrip.antt =====
-- Stellar keys written and read.
use Prim.Native.Nat.{bit_and}
use pendulum_amm.Base.{
  ℕ, suc, ◌/◌, ◌^◌, ◌<◌, ◌≡◌, refl, ap, ◌∙◌, sym, subst, List, [], ◌∷◌, ◌++◌, arith,
}
use pendulum_amm.Base.Bits.{bit_and_255}
use pendulum_amm.Base.Lists.{All, All-append, length, last_two}
use pendulum_amm.Base.Action.{Outcome, ok, err, panic}
use pendulum_amm.Contract.State.{Error}
use pendulum_amm.Encoding.Base32.{encode, decode}
use pendulum_amm.Encoding.Base32.Bytes.{AreBytes, decode_bytes}
use pendulum_amm.Encoding.Base32.Roundtrip.{decode-encode}
use pendulum_amm.Encoding.Key.{crc, check_key, encode_stellar_key, decode_stellar_key}
use pendulum_amm.Encoding.Key.Checksum.{crc_size, join_bytes, split_bytes}
use pendulum_amm.Encoding.Key.Array.{same_bytes_sound, array, passed, passes}

module _ (n : ℕ) (s : List ℕ) (v : ℕ) where
  decode_stellar_key-decode :
      {d : List ℕ} → decode s ≡ ok d → decode_stellar_key n s v ≡ check_key n s d v
  unfolding decode_stellar_key
  decode_stellar_key-decode {d} e = cases (decode s) e
    where
      cases :
          (r : Outcome Error (List ℕ))
          → r ≡ ok d
          → elim r [ ok d ↦ check_key n s d v | err e ↦ err e | panic ↦ panic ] ≡ check_key n s d v
      cases (ok d') h = cc
      cases (err e) h = cc
      cases panic h = cc

  decode_stellar_key-ok :
      {key : List ℕ}
      → decode_stellar_key n s v ≡ ok key
      → (d : List ℕ) × (decode s ≡ ok d) × (check_key n s d v ≡ ok key)
  unfolding decode_stellar_key
  decode_stellar_key-ok {key} h = cases (decode s) h
    where
      cases :
          (r : Outcome Error (List ℕ))
          → elim r [ ok d ↦ check_key n s d v | err e ↦ err e | panic ↦ panic ] ≡ ok key
          → (d : List ℕ) × (r ≡ ok d) × (check_key n s d v ≡ ok key)
      cases (ok d) h = (d, refl, h)
      cases (err e) h = cc
      cases panic h = cc

-- A key of bytes of the length in question, written and read with the same version byte, comes back.
pub decode_stellar_key-encode_stellar_key :
    (n : ℕ) (key : List ℕ) (version : ℕ)
    → AreBytes key
    → length key ≡ n
    → version < 256
    → decode_stellar_key n (encode_stellar_key key version) version ≡ ok key
unfolding encode_stellar_key
decode_stellar_key-encode_stellar_key n key version bytes size fits =
    let c : ℕ = crc (version ∷ key) in
    let low : ℕ = bit_and c 0xff in
    let high : ℕ = c / 2 ^ 8 in
    let small : c < 2 ^ 16 = crc_size (version ∷ key) (fits, bytes) in
    let all : AreBytes (array version key low high) = (
      fits,
      All-append _ key (low ∷ high ∷ []) bytes
          (omega (arith, bit_and_255 c), (omega (arith, small), tt)),
    ) in
    decode_stellar_key-decode n _ version (decode-encode (array version key low high) all)
    ∙ passes version key low high n size (join_bytes c small)

check_key-length :
    (n : ℕ) (s d : List ℕ) (v : ℕ) {key : List ℕ}
    → check_key n s d v ≡ ok key
    → length d ≡ suc (suc (suc n))
unfolding check_key
check_key-length n s d v h = ground arith

All-parts {ℓ κ} :
    {A : Type ℓ} (P : A → Type κ) (xs ys : List A) → All P (xs ++ ys) → All P xs × All P ys
All-parts P [] ys h = (tt, h)
All-parts P (x ∷ xs) ys (p, h) = let (a, b) = All-parts P xs ys h in ((p, a), b)

-- A decoded array that passes the checks is what `encode_stellar_key` encodes.
canonical_array :
    (n : ℕ) (s : List ℕ) (version v : ℕ) (k : List ℕ) (low high : ℕ) {key : List ℕ}
    → check_key n s (array version k low high) v ≡ ok key
    → AreBytes (array version k low high)
    → (encode_stellar_key key v ≡ s) × (length key ≡ n) × AreBytes key
unfolding encode_stellar_key
canonical_array n s version v k low high checked (first, bytes) =
    let (same, size, sum, agrees, whole) = passed version k low high n s v checked in
    let (front_bytes, (hl, (hh, _))) = All-parts (λ x. x < 256) k (low ∷ high ∷ []) bytes in
    let (top, bottom) = split_bytes high low hh hl in
    let t : crc (version ∷ k) / 2 ^ 8 ≡ high = ap (λ c. c / 2 ^ 8) (sym sum) ∙ top in
    let b : bit_and (crc (version ∷ k)) 0xff ≡ low = ap (λ c. bit_and c 0xff) (sym sum) ∙ bottom in
    rw (whole, ← agrees, t, b)
      (sym (same_bytes_sound s (encode (array version k low high)) same), size, front_bytes)

canonical :
    (n : ℕ) (s : List ℕ) (v : ℕ) (d : List ℕ) {key : List ℕ}
    → check_key n s d v ≡ ok key
    → AreBytes d
    → (encode_stellar_key key v ≡ s) × (length key ≡ n) × AreBytes key
canonical n s v d {key} checked bytes =
    let (init, low, high, whole, size) = last_two (suc n) d (check_key-length n s d v checked) in
    from_init init low high whole size
  where
    from_init :
        (init : List ℕ) (low high : ℕ)
        → d ≡ init ++ low ∷ high ∷ []
        → length init ≡ suc n
        → (encode_stellar_key key v ≡ s) × (length key ≡ n) × AreBytes key
    from_init [] low high whole size = absurd (omega (arith, size))
    from_init (version ∷ k) low high whole size =
        canonical_array n s version v k low high
          (subst (λ a. check_key n s a v ≡ ok key) whole checked) (subst AreBytes whole bytes)

-- Exactly the strings that `encode_stellar_key` writes are read: what is read, written again, is the
-- string, and it has the length in question.
pub encode_stellar_key-decode_stellar_key :
    (n : ℕ) (s : List ℕ) (version : ℕ) {key : List ℕ}
    → decode_stellar_key n s version ≡ ok key
    → (encode_stellar_key key version ≡ s) × (length key ≡ n) × AreBytes key
encode_stellar_key-decode_stellar_key n s version h =
    let (d, read, checked) = decode_stellar_key-ok n s version h in
    canonical n s version d checked (decode_bytes s read)
