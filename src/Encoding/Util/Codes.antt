-- ===== src/Encoding/Util/Codes.antt =====
-- Asset codes: `asset_from_string` and `trim_zeros` one after the other.
use pendulum_amm.Base.{
  ℕ, zero, suc, ◌-◌, ◌≤◌, ◌≡◌, refl, ap, Bool, true, false, ◌&&◌, List, [], ◌∷◌, ◌++◌, arith, ◌==◌,
}
use pendulum_amm.Base.Lists.{length, replicate, all, length-append}
use pendulum_amm.Base.Action.{ok}
use pendulum_amm.Encoding.Util.{
  is_ascii_alphanumeric, asset_from_string, drop_zeros, drop_last_zeros, trim_zeros,
}

drop_last_zeros-zeros : (n : ℕ) → drop_last_zeros (replicate n 0) ≡ []
unfolding drop_last_zeros
drop_last_zeros-zeros zero = refl
drop_last_zeros-zeros (suc n) = rw (drop_last_zeros-zeros n)

length-replicate : (n : ℕ) → length {A = ℕ} (replicate n 0) ≡ n
length-replicate zero = refl
length-replicate (suc n) = ap suc (length-replicate n)

alphanumeric-positive : (c : ℕ) → is_ascii_alphanumeric c ≡ true → (c == 0) ≡ false
unfolding is_ascii_alphanumeric
alphanumeric-positive c h = ground arith

-- One step of `drop_last_zeros`, at a byte that is not zero.
keep_byte :
    (x : ℕ) (ys xs : List ℕ)
    → (x == 0) ≡ false
    → drop_last_zeros ys ≡ xs
    → drop_last_zeros (x ∷ ys) ≡ x ∷ xs
unfolding drop_last_zeros
keep_byte x ys [] nonzero rest = rw (rest, nonzero)
keep_byte x ys (z ∷ zs) nonzero rest = rw rest

both : (a b : Bool) → (a && b) ≡ true → (a ≡ true) × (b ≡ true)
both a b h = ground arith

drop_last_zeros-append :
    (s : List ℕ) (n : ℕ)
    → all is_ascii_alphanumeric s ≡ true
    → drop_last_zeros (s ++ replicate n 0) ≡ s
drop_last_zeros-append [] n h = drop_last_zeros-zeros n
drop_last_zeros-append (x ∷ xs) n h =
    let (first, rest) = both (is_ascii_alphanumeric x) (all is_ascii_alphanumeric xs) h in
    keep_byte x (xs ++ replicate n 0) xs (alphanumeric-positive x first)
      (drop_last_zeros-append xs n rest)

drop_zeros-zeros : (n : ℕ) → drop_zeros (replicate n 0) ≡ []
unfolding drop_zeros
drop_zeros-zeros zero = refl
drop_zeros-zeros (suc n) = drop_zeros-zeros n

pub trim_zeros-append :
    (s : List ℕ) (n : ℕ) → all is_ascii_alphanumeric s ≡ true → trim_zeros (s ++ replicate n 0) ≡ s
unfolding trim_zeros drop_zeros
trim_zeros-append [] n h = ap drop_last_zeros (drop_zeros-zeros n)
trim_zeros-append (x ∷ xs) n h =
    let (first, rest) = both (is_ascii_alphanumeric x) (all is_ascii_alphanumeric xs) h in
    rw (alphanumeric-positive x first, drop_last_zeros-append (x ∷ xs) n h)

-- Asset codes round trip: a string of at most 12 letters and digits is accepted as a code of
-- exactly 12 bytes, from which `trim_zeros` gets the string back.
pub asset_from_string_roundtrip :
    (s : List ℕ)
    → length s ≤ 12
    → all is_ascii_alphanumeric s ≡ true
    → (code : List ℕ) × (asset_from_string s ≡ ok code) × (length code ≡ 12) × (trim_zeros code ≡ s)
unfolding asset_from_string
asset_from_string_roundtrip s short letters =
    let zeros : List ℕ = replicate (12 - length s) 0 in
    (
      s ++ zeros,
      ground arith,
      omega (arith, length-append s zeros, length-replicate (12 - length s)),
      trim_zeros-append s (12 - length s) letters,
    )

-- What `asset_from_string` accepts, and as what.
pub asset_from_string_accepts :
    (s : List ℕ) {code : List ℕ}
    → asset_from_string s ≡ ok code
    → (length s ≤ 12)
      × (all is_ascii_alphanumeric s ≡ true)
      × (code ≡ s ++ replicate (12 - length s) 0)
unfolding asset_from_string
asset_from_string_accepts s e = ground arith
