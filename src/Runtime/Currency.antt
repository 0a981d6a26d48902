-- ===== src/Runtime/Currency.antt =====
-- `CurrencyId` and its conversion from an asset code and an issuer.
pub mod Codes
use pendulum_amm.Base.{ℕ, ◌-◌, Bool, not, ◌&&◌, List, [], ◌∷◌, ◌++◌, ltb, leb, if◌then◌else◌}
use pendulum_amm.Base.Lists.{length, replicate}
use pendulum_amm.Base.Action.{Outcome, ok, err, panic}
use pendulum_amm.Encoding.Utf8.{is_utf8}

pub data CurrencyId : Type 0 where
  native stellar_native : CurrencyId
  alpha_num4 alpha_num12 : List ℕ → List ℕ → CurrencyId

-- The error text "More than 12 bytes not supported".
pub data TooLong : Type 0 where
  more_than_12_bytes : TooLong

-- `code[..slice.len()].copy_from_slice(slice.as_bytes())` on an array of zeros.
abbrev pub padded : ℕ → List ℕ → List ℕ
padded size slice = slice ++ replicate (size - length slice) 0

-- A string is the list of its bytes.
unfoldable pub try_from : List ℕ → List ℕ → Outcome TooLong CurrencyId
try_from slice issuer =
    if leb (length slice) 4
    then ok (alpha_num4 (padded 4 slice) issuer)
    else if ltb 4 (length slice) && leb (length slice) 12
    then ok (alpha_num12 (padded 12 slice) issuer)
    else err more_than_12_bytes

-- The text that `write!` makes of a code and an issuer; `str::from_utf8(…).unwrap()` panics.
abbrev pub fmt_pair : List ℕ → List ℕ → Outcome TooLong (List ℕ)
fmt_pair code issuer =
    if not (is_utf8 code)
    then panic
    else if not (is_utf8 issuer)
    then panic
    else ok (
        b'{'
        ∷ b' '
        ∷ b'c'
        ∷ b'o'
        ∷ b'd'
        ∷ b'e'
        ∷ b':'
        ∷ b' '
        ∷ (code
            ++ (b','
                ∷ b' '
                ∷ b'i'
                ∷ b's'
                ∷ b's'
                ∷ b'u'
                ∷ b'e'
                ∷ b'r'
                ∷ b':'
                ∷ b' '
                ∷ (issuer ++ (b' ' ∷ b'}' ∷ [])))))

-- `impl fmt::Debug for CurrencyId`
unfoldable pub fmt : CurrencyId → Outcome TooLong (List ℕ)
fmt native = ok (b'P' ∷ b'E' ∷ b'N' ∷ [])
fmt stellar_native = ok (b'X' ∷ b'L' ∷ b'M' ∷ [])
fmt (alpha_num4 code issuer) = fmt_pair code issuer
fmt (alpha_num12 code issuer) = fmt_pair code issuer
