-- ===== src/Runtime/Currency/Codes.antt =====
-- Asset codes of the contract as currency ids.
use pendulum_amm.Base.{
  ℕ, zero, suc, ◌-◌, ◌≤◌, ◌≡◌, ◌⊎◌, inl, inr, sym, ◌∙◌, true, Bool-cases, List, [], ◌++◌, arith,
  leb,
}
use pendulum_amm.Base.Lists.{length, replicate, all, All-append}
use pendulum_amm.Base.Action.{ok}
use pendulum_amm.Encoding.Util.{is_ascii_alphanumeric, asset_from_string, trim_zeros}
use pendulum_amm.Encoding.Util.Codes.{trim_zeros-append, asset_from_string_accepts}
use pendulum_amm.Encoding.Utf8.{is_utf8}
use pendulum_amm.Encoding.Utf8.Ascii.{AreAscii, is_utf8-ascii, alphanumeric-AreAscii}
use pendulum_amm.Runtime.Currency.{CurrencyId, alpha_num4, alpha_num12, padded, try_from}

replicate-AreAscii : (n : ℕ) → AreAscii (replicate n 0)
replicate-AreAscii zero = tt
replicate-AreAscii (suc n) = (omega arith, replicate-AreAscii n)

-- A code that the contract's constructor accepts is UTF-8, and without its zeros it is the text that
-- the constructor was given.
pub accepted_code :
    (s : List ℕ) {code : List ℕ}
    → asset_from_string s ≡ ok code
    → (is_utf8 code ≡ true) × (trim_zeros code ≡ s)
accepted_code s e =
    let (short, letters, whole) = asset_from_string_accepts s e in
    let n : ℕ = 12 - length s in
    rw whole (
      is_utf8-ascii (s ++ replicate n 0)
          (All-append _ s (replicate n 0) (alphanumeric-AreAscii s letters) (replicate-AreAscii n)),
      trim_zeros-append s n letters,
    )

-- Such a text has a currency id: a code of 4 bytes up to that length, of 12 above it.
pub try_from_accepted :
    (s issuer : List ℕ) {code : List ℕ}
    → asset_from_string s ≡ ok code
    → (try_from s issuer ≡ ok (alpha_num4 (padded 4 s) issuer))
      ⊎ (try_from s issuer ≡ ok (alpha_num12 (padded 12 s) issuer))
unfolding try_from
try_from_accepted s issuer e = let (short, _, _) = asset_from_string_accepts s e in by_length short
  where
    by_length :
        length s ≤ 12
        → (try_from s issuer ≡ ok (alpha_num4 (padded 4 s) issuer))
          ⊎ (try_from s issuer ≡ ok (alpha_num12 (padded 12 s) issuer))
    by_length short = elim (Bool-cases (leb (length s) 4)) [
      | inl e ↦ inl (rw e)
      | inr e ↦ inr (ground arith)
    ]

-- The text and the issuer of a currency id.
text_of : CurrencyId → List ℕ
text_of (alpha_num4 code issuer) = trim_zeros code
text_of (alpha_num12 code issuer) = trim_zeros code
text_of _ = []

issuer_of : CurrencyId → List ℕ
issuer_of (alpha_num4 code issuer) = issuer
issuer_of (alpha_num12 code issuer) = issuer
issuer_of _ = []

try_from_parts :
    (s issuer : List ℕ) {currency_id : CurrencyId}
    → all is_ascii_alphanumeric s ≡ true
    → try_from s issuer ≡ ok currency_id
    → (text_of currency_id ≡ s) × (issuer_of currency_id ≡ issuer)
unfolding try_from text_of issuer_of
try_from_parts s issuer h p =
    ground (arith, trim_zeros-append s (4 - length s) h, trim_zeros-append s (12 - length s) h)

-- Different codes or issuers have different currency ids.
pub try_from_injective :
    (s t issuer issuer' : List ℕ) {currency_id : CurrencyId}
    → all is_ascii_alphanumeric s ≡ true
    → all is_ascii_alphanumeric t ≡ true
    → try_from s issuer ≡ ok currency_id
    → try_from t issuer' ≡ ok currency_id
    → (s ≡ t) × (issuer ≡ issuer')
try_from_injective s t issuer issuer' hs ht p q =
    let (a, b) = try_from_parts s issuer hs p in
    let (c, d) = try_from_parts t issuer' ht q in (sym a ∙ c, sym b ∙ d)
