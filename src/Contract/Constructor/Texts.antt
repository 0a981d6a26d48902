-- ===== src/Contract/Constructor/Texts.antt =====
-- The texts that the getters print against those that the constructor was given.
use pendulum_amm.Base.{ℕ, ◌-◌, ◌≡◌, refl, ap, sym, ◌∙◌, true, none, List, [], ◌∷◌, ◌++◌, arith}
use pendulum_amm.Base.Lists.{length, replicate, all}
use pendulum_amm.Base.Action.{Outcome, ok, err, panic, ◌>>=◌}
use pendulum_amm.Base.Action.Inversion.{continue-ok}
use pendulum_amm.Encoding.Util.{is_ascii_alphanumeric, asset_from_string, trim_zeros}
use pendulum_amm.Encoding.Util.Codes.{trim_zeros-append}
use pendulum_amm.Encoding.Key.{encode_stellar_key}
use pendulum_amm.Encoding.Key.Roundtrip.{encode_stellar_key-decode_stellar_key}
use pendulum_amm.Encoding.Utf8.{is_utf8}
use pendulum_amm.Encoding.Utf8.Ascii.{
  is_utf8-ascii, alphanumeric-AreAscii, encode_stellar_key-AreAscii,
}
use pendulum_amm.Contract.State.{Error, Event, Pair}
use pendulum_amm.Contract.Constructor.{
  expect, decode_issuer, initialize, new, from_utf8_unwrap, asset_1, issuer_1, asset_2, issuer_2,
}

expect-ok : {A : Type 0} (r : Outcome Error A) {a : A} → expect r ≡ ok a → r ≡ ok a
expect-ok (ok b) e = e
expect-ok (err x) e = cc
expect-ok panic e = cc

printed : (bytes s : List ℕ) → bytes ≡ s → is_utf8 s ≡ true → from_utf8_unwrap bytes ≡ ok s
printed bytes s e h = rw (e, h) refl

-- An accepted asset code is printed as it was given.
asset_code_printed :
    (s : List ℕ) {code : List ℕ}
    → asset_from_string s ≡ ok code
    → from_utf8_unwrap (trim_zeros code) ≡ ok s
unfolding asset_from_string
asset_code_printed s {code} e =
    let (letters, padded) = accepted in
    printed (trim_zeros code) s (ap trim_zeros padded ∙ trim_zeros-append s (12 - length s) letters)
      (is_utf8-ascii s (alphanumeric-AreAscii s letters))
  where
    accepted : (all is_ascii_alphanumeric s ≡ true) × (code ≡ s ++ replicate (12 - length s) 0)
    accepted = ground arith

-- An accepted issuer is printed as it was given.
issuer_printed :
    (s : List ℕ) {key : List ℕ}
    → decode_issuer s ≡ ok key
    → from_utf8_unwrap (encode_stellar_key key 48) ≡ ok s
issuer_printed s {key} e =
    let (same, _, _) = encode_stellar_key-decode_stellar_key 32 s 48 (expect-ok _ e) in
    printed _ s same (ap is_utf8 (sym same) ∙ is_utf8-ascii _ (encode_stellar_key-AreAscii key 48))

-- A successful construction in its parts.
record Parts (caller : ℕ) (c i d j : List ℕ) (p : Pair) : Type 0 where
  code_0 : List ℕ
  code_1 : List ℕ
  key_0 : List ℕ
  key_1 : List ℕ
  coded_0 : asset_from_string c ≡ ok code_0
  coded_1 : asset_from_string d ≡ ok code_1
  issued_0 : decode_issuer i ≡ ok key_0
  issued_1 : decode_issuer j ≡ ok key_1
  made : p ≡ initialize caller (key_0, code_0) (key_1, code_1)

announced :
    (q p : Pair) (events events' : List Event) (e : Event)
    → Path (Outcome Error Pair × List Event) (ok q, events ++ e ∷ []) (ok p, events')
    → p ≡ q
announced q p events events' e h = cc (ap (λ (r : Outcome Error Pair × List Event). r.0) h)

new-Parts :
    (caller : ℕ) (c i d j : List ℕ) (events : List Event) {p : Pair} {events' : List Event}
    → new caller c i d j events ≡ (ok p, events')
    → Parts caller c i d j p
unfolding new ◌>>=◌
new-Parts caller c i d j events {p} {events'} done =
    let (code_0, e0, d1) = continue-ok (expect (asset_from_string c)) _ events done in
    let (code_1, e1, d2) = continue-ok (expect (asset_from_string d)) _ events d1 in
    let (key_0, e2, d3) = continue-ok (decode_issuer i) _ events d2 in
    let (key_1, e3, d4) = continue-ok (decode_issuer j) _ events d3 in
    record {
      code_0 = code_0;
      code_1 = code_1;
      key_0 = key_0;
      key_1 = key_1;
      coded_0 = expect-ok _ e0;
      coded_1 = expect-ok _ e1;
      issued_0 = e2;
      issued_1 = e3;
      made = announced _ p events events' _ d4;
    }

-- A contract that the constructor makes prints the two asset codes and the two issuers exactly as
-- they were given, has its caller for the setter and nobody for the fee, and starts with no supply,
-- no holders and empty reserves.
pub new_prints :
    (caller : ℕ) (c i d j : List ℕ) (events : List Event) {p : Pair} {events' : List Event}
    → new caller c i d j events ≡ (ok p, events')
    → (asset_1 p ≡ ok c)
      × (issuer_1 p ≡ ok i)
      × (asset_2 p ≡ ok d)
      × (issuer_2 p ≡ ok j)
      × (p.fee_to_setter ≡ caller)
      × (p.fee_to ≡ none)
      × (p.total_supply ≡ 0)
      × (p.lp_balances ≡ [])
      × (p.reserve_0 ≡ 0)
      × (p.reserve_1 ≡ 0)
unfolding asset_1 issuer_1 asset_2 issuer_2
new_prints caller c i d j events done =
    let m = new-Parts caller c i d j events done in
    rw m.made (
      asset_code_printed c m.coded_0,
      issuer_printed i m.issued_0,
      asset_code_printed d m.coded_1,
      issuer_printed j m.issued_1,
      refl,
      refl,
      refl,
      refl,
      refl,
      refl,
    )
