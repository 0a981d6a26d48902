-- ===== src/Encoding/Base32/Bytes.antt =====
-- The size of what `decode` pushes.

use pendulum_amm.Base.{
  ℕ, ◌-◌, ◌*◌, ◌/◌, ◌%◌, ◌^◌, ◌<◌, ◌≡◌, ◌⊎◌, inl, inr, refl, sym, subst, ◌∙◌, true, false, none,
  some, List, [], ◌∷◌, ◌++◌, arith, ◌==◌, Bool-cases, Option-cases, not, ◌&&◌,
}
use native.Mathlib.Nat.{div-le_self}
use pendulum_amm.Base.Bits.{bit_or_size}
use pendulum_amm.Base.Lists.{All, All-append}
use pendulum_amm.Base.Action.{Outcome, ok, err, panic}
use pendulum_amm.Contract.State.{Error, invalid_base32_character}
use pendulum_amm.Encoding.Base32.{ascii_to_value_5bit, decode_symbol, decode_from, decode, prepend}
use pendulum_amm.Encoding.Base32.Symbols.{ascii_to_value_5bit_bound}

abbrev pub AreBytes : List ℕ → Type 0
AreBytes = All (λ x. x < 256)

prepend-ok :
    (pushed : List ℕ) (r : Outcome Error (List ℕ)) {bytes : List ℕ}
    → prepend pushed r ≡ ok bytes
    → (rest : List ℕ) × (r ≡ ok rest) × (bytes ≡ pushed ++ rest)
prepend-ok pushed (ok rest) e = (rest, refl, cc)
prepend-ok pushed (err x) e = cc
prepend-ok pushed panic e = cc

ok_injective : {xs ys : List ℕ} → Path (Outcome Error (List ℕ)) (ok xs) (ok ys) → xs ≡ ys
ok_injective e = cc

decode_symbol_bytes :
    (shift carry v : ℕ)
    → carry < 256
    → v < 32
    → (let (pushed, shift', carry') = decode_symbol shift carry v in
        AreBytes pushed × (carry' < 256))
unfolding decode_symbol
decode_symbol_bytes shift carry v hc hv = ground (
  arith,
  bit_or_size 8 carry v hc (omega arith),
  bit_or_size 8 carry (v / 2 ^ (5 - shift)) hc (omega (arith, div-le_self v (2 ^ (5 - shift)))),
  bit_or_size 8 carry (v * 2 ^ (shift - 5) % 256) hc (omega arith),
)

-- A round of `decode`, and its end, as equations.
decode_from-end :
    (shift carry : ℕ)
    → (decode_from shift carry [] ≡ ok []) ⊎ (decode_from shift carry [] ≡ ok (carry ∷ []))
unfolding decode_from
decode_from-end shift carry = elim (Bool-cases (not (shift == 8) && not (carry == 0))) [
  | inl e ↦ inr (rw e)
  | inr e ↦ inl (rw e)
]

decode_from-padding :
    (shift carry c : ℕ) (s : List ℕ)
    → (c == b'=') ≡ true
    → decode_from shift carry (c ∷ s) ≡ decode_from shift carry []
unfolding decode_from
decode_from-padding shift carry c s pad = ground arith

module _ (shift carry c : ℕ) (s : List ℕ) (letter : (c == b'=') ≡ false) where
  decode_from-refused :
      ascii_to_value_5bit c ≡ none → decode_from shift carry (c ∷ s) ≡ err invalid_base32_character
  unfolding decode_from
  decode_from-refused e = ground arith

  decode_from-taken :
      (v : ℕ)
      → ascii_to_value_5bit c ≡ some v
      → decode_from shift carry (c ∷ s) ≡ (
          let (pushed, shift', carry') = decode_symbol shift carry v in
          prepend pushed (decode_from shift' carry' s))
  unfolding decode_from
  decode_from-taken v e = ground arith

end_bytes :
    (shift carry : ℕ) {bytes : List ℕ}
    → carry < 256
    → decode_from shift carry [] ≡ ok bytes
    → AreBytes bytes
end_bytes shift carry hc e = elim (decode_from-end shift carry) [
  | inl d ↦ subst AreBytes (ok_injective (sym d ∙ e)) tt
  | inr d ↦ subst AreBytes (ok_injective (sym d ∙ e)) (hc, tt)
]

decode_from_bytes :
    (shift carry : ℕ) (s : List ℕ) {bytes : List ℕ}
    → carry < 256
    → decode_from shift carry s ≡ ok bytes
    → AreBytes bytes
decode_from_bytes shift carry [] hc e = end_bytes shift carry hc e
decode_from_bytes shift carry (c ∷ s) hc e = elim (Bool-cases (c == b'=')) [
  | inl pad ↦ end_bytes shift carry hc (sym (decode_from-padding shift carry c s pad) ∙ e)
  | inr letter ↦ elim (Option-cases (ascii_to_value_5bit c)) [
    | inl bad ↦ cc (decode_from-refused shift carry c s letter bad)
    | inr (v, read) ↦
        let d = sym (decode_from-taken shift carry c s letter v read) ∙ e in
        let (pushed, small) =
          decode_symbol_bytes shift carry v hc (ascii_to_value_5bit_bound c v read) in
        let (rest, r, whole) = prepend-ok (decode_symbol shift carry v).0 _ d in
        subst AreBytes (sym whole) (
          All-append _ (decode_symbol shift carry v).0 rest pushed (
            decode_from_bytes (decode_symbol shift carry v).1 (decode_symbol shift carry v).2 s
              small r))
  ]
]

pub decode_bytes : (s : List ℕ) {bytes : List ℕ} → decode s ≡ ok bytes → AreBytes bytes
unfolding decode
decode_bytes s e = decode_from_bytes 8 0 s (omega arith) e
