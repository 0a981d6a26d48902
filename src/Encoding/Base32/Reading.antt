-- ===== src/Encoding/Base32/Reading.antt =====
-- The rounds of `decode`, each in the way that it takes a symbol of `encode`.
use pendulum_amm.Base.{ℕ, ◌+◌, ◌-◌, ◌*◌, ◌%◌, ◌^◌, ◌<◌, ◌≡◌, ap, ◌∙◌, sym, List, [], ◌∷◌, arith}
use Prim.Native.Nat.{bit_or}
use pendulum_amm.Base.Bits.{bit_or_join}
use pendulum_amm.Encoding.Base32.{
  alphabet, symbol, shl_u8, shr_u8, decode_symbol, decode_from, prepend,
}
use pendulum_amm.Encoding.Base32.Symbols.{ascii_to_value_5bit-alphabet, symbol_lem, alphabet_letter}

-- What a round of `decode` does with a symbol.
module _ (carry v : ℕ) (rest : List ℕ) where
  read_alphabet :
      (shift : ℕ)
      → v < 32
      → decode_from shift carry (alphabet v ∷ rest) ≡ (
          let (pushed, shift', carry') = decode_symbol shift carry v in
          prepend pushed (decode_from shift' carry' rest))
  unfolding decode_from
  read_alphabet shift fits =
      ground (arith, alphabet_letter v fits, ascii_to_value_5bit-alphabet v fits)

module _ (carry v : ℕ) (rest : List ℕ) where
  -- The three ways to take it.
  read_symbol :
      (shift : ℕ)
      → decode_from shift carry (symbol v ∷ rest) ≡ (
          let (pushed, shift', carry') = decode_symbol shift carry (v % 32) in
          prepend pushed (decode_from shift' carry' rest))
  read_symbol shift =
      ap (λ c. decode_from shift carry (c ∷ rest)) (symbol_lem v)
      ∙ read_alphabet carry (v % 32) rest shift (omega arith)

  pub read_more :
      (shift : ℕ)
      → 5 < shift
      → decode_from shift carry (symbol v ∷ rest)
        ≡ decode_from (shift - 5) (bit_or carry (shl_u8 (v % 32) (shift - 5))) rest
  unfolding decode_symbol
  read_more shift more = ground (arith, read_symbol shift)

  pub read_byte :
      (shift : ℕ)
      → shift < 5
      → decode_from shift carry (symbol v ∷ rest)
        ≡ prepend
            (bit_or carry (shr_u8 (v % 32) (5 - shift)) ∷ [])
            (decode_from (shift + 3) (shl_u8 (v % 32) (shift + 3)) rest)
  unfolding decode_symbol
  read_byte shift less = ground (arith, read_symbol shift)

  pub read_full :
      decode_from 5 carry (symbol v ∷ rest)
      ≡ prepend (bit_or carry (v % 32) ∷ []) (decode_from 8 0 rest)
  unfolding decode_symbol
  read_full = read_symbol 5

-- A low field joins a high one, whatever form the two are written in.
pub join : (k high x y : ℕ) → x ≡ high * 2 ^ k → y < 2 ^ k → bit_or x y ≡ x + y
join k high x y e fits =
    ap (λ n. bit_or n y) e ∙ bit_or_join k high y fits ∙ ap (λ n. n + y) (sym e)
