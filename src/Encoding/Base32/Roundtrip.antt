-- ===== src/Encoding/Base32/Roundtrip.antt =====
-- `decode` after `encode`.
use pendulum_amm.Base.{
  ℕ, ◌+◌, ◌-◌, ◌*◌, ◌/◌, ◌%◌, ◌^◌, ◌<◌, ◌≡◌, refl, ap, ◌∙◌, List, [], ◌∷◌, ◌++◌, arith,
}
use Prim.Native.Nat.{bit_or}
use pendulum_amm.Base.Lists.{All}
use pendulum_amm.Base.Action.{ok}
use pendulum_amm.Encoding.Base32.{
  symbol, shl_u8, encode_byte, rest_shift, encode_from, encode, decode_from, decode, prepend,
}
use pendulum_amm.Encoding.Base32.Reading.{read_more, read_byte, read_full, join}

-- One byte `n` after the byte `b`, of which `decode` has all but the lowest bits: `b` is pushed, and
-- then all but the lowest bits of `n` are there.
abbrev Caught : ℕ → ℕ → List ℕ → ℕ → ℕ → Type 0
Caught b n rest shift shift' =
    decode_from shift (b / 2 ^ shift * 2 ^ shift)
      (encode_byte (shift + 3) (shl_u8 b (5 - shift)) n ++ rest)
    ≡ prepend (b ∷ []) (decode_from shift' (n / 2 ^ shift' * 2 ^ shift') rest)

module _ (b n : ℕ) (rest : List ℕ) (b_fits : b < 256) (n_fits : n < 256) where
  byte_after_3 : Caught b n rest 3 1
  unfolding encode_byte
  byte_after_3 =
      let v : ℕ = bit_or (shl_u8 b 2) (n / 64) in
      let sum : v ≡ shl_u8 b 2 + n / 64 = join 2 (b % 64) _ _ (omega arith) (omega arith) in
      let whole : bit_or (b / 8 * 8) (v % 32 / 4) ≡ b =
        join 3 (b / 8) _ _ (omega arith) (omega arith) ∙ omega arith in
      let next : bit_or (v % 32 * 64 % 256) (n / 2 % 32 * 2 % 256) ≡ n / 2 * 2 =
        join 6 (n / 64) _ _ (omega arith) (omega arith) ∙ omega arith in
      read_byte (b / 8 * 8) v (symbol (n / 2) ∷ rest) 3 (omega arith)
      ∙ ap (λ r. prepend (bit_or (b / 8 * 8) (v % 32 / 4) ∷ []) r)
          (read_more (v % 32 * 64 % 256) (n / 2) rest 6 (omega arith))
      ∙ rw (whole, next)

  byte_after_1 : Caught b n rest 1 4
  unfolding encode_byte
  byte_after_1 =
      let v : ℕ = bit_or (shl_u8 b 4) (n / 16) in
      let sum : v ≡ shl_u8 b 4 + n / 16 = join 4 (b % 16) _ _ (omega arith) (omega arith) in
      let whole : bit_or (b / 2 * 2) (v % 32 / 16) ≡ b =
        join 1 (b / 2) _ _ (omega arith) (omega arith) ∙ omega arith in
      let next : v % 32 * 16 % 256 ≡ n / 16 * 16 = omega arith in
      read_byte (b / 2 * 2) v rest 1 (omega arith) ∙ rw (whole, next)

  byte_after_4 : Caught b n rest 4 2
  unfolding encode_byte
  byte_after_4 =
      let v : ℕ = bit_or (shl_u8 b 1) (n / 128) in
      let sum : v ≡ shl_u8 b 1 + n / 128 = join 1 (b % 128) _ _ (omega arith) (omega arith) in
      let whole : bit_or (b / 16 * 16) (v % 32 / 2) ≡ b =
        join 4 (b / 16) _ _ (omega arith) (omega arith) ∙ omega arith in
      let next : bit_or (v % 32 * 128 % 256) (n / 4 % 32 * 4 % 256) ≡ n / 4 * 4 =
        join 7 (n / 128) _ _ (omega arith) (omega arith) ∙ omega arith in
      read_byte (b / 16 * 16) v (symbol (n / 4) ∷ rest) 4 (omega arith)
      ∙ ap (λ r. prepend (bit_or (b / 16 * 16) (v % 32 / 2) ∷ []) r)
          (read_more (v % 32 * 128 % 256) (n / 4) rest 7 (omega arith))
      ∙ rw (whole, next)

  byte_after_2 : Caught b n rest 2 5
  unfolding encode_byte
  byte_after_2 =
      let v : ℕ = bit_or (shl_u8 b 3) (n / 32) in
      let sum : v ≡ shl_u8 b 3 + n / 32 = join 3 (b % 32) _ _ (omega arith) (omega arith) in
      let whole : bit_or (b / 4 * 4) (v % 32 / 8) ≡ b =
        join 2 (b / 4) _ _ (omega arith) (omega arith) ∙ omega arith in
      let next : v % 32 * 32 % 256 ≡ n / 32 * 32 = omega arith in
      read_byte (b / 4 * 4) v rest 2 (omega arith) ∙ rw (whole, next)

  byte_after_5 : Caught b n rest 5 3
  unfolding encode_byte
  byte_after_5 =
      let whole : bit_or (b / 32 * 32) (shl_u8 b 0 % 32) ≡ b =
        join 5 (b / 32) _ _ (omega arith) (omega arith) ∙ omega arith in
      let next : bit_or 0 (shl_u8 (n / 8 % 32) 3) ≡ n / 8 * 8 =
        join 8 0 _ _ (omega arith) (omega arith) ∙ omega arith in
      read_full (b / 32 * 32) (shl_u8 b 0) (symbol (n / 8) ∷ rest)
      ∙ ap (λ r. prepend (bit_or (b / 32 * 32) (shl_u8 b 0 % 32) ∷ []) r)
          (read_more 0 (n / 8) rest 8 (omega arith))
      ∙ rw (whole, next)

-- How many bits of the last byte are still to come, in the order of the rounds.
data Phase : Type 0 where
  three one four two five : Phase

abbrev pending : Phase → ℕ
pending three = 3
pending one = 1
pending four = 4
pending two = 2
pending five = 5

abbrev turn : Phase → Phase
turn three = one
turn one = four
turn four = two
turn two = five
turn five = three

caught :
    (p : Phase) (b n : ℕ) (rest : List ℕ)
    → b < 256
    → n < 256
    → Caught b n rest (pending p) (pending (turn p))
caught three b n rest hb hn = byte_after_3 b n rest hb hn
caught one b n rest hb hn = byte_after_1 b n rest hb hn
caught four b n rest hb hn = byte_after_4 b n rest hb hn
caught two b n rest hb hn = byte_after_2 b n rest hb hn
caught five b n rest hb hn = byte_after_5 b n rest hb hn

decode_from-end : (shift : ℕ) → decode_from shift 0 [] ≡ ok []
unfolding decode_from
decode_from-end shift = ground arith

-- The end of the input: the last bits of `b` come with the last symbol.
abbrev Ended : ℕ → ℕ → Type 0
Ended b shift =
    decode_from shift (b / 2 ^ shift * 2 ^ shift) (symbol (shl_u8 b (5 - shift)) ∷ []) ≡ ok (b ∷ [])

last_symbol :
    (shift b : ℕ)
    → shift < 5
    → bit_or (b / 2 ^ shift * 2 ^ shift) (shl_u8 b (5 - shift) % 32 / 2 ^ (5 - shift)) ≡ b
    → shl_u8 (shl_u8 b (5 - shift) % 32) (shift + 3) ≡ 0
    → Ended b shift
last_symbol shift b less whole spent =
    read_byte (b / 2 ^ shift * 2 ^ shift) (shl_u8 b (5 - shift)) [] shift less
    ∙ rw (whole, spent, decode_from-end (shift + 3))

caught_end : (p : Phase) (b : ℕ) → b < 256 → Ended b (pending p)
caught_end three b hb =
    last_symbol 3 b (omega arith) (join 3 (b / 8) _ _ (omega arith) (omega arith) ∙ omega arith)
      (omega arith)
caught_end one b hb =
    last_symbol 1 b (omega arith) (join 1 (b / 2) _ _ (omega arith) (omega arith) ∙ omega arith)
      (omega arith)
caught_end four b hb =
    last_symbol 4 b (omega arith) (join 4 (b / 16) _ _ (omega arith) (omega arith) ∙ omega arith)
      (omega arith)
caught_end two b hb =
    last_symbol 2 b (omega arith) (join 2 (b / 4) _ _ (omega arith) (omega arith) ∙ omega arith)
      (omega arith)
caught_end five b hb =
    let whole : bit_or (b / 32 * 32) (shl_u8 b 0 % 32) ≡ b =
      join 5 (b / 32) _ _ (omega arith) (omega arith) ∙ omega arith in
    read_full (b / 32 * 32) (shl_u8 b 0) [] ∙ rw (whole, decode_from-end 8)

-- What `encode` does at the end and in a round, from the state of a phase.
encode_from-nil : (p : Phase) (carry : ℕ) → encode_from (pending p + 3) carry [] ≡ symbol carry ∷ []
unfolding encode_from
encode_from-nil three carry = refl
encode_from-nil one carry = refl
encode_from-nil four carry = refl
encode_from-nil two carry = refl
encode_from-nil five carry = refl

encode_from-cons :
    (p : Phase) (carry n : ℕ) (bytes : List ℕ)
    → encode_from (pending p + 3) carry (n ∷ bytes)
      ≡ encode_byte (pending p + 3) carry n
        ++ encode_from (pending (turn p) + 3) (shl_u8 n (5 - pending (turn p))) bytes
unfolding encode_from rest_shift
encode_from-cons three carry n bytes = refl
encode_from-cons one carry n bytes = refl
encode_from-cons four carry n bytes = refl
encode_from-cons two carry n bytes = refl
encode_from-cons five carry n bytes = refl

-- The rest of the input after `b`.
decode_from-encode_from :
    (p : Phase) (b : ℕ) (bytes : List ℕ)
    → b < 256
    → All (λ x. x < 256) bytes
    → decode_from
        (pending p)
        (b / 2 ^ pending p * 2 ^ pending p)
        (encode_from (pending p + 3) (shl_u8 b (5 - pending p)) bytes)
      ≡ ok (b ∷ bytes)
decode_from-encode_from p b [] hb hs =
    rw (encode_from-nil p (shl_u8 b (5 - pending p))) (caught_end p b hb)
decode_from-encode_from p b (n ∷ bytes) hb (hn, hs) =
    rw (encode_from-cons p (shl_u8 b (5 - pending p)) n bytes) (
      caught p b n _ hb hn ∙ ap (prepend (b ∷ [])) (decode_from-encode_from (turn p) n bytes hn hs))

-- The first byte finds no bits pending.
from_start :
    (bytes : List ℕ) → All (λ x. x < 256) bytes → decode_from 8 0 (encode_from 3 0 bytes) ≡ ok bytes
unfolding encode_from encode_byte rest_shift
from_start [] hs = decode_from-end 8
from_start (n ∷ bytes) (hn, hs) =
    let first : bit_or 0 (n / 8) ≡ n / 8 = join 8 0 _ _ (omega arith) (omega arith) ∙ omega arith in
    let top : bit_or 0 (bit_or 0 (n / 8) % 32 * 8 % 256) ≡ n / 8 * 8 =
      join 8 0 _ _ (omega arith) (omega arith) ∙ omega arith in
    read_more 0 (bit_or 0 (n / 8)) (encode_from 6 (shl_u8 n 2) bytes) 8 (omega arith)
    ∙ rw top (decode_from-encode_from three n bytes hn hs)

-- Whatever bytes are encoded, decoding gives them back.
pub decode-encode : (bytes : List ℕ) → All (λ x. x < 256) bytes → decode (encode bytes) ≡ ok bytes
unfolding decode encode
decode-encode bytes hs = from_start bytes hs
