-- ===== src/Encoding/Utf8.antt =====
-- UTF-8 as Rust's `str` checks it: `from_utf8` accepts exactly these byte strings.
pub mod Ascii
use pendulum_amm.Base.{
  ℕ, Bool, true, false, ◌&&◌, Option, none, some, List, [], ◌∷◌, ltb, leb, ◌==◌, if◌then◌else◌,
}

-- The bounds of the bytes that must follow a first byte.
unfoldable pub following : ℕ → Option (List (ℕ × ℕ))
following b =
    let tail : ℕ × ℕ = (0x80, 0xbf) in
    if ltb b 0x80
    then some []
    else if leb 0xc2 b && leb b 0xdf
    then some (tail ∷ [])
    else if b == 0xe0
    then some ((0xa0, 0xbf) ∷ tail ∷ [])
    else if b == 0xed
    then some ((0x80, 0x9f) ∷ tail ∷ [])
    else if leb 0xe1 b && leb b 0xef
    then some (tail ∷ tail ∷ [])
    else if b == 0xf0
    then some ((0x90, 0xbf) ∷ tail ∷ tail ∷ [])
    else if leb 0xf1 b && leb b 0xf3
    then some (tail ∷ tail ∷ tail ∷ [])
    else if b == 0xf4
    then some ((0x80, 0x8f) ∷ tail ∷ tail ∷ [])
    else none

unfoldable pub is_utf8_from : List (ℕ × ℕ) → List ℕ → Bool
unfolding following
is_utf8_from [] [] = true
is_utf8_from (_ ∷ _) [] = false
is_utf8_from ((low, high) ∷ bounds) (b ∷ bytes) =
    leb low b && leb b high && is_utf8_from bounds bytes
is_utf8_from [] (b ∷ bytes) = elim (following b) [
  | none ↦ false
  | some bounds ↦ is_utf8_from bounds bytes
]

unfoldable pub is_utf8 : List ℕ → Bool
unfolding is_utf8_from
is_utf8 = is_utf8_from []
