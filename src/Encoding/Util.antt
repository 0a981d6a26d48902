-- ===== src/Encoding/Util.antt =====
-- `mod util` of smart_contract/src/lib.rs: asset codes as arrays of 12 bytes, and back.
pub mod Codes
use pendulum_amm.Base.{
  ℕ, ◌-◌, Bool, not, ◌&&◌, ◌||◌, List, [], ◌∷◌, ◌++◌, ltb, leb, ◌==◌, if◌then◌else◌,
}
use pendulum_amm.Base.Lists.{length, replicate, all}
use pendulum_amm.Base.Action.{Outcome, ok, err}
use pendulum_amm.Contract.State.{Error, asset_code_too_long, invalid_asset_code_character}

-- `char::is_ascii_alphanumeric`
unfoldable pub is_ascii_alphanumeric : ℕ → Bool
is_ascii_alphanumeric c =
    (leb b'0' c && leb c b'9') || (leb b'A' c && leb c b'Z') || (leb b'a' c && leb c b'z')

-- A string is the list of its bytes.
unfoldable pub asset_from_string : List ℕ → Outcome Error (List ℕ)
unfolding is_ascii_alphanumeric
asset_from_string str =
    if ltb 12 (length str)
    then err asset_code_too_long
    else if not (all is_ascii_alphanumeric str)
    then err invalid_asset_code_character
    else ok (str ++ replicate (12 - length str) 0)

-- The slice from the first byte that is not zero on.
unfoldable pub drop_zeros : List ℕ → List ℕ
drop_zeros [] = []
drop_zeros (x ∷ xs) = if x == 0 then drop_zeros xs else x ∷ xs

-- The slice up to the last byte that is not zero.
unfoldable pub drop_last_zeros : List ℕ → List ℕ
drop_last_zeros [] = []
drop_last_zeros (x ∷ xs) = elim (drop_last_zeros xs) [
  | [] ↦ if x == 0 then [] else x ∷ []
  | y ∷ ys ↦ x ∷ y ∷ ys
]

unfoldable pub trim_zeros : List ℕ → List ℕ
unfolding drop_zeros drop_last_zeros
trim_zeros x = drop_last_zeros (drop_zeros x)
