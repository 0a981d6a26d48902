-- ===== src/Pallet/Mock.antt =====
-- The mock runtime of the pallet's tests (pallet/src/mock.rs): two maps from accounts to balances.
pub mod Lawful
use pendulum_amm.Base.{
  ℕ, zero, suc, ◌+◌, ◌*◌, ◌/◌, Bool, true, false, ◌&&◌, Option, none, some, List, [], ◌∷◌, leb,
  ◌==◌, if◌then◌else◌,
}
use pendulum_amm.Base.Action.{Outcome, ok, err, Action}
use pendulum_amm.Base.Dict.{Dict, lookup, insert, value}
use pendulum_amm.Base.Word.{checked_sub, unwrap_or, max_u128}
use pendulum_amm.Pallet.State.{DispatchError, other, AmmExtension, Config, GenesisConfig}

pub record Asset : Type 0 where
  pub code : List ℕ
  pub issuer : List ℕ

abbrev pub eur : List ℕ
eur = 69 ∷ 85 ∷ 82 ∷ 0 ∷ 0 ∷ 0 ∷ 0 ∷ 0 ∷ 0 ∷ 0 ∷ 0 ∷ 0 ∷ []

abbrev pub usdc : List ℕ
usdc = 85 ∷ 83 ∷ 68 ∷ 67 ∷ 0 ∷ 0 ∷ 0 ∷ 0 ∷ 0 ∷ 0 ∷ 0 ∷ 0 ∷ []

abbrev pub issuer_id : List ℕ
issuer_id =
    20 ∷ 209 ∷ 150 ∷ 49 ∷ 176 ∷ 55 ∷ 23 ∷ 217 ∷ 171 ∷ 154 ∷ 54 ∷ 110 ∷ 16 ∷ 50 ∷ 30 ∷ 226 ∷ 102
    ∷ 231 ∷ 46 ∷ 199 ∷ 108 ∷ 171 ∷ 97 ∷ 144 ∷ 240 ∷ 161 ∷ 51 ∷ 109 ∷ 72 ∷ 34 ∷ 159 ∷ 139 ∷ []

-- `ASSET_0` and `ASSET_1`
abbrev pub asset_0 : Asset
asset_0 = record { code = eur; issuer = issuer_id }

abbrev pub asset_1 : Asset
asset_1 = record { code = usdc; issuer = issuer_id }

same_bytes : List ℕ → List ℕ → Bool
same_bytes [] [] = true
same_bytes (a ∷ rest) (b ∷ rest') = a == b && same_bytes rest rest'
same_bytes _ _ = false

-- `asset == ASSET_0`
unfoldable pub is_asset_0 : Asset → Bool
unfolding same_bytes
is_asset_0 a = same_bytes a.code eur && same_bytes a.issuer issuer_id

-- `ASSETSMAP0` and `ASSETSMAP1`
pub record AssetsMaps : Type 0 where
  pub assets_map_0 : Dict
  pub assets_map_1 : Dict

unfoldable pub fetch_balance : AssetsMaps → ℕ → Asset → ℕ
unfolding is_asset_0
fetch_balance m owner a =
    if is_asset_0 a then value owner m.assets_map_0 else value owner m.assets_map_1

-- `to_bal.checked_add(amount).unwrap_or(*to_bal)`
abbrev pub credited : ℕ → ℕ → ℕ
credited to_bal amount = if leb (to_bal + amount) max_u128 then to_bal + amount else to_bal

-- The body of either branch of `transfer_balance`: both balances are read before the writes.
unfoldable pub move_balance : ℕ → ℕ → ℕ → Dict → Dict
move_balance from to amount m = elim (lookup from m) [
  | none ↦ m
  | some bal ↦
      let from_bal = unwrap_or (checked_sub bal amount) 0 in
      insert from from_bal (insert to (credited (value to m) amount) m)
]

unfoldable pub transfer_balance : ℕ → ℕ → Asset → ℕ → Action DispatchError AssetsMaps Unit
unfolding is_asset_0 move_balance
transfer_balance from to a amount m =
    if is_asset_0 a
    then (ok tt, record m { assets_map_0 = move_balance from to amount m.assets_map_0 })
    else (ok tt, record m { assets_map_1 = move_balance from to amount m.assets_map_1 })

-- `Extension`
abbrev pub extension : AmmExtension AssetsMaps Asset
extension = record {
  fetch_balance = fetch_balance;
  transfer_balance = transfer_balance;
  moment_to_balance_type = λ m. m;
}

-- `Origin::signed(k)` is `some k`; any other origin is refused.
abbrev pub ensure_signed : Option ℕ → Outcome DispatchError ℕ
ensure_signed none = err other
ensure_signed (some k) = ok k

-- A square root for the tests, two binary digits of `n` at a time.
pub root : ℕ → ℕ → ℕ
root zero n = 0
root (suc f) n = let r = 2 * root f (n / 4) in if leb ((r + 1) * (r + 1)) n then r + 1 else r

unfoldable pub integer_sqrt : ℕ → ℕ
unfolding root
integer_sqrt n = root 64 n

-- `impl Config for Test`
abbrev pub test : Config (Option ℕ) AssetsMaps Asset
test = record {
  amm_extension = extension;
  minimum_liquidity = 1000;
  mint_fee = 5;
  base_fee = 3;
  asset_0 = asset_0;
  asset_1 = asset_1;
  ensure_signed = ensure_signed;
  now = 0;
  integer_sqrt = integer_sqrt;
}

-- The genesis of `new_test_ext`.
abbrev pub genesis : GenesisConfig
genesis = record { contract_id = some 1; zero_account = some 0; fee_to_setter = some 2 }
