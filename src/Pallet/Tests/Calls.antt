-- ===== src/Pallet/Tests/Calls.antt =====
-- Runs of the pallet's calls, after its own tests.
use pendulum_amm.Base.{ℕ, ◌≡◌, refl, some, [], ◌∷◌, arith}
use pendulum_amm.Base.Action.{ok, err, ◌>>=◌}
use pendulum_amm.Base.Dict.{lookup, insert, total}
use pendulum_amm.Pallet.State.{World, amm, insufficient_liquidity_minted, build}
use pendulum_amm.Pallet.Mock.{
  AssetsMaps, test, genesis, fetch_balance, transfer_balance, integer_sqrt,
}
use pendulum_amm.Pallet.Token.{_mint}
use pendulum_amm.Pallet.Token.Supply.{IsBacked}
use pendulum_amm.Pallet.Pricing.{quote}
use pendulum_amm.Pallet.Overflowing.{overflowing_sub}
use pendulum_amm.Pallet.Bank.{transfer_tokens}
use pendulum_amm.Pallet.Reserves.{_update, collect_fee, _mint_fee}
use pendulum_amm.Pallet.Liquidity.First.{first_deposit_too_small}
use pendulum_amm.Pallet.Liquidity.{new_liquidity, mint_liquidity}
use pendulum_amm.Pallet.Extrinsics
use pendulum_amm.Pallet.Calls.{dispatch, deposit_asset_1, withdraw, here, call}
use pendulum_amm.Pallet.Backing.{Reached-IsBacked}

-- `new_test_ext`, with `add_supply_for_account(2, supply)`.
abbrev pub start : ℕ → World AssetsMaps
start supply = record {
  storage = build genesis;
  ledger = record { assets_map_0 = (2, supply) ∷ []; assets_map_1 = (2, supply) ∷ [] };
  events = [];
}

start-IsBacked : IsBacked (start 100000)
unfolding build total
start-IsBacked = record { supply_fits = omega arith; backed = omega arith }

abbrev deposited : World AssetsMaps
deposited = (Extrinsics.deposit_asset_1 test (some 2) 10000 (start 100000)).1

-- The first deposit of `deposit_works_for_balanced_pair`, and its reserves.
deposit_works :
    ((Extrinsics.deposit_asset_1 test (some 2) 10000 (start 100000)).0 ≡ ok tt)
    × (deposited.storage.reserves.reserve_0 ≡ 10000)
    × (deposited.storage.reserves.reserve_1 ≡ 10000)
    × (deposited.storage.lp_balances ≡ (0, 1000) ∷ (2, 9000) ∷ [])
unfolding Extrinsics.deposit_asset_1 build quote transfer_tokens fetch_balance transfer_balance
    integer_sqrt mint_liquidity new_liquidity _mint_fee collect_fee _mint _update lookup insert
    overflowing_sub ◌>>=◌
deposit_works = (refl, refl, refl, refl)

Reached-IsBacked_example :
    IsBacked
      (dispatch test
        (some 2)
        (withdraw 100)
        (dispatch test (some 2) (deposit_asset_1 10000) (start 100000)).1).1
Reached-IsBacked_example =
    Reached-IsBacked start-IsBacked
      (call (call here test (some 2) (deposit_asset_1 10000)) test (some 2) (withdraw 100))

-- 100 of each token have come in for a first deposit.
abbrev too_small : World AssetsMaps
too_small = record (start 99900) {
  ledger = record {
    assets_map_0 = (2, 99900) ∷ (1, 100) ∷ [];
    assets_map_1 = (2, 99900) ∷ (1, 100) ∷ [];
  };
}

first_deposit_too_small_example :
    let (r, w') = mint_liquidity test 2 2 too_small in
    (r ≡ err (amm insufficient_liquidity_minted))
    × (w'.storage.total_supply ≡ 1000)
    × (w'.storage.reserves ≡ too_small.storage.reserves)
    × (w'.ledger ≡ too_small.ledger)
unfolding build fetch_balance integer_sqrt lookup
first_deposit_too_small_example =
    first_deposit_too_small test too_small 2 2 1 0 refl refl refl (omega arith) (omega arith)

-- The call of such a deposit fails, and the tokens are gone.
too_small_deposit :
    Extrinsics.deposit_asset_1 test (some 2) 100 (start 100000)
    ≡ (err (amm insufficient_liquidity_minted), (mint_liquidity test 2 2 too_small).1)
unfolding Extrinsics.deposit_asset_1 build quote transfer_tokens fetch_balance transfer_balance
    integer_sqrt mint_liquidity new_liquidity _mint_fee collect_fee _mint _update lookup insert
    overflowing_sub ◌>>=◌
too_small_deposit = refl
