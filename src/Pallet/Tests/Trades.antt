-- ===== src/Pallet/Tests/Trades.antt =====
-- Runs of `mint`, `burn` and `_swap` of the pallet.
use pendulum_amm.Base.{ℕ, ◌*◌, ◌≤◌, ◌<◌, ◌≡◌, ◌≢◌, refl, some, [], ◌∷◌, arith}
use pendulum_amm.Base.Action.{ok, ◌>>=◌}
use pendulum_amm.Base.Dict.{lookup, insert}
use pendulum_amm.Pallet.State.{World, build}
use pendulum_amm.Pallet.Mock.{AssetsMaps, test, genesis, fetch_balance, transfer_balance}
use pendulum_amm.Pallet.Token.{_mint, _burn}
use pendulum_amm.Pallet.Overflowing.{overflowing_sub}
use pendulum_amm.Pallet.Bank.{InSync, transfer_tokens}
use pendulum_amm.Pallet.Reserves.{_update, collect_fee, _mint_fee}
use pendulum_amm.Pallet.Liquidity.{share, new_liquidity, mint_liquidity, burn_liquidity}
use pendulum_amm.Pallet.Liquidity.Minting.{charged, pallet_mint_sound}
use pendulum_amm.Pallet.Liquidity.Burning.{IsBurned, pallet_burn-IsBurned}
use pendulum_amm.Pallet.Pricing.{get_amount_in}
use pendulum_amm.Pallet.Extrinsics
use pendulum_amm.Pallet.Calls.{dispatch, swap_asset_1_for_asset_2}
use pendulum_amm.Pallet.Mock.Lawful.{test-IsLawful}
use pendulum_amm.Pool.{Step}
use pendulum_amm.Pallet.Pool.{IsOpen, pool_of}
use pendulum_amm.Pallet.Pool.Runs.{dispatch-Step}
use pendulum_amm.Pallet.Exchange.{received, adjusted, k_holds, _swap}
use pendulum_amm.Pallet.Exchange.Product.{pallet_swap_sound}

-- A pool after a first deposit of 10000, with what the pallet's account 1 holds of each token.
abbrev pool : ℕ → ℕ → World AssetsMaps
pool held_0 held_1 = record {
  storage = record (build genesis) {
    reserves = record { reserve_0 = 10000; reserve_1 = 10000; block_timestamp_last = 0 };
    total_supply = 10000;
    lp_balances = (0, 1000) ∷ (2, 9000) ∷ [];
  };
  ledger = record {
    assets_map_0 = (2, 90000) ∷ (1, held_0) ∷ [];
    assets_map_1 = (2, 90000) ∷ (1, held_1) ∷ [];
  };
  events = [];
}

pool_account : (a b : ℕ) → (pool a b).storage.pallet_account_id ≡ some 1
unfolding build
pool_account a b = refl

-- 10041 of the first token have come in for 10 of the second.
abbrev swapped : World AssetsMaps
swapped = (_swap test 0 10 2 2 (pool 20041 10000)).1

swapped_done : _swap test 0 10 2 2 (pool 20041 10000) ≡ (ok tt, swapped)
unfolding build _swap transfer_tokens fetch_balance transfer_balance received adjusted k_holds
    _update overflowing_sub lookup insert ◌>>=◌
swapped_done = refl

pallet_swap_sound_example :
    (10000 * 10000 ≤ swapped.storage.reserves.reserve_0 * swapped.storage.reserves.reserve_1)
    × InSync test 1 swapped
    × (swapped.storage.total_supply ≡ 10000)
    × (swapped.storage.lp_balances ≡ (0, 1000) ∷ (2, 9000) ∷ [])
    × (0 < 10000)
    × (10 < 10000)
pallet_swap_sound_example =
    pallet_swap_sound test 0 10 2 2 1 (pool 20041 10000) (pool_account 20041 10000) swapped
      swapped_done (omega arith)

-- 500 of each token have come in for liquidity.
abbrev minted : World AssetsMaps
minted = (mint_liquidity test 2 2 (pool 10500 10500)).1

minted_done : mint_liquidity test 2 2 (pool 10500 10500) ≡ (ok tt, minted)
unfolding build mint_liquidity fetch_balance new_liquidity share _mint_fee collect_fee _mint _update
    overflowing_sub lookup insert ◌>>=◌
minted_done = refl

minted_supply : minted.storage.total_supply ≡ 10500
unfolding build mint_liquidity fetch_balance new_liquidity share _mint_fee collect_fee _mint _update
    overflowing_sub lookup insert ◌>>=◌
minted_supply = refl

pallet_mint_sound_example :
    let supply : ℕ = (charged test 1 (pool 10500 10500)).storage.total_supply in
    let r' = minted.storage.reserves in
    (10000 ≤ supply)
    × (supply < minted.storage.total_supply)
    × (10000 * minted.storage.total_supply ≤ r'.reserve_0 * supply)
    × (10000 * minted.storage.total_supply ≤ r'.reserve_1 * supply)
    × InSync test 1 minted
pallet_mint_sound_example =
    pallet_mint_sound test 1 2 2 (pool 10500 10500) minted minted_done (pool_account 10500 10500)
      (omega arith) (omega arith) (omega (arith, minted_supply))

-- The account of the pallet has 2000 shares to burn.
abbrev returned : World AssetsMaps
returned = record (pool 10000 10000) {
  storage = record (pool 10000 10000).storage { lp_balances = (1, 2000) ∷ (2, 8000) ∷ [] };
}

abbrev burned : World AssetsMaps
burned = (burn_liquidity test 2 2 returned).1

burned_done : burn_liquidity test 2 2 returned ≡ (ok tt, burned)
unfolding build burn_liquidity fetch_balance transfer_balance transfer_tokens share _mint_fee
    collect_fee _burn _update overflowing_sub lookup insert ◌>>=◌
burned_done = refl

returned_shares : lookup 1 returned.storage.lp_balances ≡ some 2000
unfolding lookup build
returned_shares = refl

pallet_burn-IsBurned_example : IsBurned test 1 2 2000 returned burned
pallet_burn-IsBurned_example =
    pallet_burn-IsBurned test 1 2 2 2000 returned burned burned_done (pool_account 10000 10000)
      returned_shares (omega arith)

-- A swap and its price, as a call.
abbrev swapped_out : World AssetsMaps
swapped_out = (dispatch test (some 2) (swap_asset_1_for_asset_2 10) (pool 10000 10000)).1

swapped_out_done :
    dispatch test (some 2) (swap_asset_1_for_asset_2 10) (pool 10000 10000) ≡ (ok tt, swapped_out)
unfolding dispatch Extrinsics.swap_asset_1_for_asset_2 get_amount_in build _swap transfer_tokens
    fetch_balance transfer_balance received adjusted k_holds _update overflowing_sub lookup insert
    ◌>>=◌
swapped_out_done = refl

swapped_out_supply : swapped_out.storage.total_supply ≡ 10000
unfolding dispatch Extrinsics.swap_asset_1_for_asset_2 get_amount_in build _swap transfer_tokens
    fetch_balance transfer_balance received adjusted k_holds _update overflowing_sub lookup insert
    ◌>>=◌
swapped_out_supply = refl

pool-IsOpen : IsOpen test 1 (pool 10000 10000)
unfolding build fetch_balance lookup
pool-IsOpen = record {
  known = refl;
  no_fee = refl;
  some_shares = omega arith;
  supply_fits = omega arith;
  product_fits = omega arith;
  covered_0 = omega arith;
  covered_1 = omega arith;
}

other_signer : (k : ℕ) → test.ensure_signed (some 2) ≡ ok k → 1 ≢ k
other_signer k e same = cc

dispatch-Step_example : Step (pool_of (pool 10000 10000)) (pool_of swapped_out)
dispatch-Step_example =
    dispatch-Step test 1 test-IsLawful (some 2) (swap_asset_1_for_asset_2 10) (pool 10000 10000)
      swapped_out swapped_out_done pool-IsOpen (omega (arith, swapped_out_supply)) other_signer
