-- ===== src/Pallet/Tests/Benches.antt =====
-- The benchmarks on the mock runtime. The setter of the fee's receiver, account 2, owns 100000 of
-- each token; Alice is account 7 and the whitelisted caller account 9.
use pendulum_amm.Base.{ℕ, Option, some, ◌≡◌, refl, arith}
use pendulum_amm.Base.Action.{ok, ◌>>=◌}
use pendulum_amm.Base.Dict.{lookup, insert}
use pendulum_amm.Pallet.State.{build}
use pendulum_amm.Pallet.Mock.{test, fetch_balance, transfer_balance, integer_sqrt}
use pendulum_amm.Pallet.Token.{_mint, _burn, _transfer_liquidity}
use pendulum_amm.Pallet.Pricing.{quote, get_amount_in}
use pendulum_amm.Pallet.Overflowing.{overflowing_sub}
use pendulum_amm.Pallet.Bank.{transfer_tokens}
use pendulum_amm.Pallet.Reserves.{_update, collect_fee, _mint_fee}
use pendulum_amm.Pallet.Liquidity.{new_liquidity, mint_liquidity, burn_liquidity, share}
use pendulum_amm.Pallet.Exchange.{received, adjusted, k_holds, _swap}
use pendulum_amm.Pallet.Extrinsics
use pendulum_amm.Pallet.Benchmarks
use pendulum_amm.Pallet.Benchmarks.Trading
use pendulum_amm.Pallet.Benchmarks.Passing.{benchmarks_pass}
use pendulum_amm.Pallet.Tests.Calls.{start}

abbrev accounts : Benchmarks.Accounts (Option ℕ)
accounts = record { signed = λ k. some k; whitelisted_caller = 9; alice = 7 }

bench_skim : (Benchmarks.skim test accounts (start 100000)).0 ≡ ok tt
unfolding Benchmarks.skim Extrinsics.skim build transfer_tokens fetch_balance transfer_balance
    lookup insert ◌>>=◌
bench_skim = refl

bench_deposit_asset_1 : (Trading.deposit_asset_1 test accounts (start 100000)).0 ≡ ok tt
unfolding Trading.deposit_and_verify Extrinsics.deposit_asset_1 build quote transfer_tokens
    fetch_balance transfer_balance integer_sqrt mint_liquidity new_liquidity _mint_fee collect_fee
    _mint _update lookup insert overflowing_sub ◌>>=◌
bench_deposit_asset_1 = refl

bench_deposit_asset_2 : (Trading.deposit_asset_2 test accounts (start 100000)).0 ≡ ok tt
unfolding Trading.deposit_and_verify Extrinsics.deposit_asset_2 build quote transfer_tokens
    fetch_balance transfer_balance integer_sqrt mint_liquidity new_liquidity _mint_fee collect_fee
    _mint _update lookup insert overflowing_sub ◌>>=◌
bench_deposit_asset_2 = refl

bench_withdraw : (Trading.withdraw test accounts (start 100000)).0 ≡ ok tt
unfolding Trading.withdraw Extrinsics.deposit_asset_1 Extrinsics.set_fee_to Extrinsics.withdraw
    build quote transfer_tokens fetch_balance transfer_balance integer_sqrt mint_liquidity
    new_liquidity _mint_fee collect_fee _mint _update lookup insert overflowing_sub burn_liquidity
    share _burn _transfer_liquidity ◌>>=◌
bench_withdraw = refl

bench_swap_asset_1_for_asset_2 :
    (Trading.swap_asset_1_for_asset_2 test accounts (start 100000)).0 ≡ ok tt
unfolding Trading.swap_asset_1_for_asset_2 Extrinsics.deposit_asset_1
    Extrinsics.swap_asset_1_for_asset_2 build quote get_amount_in transfer_tokens fetch_balance
    transfer_balance integer_sqrt mint_liquidity new_liquidity _mint_fee collect_fee _mint _update
    lookup insert overflowing_sub _swap received adjusted k_holds ◌>>=◌
bench_swap_asset_1_for_asset_2 = refl

bench_swap_asset_2_for_asset_1 :
    (Trading.swap_asset_2_for_asset_1 test accounts (start 100000)).0 ≡ ok tt
unfolding Trading.swap_asset_2_for_asset_1 Extrinsics.deposit_asset_1
    Extrinsics.swap_asset_2_for_asset_1 build quote get_amount_in transfer_tokens fetch_balance
    transfer_balance integer_sqrt mint_liquidity new_liquidity _mint_fee collect_fee _mint _update
    lookup insert overflowing_sub _swap received adjusted k_holds ◌>>=◌
bench_swap_asset_2_for_asset_1 = refl

bench_set_fee_to_and_sync :
    ((Benchmarks.set_fee_to test accounts (start 100000)).0 ≡ ok tt)
    × ((Benchmarks.sync test accounts (start 100000)).0 ≡ ok tt)
unfolding build fetch_balance lookup
bench_set_fee_to_and_sync =
    benchmarks_pass test accounts (start 100000) 1 refl refl (omega arith) (omega arith)
