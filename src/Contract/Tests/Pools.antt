-- ===== src/Contract/Tests/Pools.antt =====
-- A swap and a withdrawal as steps of the pool.
use pendulum_amm.Base.{◌≡◌, ◌≢◌, refl, arith}
use pendulum_amm.Base.Action.{ok, ◌>>=◌}
use pendulum_amm.Base.Dict.{lookup, insert}
use pendulum_amm.Contract.State.{Host, World}
use pendulum_amm.Contract.Mock.{BalanceMapping, fetch_mocked, transfer_mocked}
use pendulum_amm.Contract.Mock.Lawful.{host-IsLawful}
use pendulum_amm.Contract.Token.{_burn, _transfer_liquidity}
use pendulum_amm.Contract.Pricing.{get_amount_in}
use pendulum_amm.Contract.Bank.{held, InSync, transfer_tokens}
use pendulum_amm.Contract.Reserves.{accumulate, _update, collect_fee, _mint_fee}
use pendulum_amm.Contract.Reserves.Oracle.{sync_leaves_no_trace}
use pendulum_amm.Contract.Liquidity.{share, finish_burn, burn_liquidity}
use pendulum_amm.Contract.Exchange.{received, adjusted, k_holds, _swap}
use pendulum_amm.Contract.Messages
use pendulum_amm.Contract.Calls.{execute, withdraw, swap_asset_1_for_asset_2}
use pendulum_amm.Pool.{Step, NoLoss}
use pendulum_amm.Contract.Pool.{IsOpen, pool_of}
use pendulum_amm.Contract.Pool.Runs.{Run, opened, called, execute-Step, Run-NoLoss}
use pendulum_amm.Contract.Fixtures.{eur, usdc, host, pool}

abbrev swapped_out : World BalanceMapping
swapped_out = (execute host (swap_asset_1_for_asset_2 10) (pool 10000 10000)).1

swapped_out_done :
    execute host (swap_asset_1_for_asset_2 10) (pool 10000 10000) ≡ (ok tt, swapped_out)
unfolding execute Messages.swap_asset_1_for_asset_2 get_amount_in _swap transfer_tokens held
    fetch_mocked transfer_mocked received adjusted k_holds _update ◌>>=◌
swapped_out_done = refl

swapped_out_supply : swapped_out.pair.total_supply ≡ 10000
unfolding execute Messages.swap_asset_1_for_asset_2 get_amount_in _swap transfer_tokens held
    fetch_mocked transfer_mocked received adjusted k_holds _update ◌>>=◌
swapped_out_supply = refl

pool-IsOpen : IsOpen host (pool 10000 10000)
unfolding held fetch_mocked
pool-IsOpen = record {
  no_fee = refl;
  some_shares = omega arith;
  supply_fits = omega arith;
  product_fits = omega arith;
  covered_0 = omega arith;
  covered_1 = omega arith;
}

apart : host.account_id ≢ host.caller
apart e = omega (arith, e)

two_assets : eur ≢ usdc
two_assets e = cc

execute-Step_example : Step (pool_of (pool 10000 10000)) (pool_of swapped_out)
execute-Step_example =
    execute-Step host host-IsLawful (swap_asset_1_for_asset_2 10) (pool 10000 10000) swapped_out
      swapped_out_done pool-IsOpen (omega (arith, swapped_out_supply)) apart two_assets

-- The swap, and then the withdrawal of 1000 shares.
swapped_out-IsOpen : IsOpen host swapped_out
unfolding execute Messages.swap_asset_1_for_asset_2 get_amount_in _swap transfer_tokens held
    fetch_mocked transfer_mocked received adjusted k_holds _update ◌>>=◌
swapped_out-IsOpen = record {
  no_fee = refl;
  some_shares = omega arith;
  supply_fits = omega arith;
  product_fits = omega arith;
  covered_0 = omega arith;
  covered_1 = omega arith;
}

swapped_out_assets : swapped_out.pair.asset_0 ≢ swapped_out.pair.asset_1
unfolding execute Messages.swap_asset_1_for_asset_2 get_amount_in _swap transfer_tokens held
    fetch_mocked transfer_mocked received adjusted k_holds _update ◌>>=◌
swapped_out_assets = two_assets

abbrev paid_out : World BalanceMapping
paid_out = (execute host (withdraw 1000) swapped_out).1

paid_out_done : execute host (withdraw 1000) swapped_out ≡ (ok tt, paid_out)
unfolding execute Messages.swap_asset_1_for_asset_2 Messages.withdraw get_amount_in _swap
    transfer_tokens held fetch_mocked transfer_mocked received adjusted k_holds _update
    _transfer_liquidity burn_liquidity share finish_burn _mint_fee collect_fee _burn lookup insert
    ◌>>=◌
paid_out_done = refl

paid_out_supply : paid_out.pair.total_supply ≡ 9000
unfolding execute Messages.swap_asset_1_for_asset_2 Messages.withdraw get_amount_in _swap
    transfer_tokens held fetch_mocked transfer_mocked received adjusted k_holds _update
    _transfer_liquidity burn_liquidity share finish_burn _mint_fee collect_fee _burn lookup insert
    ◌>>=◌
paid_out_supply = refl

two_calls : Run (pool 10000 10000) paid_out
two_calls =
    called
      (called opened host host-IsLawful (swap_asset_1_for_asset_2 10) swapped_out swapped_out_done
        pool-IsOpen (omega (arith, swapped_out_supply)) apart two_assets)
      host host-IsLawful (withdraw 1000) paid_out paid_out_done swapped_out-IsOpen
      (omega (arith, paid_out_supply)) apart swapped_out_assets

Run-NoLoss_example : NoLoss (pool_of (pool 10000 10000)) (pool_of paid_out)
Run-NoLoss_example = Run-NoLoss two_calls

-- A `sync` at time 50 and an update at time 100.
abbrev early : Host BalanceMapping
early = record host { block_timestamp = 50 }

abbrev later : Host BalanceMapping
later = record host { block_timestamp = 100 }

early-InSync : InSync early (pool 10000 10000)
unfolding held fetch_mocked
early-InSync = record { first = refl; second = refl }

sync_leaves_no_trace_example :
    (_update later 10500 9600 10000 10000 (Messages.sync early (pool 10000 10000)).1).1.pair
    ≡ (_update later 10500 9600 10000 10000 (pool 10000 10000)).1.pair
sync_leaves_no_trace_example =
    sync_leaves_no_trace early later 10500 9600 (pool 10000 10000) early-InSync (omega arith)
      (omega arith) (omega arith) (omega arith, omega arith)

-- The price of one for the time of 100.
price_after :
    (_update later 10500 9600 10000 10000 (pool 10000 10000)).1.pair.price_0_cumulative_last ≡ 100
unfolding _update accumulate ◌>>=◌
price_after = refl
