-- ===== src/Contract/Tests.antt =====
-- Runs of the prices, the liquidity token and the settings.
mod Trades
mod Pools
mod Rounds
use pendulum_amm.Base.{ℕ, ◌+◌, ◌-◌, ◌*◌, ◌≤◌, ◌<◌, ◌≡◌, refl, none, some, [], ◌∷◌, arith}
use pendulum_amm.Base.Action.{ok, err, panic, ◌>>=◌}
use pendulum_amm.Base.Dict.{lookup, insert, total}
use pendulum_amm.Contract.State.{Asset, Pair, Host, World, insufficient_balance}
use pendulum_amm.Contract.Mock.{
  BalanceMapping, put, fetch_mocked, transfer_mocked, sqrt_u128, add_supply_for_account,
}
use pendulum_amm.Contract.Token.{lp_balance_of, _mint, _burn, _transfer_liquidity}
use pendulum_amm.Contract.Token.Supply.{
  IsBacked, IsExact, _mint-IsExact, _burn-IsExact, _transfer_liquidity-IsExact,
  _transfer_liquidity_refused,
}
use pendulum_amm.Contract.Pricing.{get_amount_in, get_amount_out, quote}
use pendulum_amm.Contract.Pricing.Swap.{
  uniswap_amount_in, get_amount_in_covers, get_amount_in_overcharges, get_amount_in_panics,
  get_amount_out_bounds,
}
use pendulum_amm.Contract.Pricing.Quote.{quote_proportional}
use pendulum_amm.Contract.Bank.{held, InSync, transfer_tokens}
use pendulum_amm.Contract.Reserves.{fee_liquidity, _update, collect_fee, _mint_fee}
use pendulum_amm.Contract.Reserves.Fee.{fee_liquidity_bound}
use pendulum_amm.Contract.Liquidity.{
  share, new_liquidity, finish_mint, mint_liquidity, finish_burn, burn_liquidity,
}
use pendulum_amm.Contract.Liquidity.Minting.{charged, mint_sound}
use pendulum_amm.Contract.Liquidity.Burning.{burn_sound}
use pendulum_amm.Contract.Exchange.{received, adjusted, k_holds, _swap}
use pendulum_amm.Contract.Exchange.Product.{swap_sound}
use pendulum_amm.Contract.Messages
use pendulum_amm.Contract.Calls.{execute, set_fee_to, deposit_asset_1, withdraw, here, call}
use pendulum_amm.Contract.Backing.{Reach-IsBacked}
use pendulum_amm.Contract.Fixtures.{eur, usdc, empty_pair, host, start, pool}
use pendulum_amm.Contract.Authority.{founding, settings, execute-settings, Reach-settings}

pool-IsExact : IsExact (pool 10000 10000)
unfolding total
pool-IsExact = record { supply_fits = omega arith; exact = refl }

pool-IsBacked : IsBacked (pool 10000 10000)
unfolding total
pool-IsBacked = record { supply_fits = omega arith; backed = omega arith }

-- Ten units of the second token cost 10041 of the first, where Uniswap's formula asks for 11.
charge-of-ten : (get_amount_in 10 10000 10000 ≡ ok 10041) × (uniswap_amount_in 10 10000 10000 ≡ 11)
unfolding get_amount_in
charge-of-ten = (refl, refl)

get_amount_in_covers_example :
    (a : ℕ) × (get_amount_in 10 10000 10000 ≡ ok a)
    × (10000 * 10000 * 1000000 ≤ ((10000 + a) * 1000 - a * 3) * ((10000 - 10) * 1000))
get_amount_in_covers_example =
    get_amount_in_covers 10 10000 10000 (omega arith) (omega arith) (omega arith) (omega arith)

get_amount_in_overcharges_example :
    (a : ℕ) × (get_amount_in 10 10000 10000 ≡ ok a) × (uniswap_amount_in 10 10000 10000 + 10000 ≤ a)
get_amount_in_overcharges_example =
    get_amount_in_overcharges 10 10000 10000 (omega arith) (omega arith) (omega arith) (omega arith)

get_amount_in_panics_example : get_amount_in 10000 10000 10000 ≡ panic
get_amount_in_panics_example =
    get_amount_in_panics 10000 10000 10000 (omega arith) (omega arith) (omega arith) (omega arith)

get_amount_out_bounds_example :
    (b : ℕ) × (get_amount_out 100 10000 10000 ≡ ok b)
    × (b < 10000)
    × (10000 * 1000 * 10000 ≤ (10000 * 1000 + 100 * 997) * (10000 - b))
get_amount_out_bounds_example =
    get_amount_out_bounds 100 10000 10000 (omega arith) (omega arith) (omega arith) (omega arith)
      (omega arith)

quote_proportional_example :
    (b : ℕ) × (quote 100 10000 20000 ≡ ok b)
    × (b * 10000 ≤ 100 * 20000)
    × (100 * 20000 < (b + 1) * 10000)
quote_proportional_example =
    quote_proportional 100 10000 20000 (omega arith) (omega arith) (omega arith) (omega arith)

fee_liquidity_bound_example :
    (fee : ℕ) × (fee_liquidity 10000 12000 10000 ≡ ok fee)
    × (fee * (12000 * 6) ≤ (10000 + fee) * (12000 - 10000))
fee_liquidity_bound_example = fee_liquidity_bound 10000 12000 10000 (omega arith) (omega arith)

_mint-IsExact_example :
    let (r, w') = _mint 5 7 (pool 10000 10000) in
    (r ≡ ok tt) × IsExact w' × (w'.pair.total_supply ≡ 10000 + 7) × (lp_balance_of 5 w' ≡ 9007)
unfolding lookup
_mint-IsExact_example = _mint-IsExact 5 7 5 (pool 10000 10000) pool-IsExact (omega arith)

_burn-IsExact_example :
    let (r, w') = _burn 5 7 (pool 10000 10000) in
    (r ≡ ok tt) × IsExact w' × (w'.pair.total_supply + 7 ≡ 10000) × (lp_balance_of 5 w' ≡ 8993)
unfolding lookup
_burn-IsExact_example = _burn-IsExact 5 7 5 (pool 10000 10000) pool-IsExact (omega arith)

_transfer_liquidity-IsExact_example :
    let (r, w') = _transfer_liquidity 5 1 7 (pool 10000 10000) in
    (r ≡ ok tt) × IsExact w' × (w'.pair.total_supply ≡ 10000) × (lp_balance_of 5 w' + 7 ≡ 9000 + 0)
unfolding lookup
_transfer_liquidity-IsExact_example =
    _transfer_liquidity-IsExact 5 1 7 5 (pool 10000 10000) pool-IsExact (omega arith)

overdrawn_transfer :
    _transfer_liquidity 5 1 9001 (pool 10000 10000) ≡ (err insufficient_balance, pool 10000 10000)
unfolding lookup
overdrawn_transfer = _transfer_liquidity_refused 5 1 9001 (pool 10000 10000) (omega arith)

Reach-IsBacked_example :
    IsBacked
      (execute host (withdraw 100) (execute host (deposit_asset_1 500) (pool 10000 10000)).1).1
Reach-IsBacked_example =
    Reach-IsBacked pool-IsBacked (call (call here host (deposit_asset_1 500)) host (withdraw 100))

-- The setter may choose the receiver of the fee, others may not.
execute-settings_example :
    settings (execute host (set_fee_to 9) (pool 10000 10000)).1.pair ≡ (some 9, (5, eur, usdc))
execute-settings_example = execute-settings host (set_fee_to 9) (pool 10000 10000)

Reach-settings_example :
    founding
      (execute host (set_fee_to 9) (execute host (deposit_asset_1 500) (pool 10000 10000)).1).1.pair
    ≡ (5, eur, usdc)
Reach-settings_example =
    Reach-settings {s = pool 10000 10000}
      (call (call here host (deposit_asset_1 500)) host (set_fee_to 9))
