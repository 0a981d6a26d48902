-- ===== src/Contract/Tests/Trades.antt =====
-- Runs of deposits, withdrawals and swaps.
use pendulum_amm.Base.{ℕ, ◌+◌, ◌-◌, ◌*◌, ◌≤◌, ◌<◌, ◌≡◌, ◌≢◌, refl, [], ◌∷◌, arith}
use pendulum_amm.Base.Action.{ok, ◌>>=◌}
use pendulum_amm.Base.Dict.{lookup, insert}
use pendulum_amm.Contract.State.{World}
use pendulum_amm.Contract.Mock.{BalanceMapping, fetch_mocked, transfer_mocked, sqrt_u128}
use pendulum_amm.Contract.Token.{lp_balance_of, _mint, _burn}
use pendulum_amm.Contract.Pricing.{quote}
use pendulum_amm.Contract.Bank.{held, InSync, transfer_tokens}
use pendulum_amm.Contract.Reserves.{_update, collect_fee, _mint_fee}
use pendulum_amm.Contract.Liquidity.{
  share, new_liquidity, finish_mint, mint_liquidity, finish_burn, burn_liquidity,
}
use pendulum_amm.Contract.Liquidity.Minting.{charged, mint_sound}
use pendulum_amm.Contract.Liquidity.Payment.{IsPaid}
use pendulum_amm.Contract.Liquidity.Burning.{burn_sound}
use pendulum_amm.Contract.Exchange.{received, adjusted, k_holds, _swap}
use pendulum_amm.Contract.Mock.Lawful.{host-IsLawful, host-Answers}
use pendulum_amm.Contract.Pricing.{get_amount_in}
use pendulum_amm.Contract.Exchange.Success.{swap_asset_1_for_asset_2_succeeds}
use pendulum_amm.Contract.Exchange.Product.{swap_sound}
use pendulum_amm.Contract.Messages
use pendulum_amm.Contract.Fixtures.{eur, usdc, host, start, pool}

-- The deposit of the contract's test grants 9000 shares.
deposit_grants : (Messages.deposit_asset_1 host 10000 (start 100000)).0 ≡ ok 9000
unfolding Messages.deposit_asset_1 quote transfer_tokens held fetch_mocked transfer_mocked sqrt_u128
    mint_liquidity new_liquidity finish_mint _mint_fee collect_fee _mint _update lookup insert ◌>>=◌
deposit_grants = refl

-- A swap of ten units of the second token after 10041 of the first have come in.
abbrev swapped : World BalanceMapping
swapped = (_swap host 0 10 5 (pool 20041 10000)).1

swapped_done : _swap host 0 10 5 (pool 20041 10000) ≡ (ok tt, swapped)
unfolding _swap transfer_tokens held fetch_mocked transfer_mocked received adjusted k_holds _update
    ◌>>=◌
swapped_done = refl

swap_sound_example :
    (10000 * 10000 ≤ swapped.pair.reserve_0 * swapped.pair.reserve_1)
    × InSync host swapped
    × (swapped.pair.total_supply ≡ 10000)
    × (swapped.pair.lp_balances ≡ (0, 1000) ∷ (5, 9000) ∷ [])
    × (0 < 10000)
    × (10 < 10000)
swap_sound_example = swap_sound host 0 10 5 (pool 20041 10000) swapped swapped_done (omega arith)

-- 500 of each token have come in for liquidity.
abbrev minted : World BalanceMapping
minted = (mint_liquidity host 5 (pool 10500 10500)).1

minted_done : mint_liquidity host 5 (pool 10500 10500) ≡ (ok 500, minted)
unfolding mint_liquidity held fetch_mocked new_liquidity share finish_mint _mint_fee collect_fee
    _mint _update lookup insert ◌>>=◌
minted_done = refl

minted_supply : minted.pair.total_supply ≡ 10500
unfolding mint_liquidity held fetch_mocked new_liquidity share finish_mint _mint_fee collect_fee
    _mint _update lookup insert ◌>>=◌
minted_supply = refl

mint_sound_example :
    (0 < 500)
    × (10000 + 500 ≤ minted.pair.total_supply)
    × (10000 * minted.pair.total_supply ≤ minted.pair.reserve_0 * (minted.pair.total_supply - 500))
    × (10000 * minted.pair.total_supply ≤ minted.pair.reserve_1 * (minted.pair.total_supply - 500))
    × InSync host minted
mint_sound_example =
    mint_sound host 5 500 (pool 10500 10500) minted minted_done (omega arith) (omega arith)
      (omega (arith, minted_supply))

-- The contract has 2000 shares to burn.
abbrev returned : World BalanceMapping
returned = record (pool 10000 10000) {
  pair = record (pool 10000 10000).pair { lp_balances = (1, 2000) ∷ (5, 8000) ∷ [] };
}

abbrev burned : World BalanceMapping
burned = (burn_liquidity host 5 returned).1

burned_done : burn_liquidity host 5 returned ≡ (ok (2000, 2000), burned)
unfolding burn_liquidity held fetch_mocked transfer_mocked transfer_tokens share finish_burn
    _mint_fee collect_fee _burn _update lookup insert ◌>>=◌
burned_done = refl

burn_sound_example :
    let supply : ℕ = (charged host returned).pair.total_supply in
    let shares : ℕ = lp_balance_of 1 returned in
    (0 < 2000)
    × (0 < 2000)
    × (2000 * supply ≤ shares * held host returned.ledger 1 eur)
    × (2000 * supply ≤ shares * held host returned.ledger 1 usdc)
    × (10000 ≤ supply)
    × (burned.pair.total_supply ≡ supply - shares)
    × InSync host burned
    × IsPaid host 5 eur usdc returned.ledger 2000 2000 burned.ledger
burn_sound_example = burn_sound host 5 2000 2000 returned burned burned_done (omega arith)

pool-InSync : InSync host (pool 10000 10000)
unfolding held fetch_mocked
pool-InSync = record { first = refl; second = refl }

distinct_assets : usdc ≢ eur
distinct_assets e = cc

price-of-ten : get_amount_in 10 10000 10000 ≡ ok 10041
unfolding get_amount_in
price-of-ten = refl

payable : 10041 ≤ held host (pool 10000 10000).ledger 5 eur
unfolding held fetch_mocked
payable = omega arith

swap_asset_1_for_asset_2_succeeds_example :
    (Messages.swap_asset_1_for_asset_2 host 10 (pool 10000 10000)).0 ≡ ok tt
swap_asset_1_for_asset_2_succeeds_example =
    swap_asset_1_for_asset_2_succeeds host host-IsLawful host-Answers 10 10041 (pool 10000 10000)
      (omega arith) distinct_assets pool-InSync (omega arith) (omega arith) (omega arith)
      (omega arith) price-of-ten payable (omega arith)
