-- ===== src/Contract/Tests/Rounds.antt =====
-- A deposit with its withdrawal, and the outcomes of messages.
use pendulum_amm.Base.{◌≤◌, ◌≡◌, ◌≢◌, refl, arith}
use pendulum_amm.Base.Action.{ok, panic, ◌>>=◌}
use pendulum_amm.Base.Dict.{value, lookup, insert}
use pendulum_amm.Base.Word.{max_u128}
use pendulum_amm.Contract.State.{World}
use pendulum_amm.Contract.Mock.{BalanceMapping, fetch_mocked, transfer_mocked}
use pendulum_amm.Contract.Mock.Lawful.{host-IsLawful}
use pendulum_amm.Contract.Token.{_mint, _burn, _transfer_liquidity}
use pendulum_amm.Contract.Pricing.{quote}
use pendulum_amm.Contract.Bank.{held, InSync, transfer_tokens}
use pendulum_amm.Contract.Reserves.{_update, collect_fee, _mint_fee}
use pendulum_amm.Contract.Liquidity.{
  share, new_liquidity, finish_mint, mint_liquidity, finish_burn, burn_liquidity,
}
use pendulum_amm.Contract.Messages
use pendulum_amm.Contract.Calls.{withdraw}
use pendulum_amm.Contract.Exchange.Mirrored.{mirrored}
use pendulum_amm.Contract.Exchange.Mirrored.Swaps.{swap_mirrored}
use pendulum_amm.Contract.Pool.RoundTrip.Gain.{deposit_withdraw_no_gain}
use pendulum_amm.Contract.Fixtures.{eur, usdc, host, pool}

abbrev deposited : World BalanceMapping
deposited = (Messages.deposit_asset_1 host 500 (pool 10000 10000)).1

deposited_done : Messages.deposit_asset_1 host 500 (pool 10000 10000) ≡ (ok 500, deposited)
unfolding Messages.deposit_asset_1 quote transfer_tokens held fetch_mocked transfer_mocked
    mint_liquidity new_liquidity share finish_mint _mint_fee collect_fee _mint _update lookup insert
    ◌>>=◌
deposited_done = refl

deposited_supply : deposited.pair.total_supply ≡ 10500
unfolding Messages.deposit_asset_1 quote transfer_tokens held fetch_mocked transfer_mocked
    mint_liquidity new_liquidity share finish_mint _mint_fee collect_fee _mint _update lookup insert
    ◌>>=◌
deposited_supply = refl

abbrev withdrawn : World BalanceMapping
withdrawn = (Messages.withdraw host 500 deposited).1

withdrawn_done : Messages.withdraw host 500 deposited ≡ (ok (500, 500), withdrawn)
unfolding Messages.deposit_asset_1 Messages.withdraw quote transfer_tokens held fetch_mocked
    transfer_mocked mint_liquidity new_liquidity share finish_mint _mint_fee collect_fee _mint
    _update _transfer_liquidity burn_liquidity finish_burn _burn lookup insert ◌>>=◌
withdrawn_done = refl

quoted : quote 500 10000 10000 ≡ ok 500
unfolding quote
quoted = refl

in_step : InSync host (pool 10000 10000)
unfolding held fetch_mocked
in_step = record { first = refl; second = refl }

no_own_shares : value 1 (pool 10000 10000).pair.lp_balances ≡ 0
unfolding lookup
no_own_shares = refl

not_the_contract : host.caller ≢ host.account_id
not_the_contract e = omega (arith, e)

two_assets : eur ≢ usdc
two_assets e = cc

owned :
    (held host (pool 10000 10000).ledger 5 eur ≤ max_u128)
    × (held host (pool 10000 10000).ledger 5 usdc ≤ max_u128)
unfolding held fetch_mocked
owned = (omega arith, omega arith)

deposit_withdraw_no_gain_example :
    (500 ≤ 500)
    × (500 ≤ 500)
    × (held host withdrawn.ledger 5 eur ≤ held host (pool 10000 10000).ledger 5 eur)
    × (held host withdrawn.ledger 5 usdc ≤ held host (pool 10000 10000).ledger 5 usdc)
deposit_withdraw_no_gain_example =
    deposit_withdraw_no_gain host host-IsLawful 500 500 500 500 500 (pool 10000 10000) deposited
      withdrawn deposited_done withdrawn_done quoted in_step (omega arith) refl (omega arith)
      (omega (arith, deposited_supply)) no_own_shares not_the_contract two_assets (omega arith)
      (omega arith) owned.0 owned.1

-- The swap messages on the pool and on its mirror image.
swap_mirrored_example :
    let (outcome, w') = Messages.swap_asset_1_for_asset_2 host 10 (pool 10000 10000) in
    Messages.swap_asset_2_for_asset_1 host 10 (mirrored (pool 10000 10000)) ≡ (outcome, mirrored w')
swap_mirrored_example = swap_mirrored host 10 (pool 10000 10000)

-- On a status that the contract does not know, a `sync` panics.
unknown_status :
    (Messages.sync (record host { fetch_balance = λ l owner asset. panic }) (pool 10000 10000)).0
    ≡ panic
unfolding Messages.sync ◌>>=◌
unknown_status = refl
