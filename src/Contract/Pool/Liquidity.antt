-- ===== src/Contract/Pool/Liquidity.antt =====
-- `mint` and `burn` as steps of the pool.
use pendulum_amm.Base.{ℕ, ◌-◌, ◌*◌, ◌≤◌, ◌<◌, ◌≡◌, ◌≢◌, sym, none, arith}
use pendulum_amm.Base.Action.{ok, ◌>>=◌}
use pendulum_amm.Base.Products.{left_over}
use pendulum_amm.Base.Word.{max_u128}
use pendulum_amm.Contract.State.{Host, World}
use pendulum_amm.Contract.Token.{lp_balance_of}
use pendulum_amm.Contract.Bank.{held}
use pendulum_amm.Contract.Bank.Lawful.{IsLawful}
use pendulum_amm.Contract.Reserves.{collect_fee, _mint_fee}
use pendulum_amm.Contract.Liquidity.{mint_liquidity, burn_liquidity}
use pendulum_amm.Contract.Liquidity.Minting.{
  charged, surplus_0, surplus_1, mint_run, mint_sound, new_liquidity_shares,
}
use pendulum_amm.Contract.Liquidity.Burning.{burn_sound, burn_reserves}
use pendulum_amm.Pool.{Step, share}
use pendulum_amm.Contract.Pool.{IsOpen, pool_of}
use pendulum_amm.Contract.Pool.Payout.{burn_leaves}

module _ {L : Type 0} (h : Host L) where
  -- Without a receiver of the fee, the supply stays.
  charged_supply :
      (w : World L) → w.pair.fee_to ≡ none → (charged h w).pair.total_supply ≡ w.pair.total_supply
  unfolding _mint_fee collect_fee ◌>>=◌
  charged_supply w no_fee = ground arith

  pub mint_liquidity-Step :
      (to n : ℕ) (w w' : World L)
      → mint_liquidity h to w ≡ (ok n, w')
      → w.pair.fee_to ≡ none
      → 0 < w.pair.total_supply
      → w.pair.total_supply ≤ max_u128
      → w'.pair.total_supply < max_u128
      → Step (pool_of w) (pool_of w')
  mint_liquidity-Step to n w w' done no_fee started fits below =
      let run = mint_run h to n w w' done in
      let charged_same = charged_supply w no_fee in
      let t : ℕ = (charged h w).pair.total_supply in
      let (_, _, same) =
        new_liquidity_shares h t (surplus_0 h w) (surplus_1 h w) w.pair.reserve_0 w.pair.reserve_1 n
          (charged h w) (omega arith) run.fresh in
      let base : w'.pair.total_supply - n ≡ w.pair.total_supply =
        omega (arith, run.supply, same, charged_same) in
      let (_, _, left, right, _) = mint_sound h to n w w' done started fits below in
      share (pool_of w') (rw (sym base) left) (rw (sym base) right)

  -- The conditions are those of an open pool whose tokens move as they promise.
  pub burn_liquidity-Step :
      IsLawful h
      → (to x y : ℕ) (w w' : World L) → burn_liquidity h to w ≡ (ok (x, y), w')
      → IsOpen h w
      → h.account_id ≢ to
      → w.pair.asset_0 ≢ w.pair.asset_1
      → Step (pool_of w) (pool_of w')
  burn_liquidity-Step lawful to x y w w' done open_pool apart distinct =
      let same = charged_supply w open_pool.no_fee in
      let t : ℕ = w.pair.total_supply in
      let l : ℕ = lp_balance_of h.account_id w in
      let c : ℕ = held h w.ledger h.account_id w.pair.asset_0 in
      let d : ℕ = held h w.ledger h.account_id w.pair.asset_1 in
      let (_, _, part_0, part_1, _, supply, sync, _) =
        burn_sound h to x y w w' done open_pool.supply_fits in
      let (_, _, rest_0, rest_1) = burn_leaves h lawful to x y w w' done apart distinct in
      let part_0' : x * t ≤ l * c = rw (sym same) part_0 in
      let part_1' : y * t ≤ l * d = rw (sym same) part_1 in
      let total : w'.pair.total_supply ≡ t - l = omega (arith, supply, same) in
      let (now_0, now_1) = burn_reserves h to x y w w' done in
      share (pool_of w')
        (rw (total, now_0, rest_0) (left_over w.pair.reserve_0 c t l x open_pool.covered_0 part_0'))
        (rw (total, now_1, rest_1) (left_over w.pair.reserve_1 d t l y open_pool.covered_1 part_1'))
