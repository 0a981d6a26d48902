-- ===== src/Contract/Pool/Withdrawal.antt =====
-- `withdraw` as a step of the pool.
use pendulum_amm.Base.{ℕ, ◌≡◌, ◌≢◌, sym, ◌==◌, false, arith}
use pendulum_amm.Base.Action.{ok, ◌>>=◌}
use pendulum_amm.Base.Action.Inversion.{continue-ok}
use pendulum_amm.Contract.State.{Host, World}
use pendulum_amm.Contract.Token.{_transfer_liquidity}
use pendulum_amm.Contract.Bank.Lawful.{IsLawful}
use pendulum_amm.Contract.Messages.{withdraw}
use pendulum_amm.Pool.{Step}
use pendulum_amm.Contract.Pool.{IsOpen, pool_of}
use pendulum_amm.Contract.Pool.Liquidity.{burn_liquidity-Step}

module _ {L : Type 0} (h : Host L) where
  -- The shares that come back for burning change nothing but the balances of liquidity tokens.
  record OnlyShares (w u : World L) : Type 0 where
    same_ledger : u.ledger ≡ w.ledger
    same_asset_0 : u.pair.asset_0 ≡ w.pair.asset_0
    same_asset_1 : u.pair.asset_1 ≡ w.pair.asset_1
    same_reserve_0 : u.pair.reserve_0 ≡ w.pair.reserve_0
    same_reserve_1 : u.pair.reserve_1 ≡ w.pair.reserve_1
    same_supply : u.pair.total_supply ≡ w.pair.total_supply
    same_fee_to : u.pair.fee_to ≡ w.pair.fee_to

  _transfer_liquidity-OnlyShares :
      (from to n : ℕ) (w : World L) → OnlyShares w (_transfer_liquidity from to n w).1
  unfolding _transfer_liquidity ◌>>=◌
  _transfer_liquidity-OnlyShares from to n w = ground arith

  IsOpen-kept : (w u : World L) → OnlyShares w u → IsOpen h w → IsOpen h u
  IsOpen-kept w u kept open_pool = record {
    no_fee = rw kept.same_fee_to open_pool.no_fee;
    some_shares = rw kept.same_supply open_pool.some_shares;
    supply_fits = rw kept.same_supply open_pool.supply_fits;
    product_fits = rw (kept.same_reserve_0, kept.same_reserve_1) open_pool.product_fits;
    covered_0 = rw (kept.same_ledger, kept.same_asset_0, kept.same_reserve_0) open_pool.covered_0;
    covered_1 = rw (kept.same_ledger, kept.same_asset_1, kept.same_reserve_1) open_pool.covered_1;
  }

  Step-kept :
      (w u w' : World L)
      → OnlyShares w u
      → Step (pool_of u) (pool_of w')
      → Step (pool_of w) (pool_of w')
  Step-kept w u w' kept s =
      rw (sym kept.same_supply, sym kept.same_reserve_0, sym kept.same_reserve_1) s

  pub withdraw-Step :
      IsLawful h
      → (n x y : ℕ) (w w' : World L) → withdraw h n w ≡ (ok (x, y), w')
      → IsOpen h w
      → h.account_id ≢ h.caller
      → w.pair.asset_0 ≢ w.pair.asset_1
      → Step (pool_of w) (pool_of w')
  unfolding withdraw ◌>>=◌
  withdraw-Step lawful n x y w w' done open_pool apart distinct =
      let w1 = (_transfer_liquidity h.caller h.account_id n w).1 in
      let some_shares : (w.pair.total_supply == 0) ≡ false = ground arith in
      let (_, _, d) =
        continue-ok (_transfer_liquidity h.caller h.account_id n w).0 _ _
          (rw some_shares at done) in
      let kept = _transfer_liquidity-OnlyShares h.caller h.account_id n w in
      Step-kept w w1 w' kept (
        burn_liquidity-Step h lawful h.caller x y w1 w' d (IsOpen-kept w w1 kept open_pool) apart
          (rw (kept.same_asset_0, kept.same_asset_1) distinct))
