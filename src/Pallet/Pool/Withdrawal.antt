-- ===== src/Pallet/Pool/Withdrawal.antt =====
-- `withdraw` of the pallet as a step of the pool.
use pendulum_amm.Base.{ℕ, ◌≡◌, ◌≢◌, sym, not, ◌==◌, arith}
use pendulum_amm.Base.Action.{ok, ensure, ◌>>=◌}
use pendulum_amm.Base.Action.Inversion.{continue-ok, continue-unwrap}
use pendulum_amm.Pallet.State.{Config, World, amm, withdraw_without_supply}
use pendulum_amm.Pallet.Token.{_transfer_liquidity}
use pendulum_amm.Pallet.Bank.Lawful.{IsLawful}
use pendulum_amm.Pallet.Extrinsics.{withdraw}
use pendulum_amm.Pool.{Step}
use pendulum_amm.Pallet.Pool.{IsOpen, pool_of}
use pendulum_amm.Pallet.Pool.Liquidity.{pallet_burn-Step}

module _ {O L C : Type 0} (t : Config O L C) (contract : ℕ) where
  -- The shares that come back for burning change nothing but the balances of liquidity tokens.
  record OnlyShares (w u : World L) : Type 0 where
    same_ledger : u.ledger ≡ w.ledger
    same_reserves : u.storage.reserves ≡ w.storage.reserves
    same_supply : u.storage.total_supply ≡ w.storage.total_supply
    same_fee_to : u.storage.fee_to ≡ w.storage.fee_to
    same_account : u.storage.pallet_account_id ≡ w.storage.pallet_account_id

  _transfer_liquidity-OnlyShares :
      (from to n : ℕ) (w : World L) → OnlyShares w (_transfer_liquidity from to n w).1
  unfolding _transfer_liquidity ◌>>=◌
  _transfer_liquidity-OnlyShares from to n w = ground arith

  IsOpen-kept : (w u : World L) → OnlyShares w u → IsOpen t contract w → IsOpen t contract u
  IsOpen-kept w u kept open_pool = record {
    known = rw kept.same_account open_pool.known;
    no_fee = rw kept.same_fee_to open_pool.no_fee;
    some_shares = rw kept.same_supply open_pool.some_shares;
    supply_fits = rw kept.same_supply open_pool.supply_fits;
    product_fits = rw kept.same_reserves open_pool.product_fits;
    covered_0 = rw (kept.same_ledger, kept.same_reserves) open_pool.covered_0;
    covered_1 = rw (kept.same_ledger, kept.same_reserves) open_pool.covered_1;
  }

  Step-kept :
      (w u w' : World L)
      → OnlyShares w u
      → Step (pool_of u) (pool_of w')
      → Step (pool_of w) (pool_of w')
  Step-kept w u w' kept s = rw (sym kept.same_supply, sym kept.same_reserves) s

  pub withdraw-Step :
      IsLawful t
      → (o : O) (n : ℕ) (w w' : World L) → withdraw t o n w ≡ (ok tt, w')
      → IsOpen t contract w
      → ((k : ℕ) → t.ensure_signed o ≡ ok k → contract ≢ k)
      → Step (pool_of w) (pool_of w')
  unfolding withdraw ◌>>=◌
  withdraw-Step lawful o n w w' done open_pool apart =
      let (caller, signed, d0) = continue-ok (t.ensure_signed o) _ _ done in
      let d1 = continue-unwrap w.storage.pallet_account_id _ w open_pool.known d0 in
      let test = ensure (not (w.storage.total_supply == 0)) (amm withdraw_without_supply) w in
      let (_, _, d2) = continue-ok test.0 _ _ d1 in
      let sent = _transfer_liquidity caller contract n w in
      let (_, _, d3) = continue-ok sent.0 _ _ d2 in
      let kept = _transfer_liquidity-OnlyShares caller contract n w in
      Step-kept w sent.1 w' kept (
        pallet_burn-Step t contract lawful caller caller sent.1 w' d3
          (IsOpen-kept w sent.1 kept open_pool) (apart caller signed))
