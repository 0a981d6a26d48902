-- ===== src/Pallet/Pool/Steps.antt =====
-- The pallet's calls as steps of the pool.
use pendulum_amm.Base.{ℕ, ◌≤◌, ◌<◌, ◌≡◌, ◌∙◌, sym, refl, ap, Option, none, some, arith}
use pendulum_amm.Base.Action.{Outcome, ok, ◌>>=◌}
use pendulum_amm.Base.Action.Inversion.{continue-ok, continue-unwrap}
use pendulum_amm.Base.Nonlinear.{mul_mono}
use pendulum_amm.Base.Word.{max_u128, checked_sub}
use pendulum_amm.Pallet.State.{DispatchError, Storage, Config, World}
use pendulum_amm.Pallet.Bank.{storage-transfer_tokens}
use pendulum_amm.Pallet.Reserves.{_update}
use pendulum_amm.Pallet.Reserves.Frame.{_update_lem}
use pendulum_amm.Pallet.Exchange.{_swap}
use pendulum_amm.Pallet.Exchange.Product.{pallet_swap_sound}
use pendulum_amm.Pallet.Liquidity.{mint_liquidity}
use pendulum_amm.Pallet.Extrinsics.{set_fee_to, send_surplus, skim, sync}
use pendulum_amm.Pool.{Step, trade}
use pendulum_amm.Pallet.Pool.{IsOpen, pool_of}
use pendulum_amm.Pallet.Pool.Liquidity.{pallet_mint-Step}

module _ {O L C : Type 0} (t : Config O L C) (contract : ℕ) where
  -- A write that leaves the storage alone, before a step.
  Step-after :
      (w u w' : World L)
      → u.storage ≡ w.storage
      → Step (pool_of u) (pool_of w')
      → Step (pool_of w) (pool_of w')
  Step-after w u w' same s = rw (sym same) s

  unmoved : (w w' : World L) → w'.storage ≡ w.storage → Step (pool_of w) (pool_of w')
  unmoved w w' same =
      trade (pool_of w') (ap (λ (p : Storage). p.total_supply) same) (rw same (omega arith))

  pub mint_after :
      (caller : ℕ) (w u w' : World L)
      → u.storage ≡ w.storage
      → mint_liquidity t caller caller u ≡ (ok tt, w')
      → IsOpen t contract w
      → w'.storage.total_supply < max_u128
      → Step (pool_of w) (pool_of w')
  mint_after caller w u w' same done open_pool below = Step-after w u w' same (
      pallet_mint-Step t contract caller caller u w' done (rw same open_pool.known)
        (rw same open_pool.no_fee) (rw same open_pool.some_shares) (rw same open_pool.supply_fits)
        below)

  pub swap_after :
      (a b caller : ℕ) (w u w' : World L)
      → u.storage ≡ w.storage
      → _swap t a b caller caller u ≡ (ok tt, w')
      → IsOpen t contract w
      → Step (pool_of w) (pool_of w')
  swap_after a b caller w u w' same done open_pool =
      let (grown, _, supply, _, _, _) =
        pallet_swap_sound t a b caller caller contract u (rw same open_pool.known) w' done
          (rw same open_pool.product_fits) in
      Step-after w u w' same (trade (pool_of w') supply grown)

  synced :
      (a b : ℕ) (w w' : World L)
      → w'.storage.total_supply ≡ w.storage.total_supply
      → w'.storage.reserves.reserve_0 ≡ a
      → w'.storage.reserves.reserve_1 ≡ b
      → w.storage.reserves.reserve_0 ≤ a
      → w.storage.reserves.reserve_1 ≤ b
      → Step (pool_of w) (pool_of w')
  synced a b w w' same new_0 new_1 le_0 le_1 =
      trade (pool_of w') same (rw (new_0, new_1) (mul_mono _ _ _ _ le_0 le_1))

  send_surplus_storage :
      (to : ℕ) (s : C) (o : Option ℕ) (w : World L)
      → (send_surplus t contract to s o w).1.storage ≡ w.storage
  unfolding send_surplus ◌>>=◌
  send_surplus_storage to s none w = refl
  send_surplus_storage to s (some n) w = storage-transfer_tokens t contract to s n w

  -- `skim` and `set_fee_to` do not touch the pool.
  pub skim-Step :
      (o : O) (w w' : World L)
      → skim t o w ≡ (ok tt, w')
      → IsOpen t contract w
      → Step (pool_of w) (pool_of w')
  unfolding skim ◌>>=◌
  skim-Step o w w' done open_pool =
      let r = w.storage.reserves in
      let (to, _, d0) = continue-ok (t.ensure_signed o) _ _ done in
      let d1 = continue-unwrap w.storage.pallet_account_id _ w open_pool.known d0 in
      let over =
        checked_sub (t.amm_extension.fetch_balance w.ledger contract t.asset_0) r.reserve_0 in
      let first = send_surplus t contract to t.asset_0 over w in
      let (_, _, d) = continue-ok first.0 _ _ d1 in
      let over' =
        checked_sub (t.amm_extension.fetch_balance first.1.ledger contract t.asset_1) r.reserve_1 in
      let end : (send_surplus t contract to t.asset_1 over' first.1).1 ≡ w' =
        ap (λ (p : Outcome DispatchError Unit × World L). p.1) d in
      unmoved w w' (
        ap (λ (v : World L). v.storage) (sym end)
        ∙ send_surplus_storage to t.asset_1 over' first.1
        ∙ send_surplus_storage to t.asset_0 over w)

  pub set_fee_to-Step :
      (o : O) (to : ℕ) (w w' : World L)
      → set_fee_to t o to w ≡ (ok tt, w')
      → Step (pool_of w) (pool_of w')
  unfolding set_fee_to ◌>>=◌
  set_fee_to-Step o to w w' done = trade (pool_of w') (ground arith) (ground arith)

  pub sync-Step :
      (o : O) (w w' : World L)
      → sync t o w ≡ (ok tt, w')
      → IsOpen t contract w
      → Step (pool_of w) (pool_of w')
  unfolding sync ◌>>=◌
  sync-Step o w w' done open_pool =
      let a : ℕ = t.amm_extension.fetch_balance w.ledger contract t.asset_0 in
      let b : ℕ = t.amm_extension.fetch_balance w.ledger contract t.asset_1 in
      let r : ℕ = w.storage.reserves.reserve_0 in
      let s : ℕ = w.storage.reserves.reserve_1 in
      let (_, _, d0) = continue-ok (t.ensure_signed o) _ _ done in
      let d1 = continue-unwrap w.storage.pallet_account_id _ w open_pool.known d0 in
      let set = _update_lem t w a b r s in
      let end : w' ≡ (_update t a b r s w).1 =
        sym (ap (λ (p : Outcome DispatchError Unit × World L). p.1) d1) in
      synced a b w w' (ap (λ (v : World L). v.storage.total_supply) end ∙ set.same_supply)
        (ap (λ (v : World L). v.storage.reserves.reserve_0) end ∙ set.new_reserve_0)
        (ap (λ (v : World L). v.storage.reserves.reserve_1) end ∙ set.new_reserve_1)
        open_pool.covered_0 open_pool.covered_1
