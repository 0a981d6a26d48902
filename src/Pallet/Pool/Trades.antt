-- ===== src/Pallet/Pool/Trades.antt =====
-- The deposits and swaps of the pallet as steps of the pool.
use pendulum_amm.Base.{ℕ, ◌<◌, ◌≡◌, ◌∙◌, refl, ◌&&◌, ◌==◌, Bool, true, false, if◌then◌else◌}
use pendulum_amm.Base.Action.{Outcome, ok, pure, lift, ◌>>=◌, ◌>>◌}
use pendulum_amm.Base.Action.Inversion.{continue-ok, continue-unwrap}
use pendulum_amm.Base.Word.{max_u128}
use pendulum_amm.Pallet.State.{DispatchError, Config, World}
use pendulum_amm.Pallet.Pricing.{get_amount_in, quote}
use pendulum_amm.Pallet.Bank.{transfer_tokens, storage-transfer_tokens}
use pendulum_amm.Pallet.Liquidity.{mint_liquidity}
use pendulum_amm.Pallet.Extrinsics.{
  deposit_asset_1, deposit_asset_2, swap_asset_1_for_asset_2, swap_asset_2_for_asset_1,
}
use pendulum_amm.Pool.{Step}
use pendulum_amm.Pallet.Pool.{IsOpen, pool_of}
use pendulum_amm.Pallet.Pool.Steps.{mint_after, swap_after}

module _ {O L C : Type 0} (t : Config O L C) (contract : ℕ) where
  -- Both tokens come in, and then the liquidity is granted.
  deposited :
      (caller a b : ℕ) (w u w' : World L)
      → u.storage ≡ w.storage
      → (transfer_tokens t caller contract t.asset_0 a
            >> (transfer_tokens t caller contract t.asset_1 b >> mint_liquidity t caller caller))
          u
        ≡ (ok tt, w')
      → IsOpen t contract w
      → w'.storage.total_supply < max_u128
      → Step (pool_of w) (pool_of w')
  unfolding ◌>>=◌
  deposited caller a b w u w' same done open_pool below =
      let paid_0 = transfer_tokens t caller contract t.asset_0 a u in
      let paid_1 = transfer_tokens t caller contract t.asset_1 b paid_0.1 in
      let (_, _, d) = continue-ok paid_0.0 _ _ done in
      let (_, _, d') = continue-ok paid_1.0 _ _ d in
      mint_after t contract caller w paid_1.1 w'
        (storage-transfer_tokens t caller contract t.asset_1 b paid_0.1
          ∙ storage-transfer_tokens t caller contract t.asset_0 a u
          ∙ same)
        d' open_pool below

  -- The quote of a deposit is only read.
  quoted_storage :
      (b : Bool) (a : ℕ) (o : Outcome DispatchError ℕ) (w : World L)
      → ((if b then pure a else lift o) w).1.storage ≡ w.storage
  unfolding ◌>>=◌
  quoted_storage true a o w = refl
  quoted_storage false a o w = refl

  pub deposit_asset_1-Step :
      (o : O) (amount : ℕ) (w w' : World L)
      → deposit_asset_1 t o amount w ≡ (ok tt, w')
      → IsOpen t contract w
      → w'.storage.total_supply < max_u128
      → Step (pool_of w) (pool_of w')
  unfolding deposit_asset_1 ◌>>=◌
  deposit_asset_1-Step o amount w w' done open_pool below =
      let r = w.storage.reserves in
      let (caller, _, d0) = continue-ok (t.ensure_signed o) _ _ done in
      let d1 = continue-unwrap w.storage.pallet_account_id _ w open_pool.known d0 in
      let first = r.reserve_0 == 0 && r.reserve_1 == 0 in
      let q = quote amount r.reserve_0 r.reserve_1 in
      let quoted = (if first then pure amount else lift q) w in
      let (amount_1, _, d) = continue-ok quoted.0 _ _ d1 in
      deposited caller amount amount_1 w quoted.1 w' (quoted_storage first amount q w) d open_pool
        below

  pub deposit_asset_2-Step :
      (o : O) (amount : ℕ) (w w' : World L)
      → deposit_asset_2 t o amount w ≡ (ok tt, w')
      → IsOpen t contract w
      → w'.storage.total_supply < max_u128
      → Step (pool_of w) (pool_of w')
  unfolding deposit_asset_2 ◌>>=◌
  deposit_asset_2-Step o amount w w' done open_pool below =
      let r = w.storage.reserves in
      let (caller, _, d0) = continue-ok (t.ensure_signed o) _ _ done in
      let d1 = continue-unwrap w.storage.pallet_account_id _ w open_pool.known d0 in
      let first = r.reserve_0 == 0 && r.reserve_1 == 0 in
      let q = quote amount r.reserve_1 r.reserve_0 in
      let quoted = (if first then pure amount else lift q) w in
      let (amount_0, _, d) = continue-ok quoted.0 _ _ d1 in
      deposited caller amount_0 amount w quoted.1 w' (quoted_storage first amount q w) d open_pool
        below

  pub swap_asset_1_for_asset_2-Step :
      (o : O) (n : ℕ) (w w' : World L)
      → swap_asset_1_for_asset_2 t o n w ≡ (ok tt, w')
      → IsOpen t contract w
      → Step (pool_of w) (pool_of w')
  unfolding swap_asset_1_for_asset_2 ◌>>=◌
  swap_asset_1_for_asset_2-Step o n w w' done open_pool =
      let r = w.storage.reserves in
      let (caller, _, d0) = continue-ok (t.ensure_signed o) _ _ done in
      let d1 = continue-unwrap w.storage.pallet_account_id _ w open_pool.known d0 in
      let (a, _, d2) = continue-ok (get_amount_in n r.reserve_0 r.reserve_1) _ _ d1 in
      let paid = transfer_tokens t caller contract t.asset_0 a w in
      let (_, _, d3) = continue-ok paid.0 _ _ d2 in
      swap_after t contract 0 n caller w paid.1 w'
        (storage-transfer_tokens t caller contract t.asset_0 a w) d3 open_pool

  pub swap_asset_2_for_asset_1-Step :
      (o : O) (n : ℕ) (w w' : World L)
      → swap_asset_2_for_asset_1 t o n w ≡ (ok tt, w')
      → IsOpen t contract w
      → Step (pool_of w) (pool_of w')
  unfolding swap_asset_2_for_asset_1 ◌>>=◌
  swap_asset_2_for_asset_1-Step o n w w' done open_pool =
      let r = w.storage.reserves in
      let (caller, _, d0) = continue-ok (t.ensure_signed o) _ _ done in
      let d1 = continue-unwrap w.storage.pallet_account_id _ w open_pool.known d0 in
      let (a, _, d2) = continue-ok (get_amount_in n r.reserve_1 r.reserve_0) _ _ d1 in
      let paid = transfer_tokens t caller contract t.asset_1 a w in
      let (_, _, d3) = continue-ok paid.0 _ _ d2 in
      swap_after t contract n 0 caller w paid.1 w'
        (storage-transfer_tokens t caller contract t.asset_1 a w) d3 open_pool
