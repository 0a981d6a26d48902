-- ===== src/Pallet/Benchmarks/Passing.antt =====
-- The benchmarks of `set_fee_to` and `sync` on any state of the pallet.
use pendulum_amm.Base.{ℕ, ◌≡◌, ◌≢◌, some, arith}
use pendulum_amm.Base.Action.{ok, ◌>>=◌}
use pendulum_amm.Pallet.State.{Config, World}
use pendulum_amm.Pallet.Reserves.{_update}
use pendulum_amm.Pallet.Extrinsics
use pendulum_amm.Pallet.Benchmarks.{Accounts, set_fee_to, sync}

module _ {O L C : Type 0} (t : Config O L C) (a : Accounts O) where
  set_fee_to_passes :
      (w : World L)
      → t.ensure_signed (a.signed a.whitelisted_caller) ≡ ok a.whitelisted_caller
      → (set_fee_to t a w).0 ≡ ok tt
  unfolding set_fee_to Extrinsics.set_fee_to ◌>>=◌
  set_fee_to_passes w signed = ground arith

  sync_passes :
      (w : World L) (contract : ℕ)
      → t.ensure_signed (a.signed a.whitelisted_caller) ≡ ok a.whitelisted_caller
      → w.storage.pallet_account_id ≡ some contract
      → t.amm_extension.fetch_balance w.ledger contract t.asset_0 ≢ 10
      → t.amm_extension.fetch_balance w.ledger contract t.asset_1 ≢ 5
      → (sync t a w).0 ≡ ok tt
  unfolding sync Extrinsics.sync ◌>>=◌ _update
  sync_passes w contract signed known held_0 held_1 = ground arith

  -- Let the whitelisted caller's signature be accepted, let the pallet's account be known, and let
  -- it hold neither 10 of the first token nor 5 of the second. Then the benchmarks of
  -- `set_fee_to` and of `sync` pass: no step of theirs fails, and all their assertions hold.
  pub benchmarks_pass :
      (w : World L) (contract : ℕ)
      → t.ensure_signed (a.signed a.whitelisted_caller) ≡ ok a.whitelisted_caller
      → w.storage.pallet_account_id ≡ some contract
      → t.amm_extension.fetch_balance w.ledger contract t.asset_0 ≢ 10
      → t.amm_extension.fetch_balance w.ledger contract t.asset_1 ≢ 5
      → ((set_fee_to t a w).0 ≡ ok tt) × ((sync t a w).0 ≡ ok tt)
  benchmarks_pass w contract signed known held_0 held_1 =
      (set_fee_to_passes w signed, sync_passes w contract signed known held_0 held_1)
