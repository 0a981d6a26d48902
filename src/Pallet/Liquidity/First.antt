-- ===== src/Pallet/Liquidity/First.antt =====
-- A first deposit of the pallet that is too small.
use pendulum_amm.Base.{
  ℕ, ◌-◌, ◌≤◌, ◌≡◌, Bool, true, false, ◌==◌, if◌then◌else◌, Option, none, some, arith,
}
use pendulum_amm.Base.Action.{ok, err, ◌>>=◌}
use pendulum_amm.Base.Word.{max_u128, saturating_mul}
use pendulum_amm.Pallet.State.{Config, World, amm, insufficient_liquidity_minted}
use pendulum_amm.Pallet.Token.{_mint}
use pendulum_amm.Pallet.Reserves.{fee_liquidity, mint_growth, collect_fee, _mint_fee}
use pendulum_amm.Pallet.Liquidity.{new_liquidity, mint_liquidity}

module _ {O L C : Type 0} (t : Config O L C) (w : World L) where
  -- Without supply there is no fee: at most `k_last` is written.
  fee_liquidity-zero : (k l : ℕ) → fee_liquidity t.mint_fee 0 k l ≡ 0
  unfolding fee_liquidity
  fee_liquidity-zero k l = ground arith

  abbrev with_k_last : ℕ → World L
  with_k_last k = record w { storage = record w.storage { k_last = k } }

  mint_growth-zero : (to k l : ℕ) → w.storage.total_supply ≡ 0 → mint_growth t to k l w ≡ (ok tt, w)
  unfolding mint_growth ◌>>=◌
  mint_growth-zero to k l none_yet = ground (arith, fee_liquidity-zero k l, none_yet)

  collect_fee-zero :
      (to : Option ℕ) (k r s : ℕ)
      → w.storage.total_supply ≡ 0
      → (b : Bool) × (l : ℕ) × (collect_fee t to k r s w ≡ (ok b, with_k_last l))
  unfolding collect_fee ◌>>=◌
  collect_fee-zero none k r s none_yet =
      (false, (if k == 0 then w.storage.k_last else 0), ground arith)
  collect_fee-zero (some to) k r s none_yet = (
    true,
    w.storage.k_last,
    ground (
      arith,
      mint_growth-zero to (t.integer_sqrt (saturating_mul r s)) (t.integer_sqrt k) none_yet,
    ),
  )

  _mint_fee-zero :
      (r s : ℕ)
      → w.storage.total_supply ≡ 0
      → (b : Bool) × (l : ℕ) × (_mint_fee t r s w ≡ (ok b, with_k_last l))
  unfolding _mint_fee ◌>>=◌
  _mint_fee-zero r s none_yet = collect_fee-zero w.storage.fee_to w.storage.k_last r s none_yet

  -- A first deposit whose root does not exceed the minimum liquidity fails with
  -- `InsufficientLiquidityMinted` after the minimum has been minted, which stays in the storage
  -- that the call leaves, with the reserves as they were.
  pub first_deposit_too_small :
      (to caller contract zero_account : ℕ)
      → w.storage.pallet_account_id ≡ some contract
      → w.storage.address_zero ≡ some zero_account
      → w.storage.total_supply ≡ 0
      → t.minimum_liquidity ≤ max_u128
      → (let a_0 : ℕ =
            t.amm_extension.fetch_balance w.ledger contract t.asset_0
            - w.storage.reserves.reserve_0 in
          let a_1 : ℕ =
            t.amm_extension.fetch_balance w.ledger contract t.asset_1
            - w.storage.reserves.reserve_1 in
          t.integer_sqrt (saturating_mul a_0 a_1) ≤ t.minimum_liquidity)
      → let (r, w') = mint_liquidity t to caller w in
        (r ≡ err (amm insufficient_liquidity_minted))
        × (w'.storage.total_supply ≡ t.minimum_liquidity)
        × (w'.storage.reserves ≡ w.storage.reserves)
        × (w'.ledger ≡ w.ledger)
  unfolding mint_liquidity new_liquidity _mint ◌>>=◌
  first_deposit_too_small to caller contract zero_account is_contract is_zero none_yet fits small =
      let (b, l, fee) =
        _mint_fee-zero w.storage.reserves.reserve_0 w.storage.reserves.reserve_1 none_yet in
      ground arith
