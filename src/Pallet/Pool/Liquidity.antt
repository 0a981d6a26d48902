-- ===== src/Pallet/Pool/Liquidity.antt =====
-- `mint` and `burn` of the pallet as steps of the pool.
use pendulum_amm.Base.{ℕ, ◌-◌, ◌*◌, ◌≤◌, ◌<◌, ◌≡◌, ◌≢◌, ◌∙◌, ap, sym, none, some, arith}
use pendulum_amm.Base.Action.{ok, ◌>>=◌}
use pendulum_amm.Base.Word.{max_u128}
use pendulum_amm.Base.Products.{left_over}
use pendulum_amm.Pallet.State.{Config, World}
use pendulum_amm.Pallet.Bank.Lawful.{IsLawful}
use pendulum_amm.Pallet.Reserves.{collect_fee, _mint_fee}
use pendulum_amm.Pallet.Liquidity.{mint_liquidity, burn_liquidity}
use pendulum_amm.Pallet.Liquidity.Minting.{charged, pallet_mint_sound}
use pendulum_amm.Pallet.Liquidity.Burning.{IsBurned, pallet_burn-IsBurned, burn_owned}
use pendulum_amm.Pool.{Step, share}
use pendulum_amm.Pallet.Pool.{IsOpen, pool_of}

module _ {O L C : Type 0} (t : Config O L C) (contract : ℕ) where
  -- Without a receiver of the fee, the supply stays.
  charged_supply :
      (w : World L)
      → w.storage.fee_to ≡ none
      → (charged t contract w).storage.total_supply ≡ w.storage.total_supply
  unfolding _mint_fee collect_fee ◌>>=◌
  charged_supply w no_fee = ground arith

  pub pallet_mint-Step :
      (to caller : ℕ) (w w' : World L)
      → mint_liquidity t to caller w ≡ (ok tt, w')
      → w.storage.pallet_account_id ≡ some contract
      → w.storage.fee_to ≡ none
      → 0 < w.storage.total_supply
      → w.storage.total_supply ≤ max_u128
      → w'.storage.total_supply < max_u128
      → Step (pool_of w) (pool_of w')
  pallet_mint-Step to caller w w' done known no_fee started fits below =
      let same = charged_supply w no_fee in
      let (_, _, left, right, _) =
        pallet_mint_sound t contract to caller w w' done known started fits below in
      share (pool_of w') (rw (sym same) left) (rw (sym same) right)

  -- The account of the pallet keeps what it does not pay.
  burnt-Step :
      IsLawful t
      → (to l : ℕ) (w w' : World L) → IsBurned t contract to l w w'
      → IsOpen t contract w
      → contract ≢ to
      → Step (pool_of w) (pool_of w')
  burnt-Step lawful to l w w' run open_pool apart =
      let b : ℕ = t.amm_extension.fetch_balance w.ledger contract t.asset_0 in
      let c : ℕ = t.amm_extension.fetch_balance w.ledger contract t.asset_1 in
      let mid = (t.amm_extension.transfer_balance contract to t.asset_0 run.x w.ledger).1 in
      let s : ℕ = w.storage.total_supply in
      let same = charged_supply w open_pool.no_fee in
      let between : t.amm_extension.fetch_balance mid contract t.asset_1 ≡ c =
        lawful.only_0 w.ledger contract to contract run.x in
      let part_0 : run.x * s ≤ l * b = rw (sym same) run.part_0 in
      let part_1 : run.y * s ≤ l * c = rw (sym same) run.part_1 in
      let total : w'.storage.total_supply ≡ s - l = omega (arith, run.supply, same) in
      let now_0 : w'.storage.reserves.reserve_0 ≡ b - run.x =
        run.in_sync.first
        ∙ ap (λ (m : L). t.amm_extension.fetch_balance m contract t.asset_0) run.paid
        ∙ lawful.only_1 mid contract to contract run.y
        ∙ lawful.sender_0 w.ledger contract to run.x apart run.covered_0 in
      let now_1 : w'.storage.reserves.reserve_1 ≡ c - run.y =
        run.in_sync.second
        ∙ ap (λ (m : L). t.amm_extension.fetch_balance m contract t.asset_1) run.paid
        ∙ lawful.sender_1 mid contract to run.y apart run.covered_1
        ∙ ap (λ (n : ℕ). n - run.y) between in
      share (pool_of w')
        (rw (total, now_0)
          (left_over w.storage.reserves.reserve_0 b s l run.x open_pool.covered_0 part_0))
        (rw (total, now_1)
          (left_over w.storage.reserves.reserve_1 c s l run.y open_pool.covered_1 part_1))

  pub pallet_burn-Step :
      IsLawful t
      → (to caller : ℕ) (w w' : World L) → burn_liquidity t to caller w ≡ (ok tt, w')
      → IsOpen t contract w
      → contract ≢ to
      → Step (pool_of w) (pool_of w')
  pallet_burn-Step lawful to caller w w' done open_pool apart =
      let (l, owned) = burn_owned t contract to caller w w' done open_pool.known in
      burnt-Step lawful to l w w'
        (pallet_burn-IsBurned t contract to caller l w w' done open_pool.known owned
          open_pool.supply_fits)
        open_pool apart
