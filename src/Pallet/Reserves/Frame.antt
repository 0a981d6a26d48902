-- ===== src/Pallet/Reserves/Frame.antt =====
-- What `_update` and `_mint_fee` of the pallet leave alone.
use pendulum_amm.Base.{ℕ, ◌≤◌, ◌≡◌, Option, none, some, arith}
use pendulum_amm.Base.Action.{◌>>=◌}
use pendulum_amm.Base.Word.{saturating_mul, max_u128}
use pendulum_amm.Pallet.State.{Config, World}
use pendulum_amm.Pallet.Token.{_mint}
use pendulum_amm.Pallet.Reserves.{_update, mint_growth, collect_fee, _mint_fee}

module _ {O L C : Type 0} (t : Config O L C) (w : World L) where
  -- `_update` always succeeds: it sets the reserves and keeps the tokens and the supply.
  pub record Updated (balance_0 balance_1 : ℕ) (w' : World L) : Type 0 where
    pub same_ledger : w'.ledger ≡ w.ledger
    pub new_reserve_0 : w'.storage.reserves.reserve_0 ≡ balance_0
    pub new_reserve_1 : w'.storage.reserves.reserve_1 ≡ balance_1
    pub same_supply : w'.storage.total_supply ≡ w.storage.total_supply
    pub same_balances : w'.storage.lp_balances ≡ w.storage.lp_balances
    pub same_account : w'.storage.pallet_account_id ≡ w.storage.pallet_account_id

  pub _update_lem : (b c r s : ℕ) → Updated b c (_update t b c r s w).1
  unfolding _update ◌>>=◌
  _update_lem b c r s = ground arith

  -- `_mint_fee` changes at most the liquidity tokens, `k_last` and the events, and only adds to the
  -- supply.
  pub record Charged (w' : World L) : Type 0 where
    pub same_ledger : w'.ledger ≡ w.ledger
    pub same_reserves : w'.storage.reserves ≡ w.storage.reserves
    pub same_account : w'.storage.pallet_account_id ≡ w.storage.pallet_account_id
    pub more : w.storage.total_supply ≤ w'.storage.total_supply
    pub supply_fits : w'.storage.total_supply ≤ max_u128

  mint_growth-Charged :
      (to k l : ℕ) → w.storage.total_supply ≤ max_u128 → Charged (mint_growth t to k l w).1
  unfolding mint_growth _mint ◌>>=◌
  mint_growth-Charged to k l fits = ground arith

  collect_fee-Charged :
      (to : Option ℕ) (k r s : ℕ)
      → w.storage.total_supply ≤ max_u128
      → Charged (collect_fee t to k r s w).1
  unfolding collect_fee ◌>>=◌
  collect_fee-Charged none k r s fits = ground arith
  collect_fee-Charged (some to) k r s fits =
      ground (
        arith,
        mint_growth-Charged to (t.integer_sqrt (saturating_mul r s)) (t.integer_sqrt k) fits,
      )

  pub _mint_fee-Charged :
      (r s : ℕ) → w.storage.total_supply ≤ max_u128 → Charged (_mint_fee t r s w).1
  unfolding _mint_fee ◌>>=◌
  _mint_fee-Charged r s fits = collect_fee-Charged w.storage.fee_to w.storage.k_last r s fits
