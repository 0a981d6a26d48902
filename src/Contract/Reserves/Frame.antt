-- ===== src/Contract/Reserves/Frame.antt =====
-- What `_mint_fee` leaves alone.
use pendulum_amm.Base.{ℕ, ◌≤◌, ◌≡◌, Option, none, some, arith}
use pendulum_amm.Base.Action.{ok, ◌>>=◌}
use pendulum_amm.Base.Word.{saturating_mul, max_u128}
use pendulum_amm.Contract.State.{Host, World}
use pendulum_amm.Contract.Token.{_mint}
use pendulum_amm.Contract.Reserves.{_update, mint_growth, collect_fee, _mint_fee}

-- Two worlds that differ at most in the liquidity tokens, `k_last` and the events.
pub record SameTokens {L : Type 0} (w w' : World L) : Type 0 where
  pub same_ledger : w'.ledger ≡ w.ledger
  pub same_asset_0 : w'.pair.asset_0 ≡ w.pair.asset_0
  pub same_asset_1 : w'.pair.asset_1 ≡ w.pair.asset_1
  pub same_reserve_0 : w'.pair.reserve_0 ≡ w.pair.reserve_0
  pub same_reserve_1 : w'.pair.reserve_1 ≡ w.pair.reserve_1
  pub same_timestamp : w'.pair.block_timestamp_last ≡ w.pair.block_timestamp_last

module _ {L : Type 0} (h : Host L) (w : World L) where
  mint_growth_frame : (to k l : ℕ) → SameTokens w (mint_growth to k l w).1
  unfolding mint_growth _mint ◌>>=◌
  mint_growth_frame to k l = ground arith

  collect_fee_frame : (to : Option ℕ) (k r s : ℕ) → SameTokens w (collect_fee h to k r s w).1
  unfolding collect_fee ◌>>=◌
  collect_fee_frame none k r s = ground arith
  collect_fee_frame (some to) k r s =
      ground (arith, mint_growth_frame to (h.sqrt (saturating_mul r s)) (h.sqrt k))

  pub _mint_fee_frame : (r s : ℕ) → SameTokens w (_mint_fee h r s w).1
  unfolding _mint_fee ◌>>=◌
  _mint_fee_frame r s = ground (arith, collect_fee_frame w.pair.fee_to w.pair.k_last r s)

  -- The fee only adds to the supply.
  mint_growth_supply :
      (to k l : ℕ)
      → w.pair.total_supply ≤ max_u128
      → (w.pair.total_supply ≤ (mint_growth to k l w).1.pair.total_supply)
        × ((mint_growth to k l w).1.pair.total_supply ≤ max_u128)
  unfolding mint_growth _mint ◌>>=◌
  mint_growth_supply to k l fits = ground arith

  collect_fee_supply :
      (to : Option ℕ) (k r s : ℕ)
      → w.pair.total_supply ≤ max_u128
      → (w.pair.total_supply ≤ (collect_fee h to k r s w).1.pair.total_supply)
        × ((collect_fee h to k r s w).1.pair.total_supply ≤ max_u128)
  unfolding collect_fee ◌>>=◌
  collect_fee_supply none k r s fits = ground arith
  collect_fee_supply (some to) k r s fits =
      ground (arith, mint_growth_supply to (h.sqrt (saturating_mul r s)) (h.sqrt k) fits)

  pub _mint_fee_supply :
      (r s : ℕ)
      → w.pair.total_supply ≤ max_u128
      → (w.pair.total_supply ≤ (_mint_fee h r s w).1.pair.total_supply)
        × ((_mint_fee h r s w).1.pair.total_supply ≤ max_u128)
  unfolding _mint_fee ◌>>=◌
  _mint_fee_supply r s fits =
      ground (arith, collect_fee_supply w.pair.fee_to w.pair.k_last r s fits)

  -- `_update` always succeeds: it sets the reserves and keeps the tokens and the assets.
  pub record Updated (balance_0 balance_1 : ℕ) (w' : World L) : Type 0 where
    pub same_ledger : w'.ledger ≡ w.ledger
    pub same_asset_0 : w'.pair.asset_0 ≡ w.pair.asset_0
    pub same_asset_1 : w'.pair.asset_1 ≡ w.pair.asset_1
    pub new_reserve_0 : w'.pair.reserve_0 ≡ balance_0
    pub new_reserve_1 : w'.pair.reserve_1 ≡ balance_1
    pub same_supply : w'.pair.total_supply ≡ w.pair.total_supply
    pub same_balances : w'.pair.lp_balances ≡ w.pair.lp_balances

  pub _update-ok : (b c r s : ℕ) → (_update h b c r s w).0 ≡ ok tt
  unfolding _update ◌>>=◌
  _update-ok b c r s = ground arith

  pub _update_lem : (b c r s : ℕ) → Updated b c (_update h b c r s w).1
  unfolding _update ◌>>=◌
  _update_lem b c r s = ground arith
