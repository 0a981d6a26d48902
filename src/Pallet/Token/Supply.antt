-- ===== src/Pallet/Token/Supply.antt =====
-- The supply of the pallet's liquidity tokens against the balances of their holders.
use pendulum_amm.Base.{ℕ, ◌≤◌, arith}
use pendulum_amm.Base.Action.{◌>>=◌}
use pendulum_amm.Base.Action.Stable.{Stable}
use pendulum_amm.Base.Dict.{Dict, insert, value, total, total-insert, value-le-total}
use pendulum_amm.Base.Word.{max_u128, saturating_add, saturating_sub}
use pendulum_amm.Pallet.State.{World}
use pendulum_amm.Pallet.Token.{_mint, _burn, _transfer_liquidity}

-- No more tokens are in circulation than the holders have, and all fits 128 bits.
pub record Backed (supply : ℕ) (balances : Dict) : Type 0 where
  pub supply_fits : supply ≤ max_u128
  pub backed : supply ≤ total balances

abbrev pub IsBacked : {L : Type 0} → World L → Type 0
IsBacked w = Backed w.storage.total_supply w.storage.lp_balances

module _ {L : Type 0} where
  pub _mint-IsBacked : (to amount : ℕ) → Stable {S = World L} IsBacked (_mint to amount)
  unfolding _mint ◌>>=◌
  _mint-IsBacked to amount = record {
    after = λ {w} v.
        let d = w.storage.lp_balances in
        let b : ℕ = saturating_add (value to d) amount in
        record {
          supply_fits = omega arith;
          backed = omega (arith, total-insert to b d, value-le-total to d);
        };
  }

  pub _burn-IsBacked : (from amount : ℕ) → Stable {S = World L} IsBacked (_burn from amount)
  unfolding _burn ◌>>=◌
  _burn-IsBacked from amount = record {
    after = λ {w} v.
        let d = w.storage.lp_balances in
        let b : ℕ = saturating_sub (value from d) amount in
        ground (arith, total-insert from b d, value-le-total from d);
  }

  pub _transfer_liquidity-IsBacked :
      (from to amount : ℕ) → Stable {S = World L} IsBacked (_transfer_liquidity from to amount)
  unfolding _transfer_liquidity ◌>>=◌
  _transfer_liquidity-IsBacked from to amount = record {
    after = λ {w} v.
        let d = w.storage.lp_balances in
        let b : ℕ = saturating_sub (value from d) amount in
        let d' = insert from b d in
        let c : ℕ = saturating_add (value to d') amount in
        ground (
          arith,
          total-insert from b d,
          value-le-total from d,
          total-insert to c d',
          value-le-total to d',
        );
  }
