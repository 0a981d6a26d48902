-- ===== src/Contract/Token/Supply.antt =====
-- The supply of liquidity tokens against the balances of their holders.
use pendulum_amm.Base.{ℕ, ◌+◌, ◌-◌, ◌≤◌, ◌<◌, ◌≡◌, refl, arith, ◌==◌, if◌then◌else◌}
use pendulum_amm.Base.Action.{ok, err, ◌>>=◌}
use pendulum_amm.Base.Action.Stable.{Stable}
use pendulum_amm.Base.Dict.{Dict, insert, value, total, total-insert, lookup-insert, value-le-total}
use pendulum_amm.Base.Word.{max_u128, saturating_add, saturating_sub}
use pendulum_amm.Contract.State.{World, insufficient_balance}
use pendulum_amm.Contract.Token.{lp_balance_of, _mint, _burn, _transfer_liquidity}

-- No more tokens are in circulation than the holders have, and all fits 128 bits.
pub record Backed (supply : ℕ) (balances : Dict) : Type 0 where
  pub supply_fits : supply ≤ max_u128
  pub backed : supply ≤ total balances

abbrev pub IsBacked : {L : Type 0} → World L → Type 0
IsBacked w = Backed w.pair.total_supply w.pair.lp_balances

-- Exactly the tokens that the holders have are in circulation.
pub record Exact (supply : ℕ) (balances : Dict) : Type 0 where
  pub supply_fits : supply ≤ max_u128
  pub exact : supply ≡ total balances

abbrev pub IsExact : {L : Type 0} → World L → Type 0
IsExact w = Exact w.pair.total_supply w.pair.lp_balances

module _ {L : Type 0} where
  pub _mint-IsBacked : (to amount : ℕ) → Stable {S = World L} IsBacked (_mint to amount)
  unfolding _mint ◌>>=◌
  _mint-IsBacked to amount = record {
    after = λ {w} v.
        let d = w.pair.lp_balances in
        let b : ℕ = saturating_add (value to d) amount in
        record {
          supply_fits = omega arith;
          backed = omega (arith, total-insert to b d, value-le-total to d);
        };
  }

  pub _burn-IsBacked : (from amount : ℕ) → Stable {S = World L} IsBacked (_burn from amount)
  unfolding _burn ◌>>=◌
  _burn-IsBacked from amount = record {
    after = λ {w} v.
        let d = w.pair.lp_balances in
        let b : ℕ = saturating_sub (value from d) amount in
        record {
          supply_fits = omega arith;
          backed = omega (arith, total-insert from b d, value-le-total from d);
        };
  }

  pub _transfer_liquidity-IsBacked :
      (from to amount : ℕ) → Stable {S = World L} IsBacked (_transfer_liquidity from to amount)
  unfolding _transfer_liquidity ◌>>=◌
  _transfer_liquidity-IsBacked from to amount = record {
    after = λ {w} v.
        let d = w.pair.lp_balances in
        let b : ℕ = saturating_sub (value from d) amount in
        let d' = insert from b d in
        let c : ℕ = saturating_add (value to d') amount in
        ground (
          arith,
          total-insert from b d,
          value-le-total from d,
          total-insert to c d',
          value-le-total to d',
        );
  }

  -- Minting below the cap of 128 bits adds the amount to the supply and to the receiver's
  -- balance, changes no other balance, and keeps supply and balances exactly equal.
  pub _mint-IsExact :
      (to amount k : ℕ) (w : World L)
      → IsExact w
      → w.pair.total_supply + amount ≤ max_u128
      → let (r, w') = _mint to amount w in
        (r ≡ ok tt)
        × IsExact w'
        × (w'.pair.total_supply ≡ w.pair.total_supply + amount)
        × (lp_balance_of k w' ≡ (if k == to then lp_balance_of k w + amount else lp_balance_of k w))
  unfolding _mint ◌>>=◌
  _mint-IsExact to amount k w v fits =
      let d = w.pair.lp_balances in
      let b : ℕ = saturating_add (value to d) amount in
      let low : value to d ≤ total d = value-le-total to d in
      (
        refl,
        record { supply_fits = omega arith; exact = omega (arith, total-insert to b d, v.exact) },
        omega arith,
        ground (arith, lookup-insert k to b d, low, v.exact),
      )

  -- Burning at most the holder's balance takes the amount from the supply and from that balance
  -- alone, and keeps supply and balances exactly equal.
  pub _burn-IsExact :
      (from amount k : ℕ) (w : World L)
      → IsExact w
      → amount ≤ lp_balance_of from w
      → let (r, w') = _burn from amount w in
        (r ≡ ok tt)
        × IsExact w'
        × (w'.pair.total_supply + amount ≡ w.pair.total_supply)
        × (lp_balance_of k w'
            ≡ (if k == from then lp_balance_of k w - amount else lp_balance_of k w))
  unfolding _burn ◌>>=◌
  _burn-IsExact from amount k w v covered =
      let d = w.pair.lp_balances in
      let b : ℕ = saturating_sub (value from d) amount in
      let low : value from d ≤ total d = value-le-total from d in
      (
        refl,
        record {
          supply_fits = omega arith;
          exact = omega (arith, total-insert from b d, low, v.exact);
        },
        omega (arith, low, v.exact),
        ground (arith, lookup-insert k from b d),
      )

  -- A transfer of liquidity tokens that the sender has, also from an account to itself: it moves
  -- the amount between the two balances, leaves the others and the supply alone, and keeps supply
  -- and balances exactly equal.
  pub _transfer_liquidity-IsExact :
      (from to amount k : ℕ) (w : World L)
      → IsExact w
      → amount ≤ lp_balance_of from w
      → let (r, w') = _transfer_liquidity from to amount w in
        (r ≡ ok tt)
        × IsExact w'
        × (w'.pair.total_supply ≡ w.pair.total_supply)
        × (lp_balance_of k w' + (if k == from then amount else 0)
            ≡ lp_balance_of k w + (if k == to then amount else 0))
  unfolding _transfer_liquidity ◌>>=◌
  _transfer_liquidity-IsExact from to amount k w v covered =
      let d = w.pair.lp_balances in
      let b : ℕ = saturating_sub (value from d) amount in
      let d' = insert from b d in
      let c : ℕ = saturating_add (value to d') amount in
      let low : value from d ≤ total d = value-le-total from d in
      let low' : value to d' ≤ total d' = value-le-total to d' in
      (
        ground arith,
        ground (arith, total-insert from b d, total-insert to c d', low, low', v.exact),
        ground arith,
        ground (
          arith,
          lookup-insert k to c d',
          lookup-insert k from b d,
          lookup-insert to from b d,
          total-insert from b d,
          low,
          low',
          v.exact,
        ),
      )

  -- A transfer of more than the sender has fails with `InsufficientBalance` and changes nothing.
  pub _transfer_liquidity_refused :
      (from to amount : ℕ) (w : World L)
      → lp_balance_of from w < amount
      → _transfer_liquidity from to amount w ≡ (err insufficient_balance, w)
  unfolding _transfer_liquidity ◌>>=◌
  _transfer_liquidity_refused from to amount w short = ground arith
