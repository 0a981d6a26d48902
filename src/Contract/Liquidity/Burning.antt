-- ===== src/Contract/Liquidity/Burning.antt =====
-- What a successful `burn` has done.
use pendulum_amm.Base.{ℕ, ◌-◌, ◌*◌, ◌≤◌, ◌<◌, ◌≡◌, arith}
use pendulum_amm.Base.Action.{ok}
use pendulum_amm.Base.Word.{max_u128}
use pendulum_amm.Contract.State.{Host, World}
use pendulum_amm.Contract.Token.{lp_balance_of}
use pendulum_amm.Contract.Bank.{held, InSync}
use pendulum_amm.Contract.Reserves.Frame.{_mint_fee_frame, _mint_fee_supply}
use pendulum_amm.Contract.Liquidity.{burn_liquidity}
use pendulum_amm.Contract.Liquidity.Minting.{share-mul-le, charged}
use pendulum_amm.Contract.Liquidity.Payment.{IsPaid, IsPaid-same, burn_run}

module _ {L : Type 0} (h : Host L) where
  pub burn_liquidity-IsPaid :
      (to x y : ℕ) (w w' : World L)
      → burn_liquidity h to w ≡ (ok (x, y), w')
      → IsPaid h to w.pair.asset_0 w.pair.asset_1 w.ledger x y w'.ledger
  burn_liquidity-IsPaid to x y w w' done =
      let run = burn_run h to x y w w' done in
      let frame = _mint_fee_frame h w w.pair.reserve_0 w.pair.reserve_1 in
      IsPaid-same h run.end.first run.end.second frame.same_ledger run.end.paid

  -- The reserves after it are of the tokens before it.
  pub burn_reserves :
      (to x y : ℕ) (w w' : World L)
      → burn_liquidity h to w ≡ (ok (x, y), w')
      → (w'.pair.reserve_0 ≡ held h w'.ledger h.account_id w.pair.asset_0)
        × (w'.pair.reserve_1 ≡ held h w'.ledger h.account_id w.pair.asset_1)
  burn_reserves to x y w w' done =
      let run = burn_run h to x y w w' done in (run.end.reserve_0, run.end.reserve_1)

  -- A successful `burn` that returns two amounts, from a supply that fits 128 bits: both amounts
  -- are positive, and each is at most the burned shares' part of what the contract held, out of the
  -- supply after the fee, which only adds to it; the shares are taken from the supply, and the
  -- reserves are then what the contract holds. The tokens are afterwards as two transfers from the
  -- contract to the receiver leave them, which the contract could pay: the first amount of the
  -- first asset, then the second amount of the second.
  pub burn_sound :
      (to x y : ℕ) (w w' : World L)
      → burn_liquidity h to w ≡ (ok (x, y), w')
      → w.pair.total_supply ≤ max_u128
      → let supply : ℕ = (charged h w).pair.total_supply in
        let shares : ℕ = lp_balance_of h.account_id w in
        (0 < x)
        × (0 < y)
        × (x * supply ≤ shares * held h w.ledger h.account_id w.pair.asset_0)
        × (y * supply ≤ shares * held h w.ledger h.account_id w.pair.asset_1)
        × (w.pair.total_supply ≤ supply)
        × (w'.pair.total_supply ≡ supply - shares)
        × InSync h w'
        × IsPaid h to w.pair.asset_0 w.pair.asset_1 w.ledger x y w'.ledger
  burn_sound to x y w w' done fits =
      let run = burn_run h to x y w w' done in
      let t : ℕ = (charged h w).pair.total_supply in
      let l : ℕ = lp_balance_of h.account_id w in
      let frame = _mint_fee_frame h w w.pair.reserve_0 w.pair.reserve_1 in
      (
        omega (arith, run.end.first, run.end.first_positive),
        omega (arith, run.end.second, run.end.second_positive),
        rw run.end.first (share-mul-le l _ t run.a run.share_0),
        rw run.end.second (share-mul-le l _ t run.b run.share_1),
        (_mint_fee_supply h w w.pair.reserve_0 w.pair.reserve_1 fits).0,
        run.end.supply,
        record {
          first = rw (run.end.same_asset_0, frame.same_asset_0) run.end.reserve_0;
          second = rw (run.end.same_asset_1, frame.same_asset_1) run.end.reserve_1;
        },
        burn_liquidity-IsPaid to x y w w' done,
      )
