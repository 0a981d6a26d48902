-- ===== src/Contract/Liquidity/Minting.antt =====
-- What a successful `mint` has done.
use pendulum_amm.Base.{ℕ, ◌+◌, ◌-◌, ◌*◌, ◌/◌, ◌≤◌, ◌<◌, ◌≡◌, ◌≢◌, ap, min, Bool, arith}
use pendulum_amm.Base.Action.{Outcome, ok, ◌>>=◌}
use pendulum_amm.Base.Action.Inversion.{continue-ok}
use pendulum_amm.Base.Word.{max_u128, saturating_add, saturating_mul, checked_sub, unwrap_or}
use pendulum_amm.Base.Nonlinear.{mul_mono, div-mul-le}
use pendulum_amm.Base.Products.{undiluted}
use pendulum_amm.Contract.State.{Error, Host, World}
use pendulum_amm.Contract.Token.{_mint}
use pendulum_amm.Contract.Bank.{balance_of-ok, held, InSync}
use pendulum_amm.Contract.Reserves.{_update, _mint_fee}
use pendulum_amm.Contract.Reserves.Frame.{SameTokens, _mint_fee_frame, _mint_fee_supply}
use pendulum_amm.Contract.Liquidity.{share, new_liquidity, finish_mint, mint_liquidity}

-- A share never gives more than the proportion.
pub share-mul-le :
    (amount supply reserve n : ℕ)
    → share amount supply reserve ≡ ok n
    → n * reserve ≤ amount * supply
unfolding share
share-mul-le a t r n e =
    let q : ℕ = saturating_mul a t in
    let s : n ≡ q / r = ground arith in omega (arith, s, div-mul-le q r, ap (λ (x : ℕ). x * r) s)

module _ {L : Type 0} (h : Host L) where
  -- The amounts that `mint` finds above the reserves.
  abbrev pub surplus_0 : World L → ℕ
  surplus_0 w =
      unwrap_or (checked_sub (held h w.ledger h.account_id w.pair.asset_0) w.pair.reserve_0) 0

  abbrev pub surplus_1 : World L → ℕ
  surplus_1 w =
      unwrap_or (checked_sub (held h w.ledger h.account_id w.pair.asset_1) w.pair.reserve_1) 0

  -- The state after the fee, and the grant of liquidity after it.
  abbrev pub charged : World L → World L
  charged w = (_mint_fee h w.pair.reserve_0 w.pair.reserve_1 w).1

  abbrev pub grant : World L → Outcome Error ℕ × World L
  grant w =
      new_liquidity h (charged w).pair.total_supply (surplus_0 w) (surplus_1 w) w.pair.reserve_0
        w.pair.reserve_1 (charged w)

  -- A successful `mint` in its steps: the fee, the liquidity, and the writes.
  pub record MintRun (n : ℕ) (w w' : World L) : Type 0 where
    pub fresh : (grant w).0 ≡ ok n
    pub positive : 0 < n
    pub supply : w'.pair.total_supply ≡ saturating_add (grant w).1.pair.total_supply n
    pub same_ledger : w'.ledger ≡ (grant w).1.ledger
    pub same_asset_0 : w'.pair.asset_0 ≡ (grant w).1.pair.asset_0
    pub same_asset_1 : w'.pair.asset_1 ≡ (grant w).1.pair.asset_1
    pub reserve_0 : w'.pair.reserve_0 ≡ held h w.ledger h.account_id w.pair.asset_0
    pub reserve_1 : w'.pair.reserve_1 ≡ held h w.ledger h.account_id w.pair.asset_1

  module _ (to liquidity : ℕ) (fee_on : Bool) (balance_0 balance_1 r s a b : ℕ) (n : ℕ)
      (w w' : World L)
      (done : finish_mint h to liquidity fee_on balance_0 balance_1 r s a b w ≡ (ok n, w')) where
    finish_mint_result :
        (n ≡ liquidity)
        × (0 < n)
        × (w'.pair.total_supply ≡ saturating_add w.pair.total_supply n)
        × (w'.pair.reserve_0 ≡ balance_0)
        × (w'.pair.reserve_1 ≡ balance_1)
    unfolding finish_mint _update _mint ◌>>=◌
    finish_mint_result = ground arith

    finish_mint_frame :
        (w'.ledger ≡ w.ledger)
        × (w'.pair.asset_0 ≡ w.pair.asset_0)
        × (w'.pair.asset_1 ≡ w.pair.asset_1)
    unfolding finish_mint _update _mint ◌>>=◌
    finish_mint_frame = ground arith

  pub mint_run : (to n : ℕ) (w w' : World L) → mint_liquidity h to w ≡ (ok n, w') → MintRun n w w'
  unfolding mint_liquidity ◌>>=◌
  mint_run to n w w' done =
      let read_0 = balance_of-ok h h.account_id w.pair.asset_0 _ w done in
      let read_1 = balance_of-ok h h.account_id w.pair.asset_1 _ w read_0 in
      let (fee_on, e, rest) =
        continue-ok (_mint_fee h w.pair.reserve_0 w.pair.reserve_1 w).0 _ _ read_1 in
      let (l, e', rest') = continue-ok (grant w).0 _ _ rest in
      let w2 = (grant w).1 in
      let (same, positive, supply, r, s) = finish_mint_result to l _ _ _ _ _ _ _ n w2 w' rest' in
      let (ledger, a, b) = finish_mint_frame to l _ _ _ _ _ _ _ n w2 w' rest' in
      record {
        fresh = rw same e';
        positive = positive;
        supply = supply;
        same_ledger = ledger;
        same_asset_0 = a;
        same_asset_1 = b;
        reserve_0 = r;
        reserve_1 = s;
      }

  pub new_liquidity_frame :
      (t a b r s : ℕ) (w : World L) → SameTokens w (new_liquidity h t a b r s w).1
  unfolding new_liquidity _mint ◌>>=◌
  new_liquidity_frame t a b r s w = ground arith

  -- Beyond the first deposit the grant is the smaller share, and the supply is not touched.
  pub new_liquidity_shares :
      (t a b r s n : ℕ) (w : World L)
      → t ≢ 0
      → (new_liquidity h t a b r s w).0 ≡ ok n
      → (n * r ≤ a * t)
        × (n * s ≤ b * t)
        × ((new_liquidity h t a b r s w).1.pair.total_supply ≡ w.pair.total_supply)
  unfolding new_liquidity share _mint ◌>>=◌
  new_liquidity_shares t a b r s n w ne e =
      let q : ℕ = saturating_mul a t / r in
      let q' : ℕ = saturating_mul b t / s in
      let least : n ≡ min q q' = ground arith in
      let left : n ≤ q = omega arith in
      let right : n ≤ q' = omega arith in
      (
        omega (arith, div-mul-le (saturating_mul a t) r, mul_mono n q r r left (omega arith)),
        omega (arith, div-mul-le (saturating_mul b t) s, mul_mono n q' s s right (omega arith)),
        ground arith,
      )

  -- A successful `mint` after the first one, from a supply that fits 128 bits and to one that is
  -- not cut off there: it grants at least one share, no share of the pool loses value in either
  -- token (reserve over supply does not fall), the fee only adds to the supply, and the reserves
  -- are what the contract holds.
  pub mint_sound :
      (to n : ℕ) (w w' : World L)
      → mint_liquidity h to w ≡ (ok n, w')
      → 0 < w.pair.total_supply
      → w.pair.total_supply ≤ max_u128
      → w'.pair.total_supply < max_u128
      → (0 < n)
        × (w.pair.total_supply + n ≤ w'.pair.total_supply)
        × (w.pair.reserve_0 * w'.pair.total_supply ≤ w'.pair.reserve_0 * (w'.pair.total_supply - n))
        × (w.pair.reserve_1 * w'.pair.total_supply ≤ w'.pair.reserve_1 * (w'.pair.total_supply - n))
        × InSync h w'
  mint_sound to n w w' done started fits below =
      let run = mint_run to n w w' done in
      let r : ℕ = w.pair.reserve_0 in
      let s : ℕ = w.pair.reserve_1 in
      let t : ℕ = (charged w).pair.total_supply in
      let grown = _mint_fee_supply h w r s fits in
      let (left, right, same) =
        new_liquidity_shares t (surplus_0 w) (surplus_1 w) r s n (charged w) (omega arith)
          run.fresh in
      let total : w'.pair.total_supply ≡ t + n = omega (arith, run.supply, same) in
      let base : w'.pair.total_supply - n ≡ t = omega arith in
      let same_frame = new_liquidity_frame t (surplus_0 w) (surplus_1 w) r s (charged w) in
      let fee_frame = _mint_fee_frame h w r s in
      (
        run.positive,
        omega arith,
        rw (base, total, run.reserve_0)
            (undiluted r (held h w.ledger h.account_id w.pair.asset_0) t n run.positive left),
        rw (base, total, run.reserve_1)
            (undiluted s (held h w.ledger h.account_id w.pair.asset_1) t n run.positive right),
        record {
          first = ground (arith, run, same_frame, fee_frame);
          second = ground (arith, run, same_frame, fee_frame);
        },
      )
