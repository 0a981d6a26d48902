-- ===== src/Contract/Pool/RoundTrip/Gain.antt =====
-- A deposit that is withdrawn at once.
use pendulum_amm.Base.{
  ℕ, ◌+◌, ◌*◌, ◌≤◌, ◌<◌, ◌≡◌, ◌≢◌, ◌∙◌, sym, ap, arith, none, ◌&&◌, ◌==◌, false, ne→==,
}
use pendulum_amm.Base.Action.{ok, ◌>>=◌}
use pendulum_amm.Base.Action.Inversion.{continue-ok}
use pendulum_amm.Base.Dict.{Dict, value, insert, lookup-insert}
use pendulum_amm.Base.Nonlinear.{mul_mono}
use pendulum_amm.Base.Word.{max_u128, checked_sub, unwrap_or, saturating_add}
use native.Mathlib.Nat.{le_of_mul-le-mul_right}
use pendulum_amm.Contract.State.{Pair, Host, World}
use pendulum_amm.Contract.Token.{lp_balance_of, _transfer_liquidity}
use pendulum_amm.Contract.Pricing.{quote}
use pendulum_amm.Contract.Bank.{held, InSync, transfer_tokens}
use pendulum_amm.Contract.Bank.Lawful.{IsLawful}
use pendulum_amm.Contract.Liquidity.{mint_liquidity, burn_liquidity}
use pendulum_amm.Contract.Liquidity.Minting.{surplus_0, surplus_1}
use pendulum_amm.Contract.Liquidity.Payment.{IsPaid}
use pendulum_amm.Contract.Liquidity.Burning.{burn_sound, burn_liquidity-IsPaid}
use pendulum_amm.Contract.Pool.Payout.{received}
use pendulum_amm.Contract.Messages.{deposit_asset_1, withdraw}
use pendulum_amm.Contract.Pool.RoundTrip.{Granted, granted, PaidIn, paid_in, returned, charged-Free}

-- Of a fraction `l` of the shares, at most the `n` granted: the part of what was there before and
-- of what came with it.
no_gain :
    (x l c s n r a t over : ℕ)
    → 0 < t
    → x * s ≤ l * c
    → s ≡ t + n
    → l ≤ n
    → c ≡ r + a
    → n * r ≤ over * t
    → over ≡ a
    → x ≤ a
no_gain x l c s n r a t over started part supply fewer holding priced same =
    let part' : x * (t + n) ≤ l * (r + a) = rw (sym supply, sym holding) part in
    let priced' : n * r ≤ a * t = rw (sym same) priced in
    le_of_mul-le-mul_right {m = x} {n = a} {k = t + n}
      (omega (arith, part', priced', mul_mono l n (r + a) (r + a) fewer (omega arith)))
      (omega arith)

over-reserve : (c r a : ℕ) → c ≡ r + a → unwrap_or (checked_sub c r) 0 ≡ a
over-reserve c r a e = ground arith

value-other : (j k v : ℕ) (d : Dict) → j ≢ k → value j (insert k v d) ≡ value j d
value-other j k v d apart = ground (arith, lookup-insert j k v d, ne→== j k apart)

module _ {L : Type 0} (h : Host L) where
  -- What `withdraw` does once the supply is known.
  withdrawn :
      (n x y : ℕ) (w w' : World L)
      → withdraw h n w ≡ (ok (x, y), w')
      → 0 < w.pair.total_supply
      → burn_liquidity h h.caller (_transfer_liquidity h.caller h.account_id n w).1
        ≡ (ok (x, y), w')
  unfolding withdraw ◌>>=◌
  withdrawn n x y w w' done started =
      let some_shares : (w.pair.total_supply == 0) ≡ false = ground arith in
      let (_, _, d) =
        continue-ok (_transfer_liquidity h.caller h.account_id n w).0 _ _
          (rw some_shares at done) in
      d

  -- The account of the contract has no more shares than came back.
  shares_back :
      (n : ℕ) (u w : World L)
      → Granted h h.caller n u w
      → h.caller ≢ h.account_id
      → lp_balance_of h.account_id u ≡ 0
      → lp_balance_of h.account_id (_transfer_liquidity h.caller h.account_id n w).1 ≤ n
  shares_back n u w grant apart empty =
      let b : ℕ = saturating_add (lp_balance_of h.caller u) n in
      let back = (returned h n w).shares in
      let kept : lp_balance_of h.account_id w ≡ 0 =
        ap (λ (d : Dict). value h.account_id d) grant.balances
        ∙ value-other h.account_id h.caller b u.pair.lp_balances (λ e. apart (sym e))
        ∙ empty in
      omega (arith, back, kept)

  -- The two amounts, from the parts.
  gains :
      (a b n x y : ℕ) (w u w1 w2 : World L)
      → InSync h w
      → PaidIn h a b w u
      → Granted h h.caller n u w1
      → withdraw h n w1 ≡ (ok (x, y), w2)
      → w.pair.fee_to ≡ none
      → 0 < w.pair.total_supply
      → w1.pair.total_supply ≤ max_u128
      → h.caller ≢ h.account_id
      → lp_balance_of h.account_id w ≡ 0
      → (x ≤ a) × (y ≤ b)
  gains a b n x y w u w1 w2 in_sync paid grant done no_fee started fits apart empty =
      let me : ℕ = h.account_id in
      let v = (_transfer_liquidity h.caller me n w1).1 in
      let back = returned h n w1 in
      let some_before : 0 < u.pair.total_supply = rw paid.same_pair started in
      let some_shares : 0 < w1.pair.total_supply = omega (arith, grant.supply, some_before) in
      let no_fee' : v.pair.fee_to ≡ none =
        back.receiver ∙ grant.receiver ∙ ap (λ (p : Pair). p.fee_to) paid.same_pair ∙ no_fee in
      let free = charged-Free h v no_fee' in
      let supply = free.supply ∙ back.supply ∙ grant.supply in
      let (_, _, part_0, part_1, _, _, _, _) =
        burn_sound h h.caller x y v w2 (withdrawn n x y w1 w2 done some_shares)
          (omega (arith, back.supply, fits)) in
      let fewer =
        shares_back n u w1 grant apart
          (ap (λ (p : Pair). value me p.lp_balances) paid.same_pair ∙ empty) in
      let ledger = back.ledger ∙ grant.ledger in
      let asset_0 = back.asset_0 ∙ grant.asset_0 ∙ ap (λ (p : Pair). p.asset_0) paid.same_pair in
      let asset_1 = back.asset_1 ∙ grant.asset_1 ∙ ap (λ (p : Pair). p.asset_1) paid.same_pair in
      let reserve_0 = ap (λ (p : Pair). p.reserve_0) paid.same_pair in
      let reserve_1 = ap (λ (p : Pair). p.reserve_1) paid.same_pair in
      let first : held h u.ledger me w.pair.asset_0 ≡ u.pair.reserve_0 + a =
        omega (arith, paid.held_0, in_sync.first, reserve_0) in
      let second : held h u.ledger me w.pair.asset_1 ≡ u.pair.reserve_1 + b =
        omega (arith, paid.held_1, in_sync.second, reserve_1) in
      let same_0 = ap (λ (p : Pair). p.asset_0) paid.same_pair in
      let same_1 = ap (λ (p : Pair). p.asset_1) paid.same_pair in
      (
        no_gain x _ _ _ n u.pair.reserve_0 a u.pair.total_supply (surplus_0 h u) some_before part_0
            supply fewer
            (ap (λ (l : L). held h l me v.pair.asset_0) ledger
              ∙ ap (held h u.ledger me) asset_0
              ∙ first)
            grant.priced_0
            (over-reserve _ u.pair.reserve_0 a (ap (held h u.ledger me) same_0 ∙ first)),
        no_gain y _ _ _ n u.pair.reserve_1 b u.pair.total_supply (surplus_1 h u) some_before part_1
            supply fewer
            (ap (λ (l : L). held h l me v.pair.asset_1) ledger
              ∙ ap (held h u.ledger me) asset_1
              ∙ second)
            grant.priced_1
            (over-reserve _ u.pair.reserve_1 b (ap (held h u.ledger me) same_1 ∙ second)),
      )

  -- What came out, put to what was left, is at most what the caller had.
  no_richer :
      IsLawful h
      → (a b n x y : ℕ) (w u w1 w2 : World L) → PaidIn h a b w u
      → Granted h h.caller n u w1
      → withdraw h n w1 ≡ (ok (x, y), w2)
      → 0 < w.pair.total_supply
      → h.caller ≢ h.account_id
      → w.pair.asset_0 ≢ w.pair.asset_1
      → held h w.ledger h.caller w.pair.asset_0 ≤ max_u128
      → held h w.ledger h.caller w.pair.asset_1 ≤ max_u128
      → (x ≤ a) × (y ≤ b)
      → (held h w2.ledger h.caller w.pair.asset_0 ≤ held h w.ledger h.caller w.pair.asset_0)
        × (held h w2.ledger h.caller w.pair.asset_1 ≤ held h w.ledger h.caller w.pair.asset_1)
  no_richer lawful a b n x y w u w1 w2 paid grant done started apart distinct fits_0 fits_1 less =
      let back = returned h n w1 in
      let v = (_transfer_liquidity h.caller h.account_id n w1).1 in
      let some_before : 0 < u.pair.total_supply = rw paid.same_pair started in
      let sent =
        burn_liquidity-IsPaid h h.caller x y v w2
          (withdrawn n x y w1 w2 done (omega (arith, grant.supply, some_before))) in
      let asset_0 = back.asset_0 ∙ grant.asset_0 ∙ ap (λ (p : Pair). p.asset_0) paid.same_pair in
      let asset_1 = back.asset_1 ∙ grant.asset_1 ∙ ap (λ (p : Pair). p.asset_1) paid.same_pair in
      let sent' : IsPaid h h.caller w.pair.asset_0 w.pair.asset_1 u.ledger x y w2.ledger =
        rw (back.ledger ∙ grant.ledger, asset_0, asset_1) at sent in
      let (got_0, got_1) =
        received h lawful (λ e. apart (sym e)) distinct sent'
          (omega (arith, paid.spent_0, fits_0, less.0))
          (omega (arith, paid.spent_1, fits_1, less.1)) in
      (omega (arith, got_0, paid.spent_0, less.0), omega (arith, got_1, paid.spent_1, less.1))

  -- `deposit_asset_1` in its steps, in a pool with reserves.
  deposited :
      IsLawful h
      → (a b n : ℕ) (w w1 : World L) → deposit_asset_1 h a w ≡ (ok n, w1)
      → quote a w.pair.reserve_0 w.pair.reserve_1 ≡ ok b
      → 0 < w.pair.reserve_0
      → h.caller ≢ h.account_id
      → w.pair.asset_0 ≢ w.pair.asset_1
      → held h w.ledger h.account_id w.pair.asset_0 + a ≤ max_u128
      → held h w.ledger h.account_id w.pair.asset_1 + b ≤ max_u128
      → (u : World L) × PaidIn h a b w u × (mint_liquidity h h.caller u ≡ (ok n, w1))
  unfolding deposit_asset_1 ◌>>=◌
  deposited lawful a b n w w1 done priced some_reserve apart distinct fits_0 fits_1 =
      let first : (w.pair.reserve_0 == 0 && w.pair.reserve_1 == 0) ≡ false = ground arith in
      let d0 = rw (first, priced) at done in
      let send_0 = transfer_tokens h h.caller h.account_id w.pair.asset_0 a w in
      let send_1 = transfer_tokens h h.caller h.account_id w.pair.asset_1 b send_0.1 in
      let (_, e0, d1) = continue-ok send_0.0 _ _ d0 in
      let (_, e1, d2) = continue-ok send_1.0 _ _ d1 in
      (send_1.1, paid_in h lawful a b w apart distinct fits_0 fits_1 e0 e1, d2)

  -- With tokens that move as they promise: whoever deposits the first asset in a pool that has
  -- shares in circulation, reserves in step with the holdings and some of the first reserve, without
  -- a receiver of the protocol fee, where the contract has no shares of its own, and withdraws the
  -- granted shares at once, gets of either token at most what the deposit asked for, and has
  -- afterwards no more of either than before. The assets are two, the caller is not the contract,
  -- and the supply after the deposit is below the cap of 128 bits, which the new reserves and the
  -- caller's balances fit.
  pub deposit_withdraw_no_gain :
      IsLawful h
      → (a b n x y : ℕ) (w w1 w2 : World L) → deposit_asset_1 h a w ≡ (ok n, w1)
      → withdraw h n w1 ≡ (ok (x, y), w2)
      → quote a w.pair.reserve_0 w.pair.reserve_1 ≡ ok b
      → InSync h w
      → 0 < w.pair.reserve_0
      → w.pair.fee_to ≡ none
      → 0 < w.pair.total_supply
      → w1.pair.total_supply < max_u128
      → lp_balance_of h.account_id w ≡ 0
      → h.caller ≢ h.account_id
      → w.pair.asset_0 ≢ w.pair.asset_1
      → w.pair.reserve_0 + a ≤ max_u128
      → w.pair.reserve_1 + b ≤ max_u128
      → let mine_0 : ℕ = held h w.ledger h.caller w.pair.asset_0 in
        let mine_1 : ℕ = held h w.ledger h.caller w.pair.asset_1 in
        mine_0 ≤ max_u128
        → mine_1 ≤ max_u128
        → (x ≤ a)
          × (y ≤ b)
          × (held h w2.ledger h.caller w.pair.asset_0 ≤ mine_0)
          × (held h w2.ledger h.caller w.pair.asset_1 ≤ mine_1)
  deposit_withdraw_no_gain lawful a b n x y w w1 w2 deposit back priced in_sync some_reserve no_fee
        started below empty apart distinct fits_0 fits_1 mine_fits_0 mine_fits_1 =
      let (u, paid, minted) =
        deposited lawful a b n w w1 deposit priced some_reserve apart distinct
          (omega (arith, in_sync.first, fits_0)) (omega (arith, in_sync.second, fits_1)) in
      let grant =
        granted h h.caller n u w1 minted (rw paid.same_pair no_fee) (rw paid.same_pair started)
          below in
      let less =
        gains a b n x y w u w1 w2 in_sync paid grant back no_fee started (omega arith) apart
          empty in
      let kept =
        no_richer lawful a b n x y w u w1 w2 paid grant back started apart distinct mine_fits_0
          mine_fits_1 less in
      (less.0, less.1, kept.0, kept.1)
