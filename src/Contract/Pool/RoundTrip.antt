-- ===== src/Contract/Pool/RoundTrip.antt =====
-- The parts of a deposit that is withdrawn at once.
pub mod Gain
use pendulum_amm.Base.{
  ℕ, ◌+◌, ◌-◌, ◌*◌, ◌≤◌, ◌<◌, ◌≡◌, ◌≢◌, ◌∙◌, sym, ap, subst, arith, none, ◌&&◌, ◌==◌, Bool,
}
use pendulum_amm.Base.Action.{Outcome, ok, ◌>>=◌, ◌>>◌}
use pendulum_amm.Base.Action.Inversion.{continue-ok}
use pendulum_amm.Base.Dict.{Dict, value, insert, lookup-insert}
use pendulum_amm.Base.Word.{max_u128, saturating_add, saturating_sub}
use native.Mathlib.Nat.{le_of_mul-le-mul_right}
use pendulum_amm.Contract.State.{Asset, Host, World}
use pendulum_amm.Contract.Token.{lp_balance_of, _mint, _transfer_liquidity}
use pendulum_amm.Contract.Pricing.{quote}
use pendulum_amm.Contract.Bank.{
  balance_of-ok, held, InSync, transfer_tokens, pair-transfer_tokens, transfer_tokens_paid,
}
use pendulum_amm.Contract.Bank.Lawful.{IsLawful}
use pendulum_amm.Contract.Reserves.{_update, collect_fee, _mint_fee}
use pendulum_amm.Contract.Reserves.Frame.{_mint_fee_frame}
use pendulum_amm.Contract.Liquidity.{new_liquidity, finish_mint, mint_liquidity, burn_liquidity}
use pendulum_amm.Contract.Liquidity.Minting.{
  surplus_0, surplus_1, charged, grant, mint_run, new_liquidity_shares, new_liquidity_frame,
}
use pendulum_amm.Contract.Liquidity.Burning.{burn_sound}
use pendulum_amm.Contract.Messages.{deposit_asset_1, withdraw}

module _ {L : Type 0} (h : Host L) where
  -- Without a receiver, the fee changes `k_last` at most.
  pub record Free (w u : World L) : Type 0 where
    pub supply : u.pair.total_supply ≡ w.pair.total_supply
    pub balances : u.pair.lp_balances ≡ w.pair.lp_balances
    pub receiver : u.pair.fee_to ≡ w.pair.fee_to

  pub charged-Free : (w : World L) → w.pair.fee_to ≡ none → Free w (charged h w)
  unfolding _mint_fee collect_fee ◌>>=◌
  charged-Free w no_fee = ground arith

  grant-Free : (t a b r s : ℕ) (w : World L) → t ≢ 0 → Free w (new_liquidity h t a b r s w).1
  unfolding new_liquidity ◌>>=◌
  grant-Free t a b r s w ne = ground arith

  finish-balances :
      (to l : ℕ) (on : Bool) (b c r s x y n : ℕ) (w w' : World L)
      → finish_mint h to l on b c r s x y w ≡ (ok n, w')
      → (w'.pair.lp_balances ≡ insert to (saturating_add (lp_balance_of to w) n) w.pair.lp_balances)
        × (w'.pair.fee_to ≡ w.pair.fee_to)
  unfolding finish_mint _update _mint ◌>>=◌
  finish-balances to l on b c r s x y n w w' done = ground arith

  -- What a `mint` without a fee has granted.
  pub record Granted (to n : ℕ) (u w : World L) : Type 0 where
    pub priced_0 : n * u.pair.reserve_0 ≤ surplus_0 h u * u.pair.total_supply
    pub priced_1 : n * u.pair.reserve_1 ≤ surplus_1 h u * u.pair.total_supply
    pub supply : w.pair.total_supply ≡ u.pair.total_supply + n
    pub ledger : w.ledger ≡ u.ledger
    pub asset_0 : w.pair.asset_0 ≡ u.pair.asset_0
    pub asset_1 : w.pair.asset_1 ≡ u.pair.asset_1
    pub balances :
        w.pair.lp_balances ≡ insert to (saturating_add (lp_balance_of to u) n) u.pair.lp_balances
    pub receiver : w.pair.fee_to ≡ u.pair.fee_to

  pub granted :
      (to n : ℕ) (u w : World L)
      → mint_liquidity h to u ≡ (ok n, w)
      → u.pair.fee_to ≡ none
      → 0 < u.pair.total_supply
      → w.pair.total_supply < max_u128
      → Granted to n u w
  unfolding mint_liquidity ◌>>=◌
  granted to n u w done no_fee started below =
      let run = mint_run h to n u w done in
      let r : ℕ = u.pair.reserve_0 in
      let s : ℕ = u.pair.reserve_1 in
      let t : ℕ = (charged h u).pair.total_supply in
      let free = charged-Free u no_fee in
      let ne : t ≢ 0 = omega (arith, free.supply, started) in
      let (left, right, same) =
        new_liquidity_shares h t (surplus_0 h u) (surplus_1 h u) r s n (charged h u) ne run.fresh in
      let still = grant-Free t (surplus_0 h u) (surplus_1 h u) r s (charged h u) ne in
      let frame = new_liquidity_frame h t (surplus_0 h u) (surplus_1 h u) r s (charged h u) in
      let fee = _mint_fee_frame h u r s in
      let read_0 = balance_of-ok h h.account_id u.pair.asset_0 _ u done in
      let read_1 = balance_of-ok h h.account_id u.pair.asset_1 _ u read_0 in
      let (on, _, rest) = continue-ok (_mint_fee h r s u).0 _ _ read_1 in
      let (l, _, rest') = continue-ok (grant h u).0 _ _ rest in
      let (balances, receiver) = finish-balances to l on _ _ r s _ _ n (grant h u).1 w rest' in
      record {
        priced_0 = omega (arith, left, ap (λ (m : ℕ). surplus_0 h u * m) free.supply);
        priced_1 = omega (arith, right, ap (λ (m : ℕ). surplus_1 h u * m) free.supply);
        supply = omega (arith, run.supply, same, free.supply, below);
        ledger = run.same_ledger ∙ frame.same_ledger ∙ fee.same_ledger;
        asset_0 = run.same_asset_0 ∙ frame.same_asset_0 ∙ fee.same_asset_0;
        asset_1 = run.same_asset_1 ∙ frame.same_asset_1 ∙ fee.same_asset_1;
        balances =
            balances
            ∙ ap (λ (d : Dict). insert to (saturating_add (value to d) n) d)
                (still.balances ∙ free.balances);
        receiver = receiver ∙ still.receiver ∙ free.receiver;
      }

  -- Both tokens have come in.
  pub record PaidIn (a b : ℕ) (w u : World L) : Type 0 where
    pub same_pair : u.pair ≡ w.pair
    pub held_0 :
        held h u.ledger h.account_id w.pair.asset_0
        ≡ held h w.ledger h.account_id w.pair.asset_0 + a
    pub held_1 :
        held h u.ledger h.account_id w.pair.asset_1
        ≡ held h w.ledger h.account_id w.pair.asset_1 + b
    pub spent_0 :
        held h u.ledger h.caller w.pair.asset_0 + a ≡ held h w.ledger h.caller w.pair.asset_0
    pub spent_1 :
        held h u.ledger h.caller w.pair.asset_1 + b ≡ held h w.ledger h.caller w.pair.asset_1

  pub paid_in :
      IsLawful h
      → (a b : ℕ) (w : World L) → h.caller ≢ h.account_id
      → w.pair.asset_0 ≢ w.pair.asset_1
      → held h w.ledger h.account_id w.pair.asset_0 + a ≤ max_u128
      → held h w.ledger h.account_id w.pair.asset_1 + b ≤ max_u128
      → let first = transfer_tokens h h.caller h.account_id w.pair.asset_0 a w in
        let second = transfer_tokens h h.caller h.account_id w.pair.asset_1 b first.1 in
        first.0 ≡ ok tt → second.0 ≡ ok tt → PaidIn a b w second.1
  paid_in lawful a b w apart distinct fits_0 fits_1 e0 e1 =
      let s = w.pair.asset_0 in
      let t = w.pair.asset_1 in
      let me : ℕ = h.account_id in
      let first = transfer_tokens h h.caller me s a w in
      let second = transfer_tokens h h.caller me t b first.1 in
      let mid = h.transfer_balance w.ledger h.caller me s a in
      let (covered_0, moved_0) = transfer_tokens_paid h h.caller me s a w e0 in
      let (covered_1, moved_1) = transfer_tokens_paid h h.caller me t b first.1 e1 in
      let end : second.1.ledger ≡ h.transfer_balance mid h.caller me t b =
        moved_1 ∙ ap (λ (l : L). h.transfer_balance l h.caller me t b) moved_0 in
      let other : held h mid me t ≡ held h w.ledger me t =
        lawful.other_asset w.ledger h.caller me me s t a distinct in
      let covered : b ≤ held h mid h.caller t =
        subst (λ (l : L). b ≤ held h l h.caller t) moved_0 covered_1 in
      record {
        same_pair =
            pair-transfer_tokens h h.caller me t b first.1
            ∙ pair-transfer_tokens h h.caller me s a w;
        held_0 =
            ap (λ (l : L). held h l me s) end
            ∙ lawful.other_asset mid h.caller me me t s b (λ e. distinct (sym e))
            ∙ lawful.receiver w.ledger h.caller me s a apart covered_0 fits_0;
        held_1 =
            ap (λ (l : L). held h l me t) end
            ∙ lawful.receiver mid h.caller me t b apart covered (omega (arith, other, fits_1))
            ∙ ap (λ (n : ℕ). n + b) other;
        spent_0 = omega (
          arith,
          ap (λ (l : L). held h l h.caller s) end
              ∙ lawful.other_asset mid h.caller me h.caller t s b (λ e. distinct (sym e)),
          lawful.sender w.ledger h.caller me s a apart covered_0,
          covered_0,
        );
        spent_1 = omega (
          arith,
          ap (λ (l : L). held h l h.caller t) end,
          lawful.sender mid h.caller me t b apart covered,
          covered,
          lawful.other_asset w.ledger h.caller me h.caller s t a distinct,
        );
      }

  -- The shares that come back for burning.
  pub record Returned (n : ℕ) (w v : World L) : Type 0 where
    pub ledger : v.ledger ≡ w.ledger
    pub asset_0 : v.pair.asset_0 ≡ w.pair.asset_0
    pub asset_1 : v.pair.asset_1 ≡ w.pair.asset_1
    pub supply : v.pair.total_supply ≡ w.pair.total_supply
    pub receiver : v.pair.fee_to ≡ w.pair.fee_to
    pub shares : lp_balance_of h.account_id v ≤ lp_balance_of h.account_id w + n

  pub returned :
      (n : ℕ) (w : World L) → Returned n w (_transfer_liquidity h.caller h.account_id n w).1
  unfolding _transfer_liquidity ◌>>=◌
  returned n w =
      let d = w.pair.lp_balances in
      let d' = insert h.caller (saturating_sub (value h.caller d) n) d in
      record {
        ledger = ground arith;
        asset_0 = ground arith;
        asset_1 = ground arith;
        supply = ground arith;
        receiver = ground arith;
        shares = ground (
          arith,
          lookup-insert h.account_id h.caller (saturating_sub (value h.caller d) n) d,
          lookup-insert h.account_id h.account_id (saturating_add (value h.account_id d') n) d',
        );
      }
