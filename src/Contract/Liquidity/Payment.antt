-- ===== src/Contract/Liquidity/Payment.antt =====
-- A successful `burn` in its steps.
use pendulum_amm.Base.{ℕ, ◌-◌, ◌≤◌, ◌<◌, ◌≡◌, ◌∙◌, sym, ap, Bool, ◌&&◌, arith, ltb}
use pendulum_amm.Base.Action.{ok, pure, ensure, when, ◌>>=◌, ◌>>◌}
use pendulum_amm.Base.Action.Inversion.{continue-ok}
use pendulum_amm.Base.Word.{saturating_mul}
use pendulum_amm.Contract.State.{
  Asset, Pair, Host, World, insufficient_liquidity_burned, burn, set_pair, emit_event,
}
use pendulum_amm.Contract.Token.{lp_balance_of, _burn}
use pendulum_amm.Contract.Bank.{
  balance_of-ok, held, transfer_tokens, pair-transfer_tokens, transfer_tokens_paid,
}
use pendulum_amm.Contract.Reserves.{_update, _mint_fee}
use pendulum_amm.Contract.Reserves.Frame.{_update_lem}
use pendulum_amm.Contract.Liquidity.{share, finish_burn, burn_liquidity}
use pendulum_amm.Contract.Liquidity.Minting.{charged}

module _ {L : Type 0} (h : Host L) where
  -- Tokens sent from the contract, of the first kind before the second, which it could both pay.
  pub record IsPaid (to : ℕ) (s t : Asset) (l : L) (x y : ℕ) (l' : L) : Type 0 where
    pub covered_0 : x ≤ held h l h.account_id s
    pub covered_1 : y ≤ held h (h.transfer_balance l h.account_id to s x) h.account_id t
    pub moved :
        l' ≡ h.transfer_balance (h.transfer_balance l h.account_id to s x) h.account_id to t y

  pub IsPaid-same :
      {to x y a b : ℕ} {s t : Asset} {l m l' : L}
      → x ≡ a
      → y ≡ b
      → m ≡ l
      → IsPaid to s t m a b l'
      → IsPaid to s t l x y l'
  IsPaid-same p q r paid = rw (p, q, sym r) paid

  -- The last steps of `burn` write `k_last` and the event, and return the amounts.
  record Finished (a b : ℕ) (u : World L) (x y : ℕ) (w' : World L) : Type 0 where
    first : x ≡ a
    second : y ≡ b
    ledger : w'.ledger ≡ u.ledger
    supply : w'.pair.total_supply ≡ u.pair.total_supply
    asset_0_kept : w'.pair.asset_0 ≡ u.pair.asset_0
    asset_1_kept : w'.pair.asset_1 ≡ u.pair.asset_1
    reserve_0_kept : w'.pair.reserve_0 ≡ u.pair.reserve_0
    reserve_1_kept : w'.pair.reserve_1 ≡ u.pair.reserve_1

  last_steps :
      (fee_on : Bool) (r s a b to x y : ℕ) (u w' : World L)
      → (when fee_on (set_pair (λ q. record q { k_last = saturating_mul r s }))
            >> (emit_event (burn h.caller to a b) >> pure {A = ℕ × ℕ} (a, b)))
          u
        ≡ (ok (x, y), w')
      → Finished a b u x y w'
  unfolding ◌>>=◌
  last_steps fee_on r s a b to x y u w' e = ground arith

  -- The guard of `burn`.
  both_positive :
      (a b : ℕ) (w : World L) {u : Unit}
      → (ensure (ltb 0 a && ltb 0 b) insufficient_liquidity_burned w).0 ≡ ok u
      → (0 < a) × (0 < b)
  unfolding ◌>>=◌
  both_positive a b w e = ground arith

  module _ (to liquidity : ℕ) (fee_on : Bool) (a b r s : ℕ) (asset_0 asset_1 : Asset)
      (w : World L) where
    -- The state after the shares are burned and the tokens sent, and after the update.
    abbrev paid : World L
    paid =
        (transfer_tokens h h.account_id to asset_1 b
          (transfer_tokens h h.account_id to asset_0 a (_burn h.account_id liquidity w).1).1).1

    abbrev updated : World L
    updated =
        (_update h (held h paid.ledger h.account_id asset_0)
          (held h paid.ledger h.account_id asset_1) r s paid).1

    paid_pair : paid.pair ≡ (_burn h.account_id liquidity w).1.pair
    paid_pair =
        let w1 = (_burn h.account_id liquidity w).1 in
        let w2 = (transfer_tokens h h.account_id to asset_0 a w1).1 in
        pair-transfer_tokens h h.account_id to asset_1 b w2
        ∙ pair-transfer_tokens h h.account_id to asset_0 a w1

    pub record Burned (x y : ℕ) (w' : World L) : Type 0 where
      pub first : x ≡ a
      pub second : y ≡ b
      pub first_positive : 0 < a
      pub second_positive : 0 < b
      pub supply : w'.pair.total_supply ≡ w.pair.total_supply - liquidity
      pub same_asset_0 : w'.pair.asset_0 ≡ w.pair.asset_0
      pub same_asset_1 : w'.pair.asset_1 ≡ w.pair.asset_1
      pub reserve_0 : w'.pair.reserve_0 ≡ held h w'.ledger h.account_id asset_0
      pub reserve_1 : w'.pair.reserve_1 ≡ held h w'.ledger h.account_id asset_1
      pub paid : IsPaid to asset_0 asset_1 w.ledger a b w'.ledger

    finish_burn_run :
        (x y : ℕ) (w' : World L)
        → finish_burn h to liquidity fee_on a b r s asset_0 asset_1 w ≡ (ok (x, y), w')
        → Burned x y w'
    unfolding finish_burn _burn ◌>>=◌
    finish_burn_run x y w' done =
        let test = ensure (ltb 0 a && ltb 0 b) insufficient_liquidity_burned w in
        let w1 = (_burn h.account_id liquidity w).1 in
        let send_0 = transfer_tokens h h.account_id to asset_0 a w1 in
        let send_1 = transfer_tokens h h.account_id to asset_1 b send_0.1 in
        let held_0 : ℕ = held h paid.ledger h.account_id asset_0 in
        let held_1 : ℕ = held h paid.ledger h.account_id asset_1 in
        let (_, tested, d1) = continue-ok test.0 _ _ done in
        let (_, e0, d2) = continue-ok send_0.0 _ _ d1 in
        let (_, e1, d3) = continue-ok send_1.0 _ _ d2 in
        let (covered_0, moved_0) = transfer_tokens_paid h h.account_id to asset_0 a w1 e0 in
        let (covered_1, moved_1) = transfer_tokens_paid h h.account_id to asset_1 b send_0.1 e1 in
        let read_0 = balance_of-ok h h.account_id asset_0 _ paid d3 in
        let read_1 = balance_of-ok h h.account_id asset_1 _ paid read_0 in
        let (_, _, d4) = continue-ok (_update h held_0 held_1 r s paid).0 _ _ read_1 in
        let (positive_0, positive_1) = both_positive a b w tested in
        let end = last_steps fee_on r s a b to x y updated w' d4 in
        let set = _update_lem h paid held_0 held_1 r s in
        record {
          first = end.first;
          second = end.second;
          first_positive = positive_0;
          second_positive = positive_1;
          supply = end.supply ∙ set.same_supply ∙ ap (λ (p : Pair). p.total_supply) paid_pair;
          same_asset_0 =
              end.asset_0_kept ∙ set.same_asset_0 ∙ ap (λ (p : Pair). p.asset_0) paid_pair;
          same_asset_1 =
              end.asset_1_kept ∙ set.same_asset_1 ∙ ap (λ (p : Pair). p.asset_1) paid_pair;
          reserve_0 =
              end.reserve_0_kept
              ∙ set.new_reserve_0
              ∙ ap (λ (l : L). held h l h.account_id asset_0) (sym (end.ledger ∙ set.same_ledger));
          reserve_1 =
              end.reserve_1_kept
              ∙ set.new_reserve_1
              ∙ ap (λ (l : L). held h l h.account_id asset_1) (sym (end.ledger ∙ set.same_ledger));
          paid = record {
            covered_0 = covered_0;
            covered_1 = rw (sym moved_0) covered_1;
            moved =
                end.ledger
                ∙ set.same_ledger
                ∙ moved_1
                ∙ ap (λ (l : L). h.transfer_balance l h.account_id to asset_1 b) moved_0;
          };
        }

  -- A successful `burn` in its steps: the fee, the two shares, and the rest.
  pub record BurnRun (to x y : ℕ) (w w' : World L) : Type 0 where
    pub fee_on : Bool
    pub a : ℕ
    pub b : ℕ
    pub share_0 :
        share
          (lp_balance_of h.account_id w)
          (held h w.ledger h.account_id w.pair.asset_0)
          (charged h w).pair.total_supply
        ≡ ok a
    pub share_1 :
        share
          (lp_balance_of h.account_id w)
          (held h w.ledger h.account_id w.pair.asset_1)
          (charged h w).pair.total_supply
        ≡ ok b
    pub end :
        Burned to
          (lp_balance_of h.account_id w)
          fee_on
          a
          b
          w.pair.reserve_0
          w.pair.reserve_1
          w.pair.asset_0
          w.pair.asset_1
          (charged h w)
          x
          y
          w'

  pub burn_run :
      (to x y : ℕ) (w w' : World L) → burn_liquidity h to w ≡ (ok (x, y), w') → BurnRun to x y w w'
  unfolding burn_liquidity ◌>>=◌
  burn_run to x y w w' done =
      let p = w.pair in
      let t : ℕ = (charged h w).pair.total_supply in
      let l : ℕ = lp_balance_of h.account_id w in
      let balance_0 : ℕ = held h w.ledger h.account_id p.asset_0 in
      let balance_1 : ℕ = held h w.ledger h.account_id p.asset_1 in
      let read_0 = balance_of-ok h h.account_id p.asset_0 _ w done in
      let read_1 = balance_of-ok h h.account_id p.asset_1 _ w read_0 in
      let (fee_on, _, rest) = continue-ok (_mint_fee h p.reserve_0 p.reserve_1 w).0 _ _ read_1 in
      let (a, share_0, rest_0) = continue-ok (share l balance_0 t) _ _ rest in
      let (b, share_1, rest_1) = continue-ok (share l balance_1 t) _ _ rest_0 in
      record {
        fee_on = fee_on;
        a = a;
        b = b;
        share_0 = share_0;
        share_1 = share_1;
        end =
            finish_burn_run to l fee_on a b p.reserve_0 p.reserve_1 p.asset_0 p.asset_1
              (charged h w) x y w' rest_1;
      }
