-- ===== src/Contract/Exchange/Success.antt =====
-- When a swap message succeeds.
use pendulum_amm.Base.{ℕ, ◌+◌, ◌-◌, ◌*◌, ◌/◌, ◌≤◌, ◌<◌, ◌≡◌, ◌≢◌, ap, sym, subst, ◌∙◌, true, arith}
use pendulum_amm.Base.Word.{max_u128}
use pendulum_amm.Base.Nonlinear.{mul_mono_left}
use pendulum_amm.Base.Action.{Outcome, ok, ◌>>=◌}
use pendulum_amm.Contract.State.{Error, Host, World}
use pendulum_amm.Contract.Bank.{Answers, balance_of_known, held, InSync, transfer_tokens}
use pendulum_amm.Contract.Bank.Lawful.{IsLawful, transfer_tokens-ok}
use pendulum_amm.Contract.Reserves.Frame.{_update-ok}
use pendulum_amm.Contract.Pricing.{get_amount_in}
use pendulum_amm.Contract.Pricing.Swap.{get_amount_in-eq, get_amount_in_covers}
use pendulum_amm.Contract.Messages.{swap_asset_1_for_asset_2}
use pendulum_amm.Contract.Exchange.{received, adjusted, k_holds, _swap}

-- Balances that meet the product check with the fee of 0.3 % pass it, where the numbers fit.
k_holds-paid :
    (r s a out : ℕ)
    → (r + a) * 1000 ≤ max_u128
    → s * 1000 ≤ max_u128
    → out < s
    → r * s * 1000000 ≤ ((r + a) * 1000 - a * 3) * ((s - out) * 1000)
    → k_holds (r + a) (s - out) (received (r + a) r 0) (received (s - out) s out) r s ≡ true
unfolding k_holds adjusted received
k_holds-paid r s a out fits_r fits_s below paid = ground arith

received-in : (r a : ℕ) → 0 < a → received (r + a) r 0 ≡ a
unfolding received
received-in r a pays = ground arith

module _ {L : Type 0} (h : Host L) (law : IsLawful h) (answers : Answers h) (out a to : ℕ)
    (w : World L) where
  abbrev paid_out : World L
  paid_out = record w { ledger = h.transfer_balance w.ledger h.account_id to w.pair.asset_1 out }

  -- A swap of the second token succeeds where the contract has the reserves, and `a` more of the
  -- first token that meet the product check.
  _swap-succeeds :
      h.account_id ≢ to
      → w.pair.asset_1 ≢ w.pair.asset_0
      → held h w.ledger h.account_id w.pair.asset_0 ≡ w.pair.reserve_0 + a
      → held h w.ledger h.account_id w.pair.asset_1 ≡ w.pair.reserve_1
      → 0 < out
      → 0 < a
      → 0 < w.pair.reserve_0
      → out < w.pair.reserve_1
      → (w.pair.reserve_0 + a) * 1000 ≤ max_u128
      → w.pair.reserve_1 * 1000 ≤ max_u128
      → w.pair.reserve_0 * w.pair.reserve_1 * 1000000
        ≤ ((w.pair.reserve_0 + a) * 1000 - a * 3) * ((w.pair.reserve_1 - out) * 1000)
      → (_swap h 0 out to w).0 ≡ ok tt
  unfolding _swap ◌>>=◌
  _swap-succeeds apart distinct has_0 has_1 wants pays stocked below fits_0 fits_1 paid =
      let r : ℕ = w.pair.reserve_0 in
      let s : ℕ = w.pair.reserve_1 in
      let sent : transfer_tokens h h.account_id to w.pair.asset_1 out w ≡ (ok tt, paid_out) =
        transfer_tokens-ok h h.account_id to w.pair.asset_1 out w
          (answers.known w.ledger h.account_id w.pair.asset_1) (omega (arith, has_1)) in
      let left_0 : held h paid_out.ledger h.account_id w.pair.asset_0 ≡ r + a =
        law.other_asset w.ledger h.account_id to h.account_id w.pair.asset_1 w.pair.asset_0 out
          distinct
        ∙ has_0 in
      let left_1 : held h paid_out.ledger h.account_id w.pair.asset_1 ≡ s - out =
        law.sender w.ledger h.account_id to w.pair.asset_1 out apart (omega (arith, has_1))
        ∙ ap (λ (n : ℕ). n - out) has_1 in
      ground (
        arith,
        sent,
        balance_of_known h h.account_id w.pair.asset_0 paid_out
            (answers.known paid_out.ledger h.account_id w.pair.asset_0),
        balance_of_known h h.account_id w.pair.asset_1 paid_out
            (answers.known paid_out.ledger h.account_id w.pair.asset_1),
        left_0,
        left_1,
        received-in r a pays,
        k_holds-paid r s a out fits_0 fits_1 below paid,
        _update-ok h paid_out (r + a) (s - out) r s,
      )

ok-injective : {a b : ℕ} → Path (Outcome Error ℕ) (ok a) (ok b) → a ≡ b
ok-injective e = cc

module _ {L : Type 0} (h : Host L) (law : IsLawful h) (answers : Answers h) (out a : ℕ)
    (w : World L) where
  abbrev paid_in : World L
  paid_in = record w { ledger = h.transfer_balance w.ledger h.caller h.account_id w.pair.asset_0 a }

  -- Where the chain extension answers every read of a balance with a status that the contract
  -- knows, with tokens that keep their promise, reserves in step with the contract's holdings, and an
  -- output below its reserve: a caller other than the contract who can pay the price that
  -- `get_amount_in` asks gets the swap done, where the products in use fit 128 bits.
  pub swap_asset_1_for_asset_2_succeeds :
      h.account_id ≢ h.caller
      → w.pair.asset_1 ≢ w.pair.asset_0
      → InSync h w
      → 0 < out
      → out < w.pair.reserve_1
      → 0 < w.pair.reserve_0
      → w.pair.reserve_0 * w.pair.reserve_1 * 1000 ≤ max_u128
      → get_amount_in out w.pair.reserve_0 w.pair.reserve_1 ≡ ok a
      → a ≤ held h w.ledger h.caller w.pair.asset_0
      → (w.pair.reserve_0 + a) * 1000 ≤ max_u128
      → (swap_asset_1_for_asset_2 h out w).0 ≡ ok tt
  unfolding swap_asset_1_for_asset_2 ◌>>=◌
  swap_asset_1_for_asset_2_succeeds apart distinct in_sync wants below stocked fits price covered
        fits_0 =
      let r : ℕ = w.pair.reserve_0 in
      let s : ℕ = w.pair.reserve_1 in
      let (a', price', paid) = get_amount_in_covers out r s wants below stocked fits in
      let same : a' ≡ a = ok-injective (sym price' ∙ price) in
      let charge : a ≡ r * s * 1000 / ((s - out) * 997) + 1 =
        sym (ok-injective (sym (get_amount_in-eq out r s wants below stocked fits) ∙ price)) in
      let sent : transfer_tokens h h.caller h.account_id w.pair.asset_0 a w ≡ (ok tt, paid_in) =
        transfer_tokens-ok h h.caller h.account_id w.pair.asset_0 a w
          (answers.known w.ledger h.caller w.pair.asset_0) covered in
      let has_0 : held h paid_in.ledger h.account_id w.pair.asset_0 ≡ r + a =
        law.receiver w.ledger h.caller h.account_id w.pair.asset_0 a (λ e. apart (sym e)) covered
          (omega (arith, in_sync.first))
        ∙ ap (λ (n : ℕ). n + a) (sym in_sync.first) in
      let has_1 : held h paid_in.ledger h.account_id w.pair.asset_1 ≡ s =
        law.other_asset w.ledger h.caller h.account_id h.account_id w.pair.asset_0 w.pair.asset_1 a
          (λ e. distinct (sym e))
        ∙ sym in_sync.second in
      let swapped : (_swap h 0 out h.caller paid_in).0 ≡ ok tt =
        _swap-succeeds h law answers out a h.caller paid_in apart distinct has_0 has_1 wants
          (omega (arith, charge)) stocked below fits_0 (omega (arith, mul_mono_left 1 r s stocked))
          (subst (λ n. r * s * 1000000 ≤ ((r + n) * 1000 - n * 3) * ((s - out) * 1000)) same
            paid) in
      ground (arith, price, sent, swapped)
