-- ===== src/Contract/Exchange/Product.antt =====
-- What a successful `_swap` has done: the product of the reserves, and the reserves against the
-- tokens.
use pendulum_amm.Base.{ℕ, ◌*◌, ◌≤◌, ◌<◌, ◌≡◌, ◌∙◌, ap, ◌&&◌, ◌||◌, true, arith, ltb}
use pendulum_amm.Base.Action.{Outcome, ok, ensure, when, ◌>>=◌}
use pendulum_amm.Base.Action.Inversion.{continue-ok, ensure-ok}
use pendulum_amm.Base.Word.{max_u128, saturating_mul}
use pendulum_amm.Base.Products.{scaled_products}
use pendulum_amm.Contract.State.{
  Error, Event, Pair, Host, World, emit_event, insufficient_output_amount, insufficient_liquidity,
  insufficient_input_amount, invalid_k,
}
use pendulum_amm.Contract.Bank.{
  balance_of-ok, held, InSync, transfer_tokens, pair-when-transfer_tokens,
}
use pendulum_amm.Contract.Reserves.{_update}
use pendulum_amm.Contract.Reserves.Frame.{_update_lem}
use pendulum_amm.Contract.Exchange.{adjusted, k_holds, received, _swap}

adjusted-le : (balance amount_in : ℕ) → adjusted balance amount_in ≤ balance * 1000
unfolding adjusted
adjusted-le b a = omega arith

-- Where the scaled product of the reserves fits 128 bits, the test of `InvalidK` implies that the
-- product of the balances is at least that of the reserves.
pub k_holds_sound :
    (balance_0 balance_1 amount_0_in amount_1_in reserve_0 reserve_1 : ℕ)
    → reserve_0 * reserve_1 * 1000000 ≤ max_u128
    → k_holds balance_0 balance_1 amount_0_in amount_1_in reserve_0 reserve_1 ≡ true
    → reserve_0 * reserve_1 ≤ balance_0 * balance_1
unfolding k_holds
k_holds_sound b c i j r s fits h =
    let x : ℕ = adjusted b i in
    let y : ℕ = adjusted c j in
    let tested : saturating_mul (saturating_mul r s) 1000000 ≤ saturating_mul x y = ground arith in
    scaled_products r s b c x y fits tested (adjusted-le b i) (adjusted-le c j)

module _ {L : Type 0} (h : Host L) where
  emitted :
      (e : Event) (u w' : World L)
      → emit_event e u ≡ (ok tt, w')
      → (w'.pair ≡ u.pair) × (w'.ledger ≡ u.ledger)
  unfolding ◌>>=◌
  emitted e u w' d = ground arith

  below_both :
      (a b : ℕ) (p : Pair)
      → (ltb a p.reserve_0 && ltb b p.reserve_1) ≡ true
      → (a < p.reserve_0) × (b < p.reserve_1)
  below_both a b p e = ground arith

  module _ (amount_0_out amount_1_out to : ℕ) (w : World L) where
    -- The state after the tokens are sent, and after the update.
    abbrev sent_0 : Outcome Error Unit × World L
    sent_0 =
        when (ltb 0 amount_0_out) (transfer_tokens h h.account_id to w.pair.asset_0 amount_0_out) w

    abbrev sent_1 : Outcome Error Unit × World L
    sent_1 =
        when (ltb 0 amount_1_out) (transfer_tokens h h.account_id to w.pair.asset_1 amount_1_out)
          sent_0.1

    abbrev balance_0 : ℕ
    balance_0 = held h sent_1.1.ledger h.account_id w.pair.asset_0

    abbrev balance_1 : ℕ
    balance_1 = held h sent_1.1.ledger h.account_id w.pair.asset_1

    abbrev settled : Outcome Error Unit × World L
    settled = _update h balance_0 balance_1 w.pair.reserve_0 w.pair.reserve_1 sent_1.1

    -- A successful swap in its steps.
    record SwapRun (w' : World L) : Type 0 where
      below : (amount_0_out < w.pair.reserve_0) × (amount_1_out < w.pair.reserve_1)
      checked :
          k_holds balance_0 balance_1
            (received balance_0 w.pair.reserve_0 amount_0_out)
            (received balance_1 w.pair.reserve_1 amount_1_out)
            w.pair.reserve_0
            w.pair.reserve_1
          ≡ true
      same_pair : w'.pair ≡ settled.1.pair
      same_ledger : w'.ledger ≡ settled.1.ledger

    swap_run : (w' : World L) → _swap h amount_0_out amount_1_out to w ≡ (ok tt, w') → SwapRun w'
    unfolding _swap ◌>>=◌
    swap_run w' done =
        let some_out = ltb 0 amount_0_out || ltb 0 amount_1_out in
        let in_stock = ltb amount_0_out w.pair.reserve_0 && ltb amount_1_out w.pair.reserve_1 in
        let in_0 : ℕ = received balance_0 w.pair.reserve_0 amount_0_out in
        let in_1 : ℕ = received balance_1 w.pair.reserve_1 amount_1_out in
        let k = k_holds balance_0 balance_1 in_0 in_1 w.pair.reserve_0 w.pair.reserve_1 in
        let (_, _, d1) = continue-ok (ensure some_out insufficient_output_amount w).0 _ _ done in
        let (_, stocked, d2) = continue-ok (ensure in_stock insufficient_liquidity w).0 _ _ d1 in
        let (_, _, d3) = continue-ok sent_0.0 _ _ d2 in
        let (_, _, d4) = continue-ok sent_1.0 _ _ d3 in
        let read_0 = balance_of-ok h h.account_id w.pair.asset_0 _ sent_1.1 d4 in
        let read_1 = balance_of-ok h h.account_id w.pair.asset_1 _ sent_1.1 read_0 in
        let (_, _, d5) =
          continue-ok (ensure (ltb 0 in_0 || ltb 0 in_1) insufficient_input_amount sent_1.1).0 _ _
            read_1 in
        let (_, tested, d6) = continue-ok (ensure k invalid_k sent_1.1).0 _ _ d5 in
        let again_0 = balance_of-ok h h.account_id w.pair.asset_0 _ sent_1.1 d6 in
        let again_1 = balance_of-ok h h.account_id w.pair.asset_1 _ sent_1.1 again_0 in
        let (_, _, d7) = continue-ok settled.0 _ _ again_1 in
        let (pair, ledger) = emitted _ settled.1 w' d7 in
        record {
          below = below_both amount_0_out amount_1_out w.pair (ensure-ok in_stock _ w stocked);
          checked = ensure-ok k _ sent_1.1 tested;
          same_pair = pair;
          same_ledger = ledger;
        }

    sent_pair : sent_1.1.pair ≡ w.pair
    sent_pair =
        pair-when-transfer_tokens h (ltb 0 amount_1_out) h.account_id to w.pair.asset_1 amount_1_out
          sent_0.1
        ∙ pair-when-transfer_tokens h (ltb 0 amount_0_out) h.account_id to w.pair.asset_0
            amount_0_out w

    -- A successful swap, where the product of the old reserves times 10^6 fits 128 bits, leaves the
    -- product of the reserves no smaller, the reserves equal to what the contract then holds, the
    -- liquidity tokens and their supply as they were, and asked for less than each reserve.
    pub swap_sound :
        (w' : World L)
        → _swap h amount_0_out amount_1_out to w ≡ (ok tt, w')
        → w.pair.reserve_0 * w.pair.reserve_1 * 1000000 ≤ max_u128
        → (w.pair.reserve_0 * w.pair.reserve_1 ≤ w'.pair.reserve_0 * w'.pair.reserve_1)
          × InSync h w'
          × (w'.pair.total_supply ≡ w.pair.total_supply)
          × (w'.pair.lp_balances ≡ w.pair.lp_balances)
          × (amount_0_out < w.pair.reserve_0)
          × (amount_1_out < w.pair.reserve_1)
    swap_sound w' done fits =
        let run = swap_run w' done in
        let set = _update_lem h sent_1.1 balance_0 balance_1 w.pair.reserve_0 w.pair.reserve_1 in
        let r : w'.pair.reserve_0 ≡ balance_0 =
          ap (λ (p : Pair). p.reserve_0) run.same_pair ∙ set.new_reserve_0 in
        let s : w'.pair.reserve_1 ≡ balance_1 =
          ap (λ (p : Pair). p.reserve_1) run.same_pair ∙ set.new_reserve_1 in
        let a : w'.pair.asset_0 ≡ w.pair.asset_0 =
          ap (λ (p : Pair). p.asset_0) run.same_pair
          ∙ set.same_asset_0
          ∙ ap (λ (p : Pair). p.asset_0) sent_pair in
        let b : w'.pair.asset_1 ≡ w.pair.asset_1 =
          ap (λ (p : Pair). p.asset_1) run.same_pair
          ∙ set.same_asset_1
          ∙ ap (λ (p : Pair). p.asset_1) sent_pair in
        let l : w'.ledger ≡ sent_1.1.ledger = run.same_ledger ∙ set.same_ledger in
        (
          rw (r, s) (k_holds_sound _ _ _ _ _ _ fits run.checked),
          record { first = rw (l, a) r; second = rw (l, b) s },
          ap (λ (p : Pair). p.total_supply) run.same_pair
              ∙ set.same_supply
              ∙ ap (λ (p : Pair). p.total_supply) sent_pair,
          ap (λ (p : Pair). p.lp_balances) run.same_pair
              ∙ set.same_balances
              ∙ ap (λ (p : Pair). p.lp_balances) sent_pair,
          run.below.0,
          run.below.1,
        )
