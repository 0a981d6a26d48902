-- ===== src/Pallet/Exchange/Product.antt =====
-- What a successful `_swap` of the pallet has done.
use pendulum_amm.Base.{ℕ, ◌*◌, ◌≤◌, ◌<◌, ◌≡◌, ◌∙◌, ap, ◌&&◌, ◌||◌, true, some, arith, ltb}
use pendulum_amm.Base.Action.{Outcome, ok, ensure, when, ◌>>=◌}
use pendulum_amm.Base.Action.Inversion.{continue-ok, continue-unwrap, ensure-ok}
use pendulum_amm.Base.Word.{max_u128, saturating_mul}
use pendulum_amm.Base.Products.{scaled_products}
use pendulum_amm.Pallet.State.{
  DispatchError, Event, Storage, Config, World, deposit_event, amm, insufficient_output_amount,
  insufficient_liquidity, insufficient_input_amount, invalid_k,
}
use pendulum_amm.Pallet.Bank.{InSync, transfer_tokens, storage-when-transfer_tokens}
use pendulum_amm.Pallet.Reserves.{_update}
use pendulum_amm.Pallet.Reserves.Frame.{_update_lem}
use pendulum_amm.Pallet.Exchange.{adjusted, k_holds, received, _swap}

adjusted-le : (fee balance amount_in : ℕ) → adjusted fee balance amount_in ≤ balance * 1000
unfolding adjusted
adjusted-le f b a = omega arith

k_holds_sound :
    (fee balance_0 balance_1 amount_0_in amount_1_in reserve_0 reserve_1 : ℕ)
    → reserve_0 * reserve_1 * 1000000 ≤ max_u128
    → k_holds fee balance_0 balance_1 amount_0_in amount_1_in reserve_0 reserve_1 ≡ true
    → reserve_0 * reserve_1 ≤ balance_0 * balance_1
unfolding k_holds
k_holds_sound f b c i j r s fits h =
    let x : ℕ = adjusted f b i in
    let y : ℕ = adjusted f c j in
    let tested : saturating_mul (saturating_mul r s) 1000000 ≤ saturating_mul x y = ground arith in
    scaled_products r s b c x y fits tested (adjusted-le f b i) (adjusted-le f c j)

module _ {O L C : Type 0} (t : Config O L C) where
  deposited_event :
      (e : Event) (u w' : World L)
      → deposit_event e u ≡ (ok tt, w')
      → (w'.storage ≡ u.storage) × (w'.ledger ≡ u.ledger)
  unfolding ◌>>=◌
  deposited_event e u w' d = ground arith

  below_both : (a b r s : ℕ) → (ltb a r && ltb b s) ≡ true → (a < r) × (b < s)
  below_both a b r s e = ground arith

  module _ (amount_0_out amount_1_out to sender contract : ℕ) (w : World L)
      (known : w.storage.pallet_account_id ≡ some contract) where
    -- The state after the tokens are sent, and after the update.
    abbrev sent_0 : Outcome DispatchError Unit × World L
    sent_0 = when (ltb 0 amount_0_out) (transfer_tokens t contract to t.asset_0 amount_0_out) w

    abbrev sent_1 : Outcome DispatchError Unit × World L
    sent_1 =
        when (ltb 0 amount_1_out) (transfer_tokens t contract to t.asset_1 amount_1_out) sent_0.1

    abbrev balance_0 : ℕ
    balance_0 = t.amm_extension.fetch_balance sent_1.1.ledger contract t.asset_0

    abbrev balance_1 : ℕ
    balance_1 = t.amm_extension.fetch_balance sent_1.1.ledger contract t.asset_1

    abbrev settled : Outcome DispatchError Unit × World L
    settled =
        _update t balance_0 balance_1 w.storage.reserves.reserve_0 w.storage.reserves.reserve_1
          sent_1.1

    -- A successful swap in its steps.
    record SwapRun (w' : World L) : Type 0 where
      below :
          (amount_0_out < w.storage.reserves.reserve_0)
          × (amount_1_out < w.storage.reserves.reserve_1)
      checked :
          k_holds t.base_fee balance_0 balance_1
            (received balance_0 w.storage.reserves.reserve_0 amount_0_out)
            (received balance_1 w.storage.reserves.reserve_1 amount_1_out)
            w.storage.reserves.reserve_0
            w.storage.reserves.reserve_1
          ≡ true
      same_storage : w'.storage ≡ settled.1.storage
      same_ledger : w'.ledger ≡ settled.1.ledger

    swap_run :
        (w' : World L) → _swap t amount_0_out amount_1_out to sender w ≡ (ok tt, w') → SwapRun w'
    unfolding _swap ◌>>=◌
    swap_run w' done =
        let r : ℕ = w.storage.reserves.reserve_0 in
        let s : ℕ = w.storage.reserves.reserve_1 in
        let some_out = ltb 0 amount_0_out || ltb 0 amount_1_out in
        let in_stock = ltb amount_0_out r && ltb amount_1_out s in
        let in_0 : ℕ = received balance_0 r amount_0_out in
        let in_1 : ℕ = received balance_1 s amount_1_out in
        let k = k_holds t.base_fee balance_0 balance_1 in_0 in_1 r s in
        let (_, _, d1) =
          continue-ok (ensure some_out (amm insufficient_output_amount) w).0 _ _ done in
        let (_, stocked, d2) =
          continue-ok (ensure in_stock (amm insufficient_liquidity) w).0 _ _ d1 in
        let d2' = continue-unwrap w.storage.pallet_account_id _ w known d2 in
        let (_, _, d3) = continue-ok sent_0.0 _ _ d2' in
        let (_, _, d4) = continue-ok sent_1.0 _ _ d3 in
        let (_, _, d5) =
          continue-ok (ensure (ltb 0 in_0 || ltb 0 in_1) (amm insufficient_input_amount) sent_1.1).0
            _ _ d4 in
        let (_, tested, d6) = continue-ok (ensure k (amm invalid_k) sent_1.1).0 _ _ d5 in
        let (_, _, d7) = continue-ok settled.0 _ _ d6 in
        let (storage, ledger) = deposited_event _ settled.1 w' d7 in
        record {
          below = below_both amount_0_out amount_1_out r s (ensure-ok in_stock _ w stocked);
          checked = ensure-ok k _ sent_1.1 tested;
          same_storage = storage;
          same_ledger = ledger;
        }

    sent_storage : sent_1.1.storage ≡ w.storage
    sent_storage =
        storage-when-transfer_tokens t (ltb 0 amount_1_out) contract to t.asset_1 amount_1_out
          sent_0.1
        ∙ storage-when-transfer_tokens t (ltb 0 amount_0_out) contract to t.asset_0 amount_0_out w

    -- A successful swap of the pallet, where the account of the pallet is set and the product of the
    -- old reserves times 10^6 fits 128 bits, leaves the product of the reserves no smaller, the
    -- reserves equal to what that account then holds, the liquidity tokens and their supply as they
    -- were, and asked for less than each reserve, whatever the base fee.
    pub pallet_swap_sound :
        (w' : World L)
        → _swap t amount_0_out amount_1_out to sender w ≡ (ok tt, w')
        → w.storage.reserves.reserve_0 * w.storage.reserves.reserve_1 * 1000000 ≤ max_u128
        → (w.storage.reserves.reserve_0 * w.storage.reserves.reserve_1
            ≤ w'.storage.reserves.reserve_0 * w'.storage.reserves.reserve_1)
          × InSync t contract w'
          × (w'.storage.total_supply ≡ w.storage.total_supply)
          × (w'.storage.lp_balances ≡ w.storage.lp_balances)
          × (amount_0_out < w.storage.reserves.reserve_0)
          × (amount_1_out < w.storage.reserves.reserve_1)
    pallet_swap_sound w' done fits =
        let run = swap_run w' done in
        let set =
          _update_lem t sent_1.1 balance_0 balance_1 w.storage.reserves.reserve_0
            w.storage.reserves.reserve_1 in
        let r : w'.storage.reserves.reserve_0 ≡ balance_0 =
          ap (λ (p : Storage). p.reserves.reserve_0) run.same_storage ∙ set.new_reserve_0 in
        let s : w'.storage.reserves.reserve_1 ≡ balance_1 =
          ap (λ (p : Storage). p.reserves.reserve_1) run.same_storage ∙ set.new_reserve_1 in
        let l : w'.ledger ≡ sent_1.1.ledger = run.same_ledger ∙ set.same_ledger in
        (
          rw (r, s) (k_holds_sound _ _ _ _ _ _ _ fits run.checked),
          record { first = rw l r; second = rw l s },
          ap (λ (p : Storage). p.total_supply) run.same_storage
              ∙ set.same_supply
              ∙ ap (λ (p : Storage). p.total_supply) sent_storage,
          ap (λ (p : Storage). p.lp_balances) run.same_storage
              ∙ set.same_balances
              ∙ ap (λ (p : Storage). p.lp_balances) sent_storage,
          run.below.0,
          run.below.1,
        )
