-- ===== src/Contract/Reserves/Oracle.antt =====
-- The price accumulators over several updates.
use pendulum_amm.Base.{
  ℕ, zero, suc, ltb, not, ◌&&◌, ◌==◌, if◌then◌else◌, ◌+◌, ◌-◌, ◌*◌, ◌/◌, ◌^◌, ◌≤◌, ◌<◌, ◌≡◌, ◌∙◌,
  ◌⊎◌, inl, inr, refl, sym, ap, subst, arith,
}
use pendulum_amm.Base.Action.{◌>>=◌}
use pendulum_amm.Base.Word.{max_u128, saturating_mul, wrapping_sub_u64, unwrap_or, checked_div}
use native.Mathlib.Nat.{min-eq_left}
use pendulum_amm.Contract.State.{Host, World, Pair}
use pendulum_amm.Contract.Bank.{balance_of-cases, held, InSync}
use pendulum_amm.Contract.Messages.{sync}
use pendulum_amm.Contract.Reserves.{accumulate, _update}

-- Two spans of time at one price, where the sum fits 128 bits.
accumulate_twice :
    (p r s e e' : ℕ)
    → unwrap_or (checked_div r s) 0 * (e + e') ≤ max_u128
    → accumulate (accumulate p r s e) r s e' ≡ accumulate p r s (e + e')
unfolding accumulate
accumulate_twice p r s e e' fits =
    let x : ℕ = unwrap_or (checked_div r s) 0 in
    let one : saturating_mul x e ≡ x * e = min-eq_left {n = x * e} {m = max_u128} (omega arith) in
    let two : saturating_mul x e' ≡ x * e' =
      min-eq_left {n = x * e'} {m = max_u128} (omega arith) in
    let both : saturating_mul x (e + e') ≡ x * (e + e') = min-eq_left fits in
    omega (arith, one, two, both)

elapsed : (t s : ℕ) → s ≤ t → t < 2 ^ 64 → wrapping_sub_u64 t s ≡ t - s
elapsed t s le fits = omega arith

-- An accumulator after one `_update`, and the storage.
abbrev pub ticked : ℕ → ℕ → ℕ → ℕ → ℕ → ℕ → ℕ
ticked price x y r s e =
    if ltb 0 e && not (r == 0) && not (s == 0) then accumulate price x y e else price

ticked_twice :
    (p x y r s e e' : ℕ)
    → unwrap_or (checked_div x y) 0 * (e + e') ≤ max_u128
    → ticked (ticked p x y r s e) x y r s e' ≡ ticked p x y r s (e + e')
ticked_twice p x y r s zero e' fits = ground arith
ticked_twice p x y r s (suc e) zero fits = ground arith
ticked_twice p x y r s (suc e) (suc e') fits =
    ground (arith, accumulate_twice p x y (suc e) (suc e') fits)

price-le : (x y n : ℕ) → x / y * n ≤ max_u128 → unwrap_or (checked_div x y) 0 * n ≤ max_u128
price-le x y n fits = ground arith

ticked_sum :
    (p x y r s e e' all : ℕ)
    → e + e' ≡ all
    → x / y * all ≤ max_u128
    → ticked (ticked p x y r s e) x y r s e' ≡ ticked p x y r s all
ticked_sum p x y r s e e' all sum fits =
    let bound : unwrap_or (checked_div x y) 0 * (e + e') ≤ max_u128 =
      rw sum (price-le x y all fits) in
    ticked_twice p x y r s e e' bound ∙ ap (ticked p x y r s) sum

module _ {L : Type 0} where
  abbrev pub updated : Host L → ℕ → ℕ → ℕ → ℕ → Pair → Pair
  updated h b c r s p =
      let e = wrapping_sub_u64 h.block_timestamp p.block_timestamp_last in
      record p {
        reserve_0 = b;
        reserve_1 = c;
        price_0_cumulative_last = ticked p.price_0_cumulative_last s r r s e;
        price_1_cumulative_last = ticked p.price_1_cumulative_last r s r s e;
        block_timestamp_last = h.block_timestamp;
      }

  pub _update_pair :
      (h : Host L) (b c r s : ℕ) (w : World L)
      → (_update h b c r s w).1.pair ≡ updated h b c r s w.pair
  unfolding _update ◌>>=◌
  _update_pair h b c r s w = ground arith

  updated_twice :
      (h h' : Host L) (b c r s : ℕ) (p : Pair)
      → p.block_timestamp_last ≤ h.block_timestamp
      → h.block_timestamp ≤ h'.block_timestamp
      → h'.block_timestamp < 2 ^ 64
      → s / r * (h'.block_timestamp - p.block_timestamp_last) ≤ max_u128
      → r / s * (h'.block_timestamp - p.block_timestamp_last) ≤ max_u128
      → updated h' b c r s (updated h r s r s p) ≡ updated h' b c r s p
  updated_twice h h' b c r s p past order fits price_0 price_1 =
      let e : ℕ = wrapping_sub_u64 h.block_timestamp p.block_timestamp_last in
      let e' : ℕ = wrapping_sub_u64 h'.block_timestamp h.block_timestamp in
      let all : ℕ = wrapping_sub_u64 h'.block_timestamp p.block_timestamp_last in
      let sum : e + e' ≡ all = omega arith in
      let span : all ≡ h'.block_timestamp - p.block_timestamp_last = omega arith in
      let one = ticked_sum p.price_0_cumulative_last s r r s e e' all sum (rw span price_0) in
      let two = ticked_sum p.price_1_cumulative_last r s r s e e' all sum (rw span price_1) in
      ap
        (λ (n : ℕ). record (updated h' b c r s (updated h r s r s p)) {
          price_0_cumulative_last = n;
        })
        one
      ∙ ap (λ (n : ℕ). record (updated h' b c r s p) { price_1_cumulative_last = n }) two

  -- Either both reads answer, or the call panics and changes nothing.
  synced :
      (h : Host L) (w : World L)
      → ((sync h w).1
          ≡ (_update h
              (held h w.ledger h.account_id w.pair.asset_0)
              (held h w.ledger h.account_id w.pair.asset_1)
              w.pair.reserve_0
              w.pair.reserve_1
              w).1)
        ⊎ ((sync h w).1 ≡ w)
  unfolding sync ◌>>=◌
  synced h w =
      let p = w.pair in
      elim (balance_of-cases h h.account_id p.asset_0 w) [
        | inl first ↦ elim (balance_of-cases h h.account_id p.asset_1 w) [
          | inl second ↦ inl (ground (arith, first, second))
          | inr second ↦ inr (ground (arith, first, second))
        ]
        | inr first ↦ inr (ground (arith, first))
      ]

  -- A `sync` that finds the reserves in step with the holdings leaves no trace: the storage after a
  -- later `_update` of these reserves is the one without it, price accumulators included. The clock
  -- does not run back and fits 64 bits, and the whole-number prices times the time fit 128 bits.
  pub sync_leaves_no_trace :
      (h h' : Host L) (b c : ℕ) (w : World L)
      → InSync h w
      → w.pair.block_timestamp_last ≤ h.block_timestamp
      → h.block_timestamp ≤ h'.block_timestamp
      → h'.block_timestamp < 2 ^ 64
      → (let time : ℕ = h'.block_timestamp - w.pair.block_timestamp_last in
          (w.pair.reserve_1 / w.pair.reserve_0 * time ≤ max_u128)
          × (w.pair.reserve_0 / w.pair.reserve_1 * time ≤ max_u128))
      → (_update h' b c w.pair.reserve_0 w.pair.reserve_1 (sync h w).1).1.pair
        ≡ (_update h' b c w.pair.reserve_0 w.pair.reserve_1 w).1.pair
  sync_leaves_no_trace h h' b c w in_sync past order fits prices =
      let r : ℕ = w.pair.reserve_0 in
      let s : ℕ = w.pair.reserve_1 in
      let a : ℕ = held h w.ledger h.account_id w.pair.asset_0 in
      let d : ℕ = held h w.ledger h.account_id w.pair.asset_1 in
      let mid = (_update h a d r s w).1 in
      let kept = λ (v : World L). (_update h' b c r s v).1.pair ≡ (_update h' b c r s w).1.pair in
      let stored : mid.pair ≡ updated h r s r s w.pair =
        _update_pair h a d r s w
        ∙ ap (λ (n : ℕ). updated h n d r s w.pair) (sym in_sync.first)
        ∙ ap (λ (n : ℕ). updated h r n r s w.pair) (sym in_sync.second) in
      let joined : kept mid =
        _update_pair h' b c r s mid
        ∙ ap (updated h' b c r s) stored
        ∙ updated_twice h h' b c r s w.pair past order fits prices.0 prices.1
        ∙ sym (_update_pair h' b c r s w) in
      elim (synced h w) [
        | inl done ↦ subst kept (sym done) joined
        | inr refused ↦ subst kept (sym refused) refl
      ]
