-- ===== src/Contract/Exchange/Mirrored.antt =====
-- The two assets of a pair, exchanged.
pub mod Swaps
use pendulum_amm.Base.{
  ℕ, ◌*◌, ◌≡◌, refl, sym, ap, ◌∙◌, ◌&&◌, ◌||◌, not, Bool, true, false, ltb, leb, ◌==◌, List, ◌∷◌,
  [], ◌++◌, arith, if◌then◌else◌,
}
use mathlib.Core.List.{map, map-append}
use native.Mathlib.Nat.{mul_comm}
use pendulum_amm.Base.Action.{Outcome, pure, lift, gets, ensure, modify, when, ◌>>=◌, ◌>>◌}
use pendulum_amm.Base.Action.Mirror.{
  Mirrors, Mirrors-seq, Mirrors-seq_gets, Mirrors-branch, Mirrors-lift, Mirrors-pure, Mirrors-raise,
  Mirrors-modify, Mirrors-ensure_eq,
}
use pendulum_amm.Base.Word.{saturating_mul}
use pendulum_amm.Contract.State.{
  insufficient_input_amount, insufficient_output_amount, insufficient_liquidity, invalid_k, Asset,
  Pair, Event, transfer, mint, burn, swap, sync, Host, World, Call, emit_event, set_pair,
}
use pendulum_amm.Contract.Bank.{held, balance_of, transfer_tokens}
use pendulum_amm.Contract.Pricing.{get_amount_in}
use pendulum_amm.Contract.Reserves.{_update, accumulate}
use pendulum_amm.Contract.Exchange.{received, adjusted, k_holds, _swap}
use pendulum_amm.Contract.Messages.{swap_asset_1_for_asset_2, swap_asset_2_for_asset_1}

-- The storage and an event with the two assets exchanged.
abbrev pub mirrored_pair : Pair → Pair
mirrored_pair p = record p {
  asset_0 = p.asset_1;
  asset_1 = p.asset_0;
  reserve_0 = p.reserve_1;
  reserve_1 = p.reserve_0;
  price_0_cumulative_last = p.price_1_cumulative_last;
  price_1_cumulative_last = p.price_0_cumulative_last;
}

abbrev pub mirrored_event : Event → Event
mirrored_event (transfer from to amount) = transfer from to amount
mirrored_event (mint sender amount_0 amount_1) = mint sender amount_1 amount_0
mirrored_event (burn sender to amount_0 amount_1) = burn sender to amount_1 amount_0
mirrored_event (swap sender to in_0 in_1 out_0 out_1) = swap sender to in_1 in_0 out_1 out_0
mirrored_event (sync reserve_0 reserve_1) = sync reserve_1 reserve_0

abbrev pub mirrored : {L : Type 0} → World L → World L
mirrored w = record w { pair = mirrored_pair w.pair; events = map mirrored_event w.events }

pub or_comm : (a b : Bool) → (a || b) ≡ (b || a)
or_comm true true = refl
or_comm true false = refl
or_comm false true = refl
or_comm false false = refl

pub and_comm : (a b : Bool) → (a && b) ≡ (b && a)
and_comm true true = refl
and_comm true false = refl
and_comm false true = refl
and_comm false false = refl

pub k_holds_comm : (b c i j r s : ℕ) → k_holds b c i j r s ≡ k_holds c b j i s r
unfolding k_holds
k_holds_comm b c i j r s = rw (mul_comm r s, mul_comm (adjusted b i) (adjusted c j)) refl

module _ {L : Type 0} where
  pub emit_event-Mirrors :
      (e : Event) → Mirrors {S = World L} mirrored (emit_event (mirrored_event e)) (emit_event e)
  emit_event-Mirrors e = Mirrors-modify _ _ (λ w.
      ap (λ es. record (mirrored w) { events = es })
        (sym (map-append mirrored_event w.events (e ∷ []))))

module _ {L : Type 0} (h : Host L) where
  pub transfer_tokens-Mirrors :
      (from to : ℕ) (s : Asset) (n : ℕ)
      → Mirrors mirrored (transfer_tokens h from to s n) (transfer_tokens h from to s n)
  unfolding transfer_tokens ◌>>=◌
  transfer_tokens-Mirrors from to s n = record { same = λ w. ground arith }

  pub _update-Mirrors : (b c r s : ℕ) → Mirrors mirrored (_update h c b s r) (_update h b c r s)
  unfolding _update ◌>>=◌
  _update-Mirrors b c r s = record {
    same = λ w. ground (arith, map-append mirrored_event w.events (sync r s ∷ []));
  }
