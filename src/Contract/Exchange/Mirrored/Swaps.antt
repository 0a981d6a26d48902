-- ===== src/Contract/Exchange/Mirrored/Swaps.antt =====
-- The swap messages on a pair with its assets exchanged.
use pendulum_amm.Base.{ℕ, ◌≡◌, refl, ◌&&◌, ◌||◌, ltb}
use pendulum_amm.Contract.Status.{BalanceReadErr}
use pendulum_amm.Base.Action.{
  Outcome, ok, err, panic, continue, pure, lift, ensure, when, ◌>>=◌, ◌>>◌,
}
use pendulum_amm.Base.Action.Mirror.{
  Mirrors, Mirrors-seq, Mirrors-seq_gets, Mirrors-branch, Mirrors-lift, Mirrors-pure,
  Mirrors-ensure_eq,
}
use pendulum_amm.Contract.State.{
  insufficient_input_amount, insufficient_output_amount, insufficient_liquidity, invalid_k, Asset,
  swap, Host, World, Call, emit_event,
}
use pendulum_amm.Contract.Bank.{settled, or_zero, held, balance_of, transfer_tokens}
use pendulum_amm.Contract.Pricing.{get_amount_in}
use pendulum_amm.Contract.Reserves.{_update}
use pendulum_amm.Contract.Exchange.{received, k_holds, _swap}
use pendulum_amm.Contract.Messages.{swap_asset_1_for_asset_2, swap_asset_2_for_asset_1}
use pendulum_amm.Contract.Exchange.Mirrored.{
  mirrored, or_comm, and_comm, k_holds_comm, emit_event-Mirrors, transfer_tokens-Mirrors,
  _update-Mirrors,
}

-- Two reads, `f` and `g`, of which either may panic.
crossed_reads :
    {L R : Type 0} (f g : L → Outcome BalanceReadErr ℕ) (o p : Outcome BalanceReadErr ℕ)
    (next next' : ℕ → ℕ → Call L R) (w : World L)
    → f w.ledger ≡ o
    → g w.ledger ≡ p
    → let (r, w') = next' (or_zero o) (or_zero p) w in
      next (or_zero p) (or_zero o) (mirrored w) ≡ (r, mirrored w')
      → let (r, w') =
          continue (settled (f w.ledger)) (λ x v. continue (settled (g v.ledger)) (next' x) v) w in
        continue
          (settled (g w.ledger))
          (λ y v. continue (settled (f v.ledger)) (next y) v)
          (mirrored w)
        ≡ (r, mirrored w')
crossed_reads f g (ok x) (ok y) next next' w first second e = rw (first, second) (rw first e)
crossed_reads f g (ok x) (err c) next next' w first second e = rw (first, second) (rw first e)
crossed_reads f g (ok x) panic next next' w first second e = rw (first, second) refl
crossed_reads f g (err d) (ok y) next next' w first second e = rw (first, second) (rw first e)
crossed_reads f g (err d) (err c) next next' w first second e = rw (first, second) (rw first e)
crossed_reads f g (err d) panic next next' w first second e = rw (first, second) refl
crossed_reads f g panic (ok y) next next' w first second e = rw (first, second) (rw first refl)
crossed_reads f g panic (err c) next next' w first second e = rw (first, second) (rw first refl)
crossed_reads f g panic panic next next' w first second e = rw (first, second) refl

module _ {L : Type 0} (h : Host L) where
  -- The contract's two balances, read in either order.
  reads-Mirrors :
      {R : Type 0} (a b : Asset) (next next' : ℕ → ℕ → Call L R)
      → ((w : World L)
          → Mirrors mirrored
              (next (held h w.ledger h.account_id b) (held h w.ledger h.account_id a))
              (next' (held h w.ledger h.account_id a) (held h w.ledger h.account_id b)))
      → Mirrors mirrored
          (balance_of h h.account_id b >>= (λ y. balance_of h h.account_id a >>= next y))
          (balance_of h h.account_id a >>= (λ x. balance_of h h.account_id b >>= next' x))
  unfolding held ◌>>=◌
  reads-Mirrors a b next next' rest = record {
    same = λ w.
        crossed_reads (λ l. h.fetch_balance l h.account_id a)
          (λ l. h.fetch_balance l h.account_id b) (h.fetch_balance w.ledger h.account_id a)
          (h.fetch_balance w.ledger h.account_id b) next next' w refl refl ((rest w).same w);
  }

  module _ (n to : ℕ) where
    -- From the product check on.
    settled-Mirrors :
        (a b : Asset) (balance_0 balance_1 in_0 in_1 r s : ℕ)
        → Mirrors mirrored
            (do
              ensure (ltb 0 in_1 || ltb 0 in_0) insufficient_input_amount
              ensure (k_holds balance_1 balance_0 in_1 in_0 s r) invalid_k
              final_0 ← balance_of h h.account_id b
              final_1 ← balance_of h h.account_id a
              _update h final_0 final_1 s r
              emit_event (swap h.caller to in_1 in_0 n 0))
            (do
              ensure (ltb 0 in_0 || ltb 0 in_1) insufficient_input_amount
              ensure (k_holds balance_0 balance_1 in_0 in_1 r s) invalid_k
              final_0 ← balance_of h h.account_id a
              final_1 ← balance_of h h.account_id b
              _update h final_0 final_1 r s
              emit_event (swap h.caller to in_0 in_1 0 n))
    settled-Mirrors a b balance_0 balance_1 in_0 in_1 r s =
        Mirrors-seq (ensure (ltb 0 in_1 || ltb 0 in_0) insufficient_input_amount)
          (ensure (ltb 0 in_0 || ltb 0 in_1) insufficient_input_amount) _ _
          (λ _.
            Mirrors-seq (ensure (k_holds balance_1 balance_0 in_1 in_0 s r) invalid_k)
              (ensure (k_holds balance_0 balance_1 in_0 in_1 r s) invalid_k) _ _
              (λ _. reads-Mirrors a b _ _ (λ w.
                Mirrors-seq _ _ _ _ (λ _. emit_event-Mirrors (swap h.caller to in_0 in_1 0 n))
                  (_update-Mirrors h (held h w.ledger h.account_id a)
                    (held h w.ledger h.account_id b) r s)))
              (Mirrors-ensure_eq _ _ invalid_k (k_holds_comm balance_1 balance_0 in_1 in_0 s r)))
          (Mirrors-ensure_eq _ _ insufficient_input_amount (or_comm (ltb 0 in_1) (ltb 0 in_0)))

    abbrev send : Asset → Call L Unit
    send s = when (ltb 0 n) (transfer_tokens h h.account_id to s n)

    -- From the reading of the balances on, in either direction.
    abbrev forth : Asset → Asset → ℕ → ℕ → Call L Unit
    forth a b r s = do
      balance_0 ← balance_of h h.account_id a
      balance_1 ← balance_of h h.account_id b
      let in_0 = received balance_0 r 0
      let in_1 = received balance_1 s n
      ensure (ltb 0 in_0 || ltb 0 in_1) insufficient_input_amount
      ensure (k_holds balance_0 balance_1 in_0 in_1 r s) invalid_k
      final_0 ← balance_of h h.account_id a
      final_1 ← balance_of h h.account_id b
      _update h final_0 final_1 r s
      emit_event (swap h.caller to in_0 in_1 0 n)

    abbrev back : Asset → Asset → ℕ → ℕ → Call L Unit
    back b a s r = do
      balance_0 ← balance_of h h.account_id b
      balance_1 ← balance_of h h.account_id a
      let in_0 = received balance_0 s n
      let in_1 = received balance_1 r 0
      ensure (ltb 0 in_0 || ltb 0 in_1) insufficient_input_amount
      ensure (k_holds balance_0 balance_1 in_0 in_1 s r) invalid_k
      final_0 ← balance_of h h.account_id b
      final_1 ← balance_of h h.account_id a
      _update h final_0 final_1 s r
      emit_event (swap h.caller to in_0 in_1 n 0)

    balances-Mirrors : (a b : Asset) (r s : ℕ) → Mirrors mirrored (back b a s r) (forth a b r s)
    balances-Mirrors a b r s = reads-Mirrors a b _ _ (λ w.
        let x : ℕ = held h w.ledger h.account_id a in
        let y : ℕ = held h w.ledger h.account_id b in
        settled-Mirrors a b x y (received x r 0) (received y s n) r s)

    send-Mirrors : (a : Asset) → Mirrors mirrored (send a) (send a)
    send-Mirrors a =
        Mirrors-branch _ _ _ _ (ltb 0 n) (transfer_tokens-Mirrors h h.account_id to a n)
          (Mirrors-pure tt)

    -- The transfer that a zero amount leaves out stands on either side.
    sent-Mirrors :
        (a b : Asset) (r s : ℕ)
        → Mirrors mirrored
            (send b >> (pure tt >> back b a s r))
            (pure tt >> (send b >> forth a b r s))
    unfolding ◌>>=◌
    sent-Mirrors a b r s = record {
      same = λ w.
          (Mirrors-seq (send b) (send b) (λ _. back b a s r) (λ _. forth a b r s)
              (λ _. balances-Mirrors a b r s) (send-Mirrors b)).same
            w;
    }

    _swap-Mirrors : Mirrors mirrored (_swap h n 0 to) (_swap h 0 n to)
    unfolding _swap
    _swap-Mirrors =
        Mirrors-seq (ensure (ltb 0 n || ltb 0 0) insufficient_output_amount)
          (ensure (ltb 0 0 || ltb 0 n) insufficient_output_amount) _ _
          (λ _.
            Mirrors-seq_gets (λ w. w.pair) (λ w. w.pair) _ _
              (λ w.
                let p = w.pair in
                Mirrors-seq (ensure (ltb n p.reserve_1 && ltb 0 p.reserve_0) insufficient_liquidity)
                  (ensure (ltb 0 p.reserve_0 && ltb n p.reserve_1) insufficient_liquidity) _ _
                  (λ _. sent-Mirrors p.asset_0 p.asset_1 p.reserve_0 p.reserve_1)
                  (Mirrors-ensure_eq _ _ insufficient_liquidity
                    (and_comm (ltb n p.reserve_1) (ltb 0 p.reserve_0)))))
          (Mirrors-ensure_eq _ _ insufficient_output_amount (or_comm (ltb 0 n) (ltb 0 0)))

  messages-Mirrors :
      (n : ℕ) → Mirrors mirrored (swap_asset_2_for_asset_1 h n) (swap_asset_1_for_asset_2 h n)
  unfolding swap_asset_1_for_asset_2 swap_asset_2_for_asset_1
  messages-Mirrors n =
      Mirrors-seq_gets (λ w. w.pair) (λ w. w.pair) _ _
        (λ w.
          let p = w.pair in
          Mirrors-seq (lift (get_amount_in n p.reserve_0 p.reserve_1)) _ _ _
            (λ a.
              Mirrors-seq (transfer_tokens h h.caller h.account_id p.asset_0 a) _ _ _
                (λ _. _swap-Mirrors n h.caller)
                (transfer_tokens-Mirrors h h.caller h.account_id p.asset_0 a))
            (Mirrors-lift (get_amount_in n p.reserve_0 p.reserve_1)))

  -- The two swap messages are each other's mirror image: on a pair with its assets exchanged, a swap
  -- of the second asset for the first comes out as the swap of the first for the second, with the
  -- same outcome and tokens and the exchanged storage and events.
  pub swap_mirrored :
      (n : ℕ) (w : World L)
      → let (outcome, w') = swap_asset_1_for_asset_2 h n w in
        swap_asset_2_for_asset_1 h n (mirrored w) ≡ (outcome, mirrored w')
  swap_mirrored n w = (messages-Mirrors n).same w
