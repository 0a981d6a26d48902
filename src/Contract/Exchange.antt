-- ===== src/Contract/Exchange.antt =====
-- `_swap`: the optimistic transfer and the check of the constant product.
pub mod Product
pub mod Success
pub mod Mirrored
use pendulum_amm.Base.{ℕ, not, ◌&&◌, ◌||◌, Bool, ltb, leb, if◌then◌else◌}
use pendulum_amm.Base.Action.{gets, ensure, when, ◌>>=◌, ◌>>◌}
use pendulum_amm.Base.Word.{saturating_sub, saturating_mul}
use pendulum_amm.Contract.State.{
  Error, insufficient_output_amount, insufficient_liquidity, insufficient_input_amount, invalid_k,
  Event, swap, Host, World, Call, emit_event,
}
use pendulum_amm.Contract.Bank.{balance_of, transfer_tokens}
use pendulum_amm.Contract.Reserves.{_update}

-- What the contract received beyond the reserve less the output.
unfoldable pub received : ℕ → ℕ → ℕ → ℕ
received balance reserve amount_out =
    if ltb (saturating_sub reserve amount_out) balance
    then saturating_sub balance (saturating_sub reserve amount_out)
    else 0

-- A balance in thousandths, less the fee of 0.3 % on what was received.
unfoldable pub adjusted : ℕ → ℕ → ℕ
adjusted balance amount_in =
    saturating_sub (saturating_mul balance 1000) (saturating_mul amount_in 3)

-- The test of `InvalidK`.
unfoldable pub k_holds : ℕ → ℕ → ℕ → ℕ → ℕ → ℕ → Bool
k_holds balance_0 balance_1 amount_0_in amount_1_in reserve_0 reserve_1 =
    leb (saturating_mul (saturating_mul reserve_0 reserve_1) 1000000)
      (saturating_mul (adjusted balance_0 amount_0_in) (adjusted balance_1 amount_1_in))

module _ {L : Type 0} (h : Host L) where
  unfoldable pub _swap : ℕ → ℕ → ℕ → Call L Unit
  _swap amount_0_out amount_1_out to = do
    ensure (ltb 0 amount_0_out || ltb 0 amount_1_out) insufficient_output_amount
    p ← gets (λ w. w.pair)
    let reserve_0 = p.reserve_0
    let reserve_1 = p.reserve_1
    ensure (ltb amount_0_out reserve_0 && ltb amount_1_out reserve_1) insufficient_liquidity
    when (ltb 0 amount_0_out) (transfer_tokens h h.account_id to p.asset_0 amount_0_out)
    when (ltb 0 amount_1_out) (transfer_tokens h h.account_id to p.asset_1 amount_1_out)
    balance_0 ← balance_of h h.account_id p.asset_0
    balance_1 ← balance_of h h.account_id p.asset_1
    let amount_0_in = received balance_0 reserve_0 amount_0_out
    let amount_1_in = received balance_1 reserve_1 amount_1_out
    ensure (ltb 0 amount_0_in || ltb 0 amount_1_in) insufficient_input_amount
    ensure (k_holds balance_0 balance_1 amount_0_in amount_1_in reserve_0 reserve_1) invalid_k
    final_0 ← balance_of h h.account_id p.asset_0
    final_1 ← balance_of h h.account_id p.asset_1
    _update h final_0 final_1 reserve_0 reserve_1
    emit_event (swap h.caller to amount_0_in amount_1_in amount_0_out amount_1_out)
