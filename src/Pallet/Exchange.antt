-- ===== src/Pallet/Exchange.antt =====
-- `_swap` of pallet/src/helper.rs.
pub mod Product
use pendulum_amm.Base.{ℕ, Bool, ◌&&◌, ◌||◌, ltb, leb, if◌then◌else◌}
use pendulum_amm.Base.Action.{gets, unwrap, ensure, when, ◌>>=◌, ◌>>◌}
use pendulum_amm.Base.Word.{saturating_sub, saturating_mul}
use pendulum_amm.Pallet.State.{
  amm, insufficient_output_amount, insufficient_liquidity, insufficient_input_amount, invalid_k,
  swap, Config, Call, deposit_event,
}
use pendulum_amm.Pallet.Bank.{balance_of, transfer_tokens}
use pendulum_amm.Pallet.Reserves.{_update}

-- What the pallet's account received beyond the reserve less the output.
unfoldable pub received : ℕ → ℕ → ℕ → ℕ
received balance reserve amount_out =
    if ltb (saturating_sub reserve amount_out) balance
    then saturating_sub balance (saturating_sub reserve amount_out)
    else 0

unfoldable pub adjusted : ℕ → ℕ → ℕ → ℕ
adjusted base_fee balance amount_in =
    saturating_sub (saturating_mul balance 1000) (saturating_mul amount_in base_fee)

-- The test of `InvalidK`.
unfoldable pub k_holds : ℕ → ℕ → ℕ → ℕ → ℕ → ℕ → ℕ → Bool
k_holds base_fee balance_0 balance_1 amount_0_in amount_1_in reserve_0 reserve_1 =
    leb (saturating_mul (saturating_mul reserve_0 reserve_1) 1000000) (
      saturating_mul (adjusted base_fee balance_0 amount_0_in)
        (adjusted base_fee balance_1 amount_1_in))

module _ {O L C : Type 0} (t : Config O L C) where
  unfoldable pub _swap : ℕ → ℕ → ℕ → ℕ → Call L Unit
  _swap amount_0_out amount_1_out to sender = do
    ensure (ltb 0 amount_0_out || ltb 0 amount_1_out) (amm insufficient_output_amount)
    s ← gets (λ w. w.storage)
    let reserve_0 = s.reserves.reserve_0
    let reserve_1 = s.reserves.reserve_1
    ensure (ltb amount_0_out reserve_0 && ltb amount_1_out reserve_1) (amm insufficient_liquidity)
    contract ← unwrap s.pallet_account_id
    when (ltb 0 amount_0_out) (transfer_tokens t contract to t.asset_0 amount_0_out)
    when (ltb 0 amount_1_out) (transfer_tokens t contract to t.asset_1 amount_1_out)
    balance_0 ← balance_of t contract t.asset_0
    balance_1 ← balance_of t contract t.asset_1
    let amount_0_in = received balance_0 reserve_0 amount_0_out
    let amount_1_in = received balance_1 reserve_1 amount_1_out
    ensure (ltb 0 amount_0_in || ltb 0 amount_1_in) (amm insufficient_input_amount)
    ensure (k_holds t.base_fee balance_0 balance_1 amount_0_in amount_1_in reserve_0 reserve_1)
        (amm invalid_k)
    final_0 ← balance_of t contract t.asset_0
    final_1 ← balance_of t contract t.asset_1
    _update t final_0 final_1 reserve_0 reserve_1
    deposit_event (swap sender to amount_0_in amount_1_in amount_0_out amount_1_out)
