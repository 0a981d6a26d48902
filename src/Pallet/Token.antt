-- ===== src/Pallet/Token.antt =====
-- The liquidity token of the pallet: `_mint`, `_burn` and `_transfer_liquidity`
-- (pallet/src/helper.rs).
pub mod Supply
use pendulum_amm.Base.{ℕ, none, some, leb}
use pendulum_amm.Base.Action.{gets, ensure, ok_or, ◌>>=◌, ◌>>◌}
use pendulum_amm.Base.Dict.{lookup, insert, value}
use pendulum_amm.Base.Word.{saturating_add, saturating_sub}
use pendulum_amm.Pallet.State.{
  Call, amm, forbidden, insufficient_balance, transfer, deposit_event, set_storage,
}

module _ {L : Type 0} where
  unfoldable pub _mint : ℕ → ℕ → Call L Unit
  _mint to amount = do
    set_storage (λ s. record s { total_supply = saturating_add s.total_supply amount })
    prev_bal ← gets (λ w. value to w.storage.lp_balances)
    set_storage
        (λ s. record s { lp_balances = insert to (saturating_add prev_bal amount) s.lp_balances })
    deposit_event (transfer none (some to) amount)

  unfoldable pub _burn : ℕ → ℕ → Call L Unit
  _burn from amount = do
    entry ← gets (λ w. lookup from w.storage.lp_balances)
    prev_bal ← ok_or entry (amm forbidden)
    set_storage (λ s. record s { total_supply = saturating_sub s.total_supply amount })
    set_storage
        (λ s. record s { lp_balances = insert from (saturating_sub prev_bal amount) s.lp_balances })
    deposit_event (transfer (some from) none amount)

  unfoldable pub _transfer_liquidity : ℕ → ℕ → ℕ → Call L Unit
  _transfer_liquidity from to amount = do
    from_balance ← gets (λ w. value from w.storage.lp_balances)
    ensure (leb amount from_balance) (amm insufficient_balance)
    set_storage (λ s. record s {
      lp_balances = insert from (saturating_sub from_balance amount) s.lp_balances;
    })
    to_balance ← gets (λ w. value to w.storage.lp_balances)
    set_storage
        (λ s. record s { lp_balances = insert to (saturating_add to_balance amount) s.lp_balances })
    deposit_event (transfer (some from) (some to) amount)
