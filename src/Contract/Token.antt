-- ===== src/Contract/Token.antt =====
-- The liquidity token of the contract: `lp_balance_of`, `_mint`, `_burn` and
-- `_transfer_liquidity`.
pub mod Supply
use pendulum_amm.Base.{ℕ, Option, none, some, ltb}
use pendulum_amm.Base.{not, if◌then◌else◌}
use pendulum_amm.Base.Action.{Action, Outcome, raise, pure, gets, modify, ◌>>=◌, ◌>>◌}
use pendulum_amm.Base.Dict.{Dict, insert, value}
use pendulum_amm.Base.Word.{saturating_add, saturating_sub}
use pendulum_amm.Contract.State.{
  Pair, World, Call, Error, insufficient_balance, Event, transfer, emit_event, set_pair,
}

module _ {L : Type 0} where
  abbrev pub lp_balance_of : ℕ → World L → ℕ
  lp_balance_of owner w = value owner w.pair.lp_balances

  unfoldable pub _mint : ℕ → ℕ → Call L Unit
  _mint to amount = do
    set_pair (λ p. record p { total_supply = saturating_add p.total_supply amount })
    balance ← gets (lp_balance_of to)
    set_pair
        (λ p. record p { lp_balances = insert to (saturating_add balance amount) p.lp_balances })
    emit_event (transfer none (some to) amount)

  unfoldable pub _burn : ℕ → ℕ → Call L Unit
  _burn from amount = do
    set_pair (λ p. record p { total_supply = saturating_sub p.total_supply amount })
    balance ← gets (lp_balance_of from)
    set_pair
        (λ p. record p { lp_balances = insert from (saturating_sub balance amount) p.lp_balances })
    emit_event (transfer (some from) none amount)

  unfoldable pub _transfer_liquidity : ℕ → ℕ → ℕ → Call L Unit
  _transfer_liquidity from to amount = do
    balance ← gets (lp_balance_of from)
    if ltb balance amount then raise insufficient_balance else do
      set_pair (λ p. record p {
        lp_balances = insert from (saturating_sub balance amount) p.lp_balances;
      })
      to_balance ← gets (lp_balance_of to)
      set_pair (λ p. record p {
        lp_balances = insert to (saturating_add to_balance amount) p.lp_balances;
      })
      emit_event (transfer (some from) (some to) amount)
