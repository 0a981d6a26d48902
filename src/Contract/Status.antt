-- ===== src/Contract/Status.antt =====
-- The status codes of the chain extension, as the contract reads them.
use pendulum_amm.Base.{ℕ, ◌==◌, if◌then◌else◌}
use pendulum_amm.Base.Action.{Outcome, ok, err, panic}

pub data BalanceReadErr : Type 0 where
  fail_get_balance fail_transfer_balance : BalanceReadErr

unfoldable pub from_status_code : ℕ → Outcome BalanceReadErr Unit
from_status_code status_code =
    if status_code == 0
    then ok tt
    else if status_code == 1
    then err fail_get_balance
    else if status_code == 2
    then err fail_transfer_balance
    else panic
