-- ===== src/Contract/Calls.antt =====
-- The messages as data, and the worlds that calls of them reach. Tokens also move between the
-- calls, by whoever holds them.
use pendulum_amm.Base.{ℕ}
use pendulum_amm.Base.Action.{pure, ◌>>◌}
use pendulum_amm.Contract.State.{Host, World, Call}
use pendulum_amm.Contract.Messages

pub data Message : Type 0 where
  set_fee_to skim : ℕ → Message
  sync : Message
  deposit_asset_1 deposit_asset_2 withdraw : ℕ → Message
  swap_asset_1_for_asset_2 swap_asset_2_for_asset_1 : ℕ → Message

unfoldable pub execute : {L : Type 0} → Host L → Message → Call L Unit
execute h (set_fee_to a) = Messages.set_fee_to h a
execute h (skim to) = Messages.skim h to
execute h sync = Messages.sync h
execute h (deposit_asset_1 n) = Messages.deposit_asset_1 h n >> pure tt
execute h (deposit_asset_2 n) = Messages.deposit_asset_2 h n >> pure tt
execute h (withdraw n) = Messages.withdraw h n >> pure tt
execute h (swap_asset_1_for_asset_2 n) = Messages.swap_asset_1_for_asset_2 h n
execute h (swap_asset_2_for_asset_1 n) = Messages.swap_asset_2_for_asset_1 h n

-- A call leaves its world also after an error: a roll-back of it is no step at all.
pub data Reach {L : Type 0} (s : World L) : World L → Type 0 where
  here : Reach s s
  call : {w : World L} → Reach s w → (h : Host L) (m : Message) → Reach s (execute h m w).1
  outside : {w : World L} → Reach s w → (l : L) → Reach s (record w { ledger = l })
