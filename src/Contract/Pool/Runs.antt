-- ===== src/Contract/Pool/Runs.antt =====
-- Runs of messages against the pool.
use pendulum_amm.Base.{◌<◌, ◌≡◌, ◌≢◌}
use pendulum_amm.Base.Action.{ok}
use pendulum_amm.Base.Action.Inversion.{dropped-ok}
use pendulum_amm.Base.Word.{max_u128}
use pendulum_amm.Contract.State.{Host, World}
use pendulum_amm.Contract.Bank.Lawful.{IsLawful}
use pendulum_amm.Contract.Messages
use pendulum_amm.Contract.Calls.{
  Message, set_fee_to, skim, sync, deposit_asset_1, deposit_asset_2, withdraw,
  swap_asset_1_for_asset_2, swap_asset_2_for_asset_1, execute,
}
use pendulum_amm.Pool.{Step, NoLoss}
use pendulum_amm.Contract.Pool.{IsOpen, pool_of}
use pendulum_amm.Pool.Value.{NoLoss-refl, NoLoss-trans, Step-NoLoss}
use pendulum_amm.Contract.Pool.Steps.{
  skim-Step, set_fee_to-Step, sync-Step, deposit_asset_1-Step, deposit_asset_2-Step,
  swap_asset_1_for_asset_2-Step, swap_asset_2_for_asset_1-Step,
}
use pendulum_amm.Contract.Pool.Withdrawal.{withdraw-Step}

module _ {L : Type 0} where
  -- With tokens that move as they promise: a successful message, from a state in which the pool is
  -- open, to a supply below the cap of 128 bits, called by another account than the contract's, over
  -- two different assets, is a step of the pool.
  pub execute-Step :
      (h : Host L)
      → IsLawful h
      → (m : Message) (w w' : World L) → execute h m w ≡ (ok tt, w')
      → IsOpen h w
      → w'.pair.total_supply < max_u128
      → h.account_id ≢ h.caller
      → w.pair.asset_0 ≢ w.pair.asset_1
      → Step (pool_of w) (pool_of w')
  unfolding execute
  execute-Step h lawful (set_fee_to a) w w' done o below apart distinct =
      set_fee_to-Step h a w w' done
  execute-Step h lawful (skim to) w w' done o below apart distinct = skim-Step h to w w' done
  execute-Step h lawful sync w w' done o below apart distinct = sync-Step h w w' done o
  execute-Step h lawful (deposit_asset_1 n) w w' done o below apart distinct =
      let (a, e) = dropped-ok (Messages.deposit_asset_1 h n) w w' done in
      deposit_asset_1-Step h n a w w' e o below
  execute-Step h lawful (deposit_asset_2 n) w w' done o below apart distinct =
      let (a, e) = dropped-ok (Messages.deposit_asset_2 h n) w w' done in
      deposit_asset_2-Step h n a w w' e o below
  execute-Step h lawful (withdraw n) w w' done o below apart distinct =
      let (a, e) = dropped-ok (Messages.withdraw h n) w w' done in
      withdraw-Step h lawful n a.0 a.1 w w' e o apart distinct
  execute-Step h lawful (swap_asset_1_for_asset_2 n) w w' done o below apart distinct =
      swap_asset_1_for_asset_2-Step h n w w' done o
  execute-Step h lawful (swap_asset_2_for_asset_1 n) w w' done o below apart distinct =
      swap_asset_2_for_asset_1-Step h n w w' done o

-- The states that successful calls reach in an open pool. Between the calls the tokens may move by
-- other hands, and a call that fails is rolled back.
pub data Run {L : Type 0} (s : World L) : World L → Type 0 where
  opened : Run s s
  called :
      {w : World L}
      → Run s w
      → (h : Host L) → IsLawful h
      → (m : Message) (w' : World L) → execute h m w ≡ (ok tt, w')
      → IsOpen h w
      → w'.pair.total_supply < max_u128
      → h.account_id ≢ h.caller
      → w.pair.asset_0 ≢ w.pair.asset_1
      → Run s w'
  moved : {w : World L} → Run s w → (l : L) → Run s (record w { ledger = l })

-- Along every such run no share of the pool loses value.
pub Run-NoLoss : {L : Type 0} {s w : World L} → Run s w → NoLoss (pool_of s) (pool_of w)
Run-NoLoss {s} opened = NoLoss-refl (pool_of s)
Run-NoLoss (called r h lawful m w' done o below apart distinct) =
    NoLoss-trans o.some_shares (Run-NoLoss r)
      (Step-NoLoss (execute-Step h lawful m _ w' done o below apart distinct))
Run-NoLoss (moved r l) = Run-NoLoss r
