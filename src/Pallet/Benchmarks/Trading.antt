-- ===== src/Pallet/Benchmarks/Trading.antt =====
-- The benchmarks of the deposits, the withdrawal and the swaps. Each measures the call of the
-- account that may choose the receiver of the fee.
use pendulum_amm.Base.{ℕ, ltb, ◌==◌}
use pendulum_amm.Base.Action.{pure, gets, ◌>>=◌, ◌>>◌}
use pendulum_amm.Pallet.State.{Config, Call}
use pendulum_amm.Pallet.Bank.{balance_of}
use pendulum_amm.Pallet.Extrinsics
use pendulum_amm.Pallet.Benchmarks.{
  Accounts, assert, plus, minus, times, expected, reserves, contract_account, setter,
}

abbrev deposit_bal : ℕ
deposit_bal = 10000

abbrev swap_bal : ℕ
swap_bal = 5000

-- What is read before and after the call: the balances of the caller and of the pallet's account.
pub record Balances : Type 0 where
  pub caller_0 : ℕ
  pub caller_1 : ℕ
  pub contract_0 : ℕ
  pub contract_1 : ℕ

module _ {O L C : Type 0} (t : Config O L C) (a : Accounts O) where
  abbrev balances : ℕ → ℕ → Call L Balances
  balances caller contract = do
    caller_0 ← balance_of t caller t.asset_0
    caller_1 ← balance_of t caller t.asset_1
    contract_0 ← balance_of t contract t.asset_0
    contract_1 ← balance_of t contract t.asset_1
    pure (record {
      caller_0 = caller_0;
      caller_1 = caller_1;
      contract_0 = contract_0;
      contract_1 = contract_1;
    })

  -- The two deposit benchmarks differ in the call alone.
  unfoldable pub deposit_and_verify : (O → ℕ → Call L Unit) → Call L Unit
  deposit_and_verify call = do
    caller ← setter
    caller_orig0_bal ← balance_of t caller t.asset_0
    caller_orig1_bal ← balance_of t caller t.asset_1
    call (a.signed caller) deposit_bal
    contract ← contract_account
    new ← balances caller contract
    assert (new.contract_0 == deposit_bal)
    assert (new.contract_1 == deposit_bal)
    before_0 ← plus new.caller_0 deposit_bal
    assert (before_0 == caller_orig0_bal)
    before_1 ← plus new.caller_1 deposit_bal
    assert (before_1 == caller_orig1_bal)

  abbrev pub deposit_asset_1 : Call L Unit
  deposit_asset_1 = deposit_and_verify (Extrinsics.deposit_asset_1 t)

  abbrev pub deposit_asset_2 : Call L Unit
  deposit_asset_2 = deposit_and_verify (Extrinsics.deposit_asset_2 t)

  unfoldable pub withdraw : Call L Unit
  withdraw = do
    caller ← setter
    expected (Extrinsics.set_fee_to t (a.signed caller) a.whitelisted_caller)
    expected (Extrinsics.deposit_asset_1 t (a.signed caller) deposit_bal)
    contract ← contract_account
    orig ← balances caller contract
    kept ← reserves
    rest ← minus orig.contract_0 t.minimum_liquidity
    withdrawal_bal ← minus rest 1
    Extrinsics.withdraw t (a.signed caller) withdrawal_bal
    new ← balances caller contract
    paid_0 ← minus new.caller_0 withdrawal_bal
    assert (paid_0 == orig.caller_0)
    paid_1 ← minus new.caller_1 withdrawal_bal
    assert (paid_1 == orig.caller_1)
    left_0 ← minus orig.contract_0 withdrawal_bal
    assert (new.contract_0 == left_0)
    left_1 ← minus orig.contract_1 withdrawal_bal
    assert (new.contract_1 == left_1)
    k_last ← gets (λ w. w.storage.k_last)
    product ← times kept.reserve_0 kept.reserve_1
    assert (k_last == product)
    now ← reserves
    less_0 ← minus kept.reserve_0 withdrawal_bal
    assert (now.reserve_0 == less_0)
    less_1 ← minus kept.reserve_1 withdrawal_bal
    assert (now.reserve_1 == less_1)

  unfoldable pub swap_asset_1_for_asset_2 : Call L Unit
  swap_asset_1_for_asset_2 = do
    caller ← setter
    expected (Extrinsics.deposit_asset_1 t (a.signed caller) deposit_bal)
    contract ← contract_account
    orig ← balances caller contract
    Extrinsics.swap_asset_1_for_asset_2 t (a.signed caller) swap_bal
    new ← balances caller contract
    assert (ltb new.caller_0 orig.caller_0)
    more ← plus orig.caller_1 swap_bal
    assert (new.caller_1 == more)
    assert (ltb orig.contract_0 new.contract_0)
    assert (ltb new.contract_1 orig.contract_1)
    now ← reserves
    assert (ltb now.reserve_1 now.reserve_0)

  unfoldable pub swap_asset_2_for_asset_1 : Call L Unit
  swap_asset_2_for_asset_1 = do
    caller ← setter
    expected (Extrinsics.deposit_asset_1 t (a.signed caller) deposit_bal)
    contract ← contract_account
    orig ← balances caller contract
    Extrinsics.swap_asset_2_for_asset_1 t (a.signed caller) swap_bal
    new ← balances caller contract
    more ← plus orig.caller_0 swap_bal
    assert (new.caller_0 == more)
    assert (ltb new.caller_1 orig.caller_1)
    assert (ltb new.contract_0 orig.contract_0)
    assert (ltb orig.contract_1 new.contract_1)
    now ← reserves
    assert (ltb now.reserve_0 now.reserve_1)
