-- ===== src/Pallet/Mock/Lawful.antt =====
-- The mock runtime against `IsLawful`.
use pendulum_amm.Base.{ℕ, ◌-◌, ◌≤◌, ◌≡◌, refl, Option, none, some, arith}
use pendulum_amm.Base.Dict.{Dict, lookup, insert, value, lookup-insert}
use pendulum_amm.Base.Word.{checked_sub, unwrap_or}
use pendulum_amm.Pallet.Bank.Lawful.{IsLawful}
use pendulum_amm.Pallet.Mock.{
  credited, is_asset_0, fetch_balance, move_balance, transfer_balance, test,
}

paid_entry :
    (from to n : ℕ) (m : Dict) (o : Option ℕ)
    → lookup from m ≡ o
    → n ≤ value from m
    → value from (move_balance from to n m) ≡ value from m - n
unfolding move_balance
paid_entry from to n m none e covered = ground (arith, e)
paid_entry from to n m (some bal) e covered = ground (
  arith,
  e,
  lookup-insert from from (unwrap_or (checked_sub bal n) 0) (insert to (credited (value to m) n) m),
)

pub test-IsLawful : IsLawful test
unfolding fetch_balance transfer_balance is_asset_0
test-IsLawful = record {
  sender_0 = λ l from to n apart covered.
      paid_entry from to n l.assets_map_0 (lookup from l.assets_map_0) refl covered;
  sender_1 = λ l from to n apart covered.
      paid_entry from to n l.assets_map_1 (lookup from l.assets_map_1) refl covered;
  only_0 = λ l from to k n. refl;
  only_1 = λ l from to k n. refl;
}
