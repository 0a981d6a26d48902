-- ===== src/Pallet/Bank/Lawful.antt =====
-- What the tokens behind the pallet's extension promise for the two assets of the pair: an amount
-- that the sender has is taken from it, and the other asset stays.
use pendulum_amm.Base.{ℕ, ◌-◌, ◌≤◌, ◌≡◌, ◌≢◌}
use pendulum_amm.Pallet.State.{Config}

pub record IsLawful {O L C : Type 0} (t : Config O L C) : Type 0 where
  pub sender_0 :
      (l : L) (from to n : ℕ)
      → from ≢ to
      → n ≤ t.amm_extension.fetch_balance l from t.asset_0
      → t.amm_extension.fetch_balance
          (t.amm_extension.transfer_balance from to t.asset_0 n l).1
          from
          t.asset_0
        ≡ t.amm_extension.fetch_balance l from t.asset_0 - n
  pub sender_1 :
      (l : L) (from to n : ℕ)
      → from ≢ to
      → n ≤ t.amm_extension.fetch_balance l from t.asset_1
      → t.amm_extension.fetch_balance
          (t.amm_extension.transfer_balance from to t.asset_1 n l).1
          from
          t.asset_1
        ≡ t.amm_extension.fetch_balance l from t.asset_1 - n
  pub only_0 :
      (l : L) (from to k n : ℕ)
      → t.amm_extension.fetch_balance
          (t.amm_extension.transfer_balance from to t.asset_0 n l).1
          k
          t.asset_1
        ≡ t.amm_extension.fetch_balance l k t.asset_1
  pub only_1 :
      (l : L) (from to k n : ℕ)
      → t.amm_extension.fetch_balance
          (t.amm_extension.transfer_balance from to t.asset_1 n l).1
          k
          t.asset_0
        ≡ t.amm_extension.fetch_balance l k t.asset_0
