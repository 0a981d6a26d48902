-- ===== src/Contract/Fixtures.antt =====
-- The accounts, assets and pools of the tests, after those of the contract's own.
use pendulum_amm.Base.{ℕ, none, [], ◌∷◌}
use pendulum_amm.Contract.State.{Asset, Pair, Host, World}
use pendulum_amm.Contract.Mock.{
  BalanceMapping, put, fetch_mocked, transfer_mocked, sqrt_u128, add_supply_for_account,
}

abbrev pub eur : Asset
eur = (7 ∷ [], b'E' ∷ b'U' ∷ b'R' ∷ [])

abbrev pub usdc : Asset
usdc = (7 ∷ [], b'U' ∷ b'S' ∷ b'D' ∷ b'C' ∷ [])

abbrev pub empty_pair : Pair
empty_pair = record {
  asset_0 = eur;
  asset_1 = usdc;
  reserve_0 = 0;
  reserve_1 = 0;
  block_timestamp_last = 0;
  price_0_cumulative_last = 0;
  price_1_cumulative_last = 0;
  k_last = 0;
  fee_to = none;
  fee_to_setter = 5;
  total_supply = 0;
  lp_balances = [];
}

abbrev pub host : Host BalanceMapping
host = record {
  fetch_balance = fetch_mocked;
  transfer_balance = transfer_mocked;
  sqrt = sqrt_u128;
  caller = 5;
  account_id = 1;
  block_timestamp = 0;
}

abbrev pub start : ℕ → World BalanceMapping
start supply = record {
  pair = empty_pair;
  ledger = add_supply_for_account 5 supply empty_pair (λ _ _. none);
  events = [];
}

-- A pool after its first deposit of 10000, of which account 5 has 9000 shares, and what the
-- contract (account 1) and account 5 hold of each token.
abbrev pub pool : ℕ → ℕ → World BalanceMapping
pool contract_0 contract_1 = record {
  pair = record empty_pair {
    reserve_0 = 10000;
    reserve_1 = 10000;
    total_supply = 10000;
    lp_balances = (0, 1000) ∷ (5, 9000) ∷ [];
  };
  ledger =
      put 1 usdc contract_1
        (put 1 eur contract_0 (add_supply_for_account 5 90000 empty_pair (λ _ _. none)));
  events = [];
}
