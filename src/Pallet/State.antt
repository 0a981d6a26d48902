-- ===== src/Pallet/State.antt =====
-- The storage, errors, events and configuration of the pallet (pallet/src/lib.rs). `Balance` is
-- `u128` and `Moment` is `u64`, as in the test chain's runtime and in the mock.
use pendulum_amm.Base.{ℕ, Option, none, List, [], ◌∷◌, ◌++◌}
use pendulum_amm.Base.Action.{Outcome, ok, Action, modify}
use pendulum_amm.Base.Dict.{Dict}

pub data Error : Type 0 where
  forbidden insufficient_balance insufficient_allowance insufficient_liquidity : Error
  insufficient_liquidity_balance insufficient_balance_0 insufficient_balance_1 : Error
  insufficient_liquidity_minted insufficient_liquidity_burned insufficient_input_amount : Error
  insufficient_output_amount invalid_deposit_token invalid_swap_token invalid_to : Error
  invalid_k identical_address pair_exists address_generation_failed : Error
  withdraw_without_supply : Error

-- The pallet's own errors, and those of other pallets.
pub data DispatchError : Type 0 where
  amm : Error → DispatchError
  other : DispatchError

pub data Event : Type 0 where
  transfer : Option ℕ → Option ℕ → ℕ → Event
  mint : ℕ → ℕ → ℕ → Event
  burn : ℕ → ℕ → ℕ → ℕ → Event
  swap : ℕ → ℕ → ℕ → ℕ → ℕ → ℕ → Event
  sync : ℕ → ℕ → Event

pub record BalanceReserves : Type 0 where
  pub reserve_0 : ℕ
  pub reserve_1 : ℕ
  pub block_timestamp_last : ℕ

-- `ReservesDefault`
abbrev pub reserves_default : BalanceReserves
reserves_default = record { reserve_0 = 0; reserve_1 = 0; block_timestamp_last = 0 }

pub record Storage : Type 0 where
  pub reserves : BalanceReserves
  pub price_0_cumulative_last : ℕ
  pub price_1_cumulative_last : ℕ
  pub k_last : ℕ
  pub fee_to : Option ℕ
  pub fee_to_setter : Option ℕ
  pub total_supply : ℕ
  pub lp_balances : Dict
  pub pallet_account_id : Option ℕ
  pub address_zero : Option ℕ

-- `trait AmmExtension`, over the state `L` of the tokens and the currency ids `C`.
pub record AmmExtension (L C : Type 0) : Type 0 where
  pub fetch_balance : L → ℕ → C → ℕ
  pub transfer_balance : ℕ → ℕ → C → ℕ → Action DispatchError L Unit
  pub moment_to_balance_type : ℕ → ℕ

-- `AmmExtendedEmpty`, for a runtime without tokens.
abbrev pub amm_extended_empty : {L C : Type 0} → AmmExtension L C
amm_extended_empty = record {
  fetch_balance = λ l owner asset. 0;
  transfer_balance = λ from to asset amount l. (ok tt, l);
  moment_to_balance_type = λ moment. 0;
}

-- `trait Config`, with what the pallet takes from FRAME: `ensure_signed` on the origins `O`, the
-- time `now` of `pallet_timestamp`, and `integer_sqrt`.
pub record Config (O L C : Type 0) : Type 0 where
  pub amm_extension : AmmExtension L C
  pub minimum_liquidity : ℕ
  pub mint_fee : ℕ
  pub base_fee : ℕ
  pub asset_0 : C
  pub asset_1 : C
  pub ensure_signed : O → Outcome DispatchError ℕ
  pub now : ℕ
  pub integer_sqrt : ℕ → ℕ

-- The pallet's storage, the tokens' state and the events deposited so far.
pub record World (L : Type 0) : Type 0 where
  pub storage : Storage
  pub ledger : L
  pub events : List Event

abbrev pub Call : Type 0 → Type 0 → Type 0
Call L A = Action DispatchError (World L) A

module _ {L : Type 0} where
  abbrev pub deposit_event : Event → Call L Unit
  deposit_event e = modify (λ w. record w { events = w.events ++ e ∷ [] })

  abbrev pub set_storage : (Storage → Storage) → Call L Unit
  set_storage f = modify (λ w. record w { storage = f w.storage })

-- `GenesisConfig`
pub record GenesisConfig : Type 0 where
  pub contract_id : Option ℕ
  pub zero_account : Option ℕ
  pub fee_to_setter : Option ℕ

-- `GenesisBuild::build` on the empty storage: each `if let Some` puts what is there.
unfoldable pub build : GenesisConfig → Storage
build g = record {
  reserves = reserves_default;
  price_0_cumulative_last = 0;
  price_1_cumulative_last = 0;
  k_last = 0;
  fee_to = none;
  fee_to_setter = g.fee_to_setter;
  total_supply = 0;
  lp_balances = [];
  pallet_account_id = g.contract_id;
  address_zero = g.zero_account;
}
