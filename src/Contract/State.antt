-- ===== src/Contract/State.antt =====
-- The storage, errors, events and surroundings of the ink! contract
-- (smart_contract/src/lib.rs, `mod amm`). An `AccountId` is the number of its 32 bytes.
use pendulum_amm.Base.{ℕ, Option, List, [], ◌∷◌, ◌++◌}
use pendulum_amm.Base.Action.{Outcome, Action, modify}
use pendulum_amm.Contract.Status.{BalanceReadErr}
use pendulum_amm.Base.Dict.{Dict}

-- The issuer's 32 bytes and the asset code's 12 bytes.
abbrev pub Asset : Type 0
Asset = List ℕ × List ℕ

pub data Error : Type 0 where
  forbidden insufficient_balance insufficient_allowance insufficient_liquidity : Error
  insufficient_balance_0 insufficient_balance_1 insufficient_liquidity_minted : Error
  insufficient_liquidity_burned insufficient_input_amount insufficient_output_amount : Error
  invalid_deposit_token invalid_swap_token invalid_to invalid_k identical_address : Error
  pair_exists address_generation_failed withdraw_without_supply : Error
  invalid_stellar_key_encoding invalid_stellar_key_encoding_length : Error
  invalid_stellar_key_checksum : ℕ → ℕ → Error
  invalid_stellar_key_encoding_version asset_code_too_long : Error
  invalid_asset_code_character invalid_base32_character : Error

-- The ink! events, their fields in the order of the source.
pub data Event : Type 0 where
  transfer : Option ℕ → Option ℕ → ℕ → Event
  mint : ℕ → ℕ → ℕ → Event
  burn : ℕ → ℕ → ℕ → ℕ → Event
  swap : ℕ → ℕ → ℕ → ℕ → ℕ → ℕ → Event
  sync : ℕ → ℕ → Event

pub record Pair : Type 0 where
  pub asset_0 : Asset
  pub asset_1 : Asset
  pub reserve_0 : ℕ
  pub reserve_1 : ℕ
  pub block_timestamp_last : ℕ
  pub price_0_cumulative_last : ℕ
  pub price_1_cumulative_last : ℕ
  pub k_last : ℕ
  pub fee_to : Option ℕ
  pub fee_to_setter : ℕ
  pub total_supply : ℕ
  pub lp_balances : Dict

-- `MINIMUM_LIQUIDITY`
abbrev pub minimum_liquidity : ℕ
minimum_liquidity = 1000

-- What the contract gets from outside: the chain extension over the tokens' own state `L`
-- (`fetch_balance` panics where the status is unknown), `num_integer::sqrt`, and the call's surroundings.
pub record Host (L : Type 0) : Type 0 where
  pub fetch_balance : L → ℕ → Asset → Outcome BalanceReadErr ℕ
  pub transfer_balance : L → ℕ → ℕ → Asset → ℕ → L
  pub sqrt : ℕ → ℕ
  pub caller : ℕ
  pub account_id : ℕ
  pub block_timestamp : ℕ

-- The contract's storage, the tokens' state and the events emitted so far.
pub record World (L : Type 0) : Type 0 where
  pub pair : Pair
  pub ledger : L
  pub events : List Event

abbrev pub Call : Type 0 → Type 0 → Type 0
Call L A = Action Error (World L) A

module _ {L : Type 0} where
  abbrev pub emit_event : Event → Call L Unit
  emit_event e = modify (λ w. record w { events = w.events ++ e ∷ [] })

  abbrev pub set_pair : (Pair → Pair) → Call L Unit
  set_pair f = modify (λ w. record w { pair = f w.pair })
