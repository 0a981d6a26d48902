-- ===== src/Node/ChainSpec.antt =====
-- The chain specifications of testchain/node/src/chain_spec.rs, and their choice by name in
-- testchain/node/src/command.rs. A string is the list of its bytes.
pub mod Genesis
use pendulum_amm.Base.{
  ℕ, ◌^◌, Bool, true, Option, none, some, List, [], ◌∷◌, ◌++◌, ◌||◌, if◌then◌else◌,
}
use pendulum_amm.Base.Action.{Outcome, ok, err, panic}
use mathlib.Core.List.{map, flat_map}
use pendulum_amm.Encoding.Key.{same_bytes}
use pendulum_amm.Pallet.State
use pendulum_amm.Runtime.Currency.{CurrencyId, TooLong, try_from}

-- "Development wasm not available", and what reading a file gives.
pub data SpecError : Type 0 where
  wasm_not_available : SpecError
  file : List ℕ → SpecError

infixl 5 ◌>>=◌
abbrev ◌>>=◌ :
    {A B : Type 0} → Outcome SpecError A → (A → Outcome SpecError B) → Outcome SpecError B
ok a >>= f = f a
err e >>= f = err e
panic >>= f = panic

-- The key pairs `K` of sr25519 and their public keys `P`; a string that is no valid one gives `none`.
pub record KeyPairs (K P : Type 0) : Type 0 where
  pub from_string : List ℕ → Option K
  pub public : K → P
  pub into_account : P → ℕ

pub data ChainType : Type 0 where
  development local : ChainType

-- `GenesisConfig` of the runtime, without `transaction_payment`, which is the default.
pub record GenesisConfig : Type 0 where
  pub code : List ℕ
  pub balances : List (ℕ × ℕ)
  pub sudo_key : Option ℕ
  pub tokens : List (ℕ × CurrencyId × ℕ)
  pub amm_eurusdc : State.GenesisConfig

-- The genesis is what the closure in it gives. Boot nodes, telemetry, fork id, properties and
-- extensions are empty in both specifications and left out.
pub record ChainSpec : Type 0 where
  pub name : List ℕ
  pub id : List ℕ
  pub chain_type : ChainType
  pub genesis : Outcome SpecError GenesisConfig
  pub protocol_id : Option (List ℕ)

abbrev alice : List ℕ
alice = b'A' ∷ b'l' ∷ b'i' ∷ b'c' ∷ b'e' ∷ []

abbrev pub contract_seed : List ℕ
contract_seed = b'C' ∷ b'o' ∷ b'n' ∷ b't' ∷ b'r' ∷ b'a' ∷ b'c' ∷ b't' ∷ []

abbrev pub zero_seed : List ℕ
zero_seed = b'Z' ∷ b'e' ∷ b'r' ∷ b'o' ∷ []

-- The seeds of the pre-funded accounts, without and with `//stash`.
abbrev people : List (List ℕ)
people =
    alice
    ∷ (b'B' ∷ b'o' ∷ b'b' ∷ [])
    ∷ (b'C' ∷ b'h' ∷ b'a' ∷ b'r' ∷ b'l' ∷ b'i' ∷ b'e' ∷ [])
    ∷ (b'D' ∷ b'a' ∷ b'v' ∷ b'e' ∷ [])
    ∷ (b'E' ∷ b'v' ∷ b'e' ∷ [])
    ∷ (b'F' ∷ b'e' ∷ b'r' ∷ b'd' ∷ b'i' ∷ b'e' ∷ [])
    ∷ []

abbrev stash : List ℕ → List ℕ
stash seed = seed ++ (b'/' ∷ b'/' ∷ b's' ∷ b't' ∷ b'a' ∷ b's' ∷ b'h' ∷ [])

-- `try_from(…).unwrap()`
abbrev unwrapped : Outcome TooLong CurrencyId → Outcome SpecError CurrencyId
unwrapped (ok id) = ok id
unwrapped _ = panic

-- The issuer that both assets are given.
abbrev issuer : List ℕ
issuer =
    20 ∷ 209 ∷ 150 ∷ 49 ∷ 176 ∷ 55 ∷ 23 ∷ 217 ∷ 171 ∷ 154 ∷ 54 ∷ 110 ∷ 16 ∷ 50 ∷ 30 ∷ 226 ∷ 102
    ∷ 231 ∷ 46 ∷ 199 ∷ 108 ∷ 171 ∷ 97 ∷ 144 ∷ 240 ∷ 161 ∷ 51 ∷ 109 ∷ 72 ∷ 34 ∷ 159 ∷ 139 ∷ []

module _ {K P : Type 0} (keys : KeyPairs K P) where
  unfoldable pub get_from_seed : List ℕ → Outcome SpecError P
  get_from_seed seed = elim (keys.from_string (b'/' ∷ b'/' ∷ seed)) [
    | none ↦ panic
    | some pair ↦ ok (keys.public pair)
  ]

  unfoldable pub get_account_id_from_seed : List ℕ → Outcome SpecError ℕ
  get_account_id_from_seed seed = do key ← get_from_seed seed; ok (keys.into_account key)

  -- The accounts of several seeds, one after the other.
  unfoldable pub get_accounts : List (List ℕ) → Outcome SpecError (List ℕ)
  get_accounts [] = ok []
  get_accounts (seed ∷ seeds) = do
    account ← get_account_id_from_seed seed
    accounts ← get_accounts seeds
    ok (account ∷ accounts)

  unfoldable pub testnet_genesis : List ℕ → ℕ → List ℕ → Bool → Outcome SpecError GenesisConfig
  testnet_genesis wasm_binary root_key endowed_accounts _enable_println = do
    stellar_usdc_asset ← unwrapped (try_from (b'U' ∷ b'S' ∷ b'D' ∷ b'C' ∷ []) issuer)
    stellar_eur_asset ← unwrapped (try_from (b'E' ∷ b'U' ∷ b'R' ∷ []) issuer)
    contract_id ← get_account_id_from_seed contract_seed
    zero_account ← get_account_id_from_seed zero_seed
    fee_to_setter ← get_account_id_from_seed alice
    ok (record {
      code = wasm_binary;
      balances = map (λ k. (k, 2 ^ 60)) endowed_accounts;
      sudo_key = some root_key;
      tokens =
          flat_map
            (λ x. (x, stellar_usdc_asset, 1000 ^ 12) ∷ (x, stellar_eur_asset, 1000 ^ 12) ∷ [])
            endowed_accounts;
      amm_eurusdc = record {
        contract_id = some contract_id;
        zero_account = some zero_account;
        fee_to_setter = some fee_to_setter;
      };
    })

  -- The closure that both specifications have for their genesis.
  unfoldable pub preset : List ℕ → Outcome SpecError GenesisConfig
  preset wasm_binary = do
    root_key ← get_account_id_from_seed alice
    endowed_accounts ← get_accounts (people ++ map stash people)
    testnet_genesis wasm_binary root_key endowed_accounts true

  -- `WASM_BINARY` is a parameter.
  unfoldable pub development_config : Option (List ℕ) → Outcome SpecError ChainSpec
  development_config none = err wasm_not_available
  development_config (some wasm_binary) = ok (record {
    name = b'D' ∷ b'e' ∷ b'v' ∷ b'e' ∷ b'l' ∷ b'o' ∷ b'p' ∷ b'm' ∷ b'e' ∷ b'n' ∷ b't' ∷ [];
    id = b'd' ∷ b'e' ∷ b'v' ∷ [];
    chain_type = development;
    genesis = preset wasm_binary;
    protocol_id = some (b'r' ∷ b'p' ∷ b'c' ∷ []);
  })

  unfoldable pub local_testnet_config : Option (List ℕ) → Outcome SpecError ChainSpec
  local_testnet_config none = err wasm_not_available
  local_testnet_config (some wasm_binary) = ok (record {
    name =
        b'L' ∷ b'o' ∷ b'c' ∷ b'a' ∷ b'l' ∷ b' ' ∷ b'T' ∷ b'e' ∷ b's' ∷ b't' ∷ b'n' ∷ b'e' ∷ b't'
        ∷ [];
    id =
        b'l' ∷ b'o' ∷ b'c' ∷ b'a' ∷ b'l' ∷ b'_' ∷ b't' ∷ b'e' ∷ b's' ∷ b't' ∷ b'n' ∷ b'e' ∷ b't'
        ∷ [];
    chain_type = local;
    genesis = preset wasm_binary;
    protocol_id = some (b'r' ∷ b'p' ∷ b'c' ∷ []);
  })

  -- `from_json_file` is a parameter.
  unfoldable pub load_spec :
      Option (List ℕ)
      → (List ℕ → Outcome SpecError ChainSpec)
      → List ℕ
      → Outcome SpecError ChainSpec
  load_spec wasm from_json_file id =
      if same_bytes id (b'd' ∷ b'e' ∷ b'v' ∷ [])
      then development_config wasm
      else if same_bytes id [] || same_bytes id (b'l' ∷ b'o' ∷ b'c' ∷ b'a' ∷ b'l' ∷ [])
      then local_testnet_config wasm
      else from_json_file id
