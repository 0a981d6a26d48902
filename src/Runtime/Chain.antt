-- ===== src/Runtime/Chain.antt =====
-- The contract on the test chain: its two chain extension functions run the runtime's extension.
pub mod Transfers
use pendulum_amm.Base.{ℕ, ◌+◌, ◌*◌, ◌/◌, Option, none, some, true, List, [], ◌∷◌}
use pendulum_amm.Base.Action.{Outcome, ok, err, panic, Action}
use pendulum_amm.Contract.State.{Asset, Host}
use pendulum_amm.Contract.Status.{BalanceReadErr, from_status_code}
use pendulum_amm.Pallet.State.{DispatchError, other, Config}
use pendulum_amm.Runtime.Currency.{CurrencyId, alpha_num4}
use pendulum_amm.Runtime.Extension.{
  MultiCurrency, Answer, balance, dispatch_result, Environment, CallState, call, extension,
}
use pendulum_amm.Runtime.Extension.Calls.{to_le_bytes}

-- What the contract's side sends: the arguments, and room for the answer.
abbrev pub fetch_environment : ℕ → Asset → Environment
fetch_environment of (issuer, code) = record {
  fetch_input = ok (of, issuer, code);
  transfer_input = panic;
  writable = true;
}

abbrev pub transfer_environment : ℕ → ℕ → Asset → ℕ → Environment
transfer_environment from to (issuer, code) amount = record {
  fetch_input = panic;
  transfer_input = ok (from, to, issuer, code, to_le_bytes 16 amount);
  writable = true;
}

-- The contract's side decodes the answer, and panics where there is none.
abbrev pub answered : Option Answer → Outcome BalanceReadErr ℕ
answered (some (balance amount)) = ok amount
answered _ = panic

-- The status comes first.
abbrev pub read_status :
    Outcome BalanceReadErr Unit → Outcome BalanceReadErr ℕ → Outcome BalanceReadErr ℕ
read_status (ok _) a = a
read_status (err e) a = err e
read_status panic a = panic

-- A call of the chain extension that fails traps, and the contract's call with it.
abbrev pub returned :
    {E : Type 0} → Outcome E ℕ → Outcome BalanceReadErr ℕ → Outcome BalanceReadErr ℕ
returned (ok status) a = read_status (from_status_code status) a
returned _ a = panic

module _ {L : Type 0} (c : MultiCurrency L) (sqrt : ℕ → ℕ)
    (caller account_id block_timestamp : ℕ) where
  -- `BalanceExtension` on this chain; `transfer_balance` takes no notice of the status nor of the
  -- answer.
  abbrev pub chain_host : Host L
  chain_host = record {
    fetch_balance = λ l of asset.
        let (r, s) =
          call c 1101 (fetch_environment of asset) (record { ledger = l; written = none }) in
        returned r (answered s.written);
    transfer_balance = λ l from to asset amount.
        (call c 1102 (transfer_environment from to asset amount)
          (record { ledger = l; written = none })).1.ledger;
    sqrt = sqrt;
    caller = caller;
    account_id = account_id;
    block_timestamp = block_timestamp;
  }

-- `UNIT` and `MILLIUNIT`
abbrev pub unit : ℕ
unit = 1000000000000

abbrev pub milliunit : ℕ
milliunit = 1000000000

-- `deposit`; its values stay far below 2^128.
unfoldable pub deposit : ℕ → ℕ → ℕ
deposit items bytes = (items * unit + bytes * (5 * milliunit / 100)) / 10

abbrev pub issuer : List ℕ
issuer =
    20 ∷ 209 ∷ 150 ∷ 49 ∷ 176 ∷ 55 ∷ 23 ∷ 217 ∷ 171 ∷ 154 ∷ 54 ∷ 110 ∷ 16 ∷ 50 ∷ 30 ∷ 226 ∷ 102
    ∷ 231 ∷ 46 ∷ 199 ∷ 108 ∷ 171 ∷ 97 ∷ 144 ∷ 240 ∷ 161 ∷ 51 ∷ 109 ∷ 72 ∷ 34 ∷ 159 ∷ 139 ∷ []

-- `StellarUsdcAsset` and `StellarEurAsset`, the values of `try_from(…).unwrap()`.
abbrev pub stellar_usdc_asset : CurrencyId
stellar_usdc_asset = alpha_num4 (b'U' ∷ b'S' ∷ b'D' ∷ b'C' ∷ []) issuer

abbrev pub stellar_eur_asset : CurrencyId
stellar_eur_asset = alpha_num4 (b'E' ∷ b'U' ∷ b'R' ∷ 0 ∷ []) issuer

-- `impl pallet_pendulum_amm::Config for Runtime`. What FRAME gives is a parameter.
abbrev pub runtime_config :
    {O L : Type 0}
    → MultiCurrency L
    → (O → Outcome DispatchError ℕ)
    → ℕ
    → (ℕ → ℕ)
    → Config O L CurrencyId
runtime_config c ensure_signed now integer_sqrt = record {
  amm_extension = extension c;
  minimum_liquidity = 1000;
  mint_fee = 5;
  base_fee = 3;
  asset_0 = stellar_eur_asset;
  asset_1 = stellar_usdc_asset;
  ensure_signed = ensure_signed;
  now = now;
  integer_sqrt = integer_sqrt;
}
