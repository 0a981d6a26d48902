-- ===== src/Runtime/Extension.antt =====
-- The extension of the pallet, and the chain extension that contracts call.
pub mod Calls
use pendulum_amm.Base.{
  ℕ, zero, suc, ◌+◌, ◌*◌, Option, none, some, Bool, List, [], ◌∷◌, ◌==◌, if◌then◌else◌,
}
use pendulum_amm.Base.Action.{
  Outcome, ok, err, panic, Action, pure, raise, lift, gets, modify, ensure, ◌>>=◌, ◌>>◌,
}
use pendulum_amm.Encoding.Util.{trim_zeros}
use pendulum_amm.Encoding.Utf8.{is_utf8}
use pendulum_amm.Pallet.State.{DispatchError, AmmExtension}
use pendulum_amm.Runtime.Currency.{CurrencyId, TooLong, more_than_12_bytes, try_from}

-- The ORML pallets: `total_balance` of `Tokens` and `transfer` of `Currencies`, over their state `L`.
pub record MultiCurrency (L : Type 0) : Type 0 where
  pub total_balance : L → CurrencyId → ℕ → ℕ
  pub transfer : CurrencyId → ℕ → ℕ → ℕ → Action DispatchError L Unit

-- `struct Extension`: what the pallet gets.
abbrev pub extension : {L : Type 0} → MultiCurrency L → AmmExtension L CurrencyId
extension c = record {
  fetch_balance = λ l owner asset. c.total_balance l asset owner;
  transfer_balance = λ from to asset amount. c.transfer asset from to amount;
  moment_to_balance_type = λ moment. moment;
}

-- The errors of a call: those of other pallets, and `DispatchError::Other` with its five texts.
pub data CallError : Type 0 where
  dispatch : DispatchError → CallError
  failed_to_decode_asset failed_to_fetch_balance unimplemented_func_id : CallError
  other : TooLong → CallError

-- What a call has written for the contract.
pub data Answer : Type 0 where
  balance : ℕ → Answer
  dispatch_result : Outcome DispatchError Unit → Answer

-- The environment of a call: its input, as `read_as` decodes it, and whether the output fits.
pub record Environment : Type 0 where
  pub fetch_input : Outcome DispatchError (ℕ × List ℕ × List ℕ)
  pub transfer_input : Outcome DispatchError (ℕ × ℕ × List ℕ × List ℕ × List ℕ)
  pub writable : Bool

pub record CallState (L : Type 0) : Type 0 where
  pub ledger : L
  pub written : Option Answer

abbrev pub ExtensionCall : Type 0 → Type 0 → Type 0
ExtensionCall L A = Action CallError (CallState L) A

-- `u128::from_le_bytes`
unfoldable pub from_le_bytes : List ℕ → ℕ
from_le_bytes [] = 0
from_le_bytes (b ∷ bytes) = b + 256 * from_le_bytes bytes

abbrev pub read_as : {A : Type 0} → Outcome DispatchError A → Outcome CallError A
read_as (ok a) = ok a
read_as (err e) = err (dispatch e)
read_as panic = panic

abbrev pub or_other : {A : Type 0} → Outcome TooLong A → Outcome CallError A
or_other (ok a) = ok a
or_other (err e) = err (other e)
or_other panic = panic

-- The currency of an asset code and an issuer. `trim_matches(char::from(0))` takes the zero bytes
-- off both ends, as `trim_zeros` of the contract does.
unfoldable pub currency_of : List ℕ → List ℕ → Outcome CallError CurrencyId
currency_of asset_issuer asset_code =
    if is_utf8 asset_code
    then or_other (try_from (trim_zeros asset_code) asset_issuer)
    else err failed_to_decode_asset

module _ {L : Type 0} (c : MultiCurrency L) where
  abbrev write : Bool → Answer → ExtensionCall L Unit
  write writable answer = do
    ensure writable failed_to_fetch_balance
    modify (λ s. record s { written = some answer })

  -- `transfer` acts on the tokens' part of the state, and its result is a value here.
  abbrev transferred : CurrencyId → ℕ → ℕ → ℕ → ExtensionCall L (Outcome DispatchError Unit)
  transferred currency_id from to amount s =
      let (r, l) = c.transfer currency_id from to amount s.ledger in (ok r, record s { ledger = l })

  -- The branch of 1101.
  unfoldable pub call_fetch_balance : Environment → ExtensionCall L Unit
  call_fetch_balance env = do
    (account_id, asset_issuer, asset_code) ← lift (read_as env.fetch_input)
    currency_id ← lift (currency_of asset_issuer asset_code)
    amount ← gets (λ s. c.total_balance s.ledger currency_id account_id)
    write env.writable (balance amount)

  -- The branch of 1102.
  unfoldable pub call_transfer_balance : Environment → ExtensionCall L Unit
  call_transfer_balance env = do
    (from_account_id, to_account_id, asset_issuer, asset_code, amount) ←
        lift (read_as env.transfer_input)
    currency_id ← lift (currency_of asset_issuer asset_code)
    result ← transferred currency_id from_account_id to_account_id (from_le_bytes amount)
    write env.writable (dispatch_result result)

  -- `BalanceChainExtension::call`; the result is the status of `RetVal::Converging`.
  unfoldable pub call : ℕ → Environment → ExtensionCall L ℕ
  unfolding call_fetch_balance call_transfer_balance
  call func_id env = do
    (if func_id == 1101
        then call_fetch_balance env
        else if func_id == 1102
        then call_transfer_balance env
        else raise unimplemented_func_id)
    pure 0
