-- ===== src/Runtime/Extension/Calls.antt =====
-- The two calls at a code that the contract's constructor accepts.
use pendulum_amm.Base.{
  ℕ, zero, suc, ◌/◌, ◌%◌, ◌^◌, ◌<◌, ◌≡◌, ◌≢◌, refl, none, some, true, List, [], ◌∷◌, arith,
}
use pendulum_amm.Base.Action.{ok, err, ◌>>=◌}
use native.Mathlib.Nat.{pow-suc}
use pendulum_amm.Encoding.Util.{asset_from_string}
use pendulum_amm.Runtime.Currency.{CurrencyId, try_from}
use pendulum_amm.Runtime.Currency.Codes.{accepted_code}
use pendulum_amm.Runtime.Extension.{
  MultiCurrency, unimplemented_func_id, balance, dispatch_result, Environment, CallState,
  from_le_bytes, currency_of, call,
}

-- The bytes of a number, lowest first, as a contract sends a `u128`.
pub to_le_bytes : ℕ → ℕ → List ℕ
to_le_bytes zero n = []
to_le_bytes (suc size) n = (n % 256) ∷ to_le_bytes size (n / 256)

-- `from_le_bytes` reads what `size` bytes hold.
from_le_bytes-to_le_bytes : (size n : ℕ) → n < 256 ^ size → from_le_bytes (to_le_bytes size n) ≡ n
unfolding from_le_bytes to_le_bytes
from_le_bytes-to_le_bytes zero n h = omega arith
from_le_bytes-to_le_bytes (suc size) n h =
    omega (arith, from_le_bytes-to_le_bytes size (n / 256) (omega (arith, pow-suc 256 size)))

pub from_le_bytes-u128 : (n : ℕ) → n < 2 ^ 128 → from_le_bytes (to_le_bytes 16 n) ≡ n
from_le_bytes-u128 n h = from_le_bytes-to_le_bytes 16 n h

pub currency_of_accepted :
    (s issuer : List ℕ) {code : List ℕ} {currency_id : CurrencyId}
    → asset_from_string s ≡ ok code
    → try_from s issuer ≡ ok currency_id
    → currency_of issuer code ≡ ok currency_id
unfolding currency_of
currency_of_accepted s issuer {code} e t =
    let (valid, text) = accepted_code s e in rw (valid, text, t) refl

module _ {L : Type 0} (c : MultiCurrency L) (l : L) where
  -- Call 1101 answers with the balance that the tokens' pallet has.
  pub fetch_balance_answer :
      (account_id : ℕ) (issuer code : List ℕ) (env : Environment) {currency_id : CurrencyId}
      → env.fetch_input ≡ ok (account_id, issuer, code)
      → env.writable ≡ true
      → currency_of issuer code ≡ ok currency_id
      → call c 1101 env (record { ledger = l; written = none }) ≡ (
        ok 0,
        record { ledger = l; written = some (balance (c.total_balance l currency_id account_id)) },
      )
  unfolding call ◌>>=◌
  fetch_balance_answer account_id issuer code env input fits known = rw (input, known, fits) refl

  -- Call 1102 returns status 0 whatever the transfer's own result, which is only written.
  pub transfer_balance_answer :
      (from to : ℕ) (issuer code amount : List ℕ) (env : Environment) {currency_id : CurrencyId}
      → env.transfer_input ≡ ok (from, to, issuer, code, amount)
      → env.writable ≡ true
      → currency_of issuer code ≡ ok currency_id
      → let (r, l') = c.transfer currency_id from to (from_le_bytes amount) l in
        call c 1102 env (record { ledger = l; written = none })
        ≡ (ok 0, record { ledger = l'; written = some (dispatch_result r) })
  unfolding call ◌>>=◌
  transfer_balance_answer from to issuer code amount env input fits known =
      rw (input, known, fits) refl

-- Any other number is refused, and nothing is done.
pub call-unknown :
    {L : Type 0} (c : MultiCurrency L) (func_id : ℕ) (env : Environment) (s : CallState L)
    → func_id ≢ 1101
    → func_id ≢ 1102
    → call c func_id env s ≡ (err unimplemented_func_id, s)
unfolding call ◌>>=◌
call-unknown c func_id env s a b = ground arith
