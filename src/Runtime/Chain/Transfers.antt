-- ===== src/Runtime/Chain/Transfers.antt =====
-- The contract's token access through the chain extension.
use pendulum_amm.Base.{ℕ, ◌≤◌, ◌<◌, ◌^◌, ◌≡◌, ◌≢◌, refl, sym, ap, ◌∙◌, List}
use pendulum_amm.Base.Action.{Outcome, ok, panic}
use pendulum_amm.Encoding.Util.{asset_from_string}
use pendulum_amm.Contract.State.{World}
use pendulum_amm.Contract.Bank.{or_zero, held, transfer_tokens}
use pendulum_amm.Contract.Bank.Lawful.{transfer_tokens-ok}
use pendulum_amm.Contract.Status.{BalanceReadErr, from_status_code}
use pendulum_amm.Runtime.Currency.{CurrencyId, try_from}
use pendulum_amm.Runtime.Extension.{MultiCurrency}
use pendulum_amm.Runtime.Extension.Calls.{
  to_le_bytes, from_le_bytes-u128, currency_of_accepted, fetch_balance_answer,
  transfer_balance_answer,
}
use pendulum_amm.Runtime.Chain.{chain_host, fetch_environment, transfer_environment}

ok-apart : {b : ℕ} → Path (Outcome BalanceReadErr ℕ) (ok b) panic → ⊥
ok-apart e = cc

module _ {L : Type 0} (c : MultiCurrency L) (sqrt : ℕ → ℕ) (caller account_id now : ℕ)
    (s issuer : List ℕ) {code : List ℕ} {currency_id : CurrencyId}
    (accepted : asset_from_string s ≡ ok code) (known : try_from s issuer ≡ ok currency_id) where
  fetch-chain_host :
      (l : L) (owner : ℕ)
      → (chain_host c sqrt caller account_id now).fetch_balance l owner (issuer, code)
        ≡ ok (c.total_balance l currency_id owner)
  unfolding from_status_code
  fetch-chain_host l owner =
      rw
        (fetch_balance_answer c l owner issuer code (fetch_environment owner (issuer, code)) refl
          refl (currency_of_accepted s issuer accepted known))
        refl

  answered_known :
      (l : L) (owner : ℕ)
      → (chain_host c sqrt caller account_id now).fetch_balance l owner (issuer, code) ≢ panic
  answered_known l owner e = ok-apart (sym (fetch-chain_host l owner) ∙ e)

  -- The balance that the contract reads is the total balance in the currency that the asset's text
  -- and issuer name.
  pub held-chain_host :
      (l : L) (owner : ℕ)
      → held (chain_host c sqrt caller account_id now) l owner (issuer, code)
        ≡ c.total_balance l currency_id owner
  unfolding held
  held-chain_host l owner = ap or_zero (fetch-chain_host l owner)

  -- A transfer of the contract's is a transfer of the same amount in that currency.
  transfer-chain_host :
      (l : L) (from to amount : ℕ)
      → amount < 2 ^ 128
      → (chain_host c sqrt caller account_id now).transfer_balance l from to (issuer, code) amount
        ≡ (c.transfer currency_id from to amount l).1
  transfer-chain_host l from to amount fits =
      ap (λ r. r.1.ledger)
        (transfer_balance_answer c l from to issuer code (to_le_bytes 16 amount)
          (transfer_environment from to (issuer, code) amount) refl refl
          (currency_of_accepted s issuer accepted known))
      ∙ ap (λ n. (c.transfer currency_id from to n l).1) (from_le_bytes-u128 amount fits)

  -- Whatever the result of the tokens' pallet, an error included: where the total balance covers the
  -- amount, `transfer_tokens` of the contract succeeds, with the tokens as that pallet left them.
  pub transfer_tokens-chain_host :
      (from to amount : ℕ) (w : World L)
      → amount < 2 ^ 128
      → amount ≤ c.total_balance w.ledger currency_id from
      → transfer_tokens (chain_host c sqrt caller account_id now) from to (issuer, code) amount w
        ≡ (ok tt, record w { ledger = (c.transfer currency_id from to amount w.ledger).1 })
  transfer_tokens-chain_host from to amount w fits covered =
      let h = chain_host c sqrt caller account_id now in
      transfer_tokens-ok h from to (issuer, code) amount w (answered_known w.ledger from)
        (rw (held-chain_host w.ledger from) covered)
      ∙ ap (λ l. (ok tt, record w { ledger = l }))
          (transfer-chain_host w.ledger from to amount fits)
