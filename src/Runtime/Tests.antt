-- ===== src/Runtime/Tests.antt =====
-- Runs of the runtime's functions.
use pendulum_amm.Base.{ℕ, ◌≡◌, refl, true, List, [], ◌∷◌, arith}
use pendulum_amm.Base.Lists.{all}
use pendulum_amm.Base.Action.{ok, err, panic}
use pendulum_amm.Base.Dict.{Dict, lookup, value}
use pendulum_amm.Encoding.Util.{is_ascii_alphanumeric, asset_from_string}
use pendulum_amm.Encoding.Utf8.{is_utf8}
use pendulum_amm.Contract.State.{World}
use pendulum_amm.Contract.Bank.{held, transfer_tokens}
use pendulum_amm.Contract.Fixtures.{empty_pair}
use pendulum_amm.Pallet.State.{other}
use pendulum_amm.Runtime.Currency.{try_from, fmt}
use pendulum_amm.Runtime.Currency.Codes.{try_from_injective}
use pendulum_amm.Runtime.Extension.{MultiCurrency}
use pendulum_amm.Runtime.Chain.{chain_host, issuer, stellar_eur_asset, stellar_usdc_asset, deposit}
use pendulum_amm.Runtime.Chain.Transfers.{held-chain_host, transfer_tokens-chain_host}

abbrev eur : List ℕ
eur = b'E' ∷ b'U' ∷ b'R' ∷ []

configured_assets :
    (try_from eur issuer ≡ ok stellar_eur_asset)
    × (try_from (b'U' ∷ b'S' ∷ b'D' ∷ b'C' ∷ []) issuer ≡ ok stellar_usdc_asset)
unfolding try_from
configured_assets = (refl, refl)

-- The configured assets cannot be printed by `Debug`: the issuer's bytes are no UTF-8.
configured_fmt : fmt stellar_eur_asset ≡ panic
unfolding fmt is_utf8
configured_fmt = refl

deposits : (deposit 1 0 ≡ 100000000000) × (deposit 0 1 ≡ 5000000)
unfolding deposit
deposits = (refl, refl)

eur_letters : all is_ascii_alphanumeric eur ≡ true
unfolding is_ascii_alphanumeric
eur_letters = refl

try_from-eur : try_from eur issuer ≡ ok stellar_eur_asset
unfolding try_from
try_from-eur = refl

try_from_injective_example : (eur ≡ eur) × (issuer ≡ issuer)
try_from_injective_example =
    try_from_injective eur eur issuer issuer eur_letters eur_letters try_from-eur try_from-eur

-- Tokens of which the accounts have balances that cannot be moved, such as locked ones.
abbrev locked : MultiCurrency Dict
locked = record {
  total_balance = λ l id owner. value owner l;
  transfer = λ id from to amount l. (err other, l);
}

abbrev eur_code : List ℕ
eur_code = 69 ∷ 85 ∷ 82 ∷ 0 ∷ 0 ∷ 0 ∷ 0 ∷ 0 ∷ 0 ∷ 0 ∷ 0 ∷ 0 ∷ []

eur_accepted : asset_from_string eur ≡ ok eur_code
unfolding asset_from_string
eur_accepted = refl

abbrev world : World Dict
world = record { pair = empty_pair; ledger = (5, 100) ∷ []; events = [] }

held-chain_host_example :
    held (chain_host locked (λ n. n) 5 1 0) world.ledger 5 (issuer, eur_code) ≡ 100
unfolding lookup
held-chain_host_example =
    held-chain_host locked (λ n. n) 5 1 0 eur issuer eur_accepted try_from-eur world.ledger 5

transfer_tokens-chain_host_example :
    transfer_tokens (chain_host locked (λ n. n) 5 1 0) 5 1 (issuer, eur_code) 70 world
    ≡ (ok tt, world)
unfolding lookup
transfer_tokens-chain_host_example =
    transfer_tokens-chain_host locked (λ n. n) 5 1 0 eur issuer eur_accepted try_from-eur 5 1 70
      world (omega arith) (omega arith)
