-- ===== src/Node/ChainSpec/Genesis.antt =====
-- The accounts and the tokens at the genesis of the preset chains, and the pallet that starts on it.
use pendulum_amm.Base.{
  ℕ, ◌+◌, ◌^◌, ◌≤◌, ◌≡◌, refl, sym, ap, subst, some, List, [], ◌∷◌, ◌++◌, arith,
}
use pendulum_amm.Base.Action.{Outcome, ok, err, panic}
use pendulum_amm.Base.Word.{max_u128}
use mathlib.Core.List.{Memᴰ, map, flat_map}
use mathlib.Core.List.Memᴰ.{head, tail}
use pendulum_amm.Pallet.State.{build}
use pendulum_amm.Runtime.Currency.{CurrencyId, try_from}
use pendulum_amm.Runtime.Chain.{stellar_eur_asset, stellar_usdc_asset}
use pendulum_amm.Node.ChainSpec.{
  SpecError, KeyPairs, GenesisConfig, ChainSpec, alice, contract_seed, zero_seed, people, stash,
  get_from_seed, get_account_id_from_seed, get_accounts, testnet_genesis, preset,
  development_config, local_testnet_config, load_spec,
}

-- The outcome is a value, of which `P` holds.
abbrev pub Gives : {A : Type 0} → (A → Type 0) → Outcome SpecError A → Type 0
Gives P (ok a) = P a
Gives P (err e) = ⊥
Gives P panic = ⊥

abbrev tokens_of : ℕ → List (ℕ × CurrencyId × ℕ)
tokens_of x = (x, stellar_usdc_asset, 1000 ^ 12) ∷ (x, stellar_eur_asset, 1000 ^ 12) ∷ []

abbrev issued : {A : Type 0} → (A → ℕ) → List A → ℕ
issued amount [] = 0
issued amount (a ∷ rest) = amount a + issued amount rest

usdc-Memᴰ :
    {x : ℕ} {xs : List ℕ}
    → Memᴰ x xs
    → Memᴰ (x, stellar_usdc_asset, 1000 ^ 12) (flat_map tokens_of xs)
unfolding flat_map
usdc-Memᴰ (head e) = head (ap (λ y. (y, stellar_usdc_asset, 1000 ^ 12)) e)
usdc-Memᴰ (tail m) = tail (tail (usdc-Memᴰ m))

eur-Memᴰ :
    {x : ℕ} {xs : List ℕ}
    → Memᴰ x xs
    → Memᴰ (x, stellar_eur_asset, 1000 ^ 12) (flat_map tokens_of xs)
unfolding flat_map
eur-Memᴰ (head e) = tail (head (ap (λ y. (y, stellar_eur_asset, 1000 ^ 12)) e))
eur-Memᴰ (tail m) = tail (tail (eur-Memᴰ m))

map-Memᴰ : {A B : Type 0} (f : A → B) {a : A} {xs : List A} → Memᴰ a xs → Memᴰ (f a) (map f xs)
map-Memᴰ f (head e) = head (ap f e)
map-Memᴰ f (tail m) = tail (map-Memᴰ f m)

-- The seeds of the pre-funded accounts.
abbrev pub seeds : List (List ℕ)
seeds = people ++ map stash people

-- The names of the preset chains for `load_spec`.
abbrev pub preset_ids : List (List ℕ)
preset_ids = (b'd' ∷ b'e' ∷ b'v' ∷ []) ∷ [] ∷ (b'l' ∷ b'o' ∷ b'c' ∷ b'a' ∷ b'l' ∷ []) ∷ []

module _ {K P : Type 0} (keys : KeyPairs K P) (pair : List ℕ → K) where
  -- The account of a seed, where `pair` is what reading the seed gives.
  abbrev pub account_of : List ℕ → ℕ
  account_of seed = keys.into_account (keys.public (pair (b'/' ∷ b'/' ∷ seed)))

  -- An account has both tokens that the pallet trades; what is issued fits the numbers; and the
  -- pallet, built, knows its account, the zero account and the setter, has no reserves yet, and no
  -- liquidity tokens are in circulation.
  pub record IsReady (account : ℕ) (g : GenesisConfig) : Type 0 where
    pub usdc : Memᴰ (account, stellar_usdc_asset, 1000 ^ 12) g.tokens
    pub eur : Memᴰ (account, stellar_eur_asset, 1000 ^ 12) g.tokens
    pub tokens_fit : issued (λ t. t.2) g.tokens ≤ max_u128
    pub balances_fit : issued (λ t. t.1) g.balances ≤ max_u128
    pub contract : (build g.amm_eurusdc).pallet_account_id ≡ some (account_of contract_seed)
    pub zero : (build g.amm_eurusdc).address_zero ≡ some (account_of zero_seed)
    pub setter : (build g.amm_eurusdc).fee_to_setter ≡ some (account_of alice)
    pub root : g.sudo_key ≡ some (account_of alice)

  abbrev made : List ℕ → GenesisConfig
  made wasm_binary = record {
    code = wasm_binary;
    balances = map (λ k. (k, 2 ^ 60)) (map account_of seeds);
    sudo_key = some (account_of alice);
    tokens = flat_map tokens_of (map account_of seeds);
    amm_eurusdc = record {
      contract_id = some (account_of contract_seed);
      zero_account = some (account_of zero_seed);
      fee_to_setter = some (account_of alice);
    };
  }

  -- The seed gives the key pair.
  abbrev Known : List ℕ → Type 0
  Known seed = keys.from_string (b'/' ∷ b'/' ∷ seed) ≡ some (pair (b'/' ∷ b'/' ∷ seed))

  get_account_lem :
      (seed : List ℕ) → Known seed → get_account_id_from_seed keys seed ≡ ok (account_of seed)
  unfolding get_account_id_from_seed get_from_seed
  get_account_lem seed known = ground (arith, known)

  get_accounts_lem :
      (l : List (List ℕ))
      → ((seed : List ℕ) → Memᴰ seed l → Known seed)
      → get_accounts keys l ≡ ok (map account_of l)
  unfolding get_accounts
  get_accounts_lem [] known = refl
  get_accounts_lem (seed ∷ l) known =
      rw
        (
          get_account_lem seed (known seed (head refl)),
          get_accounts_lem l (λ s m. known s (tail m)),
        )
        refl

  -- The library accepts the seeds that the specifications have.
  module _
      (known : (seed : List ℕ) → Memᴰ seed (contract_seed ∷ zero_seed ∷ seeds) → Known seed) where
    preset_lem : (wasm : List ℕ) → preset keys wasm ≡ ok (made wasm)
    unfolding preset testnet_genesis try_from
    preset_lem wasm = rw (
      get_accounts_lem seeds (λ s m. known s (tail (tail m))),
      get_account_lem contract_seed (known contract_seed (head refl)),
      get_account_lem zero_seed (known zero_seed (tail (head refl))),
      get_account_lem alice (known alice (tail (tail (head refl)))),
    )

    made-IsReady : (wasm seed : List ℕ) → Memᴰ seed seeds → IsReady (account_of seed) (made wasm)
    unfolding build flat_map
    made-IsReady wasm seed m = record {
      usdc = usdc-Memᴰ (map-Memᴰ account_of m);
      eur = eur-Memᴰ (map-Memᴰ account_of m);
      tokens_fit = omega arith;
      balances_fit = omega arith;
      contract = refl;
      zero = refl;
      setter = refl;
      root = refl;
    }

    -- The library makes a key pair of each of the fourteen seeds of the specifications, the runtime
    -- has a binary, and `id` names one of its two preset chains. Then `load_spec` gives
    -- a specification, and its genesis is a value: a pre-funded account has 1000^12 of both of the
    -- runtime's assets, all that is issued fits 128 bits, and the pallet starts with the accounts of
    -- the seeds `Contract` and `Zero`, and with Alice for the setter, who is also the root.
    pub load_spec-IsReady :
        (wasm : List ℕ) (from_json_file : List ℕ → Outcome SpecError ChainSpec) (id : List ℕ)
        (seed : List ℕ)
        → Memᴰ id preset_ids
        → Memᴰ seed seeds
        → Gives
            (λ spec. Gives (IsReady (account_of seed)) spec.genesis)
            (load_spec keys (some wasm) from_json_file id)
    unfolding load_spec development_config local_testnet_config
    load_spec-IsReady wasm from_json_file id seed chosen m =
        let ready =
          subst (Gives (IsReady (account_of seed))) (sym (preset_lem wasm))
            (made-IsReady wasm seed m) in
        let goal = λ (i : List ℕ).
          Gives (λ (spec : ChainSpec). Gives (IsReady (account_of seed)) spec.genesis)
            (load_spec keys (some wasm) from_json_file i) in
        elim chosen [
          | head e ↦ subst goal (sym e) ready
          | tail (head e) ↦ subst goal (sym e) ready
          | tail (tail (head e)) ↦ subst goal (sym e) ready
          | tail (tail (tail none_left)) ↦ elim none_left [ ]
        ]
