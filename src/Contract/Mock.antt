-- ===== src/Contract/Mock.antt =====
-- The chain extension of the contract's tests (`MockedBalanceExtension`,
-- `MockedTransferExtension`), its `HashMap` as a function.
pub mod Lawful
use pendulum_amm.Base.{
  ℕ, zero, suc, ◌+◌, ◌*◌, ◌/◌, Bool, true, false, ◌&&◌, Option, none, some, List, [], ◌∷◌, leb,
  ◌==◌, if◌then◌else◌,
}
use pendulum_amm.Base.Action.{Outcome, ok}
use pendulum_amm.Base.Word.{saturating_add, saturating_sub, unwrap_or}
use pendulum_amm.Contract.Status.{BalanceReadErr}
use pendulum_amm.Contract.State.{Asset, Pair}

abbrev pub same_bytes : List ℕ → List ℕ → Bool
same_bytes [] [] = true
same_bytes (a ∷ as') (b ∷ bs) = a == b && same_bytes as' bs
same_bytes _ _ = false

abbrev pub same_asset : Asset → Asset → Bool
same_asset (i, c) (j, d) = same_bytes i j && same_bytes c d

-- `HashMap<(AccountId, Asset), Balance>`
abbrev pub BalanceMapping : Type 0
BalanceMapping = ℕ → Asset → Option ℕ

abbrev pub put : ℕ → Asset → ℕ → BalanceMapping → BalanceMapping
put k s v m j t = if j == k && same_asset t s then some v else m j t

-- `map.entry(k).and_modify(|e| *e = f(e)).or_insert(d)`
abbrev pub entry : ℕ → Asset → (ℕ → ℕ) → ℕ → BalanceMapping → BalanceMapping
entry k s f d m = put k s (elim (m k s) [ none ↦ d | some v ↦ f v ]) m

unfoldable pub fetch_mocked : BalanceMapping → ℕ → Asset → Outcome BalanceReadErr ℕ
fetch_mocked m k s = ok (unwrap_or (m k s) 0)

unfoldable pub transfer_mocked : BalanceMapping → ℕ → ℕ → Asset → ℕ → BalanceMapping
transfer_mocked m from to s amount =
    entry to s (λ e. saturating_add e amount) amount
      (entry from s (λ e. saturating_sub e amount) 0 m)

-- `add_supply_for_account`
abbrev pub add_supply_for_account : ℕ → ℕ → Pair → BalanceMapping → BalanceMapping
add_supply_for_account k supply p m = put k p.asset_1 supply (put k p.asset_0 supply m)

-- `num_integer::sqrt` for the tests, two binary digits of `n` at a time.
pub root : ℕ → ℕ → ℕ
root zero n = 0
root (suc f) n = let r = 2 * root f (n / 4) in if leb ((r + 1) * (r + 1)) n then r + 1 else r

unfoldable pub sqrt_u128 : ℕ → ℕ
unfolding root
sqrt_u128 n = root 64 n
