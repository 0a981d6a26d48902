-- ===== src/Contract/Mock/Lawful.antt =====
-- The mocked chain extension against `IsLawful`.
use pendulum_amm.Base.{
  ℕ, ◌≡◌, ◌≢◌, refl, ap, sym, ◌∙◌, Bool, true, false, ◌&&◌, inl, inr, none, some, List, [], ◌∷◌,
  arith, ◌==◌, Bool-cases, ne→==,
}
use pendulum_amm.Base.Word.{unwrap_or, saturating_add, saturating_sub}
use pendulum_amm.Contract.State.{Asset}
use pendulum_amm.Base.Action.{Outcome, ok, panic}
use pendulum_amm.Contract.Status.{BalanceReadErr}
use pendulum_amm.Contract.Bank.{Answers, held}
use pendulum_amm.Contract.Bank.Lawful.{IsLawful}
use pendulum_amm.Contract.Mock.{
  entry, same_bytes, same_asset, BalanceMapping, fetch_mocked, transfer_mocked,
}
use pendulum_amm.Contract.Fixtures.{host}

same_bytes_refl : (xs : List ℕ) → same_bytes xs xs ≡ true
same_bytes_refl [] = refl
same_bytes_refl (x ∷ xs) = ground (arith, same_bytes_refl xs)

both : (a b : Bool) → (a && b) ≡ true → (a ≡ true) × (b ≡ true)
both a b h = ground arith

same_bytes_sound : (xs ys : List ℕ) → same_bytes xs ys ≡ true → xs ≡ ys
same_bytes_sound [] [] h = refl
same_bytes_sound [] (y ∷ ys) h = cc
same_bytes_sound (x ∷ xs) [] h = cc
same_bytes_sound (x ∷ xs) (y ∷ ys) h =
    let (e, f) = both (x == y) (same_bytes xs ys) h in
    let head : x ≡ y = ground arith in let tail : xs ≡ ys = same_bytes_sound xs ys f in cc

same_asset_refl : (s : Asset) → same_asset s s ≡ true
same_asset_refl (i, c) = rw (same_bytes_refl i, same_bytes_refl c)

same_asset_sound : (s t : Asset) → same_asset s t ≡ true → s ≡ t
same_asset_sound (i, c) (j, d) h =
    let (e, f) = both (same_bytes i j) (same_bytes c d) h in
    let p : i ≡ j = same_bytes_sound i j e in let q : c ≡ d = same_bytes_sound c d f in cc

same_asset-other : (s t : Asset) → t ≢ s → same_asset s t ≡ false
same_asset-other s t distinct = elim (Bool-cases (same_asset s t)) [
  | inl yes' ↦ absurd (distinct (sym (same_asset_sound s t yes')))
  | inr no' ↦ no'
]

-- One entry of the map, read at its key, at another account, and at another asset.
entry-same :
    (k : ℕ) (s : Asset) (f : ℕ → ℕ) (d : ℕ) (m : BalanceMapping)
    → unwrap_or (entry k s f d m k s) 0 ≡ elim (m k s) [ none ↦ d | some v ↦ f v ]
entry-same k s f d m = ground (arith, same_asset_refl s)

entry-account :
    (k j : ℕ) (s t : Asset) (f : ℕ → ℕ) (d : ℕ) (m : BalanceMapping)
    → j ≢ k
    → entry k s f d m j t ≡ m j t
entry-account k j s t f d m apart = rw (ne→== j k apart)

entry-asset :
    (k j : ℕ) (s t : Asset) (f : ℕ → ℕ) (d : ℕ) (m : BalanceMapping)
    → s ≢ t
    → entry k s f d m j t ≡ m j t
entry-asset k j s t f d m distinct = ground (arith, same_asset-other t s distinct)

-- The map after the sender has paid.
abbrev debited : BalanceMapping → ℕ → Asset → ℕ → BalanceMapping
debited l from s n = entry from s (λ e. saturating_sub e n) 0 l

ok-apart : {b : ℕ} → Path (Outcome BalanceReadErr ℕ) (ok b) panic → ⊥
ok-apart e = cc

pub host-IsLawful : IsLawful host
unfolding held fetch_mocked transfer_mocked
host-IsLawful = record {
  sender = λ l from to s n apart covered. ground (
    arith,
    entry-account to from s s (λ e. saturating_add e n) n (debited l from s n) apart,
    entry-same from s (λ e. saturating_sub e n) 0 l,
  );
  receiver = λ l from to s n apart covered fits. ground (
    arith,
    entry-same to s (λ e. saturating_add e n) n (debited l from s n),
    entry-account from to s s (λ e. saturating_sub e n) 0 l (λ e. apart (sym e)),
  );
  other_asset = λ l from to k s t n distinct.
      ap (λ o. unwrap_or o 0)
        (entry-asset to k s t (λ e. saturating_add e n) n (debited l from s n) distinct
          ∙ entry-asset from k s t (λ e. saturating_sub e n) 0 l distinct);
}

pub host-Answers : Answers host
unfolding fetch_mocked
host-Answers = record { known = λ l owner asset e. ok-apart e }
