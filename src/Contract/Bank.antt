-- ===== src/Contract/Bank.antt =====
-- The contract's access to the tokens: `balance_of` and `transfer_tokens`.
pub mod Lawful
use pendulum_amm.Base.{
  ℕ, ◌≤◌, ◌≡◌, ◌≢◌, ◌⊎◌, inl, inr, refl, ap, Bool, true, false, arith, ltb, if◌then◌else◌,
}
use pendulum_amm.Base.Action.{Outcome, ok, err, panic, continue, raise, when, modify, ◌>>=◌}
use pendulum_amm.Contract.Status.{BalanceReadErr}
use pendulum_amm.Contract.State.{Asset, Error, insufficient_balance, Host, World, Call}

-- `match … { Ok(balance) => balance, Err(_) => 0 }`; a read that panics goes no further.
abbrev pub settled : Outcome BalanceReadErr ℕ → Outcome Error ℕ
settled (ok balance) = ok balance
settled (err _) = ok 0
settled panic = panic

abbrev pub or_zero : Outcome BalanceReadErr ℕ → ℕ
or_zero (ok balance) = balance
or_zero (err _) = 0
or_zero panic = 0

-- An action that succeeds has read the balance.
settled-ok :
    {L R : Type 0} (o : Outcome BalanceReadErr ℕ) (k : ℕ → Call L R) (w : World L) {r : R}
    {w' : World L}
    → continue (settled o) k w ≡ (ok r, w')
    → k (or_zero o) w ≡ (ok r, w')
settled-ok (ok b) k w e = e
settled-ok (err x) k w e = e
settled-ok panic k w e = cc

settled-cases : (o : Outcome BalanceReadErr ℕ) → (settled o ≡ ok (or_zero o)) ⊎ (settled o ≡ panic)
settled-cases (ok b) = inl refl
settled-cases (err x) = inl refl
settled-cases panic = inr refl

settled_known : (o : Outcome BalanceReadErr ℕ) → o ≢ panic → settled o ≡ ok (or_zero o)
settled_known o known = ground arith

pub settled_returns : (o : Outcome BalanceReadErr ℕ) → o ≢ panic → settled o ≢ panic
settled_returns o known e = ground arith

-- Every read ends with a status that the contract knows: `from_status_code` does not panic.
pub record Answers {L : Type 0} (h : Host L) : Type 0 where
  pub known : (l : L) (owner : ℕ) (asset : Asset) → h.fetch_balance l owner asset ≢ panic

module _ {L : Type 0} (h : Host L) where
  -- The balance that a read gives, where it does not panic.
  unfoldable pub held : L → ℕ → Asset → ℕ
  held l owner asset = or_zero (h.fetch_balance l owner asset)

  abbrev pub balance_of : ℕ → Asset → Call L ℕ
  balance_of owner asset w = (settled (h.fetch_balance w.ledger owner asset), w)

  unfoldable pub transfer_tokens : ℕ → ℕ → Asset → ℕ → Call L Unit
  transfer_tokens from to asset amount = do
    from_balance ← balance_of from asset
    if ltb from_balance amount
        then raise insufficient_balance
        else modify (λ w. record w { ledger = h.transfer_balance w.ledger from to asset amount })

  -- An action that succeeds has read the balance.
  pub balance_of-ok :
      {R : Type 0} (owner : ℕ) (asset : Asset) (k : ℕ → Call L R) (w : World L) {r : R}
      {w' : World L}
      → continue (balance_of owner asset w).0 k w ≡ (ok r, w')
      → k (held w.ledger owner asset) w ≡ (ok r, w')
  unfolding held
  balance_of-ok owner asset k w = settled-ok (h.fetch_balance w.ledger owner asset) k w

  -- The call goes on with the balance, or panics.
  pub balance_of-cases :
      (owner : ℕ) (asset : Asset) (w : World L)
      → ((balance_of owner asset w).0 ≡ ok (held w.ledger owner asset))
        ⊎ ((balance_of owner asset w).0 ≡ panic)
  unfolding held
  balance_of-cases owner asset w = settled-cases (h.fetch_balance w.ledger owner asset)

  pub balance_of_known :
      (owner : ℕ) (asset : Asset) (w : World L)
      → h.fetch_balance w.ledger owner asset ≢ panic
      → balance_of owner asset w ≡ (ok (held w.ledger owner asset), w)
  unfolding held
  balance_of_known owner asset w known =
      ap (λ o. (o, w)) (settled_known (h.fetch_balance w.ledger owner asset) known)

  -- The reserves are what the contract holds of the two tokens.
  pub record InSync (w : World L) : Type 0 where
    pub first : w.pair.reserve_0 ≡ held w.ledger h.account_id w.pair.asset_0
    pub second : w.pair.reserve_1 ≡ held w.ledger h.account_id w.pair.asset_1

  -- A transfer of tokens leaves the contract's storage alone.
  pub pair-transfer_tokens :
      (from to : ℕ) (asset : Asset) (amount : ℕ) (w : World L)
      → (transfer_tokens from to asset amount w).1.pair ≡ w.pair
  unfolding transfer_tokens ◌>>=◌
  pair-transfer_tokens from to asset amount w = ground arith

  -- A transfer that succeeds could be paid, and moves the amount.
  pub transfer_tokens_paid :
      (from to : ℕ) (asset : Asset) (amount : ℕ) (w : World L) {u : Unit}
      → (transfer_tokens from to asset amount w).0 ≡ ok u
      → (amount ≤ held w.ledger from asset)
        × ((transfer_tokens from to asset amount w).1.ledger
            ≡ h.transfer_balance w.ledger from to asset amount)
  unfolding transfer_tokens held ◌>>=◌
  transfer_tokens_paid from to asset amount w e = ground arith

  pub pair-when-transfer_tokens :
      (b : Bool) (from to : ℕ) (asset : Asset) (amount : ℕ) (w : World L)
      → (when b (transfer_tokens from to asset amount) w).1.pair ≡ w.pair
  unfolding ◌>>=◌
  pair-when-transfer_tokens true from to asset amount w =
      pair-transfer_tokens from to asset amount w
  pair-when-transfer_tokens false from to asset amount w = refl
