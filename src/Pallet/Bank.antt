-- ===== src/Pallet/Bank.antt =====
-- `balance_of` and `transfer_tokens` of pallet/src/helper.rs.
pub mod Lawful
use pendulum_amm.Base.{ℕ, ◌≤◌, ◌≡◌, refl, Bool, true, false, arith, leb}
use pendulum_amm.Base.Action.{ok, gets, ensure, when, ◌>>=◌, ◌>>◌}
use pendulum_amm.Pallet.State.{amm, insufficient_balance, Config, World, Call}

module _ {O L C : Type 0} (t : Config O L C) where
  abbrev pub balance_of : ℕ → C → Call L ℕ
  balance_of owner asset = gets (λ w. t.amm_extension.fetch_balance w.ledger owner asset)

  -- The extension acts on the tokens' part of the state.
  abbrev pub extension_transfer : ℕ → ℕ → C → ℕ → Call L Unit
  extension_transfer from to asset amount w =
      let (r, l) = t.amm_extension.transfer_balance from to asset amount w.ledger in
      (r, record w { ledger = l })

  unfoldable pub transfer_tokens : ℕ → ℕ → C → ℕ → Call L Unit
  transfer_tokens from to asset amount = do
    from_balance ← balance_of from asset
    ensure (leb amount from_balance) (amm insufficient_balance)
    extension_transfer from to asset amount

  -- The reserves are what the pallet's account holds of the two tokens.
  pub record InSync (contract : ℕ) (w : World L) : Type 0 where
    pub first :
        w.storage.reserves.reserve_0 ≡ t.amm_extension.fetch_balance w.ledger contract t.asset_0
    pub second :
        w.storage.reserves.reserve_1 ≡ t.amm_extension.fetch_balance w.ledger contract t.asset_1

  -- A transfer of tokens leaves the pallet's storage alone.
  pub storage-transfer_tokens :
      (from to : ℕ) (asset : C) (amount : ℕ) (w : World L)
      → (transfer_tokens from to asset amount w).1.storage ≡ w.storage
  unfolding transfer_tokens ◌>>=◌
  storage-transfer_tokens from to asset amount w = ground arith

  pub storage-when-transfer_tokens :
      (b : Bool) (from to : ℕ) (asset : C) (amount : ℕ) (w : World L)
      → (when b (transfer_tokens from to asset amount) w).1.storage ≡ w.storage
  unfolding ◌>>=◌
  storage-when-transfer_tokens true from to asset amount w =
      storage-transfer_tokens from to asset amount w
  storage-when-transfer_tokens false from to asset amount w = refl

  -- A transfer that succeeds could be paid, and leaves the tokens as the extension left them.
  pub transfer_tokens_paid :
      (from to : ℕ) (asset : C) (amount : ℕ) (w : World L) {u : Unit}
      → (transfer_tokens from to asset amount w).0 ≡ ok u
      → (amount ≤ t.amm_extension.fetch_balance w.ledger from asset)
        × ((transfer_tokens from to asset amount w).1.ledger
            ≡ (t.amm_extension.transfer_balance from to asset amount w.ledger).1)
  unfolding transfer_tokens ◌>>=◌
  transfer_tokens_paid from to asset amount w e = ground arith
