-- ===== src/Contract/Pool/Payout.antt =====
-- What `burn` leaves in the contract's hands and puts in the receiver's, with tokens that move as they promise.
use pendulum_amm.Base.{ℕ, ◌+◌, ◌-◌, ◌≤◌, ◌≡◌, ◌≢◌, ◌∙◌, sym, ap, arith}
use pendulum_amm.Base.Action.{ok}
use pendulum_amm.Base.Word.{max_u128}
use pendulum_amm.Contract.State.{Asset, Host, World}
use pendulum_amm.Contract.Bank.{held}
use pendulum_amm.Contract.Bank.Lawful.{IsLawful}
use pendulum_amm.Contract.Liquidity.{burn_liquidity}
use pendulum_amm.Contract.Liquidity.Payment.{IsPaid}
use pendulum_amm.Contract.Liquidity.Burning.{burn_liquidity-IsPaid}

module _ {L : Type 0} (h : Host L) (lawful : IsLawful h) where
  pub burn_leaves :
      (to x y : ℕ) (w w' : World L)
      → burn_liquidity h to w ≡ (ok (x, y), w')
      → h.account_id ≢ to
      → w.pair.asset_0 ≢ w.pair.asset_1
      → (x ≤ held h w.ledger h.account_id w.pair.asset_0)
        × (y ≤ held h w.ledger h.account_id w.pair.asset_1)
        × (held h w'.ledger h.account_id w.pair.asset_0
            ≡ held h w.ledger h.account_id w.pair.asset_0 - x)
        × (held h w'.ledger h.account_id w.pair.asset_1
            ≡ held h w.ledger h.account_id w.pair.asset_1 - y)
  burn_leaves to x y w w' done apart distinct =
      let me : ℕ = h.account_id in
      let s = w.pair.asset_0 in
      let t = w.pair.asset_1 in
      let mid = h.transfer_balance w.ledger me to s x in
      let paid = burn_liquidity-IsPaid h to x y w w' done in
      let between : held h mid me t ≡ held h w.ledger me t =
        lawful.other_asset w.ledger me to me s t x distinct in
      (
        paid.covered_0,
        omega (arith, paid.covered_1, between),
        rw paid.moved (
            lawful.other_asset mid me to me t s y (λ e. distinct (sym e))
            ∙ lawful.sender w.ledger me to s x apart paid.covered_0),
        rw paid.moved
            (lawful.sender mid me to t y apart paid.covered_1 ∙ ap (λ (n : ℕ). n - y) between),
      )

  -- What the receiver of the tokens then has.
  pub received :
      {to x y : ℕ} {s t : Asset} {l l' : L}
      → h.account_id ≢ to
      → s ≢ t
      → IsPaid h to s t l x y l'
      → held h l to s + x ≤ max_u128
      → held h l to t + y ≤ max_u128
      → (held h l' to s ≡ held h l to s + x) × (held h l' to t ≡ held h l to t + y)
  received {to} {x} {y} {s} {t} {l} apart distinct paid room_0 room_1 =
      let me : ℕ = h.account_id in
      let mid = h.transfer_balance l me to s x in
      let between : held h mid to t ≡ held h l to t =
        lawful.other_asset l me to to s t x distinct in
      (
        rw paid.moved (
            lawful.other_asset mid me to to t s y (λ e. distinct (sym e))
            ∙ lawful.receiver l me to s x apart paid.covered_0 room_0),
        rw paid.moved (
            lawful.receiver mid me to t y apart paid.covered_1 (omega (arith, between, room_1))
            ∙ ap (λ (n : ℕ). n + y) between),
      )
