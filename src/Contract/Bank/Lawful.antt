-- ===== src/Contract/Bank/Lawful.antt =====
-- What the tokens behind the chain extension promise: a transfer that the sender can pay moves the
-- amount.
use pendulum_amm.Base.{ℕ, ◌+◌, ◌-◌, ◌≤◌, ◌≡◌, ◌≢◌, arith}
use pendulum_amm.Base.Action.{ok, panic, ◌>>=◌}
use pendulum_amm.Base.Word.{max_u128}
use pendulum_amm.Contract.State.{Asset, Host, World}
use pendulum_amm.Contract.Bank.{held, transfer_tokens}

pub record IsLawful {L : Type 0} (h : Host L) : Type 0 where
  -- The sender pays the amount.
  pub sender :
      (l : L) (from to : ℕ) (s : Asset) (n : ℕ)
      → from ≢ to
      → n ≤ held h l from s
      → held h (h.transfer_balance l from to s n) from s ≡ held h l from s - n
  -- The receiver gets it, where the balance fits 128 bits.
  pub receiver :
      (l : L) (from to : ℕ) (s : Asset) (n : ℕ)
      → from ≢ to
      → n ≤ held h l from s
      → held h l to s + n ≤ max_u128
      → held h (h.transfer_balance l from to s n) to s ≡ held h l to s + n
  -- The other assets stay.
  pub other_asset :
      (l : L) (from to k : ℕ) (s t : Asset) (n : ℕ)
      → s ≢ t
      → held h (h.transfer_balance l from to s n) k t ≡ held h l k t

-- A transfer that the sender can pay succeeds, where the read of its balance does not panic.
pub transfer_tokens-ok :
    {L : Type 0} (h : Host L) (from to : ℕ) (s : Asset) (n : ℕ) (w : World L)
    → h.fetch_balance w.ledger from s ≢ panic
    → n ≤ held h w.ledger from s
    → transfer_tokens h from to s n w
      ≡ (ok tt, record w { ledger = h.transfer_balance w.ledger from to s n })
unfolding transfer_tokens held ◌>>=◌
transfer_tokens-ok h from to s n w known covered = ground arith
