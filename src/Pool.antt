-- ===== src/Pool.antt =====
-- The pool that a market maker promises, as contract or as pallet: two reserves and the shares in
-- them, without the tokens, the holders and the events. A step must not take value from a share.
pub mod Value
use pendulum_amm.Base.{ℕ, ◌*◌, ◌≤◌, ◌≡◌}

pub record Pool : Type 0 where
  pub x : ℕ
  pub y : ℕ
  pub shares : ℕ

-- What the pool may do: a trade, which keeps the shares and does not lower the product of the
-- reserves, or a change of shares and reserves that leaves at least as much of each token to a share.
pub data Step (p : Pool) : Pool → Type 0 where
  trade : (q : Pool) → q.shares ≡ p.shares → p.x * p.y ≤ q.x * q.y → Step p q
  share : (q : Pool) → p.x * q.shares ≤ q.x * p.shares → p.y * q.shares ≤ q.y * p.shares → Step p q

-- The product of the two reserves' parts of a share has not fallen: x y / shares², in whole
-- numbers.
pub record NoLoss (p q : Pool) : Type 0 where
  pub kept : p.x * p.y * (q.shares * q.shares) ≤ q.x * q.y * (p.shares * p.shares)
