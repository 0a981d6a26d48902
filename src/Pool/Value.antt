-- ===== src/Pool/Value.antt =====
-- Steps and the value of a share.
use pendulum_amm.Base.{ℕ, ◌*◌, ◌≤◌, ◌<◌, arith}
use pendulum_amm.Base.Nonlinear.{mul_mono, mul_mono_left, mul_pos}
use native.Mathlib.Nat.{mul-mul-mul_comm, le_of_mul-le-mul_right}
use pendulum_amm.Pool.{Pool, Step, trade, share, NoLoss}

pub NoLoss-refl : (p : Pool) → NoLoss p p
NoLoss-refl p = record { kept = omega arith }

pub Step-NoLoss : {p q : Pool} → Step p q → NoLoss p q
Step-NoLoss {p} (trade q same grown) = record {
  kept = rw same (mul_mono_left (p.x * p.y) (q.x * q.y) (p.shares * p.shares) grown);
}
Step-NoLoss {p} (share q left right) = record {
  kept = omega (
    arith,
    mul_mono (p.x * q.shares) (q.x * p.shares) (p.y * q.shares) (q.y * p.shares) left right,
    mul-mul-mul_comm p.x q.shares p.y q.shares,
    mul-mul-mul_comm q.x p.shares q.y p.shares,
  );
}

-- Two comparisons of fractions.
ratio_trans : (a b c s t u : ℕ) → 0 < t → a * t ≤ b * s → b * u ≤ c * t → a * u ≤ c * s
ratio_trans a b c s t u some_t left right =
    le_of_mul-le-mul_right {m = a * u} {n = c * s} {k = t}
      (omega (arith, mul_mono_left (a * t) (b * s) u left, mul_mono_left (b * u) (c * t) s right))
      some_t

-- The value of a share does not fall over two steps either, if there are shares in between.
pub NoLoss-trans : {p q r : Pool} → 0 < q.shares → NoLoss p q → NoLoss q r → NoLoss p r
NoLoss-trans {p} {q} {r} some_shares a b = record {
  kept =
      ratio_trans (p.x * p.y) (q.x * q.y) (r.x * r.y) (p.shares * p.shares) (q.shares * q.shares)
        (r.shares * r.shares) (mul_pos q.shares q.shares some_shares some_shares) a.kept b.kept;
}
