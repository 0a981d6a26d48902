-- ===== src/Base/Action/Returning.antt =====
-- Actions that come back, with a value or an error, and do not panic.
use mathlib.Core.Path.{◌≡◌, refl}
use mathlib.Core.Logic.{◌≢◌}
use mathlib.Core.Bool.{Bool, true, false}
use pendulum_amm.Base.Tests.{if◌then◌else◌}
use pendulum_amm.Base.Action.{
  Outcome, ok, err, panic, Action, pure, raise, lift, gets, modify, ensure, ◌>>=◌,
}

-- From the state `s`.
pub record ReturnsAt {E S R : Type 0} (act : Action E S R) (s : S) : Type 0 where
  pub returns : (act s).0 ≢ panic

-- From every state.
pub record Returns {E S R : Type 0} (act : Action E S R) : Type 0 where
  pub at : (s : S) → ReturnsAt act s

module _ {E R : Type 0} where
  ok-apart : (r : R) → let o : Outcome E R = ok r in o ≢ panic
  ok-apart r e = cc

  err-apart : (x : E) → let o : Outcome E R = err x in o ≢ panic
  err-apart x e = cc

module _ {E S R T : Type 0} where
  -- In sequence: the second action is asked for the values that the first one gives.
  pub ReturnsAt-seq :
      (first : Action E S T) (next : T → Action E S R) (s : S)
      → ReturnsAt first s
      → ((t : T) → (first s).0 ≡ ok t → ReturnsAt (next t) (first s).1)
      → ReturnsAt (first >>= next) s
  unfolding ◌>>=◌
  ReturnsAt-seq first next s start rest = go (first s).0 refl
    where
      go : (o : Outcome E T) → (first s).0 ≡ o → ReturnsAt (first >>= next) s
      go (ok t) e = record { returns = rw e ((rest t e).returns) }
      go (err x) e = record { returns = rw e (err-apart x) }
      go panic e = absurd (start.returns e)

  -- After a read, in the state that was read.
  pub ReturnsAt-seq_gets :
      (view : S → T) (next : T → Action E S R) (s : S)
      → ReturnsAt (next (view s)) s
      → ReturnsAt (gets view >>= next) s
  unfolding ◌>>=◌
  ReturnsAt-seq_gets view next s rest = record { returns = rest.returns }

  pub Returns-seq :
      (first : Action E S T) (next : T → Action E S R)
      → ((t : T) → Returns (next t))
      → Returns first
      → Returns (first >>= next)
  Returns-seq first next rest start = record {
    at = λ s. ReturnsAt-seq first next s (start.at s) (λ t _. (rest t).at (first s).1);
  }

module _ {E S R : Type 0} where
  pub Returns-branch :
      (act other : Action E S R) (test : Bool)
      → Returns act
      → Returns other
      → Returns (if test then act else other)
  Returns-branch act other true taken skipped = taken
  Returns-branch act other false taken skipped = skipped

  pub Returns-pure : (r : R) → Returns {E = E} {S = S} (pure r)
  unfolding ◌>>=◌
  Returns-pure r = record { at = λ s. record { returns = ok-apart r } }

  pub Returns-raise : (x : E) → Returns {S = S} {R = R} (raise x)
  unfolding ◌>>=◌
  Returns-raise x = record { at = λ s. record { returns = err-apart x } }

  pub Returns-gets : (view : S → R) → Returns {E = E} (gets view)
  unfolding ◌>>=◌
  Returns-gets view = record { at = λ s. record { returns = ok-apart (view s) } }

  pub Returns-lift : (o : Outcome E R) → o ≢ panic → Returns {S = S} (lift o)
  unfolding ◌>>=◌
  Returns-lift o fine = record { at = λ s. record { returns = fine } }

module _ {E S : Type 0} where
  pub Returns-modify : (write : S → S) → Returns {E = E} (modify write)
  unfolding ◌>>=◌
  Returns-modify write = record { at = λ s. record { returns = ok-apart tt } }

  pub Returns-ensure : (test : Bool) (x : E) → Returns {S = S} (ensure test x)
  unfolding ◌>>=◌
  Returns-ensure true x = record { at = λ s. record { returns = ok-apart tt } }
  Returns-ensure false x = record { at = λ s. record { returns = err-apart x } }

pub ruleset return_rules = (
  Returns-seq, Returns-branch, Returns-pure, Returns-raise, Returns-gets, Returns-modify,
  Returns-ensure,
)
