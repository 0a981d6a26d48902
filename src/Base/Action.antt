-- ===== src/Base/Action.antt =====
-- Calls that change a state and may fail. The state comes back with an error and with a panic
-- too: what was written stands until the runtime rolls it back.
pub mod Stable
pub mod Inversion
pub mod Returning
pub mod Mirror
use mathlib.Core.Path.{◌≡◌, refl}
use mathlib.Core.Bool.{Bool, true, false}
use mathlib.Core.Option.{Option, none, some}
use pendulum_amm.Base.Tests.{if◌then◌else◌}

pub data Outcome (E A : Type 0) : Type 0 where
  ok : A → Outcome E A
  err : E → Outcome E A
  panic : Outcome E A

abbrev pub Action : Type 0 → Type 0 → Type 0 → Type 0
Action E S A = S → Outcome E A × S

module _ {E S A : Type 0} where
  pub pure : A → Action E S A
  pure a s = (ok a, s)

  pub raise : E → Action E S A
  raise e s = (err e, s)

  pub lift : Outcome E A → Action E S A
  lift r s = (r, s)

  pub gets : (S → A) → Action E S A
  gets f s = (ok (f s), s)

  -- `.unwrap()` of an `Option`
  pub unwrap : Option A → Action E S A
  unwrap none s = (panic, s)
  unwrap (some a) s = (ok a, s)

  -- `.ok_or(e)?` of an `Option`
  pub ok_or : Option A → E → Action E S A
  ok_or none e s = (err e, s)
  ok_or (some a) e s = (ok a, s)

module _ {E S : Type 0} where
  pub modify : (S → S) → Action E S Unit
  modify f s = (ok tt, f s)

  -- `ensure!(test, e)`
  pub ensure : Bool → E → Action E S Unit
  ensure b e s = (if b then ok tt else err e, s)

  abbrev pub when : Bool → Action E S Unit → Action E S Unit
  when b m = if b then m else pure tt

module _ {E S A B : Type 0} where
  abbrev pub continue : Outcome E A → (A → Action E S B) → Action E S B
  continue (ok a) f s = f a s
  continue (err e) f s = (err e, s)
  continue panic f s = (panic, s)

  infixl 5 ◌>>=◌ ◌>>◌
  -- Opening this opens the actions above too.
  unfoldable pub ◌>>=◌ : Action E S A → (A → Action E S B) → Action E S B
  unfolding pure raise lift gets unwrap ok_or modify ensure
  ◌>>=◌ m f s = let (r, s') = m s in continue r f s'

  abbrev pub ◌>>◌ : Action E S A → Action E S B → Action E S B
  m >> k = m >>= λ _. k
