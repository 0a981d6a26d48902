-- ===== src/Base/Action/Stable.antt =====
-- Predicates on the state that an action cannot break, whichever way it ends.

use mathlib.Core.Path.{◌≡◌, refl, subst}
use mathlib.Core.Bool.{Bool, true, false}
use mathlib.Core.Option.{Option, none, some}
use pendulum_amm.Base.Tests.{if◌then◌else◌}
use pendulum_amm.Base.Action.{
  Outcome, ok, err, panic, Action, pure, raise, lift, gets, unwrap, ok_or, modify, ensure, continue,
  ◌>>=◌,
}

-- `I` is stable under `act`: it holds of the state that `act` leaves, be it with a value, an error
-- or a panic.
pub record Stable {E S R : Type 0} (I : S → Type 0) (act : Action E S R) : Type 0 where
  pub after : {w : S} → I w → I (act w).1

module _ {E S R T : Type 0} {I : S → Type 0} where
  after_continue :
      (o : Outcome E T) (next : T → Action E S R) {w : S}
      → ((t : T) → Stable I (next t))
      → I w
      → I (continue o next w).1
  after_continue panic next rest i = i
  after_continue (err e) next rest i = i
  after_continue (ok t) next rest i = (rest t).after i

  -- In sequence: each step may rely on the one before.
  pub Stable-seq :
      (first : Action E S T) (next : T → Action E S R)
      → ((t : T) → Stable I (next t))
      → Stable I first
      → Stable I (first >>= next)
  unfolding ◌>>=◌
  Stable-seq first next rest start = record {
    after = λ {w} i. after_continue (first w).0 next rest (start.after i);
  }

module _ {E S R : Type 0} {I : S → Type 0} where
  -- An action that only reads breaks nothing.
  Stable-read : (act : Action E S R) → ((w : S) → w ≡ (act w).1) → Stable I act
  Stable-read act same = record { after = λ {w} i. subst I (same w) i }

  pub Stable-branch :
      (act other : Action E S R) (test : Bool)
      → Stable I act
      → Stable I other
      → Stable I (if test then act else other)
  Stable-branch act other false taken skipped = skipped
  Stable-branch act other true taken skipped = taken

  pub Stable-unwrap : (found : Option R) → Stable I (unwrap {E = E} found)
  unfolding ◌>>=◌
  Stable-unwrap (some r) = Stable-read (unwrap (some r)) (λ w. refl)
  Stable-unwrap none = Stable-read (unwrap none) (λ w. refl)

  pub Stable-ok_or : (e : E) (found : Option R) → Stable I (ok_or found e)
  unfolding ◌>>=◌
  Stable-ok_or e (some r) = Stable-read (ok_or (some r) e) (λ w. refl)
  Stable-ok_or e none = Stable-read (ok_or none e) (λ w. refl)

  pub Stable-lift : (o : Outcome E R) → Stable I (lift o)
  unfolding ◌>>=◌
  Stable-lift o = Stable-read (lift o) (λ w. refl)

  pub Stable-gets : (view : S → R) → Stable I (gets {E = E} view)
  unfolding ◌>>=◌
  Stable-gets view = Stable-read (gets view) (λ w. refl)

  pub Stable-pure : (r : R) → Stable I (pure {E = E} r)
  unfolding ◌>>=◌
  Stable-pure r = Stable-read (pure r) (λ w. refl)

  pub Stable-raise : (e : E) → Stable I (raise {A = R} e)
  unfolding ◌>>=◌
  Stable-raise e = Stable-read (raise e) (λ w. refl)

module _ {E S R T : Type 0} {I : S → Type 0} where
  -- After a read, what follows need only be stable for the values that can be read.
  pub Stable-seq_gets :
      (view : S → T) (next : T → Action E S R)
      → ((w : S) → Stable I (next (view w)))
      → Stable I (gets view >>= next)
  unfolding ◌>>=◌
  Stable-seq_gets view next rest = record { after = λ {w} i. (rest w).after i }

module _ {E S : Type 0} {I : S → Type 0} where
  pub Stable-ensure : (e : E) (test : Bool) → Stable I (ensure {S = S} test e)
  unfolding ◌>>=◌
  Stable-ensure e test = Stable-read (ensure test e) (λ w. refl)

  pub Stable-modify :
      (write : S → S) → ((w : S) → I w → I (write w)) → Stable I (modify {E = E} write)
  unfolding ◌>>=◌
  Stable-modify write fine = record { after = λ {w} i. fine w i }

pub ruleset stable_rules = (
  Stable-seq, Stable-branch, Stable-unwrap, Stable-ok_or, Stable-lift, Stable-gets, Stable-pure,
  Stable-raise, Stable-ensure,
)
