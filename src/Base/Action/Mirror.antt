-- ===== src/Base/Action/Mirror.antt =====
-- Actions that do the same on two sides of a map of states.
use mathlib.Core.Path.{◌≡◌, refl, ap, ◌∙◌}
use mathlib.Core.Bool.{Bool, true, false}
use pendulum_amm.Base.Tests.{if◌then◌else◌}
use pendulum_amm.Base.Action.{
  Outcome, ok, err, panic, Action, pure, raise, lift, gets, modify, ensure, continue, ◌>>=◌,
}

-- `act` on the image of a state comes out as `act'` on the state, with the image of its state.
pub record Mirrors {E S R : Type 0} (image : S → S) (act act' : Action E S R) : Type 0 where
  pub same : (s : S) → act (image s) ≡ ((act' s).0, image (act' s).1)

module _ {E S R T : Type 0} {image : S → S} where
  after_continue :
      (o : Outcome E T) (next next' : T → Action E S R) (s : S)
      → ((t : T) → Mirrors image (next t) (next' t))
      → continue o next (image s) ≡ ((continue o next' s).0, image (continue o next' s).1)
  after_continue panic next next' s rest = refl
  after_continue (err e) next next' s rest = refl
  after_continue (ok t) next next' s rest = (rest t).same s

  pub Mirrors-seq :
      (first first' : Action E S T) (next next' : T → Action E S R)
      → ((t : T) → Mirrors image (next t) (next' t))
      → Mirrors image first first'
      → Mirrors image (first >>= next) (first' >>= next')
  unfolding ◌>>=◌
  Mirrors-seq first first' next next' rest start = record {
    same = λ s.
        ap (λ (p : Outcome E T × S). continue p.0 next p.1) (start.same s)
        ∙ after_continue (first' s).0 next next' (first' s).1 rest;
  }

  -- A read that sees the image.
  pub Mirrors-seq_gets :
      (view view' : S → T) (next next' : T → Action E S R)
      → ((s : S) → Mirrors image (next (view (image s))) (next' (view' s)))
      → Mirrors image (gets view >>= next) (gets view' >>= next')
  unfolding ◌>>=◌
  Mirrors-seq_gets view view' next next' rest = record { same = λ s. (rest s).same s }

module _ {E S R : Type 0} {image : S → S} where
  pub Mirrors-branch :
      (act act' other other' : Action E S R) (test : Bool)
      → Mirrors image act act'
      → Mirrors image other other'
      → Mirrors image (if test then act else other) (if test then act' else other')
  Mirrors-branch act act' other other' true taken skipped = taken
  Mirrors-branch act act' other other' false taken skipped = skipped

  pub Mirrors-lift : (o : Outcome E R) → Mirrors image (lift o) (lift o)
  unfolding ◌>>=◌
  Mirrors-lift o = record { same = λ s. refl }

  pub Mirrors-pure : (r : R) → Mirrors {E = E} image (pure r) (pure r)
  unfolding ◌>>=◌
  Mirrors-pure r = record { same = λ s. refl }

  pub Mirrors-raise : (e : E) → Mirrors {R = R} image (raise e) (raise e)
  unfolding ◌>>=◌
  Mirrors-raise e = record { same = λ s. refl }

module _ {E S : Type 0} {image : S → S} where
  pub Mirrors-ensure : (test : Bool) (e : E) → Mirrors image (ensure test e) (ensure test e)
  unfolding ◌>>=◌
  Mirrors-ensure test e = record { same = λ s. refl }

  pub Mirrors-modify :
      (write write' : S → S)
      → ((s : S) → write (image s) ≡ image (write' s))
      → Mirrors {E = E} image (modify write) (modify write')
  unfolding ◌>>=◌
  Mirrors-modify write write' agree = record { same = λ s. ap (λ (t : S). (ok tt, t)) (agree s) }

  pub Mirrors-ensure_eq :
      (test test' : Bool) (e : E) → test ≡ test' → Mirrors image (ensure test e) (ensure test' e)
  unfolding ◌>>=◌
  Mirrors-ensure_eq test test' e agree = record {
    same = λ s. ap (λ (b : Bool). (if b then ok tt else err e, image s)) agree;
  }
