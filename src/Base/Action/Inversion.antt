-- ===== src/Base/Action/Inversion.antt =====
-- What a successful sequence of actions says of its parts.
use mathlib.Core.Path.{◌≡◌, refl, ap}
use mathlib.Core.Bool.{Bool, true, false}
use mathlib.Core.Option.{Option, none, some}
use pendulum_amm.Base.Action.{
  ensure, pure, unwrap, ◌>>=◌, ◌>>◌, Outcome, ok, err, panic, Action, continue,
}

module _ {E S A B : Type 0} where
  pub continue-ok :
      (r : Outcome E A) (f : A → Action E S B) (s : S) {b : B} {s' : S}
      → continue r f s ≡ (ok b, s')
      → (a : A) × (r ≡ ok a) × (f a s ≡ (ok b, s'))
  continue-ok (ok a) f s e = (a, refl, e)
  continue-ok (err x) f s e = absurd (cc (ap (λ (p : Outcome E B × S). p.0) e))
  continue-ok panic f s e = absurd (cc (ap (λ (p : Outcome E B × S). p.0) e))

module _ {E S : Type 0} where
  pub ensure-ok : (b : Bool) (e : E) (s : S) {u : Unit} → (ensure b e s).0 ≡ ok u → b ≡ true
  unfolding ◌>>=◌
  ensure-ok true e s h = refl
  ensure-ok false e s h = cc

module _ {E S A : Type 0} where
  -- An action whose result is dropped.
  pub dropped-ok :
      (m : Action E S A) (s s' : S) → (m >> pure tt) s ≡ (ok tt, s') → (a : A) × (m s ≡ (ok a, s'))
  unfolding ◌>>=◌
  dropped-ok m s s' done =
      let (a, e, d) = continue-ok (m s).0 _ _ done in
      (a, λ i. (e i, ap (λ (p : Outcome E Unit × S). p.1) d i))

module _ {E S A B : Type 0} where
  -- After the `unwrap` of an option that is known.
  pub continue-unwrap :
      (o : Option A) {a : A} (f : A → Action E S B) (s : S) {r : Outcome E B × S}
      → o ≡ some a
      → (unwrap o >>= f) s ≡ r
      → f a s ≡ r
  unfolding ◌>>=◌
  continue-unwrap none f s known done = absurd (cc known)
  continue-unwrap (some b) {a} f s {r} known done = let same : b ≡ a = cc in rw same at done

  -- An action that goes on after an `unwrap` has unwrapped a value.
  pub unwrapped :
      (o : Option A) (f : A → Action E S B) (s s' : S) {b : B}
      → (unwrap o >>= f) s ≡ (ok b, s')
      → (a : A) × (o ≡ some a)
  unfolding ◌>>=◌
  unwrapped none f s s' done = absurd (cc (ap (λ (p : Outcome E B × S). p.0) done))
  unwrapped (some a) f s s' done = (a, refl)
