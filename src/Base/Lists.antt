-- ===== src/Base/Lists.antt =====
-- Lists by the native numbers.
use Prim.Native.Nat.{ℕ, zero, suc, ◌+◌}
use mathlib.Core.Path.{◌≡◌, refl, ap}
use mathlib.Core.Bool.{Bool, true, ◌&&◌}
use mathlib.Core.Option.{Option, none, some}
use mathlib.Core.List.{List, [], ◌∷◌, ◌++◌}
use native.Mathlib.Omega.{arith}

module _ {ℓ} {A : Type ℓ} where
  abbrev pub length : List A → ℕ
  length [] = 0
  length (x ∷ xs) = suc (length xs)

  abbrev pub replicate : ℕ → A → List A
  replicate zero a = []
  replicate (suc n) a = a ∷ replicate n a

  abbrev pub all : (A → Bool) → List A → Bool
  all p [] = true
  all p (x ∷ xs) = p x && all p xs

  abbrev pub get_elem? : List A → ℕ → Option A
  get_elem? [] i = none
  get_elem? (x ∷ xs) zero = some x
  get_elem? (x ∷ xs) (suc i) = get_elem? xs i

  abbrev pub take : ℕ → List A → List A
  take zero xs = []
  take (suc n) [] = []
  take (suc n) (x ∷ xs) = x ∷ take n xs

  abbrev pub drop : ℕ → List A → List A
  drop zero xs = xs
  drop (suc n) [] = []
  drop (suc n) (x ∷ xs) = drop n xs

  pub length-append : (xs ys : List A) → length (xs ++ ys) ≡ length xs + length ys
  length-append [] ys = omega arith
  length-append (x ∷ xs) ys = omega (arith, length-append xs ys)

abbrev pub All {ℓ κ} : {A : Type ℓ} → (A → Type κ) → List A → Type κ
All P [] = Unit
All P (x ∷ xs) = P x × All P xs

pub All-append {ℓ κ} :
    {A : Type ℓ} (P : A → Type κ) (xs ys : List A) → All P xs → All P ys → All P (xs ++ ys)
All-append P [] ys h k = k
All-append P (x ∷ xs) ys (hx, h) k = (hx, All-append P xs ys h k)

module _ {ℓ} {A : Type ℓ} where
  pub take-append_length : (xs ys : List A) → take (length xs) (xs ++ ys) ≡ xs
  take-append_length [] ys = refl
  take-append_length (x ∷ xs) ys = ap (λ r. x ∷ r) (take-append_length xs ys)

  pub get_elem?-append :
      (xs ys : List A) (i : ℕ) → get_elem? (xs ++ ys) (i + length xs) ≡ get_elem? ys i
  get_elem?-append [] ys i = ap (get_elem? ys) (omega arith)
  get_elem?-append (x ∷ xs) ys i =
      let next : i + suc (length xs) ≡ suc (i + length xs) = omega arith in
      rw next (get_elem?-append xs ys i)

  -- A list with at least two elements, with its last two apart.
  pub last_two :
      (n : ℕ) (xs : List A)
      → length xs ≡ suc (suc n)
      → (init : List A) × (a : A) × (b : A) × (xs ≡ init ++ a ∷ b ∷ []) × (length init ≡ n)
  last_two zero [] h = absurd (omega (arith, h))
  last_two (suc n) [] h = absurd (omega (arith, h))
  last_two zero (a ∷ []) h = absurd (omega (arith, h))
  last_two zero (a ∷ b ∷ []) h = ([], a, b, refl, refl)
  last_two zero (a ∷ b ∷ c ∷ xs) h = absurd (omega (arith, h))
  last_two (suc n) (x ∷ xs) h =
      let (init, a, b, whole, size) = last_two n xs (omega (arith, h)) in
      (x ∷ init, a, b, ap (λ r. x ∷ r) whole, ap suc size)
