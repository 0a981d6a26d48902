-- ===== src/Base/Dict.antt =====
-- A storage map keyed by account numbers, as an association list: `Mapping` of the contract,
-- `StorageMap` of the pallet.
use Prim.Native.Nat.{ℕ, ◌+◌, ◌≤◌}
use mathlib.Core.Path.{◌≡◌, refl}
use mathlib.Core.Option.{Option, none, some}
use mathlib.Core.List.{List, [], ◌∷◌}
use native.Mathlib.Omega.{arith}
use pendulum_amm.Base.Tests.{◌==◌, if◌then◌else◌}
use pendulum_amm.Base.Word.{unwrap_or}

abbrev pub Dict : Type 0
Dict = List (ℕ × ℕ)

unfoldable pub lookup : ℕ → Dict → Option ℕ
lookup k [] = none
lookup k ((j, v) ∷ d) = if k == j then some v else lookup k d

unfoldable pub insert : ℕ → ℕ → Dict → Dict
insert k v [] = (k, v) ∷ []
insert k v ((j, w) ∷ d) = if k == j then (k, v) ∷ d else (j, w) ∷ insert k v d

-- The value of a key, 0 if there is none.
abbrev pub value : ℕ → Dict → ℕ
value k d = unwrap_or (lookup k d) 0

-- The sum of all values.
unfoldable pub total : Dict → ℕ
total [] = 0
total ((j, v) ∷ d) = v + total d

pub lookup-insert :
    (j k v : ℕ) (d : Dict) → lookup j (insert k v d) ≡ (if j == k then some v else lookup j d)
unfolding lookup insert
lookup-insert j k v [] = refl
lookup-insert j k v ((i, w) ∷ d) = ground (arith, lookup-insert j k v d)

-- A write changes the sum by the change of that key's value.
pub total-insert : (k v : ℕ) (d : Dict) → total (insert k v d) + value k d ≡ total d + v
unfolding lookup insert total
total-insert k v [] = omega arith
total-insert k v ((i, w) ∷ d) = ground (arith, total-insert k v d)

pub value-le-total : (k : ℕ) (d : Dict) → value k d ≤ total d
unfolding lookup total
value-le-total k [] = omega arith
value-le-total k ((i, w) ∷ d) = ground (arith, value-le-total k d)
