-- ===== src/Node/Tests.antt =====
-- Runs of the specifications, where a key is the name in its seed and an account the number of its bytes.
use pendulum_amm.Base.{
  ℕ, ◌≡◌, refl, sym, subst, Option, none, some, List, [], ◌∷◌, ◌&&◌, ◌==◌, not, if◌then◌else◌,
}
use pendulum_amm.Base.Lists.{All}
use pendulum_amm.Base.Action.{err, panic}
use mathlib.Core.List.{Memᴰ}
use mathlib.Core.List.Memᴰ.{head, tail}
use pendulum_amm.Runtime.Extension.{from_le_bytes}
use pendulum_amm.Node.ChainSpec.{
  KeyPairs, wasm_not_available, file, contract_seed, zero_seed, get_from_seed,
  get_account_id_from_seed, development_config, load_spec,
}
use pendulum_amm.Node.ChainSpec.Genesis.{IsReady, Gives, seeds, account_of, load_spec-IsReady}

-- A parser that takes `//` and a name, and refuses all else.
abbrev after_slashes : List ℕ → Option (List ℕ)
after_slashes (a ∷ b ∷ c ∷ name) =
    if a == b'/' && b == b'/' && not (c == b'/') then some (c ∷ name) else none
after_slashes _ = none

abbrev keys : KeyPairs (List ℕ) (List ℕ)
keys = record { from_string = after_slashes; public = λ pair. pair; into_account = from_le_bytes }

-- What the parser leaves of a string.
abbrev name_of : List ℕ → List ℕ
name_of (a ∷ b ∷ name) = name
name_of _ = []

all-Memᴰ :
    (P : List ℕ → Type 0) {seed : List ℕ} {l : List (List ℕ)} → All P l → Memᴰ seed l → P seed
all-Memᴰ P h (head e) = subst P (sym e) h.0
all-Memᴰ P h (tail m) = all-Memᴰ P h.1 m

accepted :
    (seed : List ℕ)
    → Memᴰ seed (contract_seed ∷ zero_seed ∷ seeds)
    → after_slashes (b'/' ∷ b'/' ∷ seed) ≡ some (name_of (b'/' ∷ b'/' ∷ seed))
accepted seed m =
    all-Memᴰ (λ s. after_slashes (b'/' ∷ b'/' ∷ s) ≡ some (name_of (b'/' ∷ b'/' ∷ s)))
      (
        refl,
        (
          refl,
          (
            refl,
            (
              refl,
              (refl, (refl, (refl, (refl, (refl, (refl, (refl, (refl, (refl, (refl, tt)))))))))),
            ),
          ),
        ),
      )
      m

malformed : after_slashes (b'/' ∷ b'/' ∷ b'/' ∷ []) ≡ none
malformed = refl

abbrev bob : List ℕ
bob = b'B' ∷ b'o' ∷ b'b' ∷ []

abbrev dev : List ℕ
dev = b'd' ∷ b'e' ∷ b'v' ∷ []

load_spec-IsReady_example :
    Gives
      (λ spec. Gives (IsReady keys name_of (account_of keys name_of bob)) spec.genesis)
      (load_spec keys (some (0 ∷ [])) (λ path. err (file path)) dev)
load_spec-IsReady_example =
    load_spec-IsReady keys name_of accepted (0 ∷ []) (λ path. err (file path)) dev bob (head refl)
      (tail (head refl))

-- Without a binary there is no specification; a name that is no preset is read as a path; and a
-- seed that cannot be read is a panic.
no_binary : load_spec keys none (λ path. err (file path)) dev ≡ err wasm_not_available
unfolding load_spec development_config
no_binary = refl

path : load_spec keys none (λ path. err (file path)) bob ≡ err (file bob)
unfolding load_spec
path = refl

no_key : get_account_id_from_seed (record keys { from_string = λ seed. none }) bob ≡ panic
unfolding get_account_id_from_seed get_from_seed
no_key = refl
