-- ===== src/Base/In.antt =====
-- Membership in a list.
use mathlib.Core.Path.{◌≡◌}
use mathlib.Core.Logic.{◌⊎◌}
use mathlib.Core.List.{List, [], ◌∷◌}
use stonks.Base.Lists.{All}

-- `x` is an element of a list.
pub data In {ℓ} {A : Type ℓ} (x : A) : List A → Type ℓ where
  here : {xs : List A} → In x (x ∷ xs)
  there : {y : A} {xs : List A} → In x xs → In x (y ∷ xs)

pub All-In {ℓ κ} : {A : Type ℓ} (P : A → Type κ) {x : A} {xs : List A} → All P xs → In x xs → P x
All-In P h In.here = h.0
All-In P h (In.there m) = All-In P h.1 m

pub In-All {ℓ κ} :
    {A : Type ℓ} (P : A → Type κ) (xs : List A) → ((x : A) → In x xs → P x) → All P xs
In-All P [] h = tt
In-All P (x ∷ xs) h = (h x In.here, In-All P xs (λ y m. h y (In.there m)))

-- `x` is the first element of the list for which `P` holds.
abbrev pub IsFirstOf : {A : Type 0} → (A → Type 0) → A → List A → Type 0
IsFirstOf P x [] = ⊥
IsFirstOf P x (y ∷ ys) = ((x ≡ y) × P y) ⊎ ((P y → ⊥) × IsFirstOf P x ys)
