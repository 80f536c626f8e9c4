-- ===== src/Examples/Groups.antt =====
-- The theorems of the groups of keys at examples.
use stonks.Identity.Group.Components.{Linked}
use stonks.Identity.Group.Least.{of-least}
use stonks.Base.{map, ◌≤◌, All, ℕ, ◌==◌, if◌then◌else◌, List, [], ◌∷◌, ◌≡◌, refl, arith}
use stonks.Types.Identifier.{Identifier, isin, broker_id}
use stonks.Identity.Group.{Parent, StatedKey, find, of}
use stonks.Identity.Group.Roots.{IsDown}
use stonks.Identity.Group.Halve.{IsFound, find-IsFound}

abbrev parents : Parent
parents k = if k == 5 then 3 else if k == 3 then 2 else k

parents-IsDown : IsDown parents
parents-IsDown k = ground arith

find-IsFound_example : IsFound parents 5 (find parents 5)
find-IsFound_example = find-IsFound parents 5 parents-IsDown

abbrev by_isin : Identifier
by_isin = record { type = isin; domain = ""; value = "US0378331005" }

abbrev by_broker : Identifier
by_broker = record { type = broker_id; domain = "ibkr"; value = "265598" }

abbrev keys : List StatedKey
keys =
    record { id = 4; identifiers = by_isin ∷ [] }
    ∷ record { id = 6; identifiers = by_broker ∷ [] }
    ∷ record { id = 2; identifiers = by_broker ∷ by_isin ∷ [] }
    ∷ record { id = 9; identifiers = [] }
    ∷ []

of_test : of keys ≡ (4, 2) ∷ (6, 2) ∷ (2, 2) ∷ (9, 9) ∷ []
unfolding of
of_test = refl

of-least_example :
    (map (λ e. e.0) (of keys) ≡ map (λ k. k.id) keys)
    × All (λ e. Linked keys e.0 e.1 × ((y : ℕ) → Linked keys e.0 y → e.1 ≤ y)) (of keys)
of-least_example = of-least keys
