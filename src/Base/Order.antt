-- ===== src/Base/Order.antt =====
-- Go's slices.SortFunc, slices.SortStableFunc, slices.Compact and slices.Sort as list functions.
-- The stable sort takes its comparison as the test that an element may stand before another.
use Prim.Native.Nat.{ℕ}
use mathlib.Core.Bool.{Bool, true, false}
use mathlib.Core.List.{List, [], ◌∷◌}
use stonks.Base.Tests.{leb, ◌==◌, if◌then◌else◌}

module _ {ℓ} {A : Type ℓ} where
  -- The place of `a` before the first element that it may precede.
  unfoldable pub insert_sorted : (A → A → Bool) → A → List A → List A
  insert_sorted le a [] = a ∷ []
  insert_sorted le a (b ∷ bs) = if le a b then a ∷ b ∷ bs else b ∷ insert_sorted le a bs

  unfoldable pub stable_sort : (A → A → Bool) → List A → List A
  unfolding insert_sorted
  stable_sort le [] = []
  stable_sort le (a ∷ rest) = insert_sorted le a (stable_sort le rest)

-- slices.Sort on moments.
unfoldable pub sort_times : List ℕ → List ℕ
unfolding stable_sort
sort_times = stable_sort leb

-- slices.Compact: one of each run of equal moments.
unfoldable pub compact_from : ℕ → List ℕ → List ℕ
compact_from a [] = a ∷ []
compact_from a (b ∷ bs) = elim (a == b) [ true ↦ compact_from a bs | false ↦ a ∷ compact_from b bs ]

unfoldable pub compact : List ℕ → List ℕ
unfolding compact_from
compact [] = []
compact (a ∷ rest) = compact_from a rest
