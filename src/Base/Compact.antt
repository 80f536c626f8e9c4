-- ===== src/Base/Compact.antt =====
-- Sorted and compacted moments: strictly increasing, with the same members.
use Prim.Native.Nat.{ℕ, ◌≤◌, ◌<◌}
use mathlib.Core.Path.{◌≡◌, refl, ◌∙◌}
use mathlib.Core.Logic.{inl, inr, ◌⊎◌}
use mathlib.Core.Bool.{Bool, true, ◌||◌}
use mathlib.Core.List.{List, [], ◌∷◌}
use native.Mathlib.Omega.{arith}
use stonks.Base.Tests.{leb, ◌==◌, Bool-cases}
use stonks.Base.Lists.{any, All}
use stonks.Base.Order.{sort_times, compact_from, compact}
use stonks.Base.Any.{IsOrdered, any-stable_sort, stable_sort-IsOrdered}

abbrev pub IsIncreasing : List ℕ → Type 0
IsIncreasing [] = Unit
IsIncreasing (a ∷ rest) = All (λ b. a < b) rest × IsIncreasing rest

abbrev pub has : ℕ → List ℕ → Bool
has x = any (λ b. b == x)

sort_times-IsOrdered : (xs : List ℕ) → IsOrdered leb (sort_times xs)
unfolding sort_times
sort_times-IsOrdered = stable_sort-IsOrdered leb (λ a b h. ground arith) (λ a b c h k. ground arith)

compact_from-above :
    (b a : ℕ) (xs : List ℕ) → b < a → IsOrdered leb (a ∷ xs) → All (λ x. b < x) (compact_from a xs)
unfolding compact_from
compact_from-above b a [] h s = (h, tt)
compact_from-above b a (x ∷ xs) h s =
    ground (arith, compact_from-above b a xs h (s.0.1, s.1.1), compact_from-above b x xs, s.1)

compact_from-IsIncreasing :
    (a : ℕ) (xs : List ℕ) → IsOrdered leb (a ∷ xs) → IsIncreasing (compact_from a xs)
unfolding compact_from
compact_from-IsIncreasing a [] s = (tt, tt)
compact_from-IsIncreasing a (x ∷ xs) s = ground (
  arith,
  compact_from-IsIncreasing a xs (s.0.1, s.1.1),
  compact_from-IsIncreasing x xs s.1,
  compact_from-above a x xs,
)

has-compact_from : (x a : ℕ) (xs : List ℕ) → has x (compact_from a xs) ≡ (a == x || has x xs)
unfolding compact_from
has-compact_from x a [] = refl
has-compact_from x a (y ∷ ys) = ground (arith, has-compact_from x a ys, has-compact_from x y ys)

pub sorted-IsIncreasing : (xs : List ℕ) → IsIncreasing (compact (sort_times xs))
unfolding compact
sorted-IsIncreasing xs = go (sort_times xs) (sort_times-IsOrdered xs)
  where
    go : (ys : List ℕ) → IsOrdered leb ys → IsIncreasing (compact ys)
    go [] s = tt
    go (y ∷ ys) s = compact_from-IsIncreasing y ys s

pub has-sorted : (x : ℕ) (xs : List ℕ) → has x (compact (sort_times xs)) ≡ has x xs
unfolding compact sort_times
has-sorted x xs = go (sort_times xs) ∙ any-stable_sort (λ b. b == x) leb xs
  where
    go : (ys : List ℕ) → has x (compact ys) ≡ has x ys
    go [] = refl
    go (y ∷ ys) = has-compact_from x y ys

-- No two neighbours of `bs` have `x` strictly between them.
abbrev pub Splits : ℕ → List ℕ → Type 0
Splits x [] = Unit
Splits x (a ∷ []) = Unit
Splits x (a ∷ b ∷ bs) = ((x ≤ a) ⊎ (b ≤ x)) × Splits x (b ∷ bs)

Splits-of-le : (x a : ℕ) (bs : List ℕ) → x ≤ a → IsIncreasing (a ∷ bs) → Splits x (a ∷ bs)
Splits-of-le x a [] h s = tt
Splits-of-le x a (b ∷ bs) h s = (inl h, Splits-of-le x b bs (omega arith) s.1)

first-le : (x b : ℕ) (bs : List ℕ) → IsIncreasing (b ∷ bs) → has x (b ∷ bs) ≡ true → b ≤ x
first-le x b [] s h = ground arith
first-le x b (c ∷ bs) s h = ground (arith, first-le x c bs s.1)

-- A member of an increasing list splits it nowhere.
pub Splits-of-has : (x : ℕ) (bs : List ℕ) → IsIncreasing bs → has x bs ≡ true → Splits x bs
Splits-of-has x [] s h = tt
Splits-of-has x (a ∷ []) s h = tt
Splits-of-has x (a ∷ b ∷ bs) s h = elim (Bool-cases (a == x)) [
  | inl here ↦ Splits-of-le x a (b ∷ bs) (ground arith) s
  | inr there ↦
      let later : has x (b ∷ bs) ≡ true = ground arith in
      (inr (first-le x b bs s.1 later), Splits-of-has x (b ∷ bs) s.1 later)
]
