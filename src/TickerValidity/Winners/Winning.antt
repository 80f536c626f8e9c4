-- ===== src/TickerValidity/Winners/Winning.antt =====
-- `winners`: which assertion wins each day.
use stonks.Base.{
  ℕ, suc, ◌-◌, Bool, true, false, ◌&&◌, ◌||◌, some, List, [], ◌∷◌, ◌++◌, map, ◌≡◌, refl, sym, ap,
  ◌∙◌, arith, ◌==◌, All, All-mono, any, any-append, Bool-cases, inl, inr, ◌<◌, ◌≤◌, get_elem?,
  flat_map, filter_b,
}
use stonks.Base.Compact.{IsIncreasing, Splits, Splits-of-has, sorted-IsIncreasing, has, has-sorted}
use stonks.Base.Any.{any-filter_b, any-stable_sort, any-map}
use stonks.Types.Time.{Time}
use stonks.Types.Period.{contains}
use stonks.TickerValidity.Facts.{Assertion, Edge}
use stonks.TickerValidity.Winners.{
  Ranked, sweep, number_from, counted, counts, by_first_day, boundaries, is_cut,
}
use stonks.TickerValidity.Winners.Days.{Chain, any_holds}
use stonks.TickerValidity.Winners.Best.{any_on, IsSound, sweep_from-IsSwept}

-- Each assertion stands at its number.
number_from-get_elem? :
    (i : ℕ) (xs : List Assertion)
    → All (λ r. (i ≤ r.at) × (get_elem? xs (r.at - i) ≡ some r.assertion)) (number_from i xs)
unfolding number_from
number_from-get_elem? i [] = tt
number_from-get_elem? i (x ∷ xs) = (
  (omega arith, let e : i - i ≡ 0 = omega arith in rw e refl),
  All-mono
      (λ r g. (
        omega (arith, g.0),
        let e : r.at - i ≡ suc (r.at - suc i) = omega (arith, g.0) in rw e g.1,
      ))
      _ (number_from-get_elem? (suc i) xs),
)

filter-All :
    (P : Ranked → Type 0) (f : Ranked → Bool) (rs : List Ranked) → All P rs → All P (filter_b f rs)
filter-All P f [] h = tt
filter-All P f (r ∷ rs) h = elim (Bool-cases (f r)) [
  | inl e ↦ rw e (h.0, filter-All P f rs h.1)
  | inr e ↦ rw e (filter-All P f rs h.1)
]

pub counted-numbered :
    (sorted : List Assertion) → All (λ r. get_elem? sorted r.at ≡ some r.assertion) (counted sorted)
unfolding counted
counted-numbered sorted = filter-All _ _ (number_from 0 sorted) (
    All-mono (λ r g. let e : r.at - 0 ≡ r.at = omega arith in rw e at g.1) _
      (number_from-get_elem? 0 sorted))

any-number_from :
    (f : Assertion → Bool) (i : ℕ) (xs : List Assertion)
    → any (λ r. f r.assertion) (number_from i xs) ≡ any f xs
unfolding number_from
any-number_from f i [] = refl
any-number_from f i (x ∷ xs) = ap (◌||◌ (f x)) (any-number_from f (suc i) xs)

-- The assertions of `all` that count.
abbrev pub counts_in : List Assertion → Assertion → Bool
counts_in all a = counts (by_first_day all) a

pub any-counted :
    (f : Assertion → Bool) (all : List Assertion)
    → any (λ r. f r.assertion) (counted (by_first_day all)) ≡ any (λ a. counts_in all a && f a) all
unfolding counted by_first_day
any-counted f all =
    any-filter_b (λ r. f r.assertion) _ (number_from 0 (by_first_day all))
    ∙ any-number_from (λ a. counts_in all a && f a) 0 (by_first_day all)
    ∙ any-stable_sort (λ a. counts_in all a && f a) _ all

abbrev ends : Ranked → List Time
ends r = r.assertion.period.from ∷ r.assertion.period.before ∷ []

has-ends :
    (rs : List Ranked) (rest : List Time)
    → All
        (λ r.
          (has r.assertion.period.from (flat_map ends rs ++ rest) ≡ true)
          × (has r.assertion.period.before (flat_map ends rs ++ rest) ≡ true))
        rs
has-ends [] rest = tt
has-ends (r ∷ rs) rest = (
  (ground arith, ground arith),
  All-mono (λ q g. (ground (arith, g.0), ground (arith, g.1))) rs (has-ends rs rest),
)

abbrev marks : List Ranked → List Edge → List Time
marks rs es = flat_map ends rs ++ map (λ e. e.at) es

marked-Splits :
    (rs : List Ranked) (es : List Edge) (x : Time)
    → has x (marks rs es) ≡ true
    → Splits x (boundaries rs es)
unfolding boundaries
marked-Splits rs es x h =
    Splits-of-has x _ (sorted-IsIncreasing (marks rs es)) (has-sorted x (marks rs es) ∙ h)

pub boundaries-Splits_cut :
    (rs : List Ranked) (es : List Edge) (c : Time)
    → is_cut es c ≡ true
    → Splits c (boundaries rs es)
boundaries-Splits_cut rs es c h = marked-Splits rs es c (
    any-append (λ b. b == c) (flat_map ends rs) (map (λ e. e.at) es)
    ∙ ground (arith, any-map (λ b. b == c) (λ (e : Edge). e.at) es))

pub boundaries-within :
    (rs : List Ranked) (es : List Edge)
    → All
        (λ r.
          (Splits r.assertion.period.from (boundaries rs es)
            × Splits r.assertion.period.before (boundaries rs es))
          × (has r.assertion.period.from (boundaries rs es) ≡ true)
          × (has r.assertion.period.before (boundaries rs es) ≡ true))
        rs
unfolding boundaries
boundaries-within rs es =
    All-mono
      (λ r g. (
        (marked-Splits rs es _ g.0, marked-Splits rs es _ g.1),
        has-sorted _ (marks rs es) ∙ g.0,
        has-sorted _ (marks rs es) ∙ g.1,
      ))
      rs (has-ends rs (map (λ e. e.at) es))

pub boundaries-IsIncreasing : (rs : List Ranked) (es : List Edge) → IsIncreasing (boundaries rs es)
unfolding boundaries
boundaries-IsIncreasing rs es = sorted-IsIncreasing (marks rs es)

-- No assertion holds a day after its last one.
any_holds-past :
    (rs : List Ranked) (last t : Time)
    → All (λ r. r.assertion.period.before ≤ last) rs
    → last ≤ t
    → any_holds rs t ≡ false
unfolding contains
any_holds-past [] last t h k = refl
any_holds-past (r ∷ rs) last t h k = ground (arith, any_holds-past rs last t h.1 k)

-- Nor before its first one.
any_holds-early :
    (rs : List Ranked) (first t : Time)
    → All (λ r. first ≤ r.assertion.period.from) rs
    → t < first
    → any_holds rs t ≡ false
unfolding contains
any_holds-early [] first t h k = refl
any_holds-early (r ∷ rs) first t h k = ground (arith, any_holds-early rs first t h.1 k)

le_of_has : (x last : Time) (bs : List Time) → All (λ b. b ≤ last) bs → has x bs ≡ true → x ≤ last
le_of_has x last [] h e = cc
le_of_has x last (b ∷ bs) h e = ground (arith, le_of_has x last bs h.1)

ge_of_has : (x a : Time) (bs : List Time) → IsIncreasing (a ∷ bs) → has x (a ∷ bs) ≡ true → a ≤ x
ge_of_has x a [] s h = ground arith
ge_of_has x a (b ∷ bs) s h = ground (arith, ge_of_has x b bs s.1)

-- What the whole loop establishes.
module _ (cut : ℕ → Bool) (sorted : List Assertion) (rs : List Ranked) (t c : Time)
    (numbered : All (λ r. get_elem? sorted r.at ≡ some r.assertion) rs) where
  pub sweep-lem :
      (bounds : List Time)
      → IsIncreasing bounds
      → All
          (λ r.
            (Splits r.assertion.period.from bounds × Splits r.assertion.period.before bounds)
            × (has r.assertion.period.from bounds ≡ true)
            × (has r.assertion.period.before bounds ≡ true))
          rs
      → (cut c ≡ true → Splits c bounds)
      → (last : Time) × Chain last (sweep cut rs bounds).out
        × All (IsSound cut sorted rs t c) (sweep cut rs bounds).out
        × (any_on (sweep cut rs bounds).out t ≡ any_holds rs t)
  unfolding sweep
  sweep-lem [] inc within k =
      (0, tt, tt, sym (any_holds-past rs 0 t (All-mono (λ r g. cc) rs within) (omega arith)))
  sweep-lem (from ∷ bounds) inc within k =
      let early =
        any_holds-early rs from t (All-mono (λ r g. ge_of_has _ from bounds inc g.1) rs within) in
      let (last, swept, below) =
        sweep_from-IsSwept cut sorted rs t c numbered from bounds _ inc
          (All-mono (λ r g. g.0) rs within) k (tt, tt, ground (arith, early)) in
      let past =
        any_holds-past rs last t
          (All-mono (λ r g. le_of_has _ last (from ∷ bounds) below g.2) rs within) in
      (last, swept.0, swept.1, swept.2 ∙ ground (arith, past))
