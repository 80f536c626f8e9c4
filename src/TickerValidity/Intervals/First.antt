-- ===== src/TickerValidity/Intervals/First.antt =====
-- The first date that is not confirmed.
use stonks.Base.{
  true, false, ◌||◌, Option, none, some, List, [], ◌∷◌, ◌≡◌, refl, arith, Bool-cases, inl, inr, any,
  All, ◌≤◌, ◌⊎◌, ◌==◌,
}
use stonks.Types.Time.{Time}
use stonks.TickerValidity.Segments.{Interval}
use stonks.TickerValidity.Intervals.{confirmed_on, first_from, first_unconfirmed, not_before}

-- What the loop has found among dates: nothing where each is confirmed, and otherwise the earliest
-- of those that are not.
abbrev pub IsFirst : List Interval → List Time → Option Time → Type 0
IsFirst ivs ds none = All (λ e. confirmed_on ivs e ≡ true) ds
IsFirst ivs ds (some d) =
    (confirmed_on ivs d ≡ false)
    × (any (◌==◌ d) ds ≡ true)
    × All (λ e. (confirmed_on ivs e ≡ true) ⊎ (d ≤ e)) ds

abbrev NotAfter : Option Time → Time → Type 0
NotAfter none d = Unit
NotAfter (some f) d = d ≤ f

-- What the loop finds from the earliest date so far.
abbrev IsFirstFrom : List Interval → Option Time → List Time → Option Time → Type 0
IsFirstFrom ivs first ds none = (first ≡ none) × All (λ e. confirmed_on ivs e ≡ true) ds
IsFirstFrom ivs first ds (some d) =
    ((first ≡ some d) ⊎ ((confirmed_on ivs d ≡ false) × (any (◌==◌ d) ds ≡ true)))
    × All (λ e. (confirmed_on ivs e ≡ true) ⊎ (d ≤ e)) ds
    × NotAfter first d

kept_round :
    (ivs : List Interval) (first : Option Time) (d : Time) (ds : List Time) (r : Option Time)
    → (confirmed_on ivs d || not_before d first) ≡ true
    → IsFirstFrom ivs first ds r
    → IsFirstFrom ivs first (d ∷ ds) r
kept_round ivs none d ds none k h = (refl, (ground (arith, k), h.1))
kept_round ivs (some f) d ds none k h = cc
kept_round ivs none d ds (some x) k h = ground (arith, k, h)
kept_round ivs (some f) d ds (some x) k h = ground (arith, k, h)

earlier_round :
    (ivs : List Interval) (first : Option Time) (d : Time) (ds : List Time) (r : Option Time)
    → (confirmed_on ivs d || not_before d first) ≡ false
    → IsFirstFrom ivs (some d) ds r
    → IsFirstFrom ivs first (d ∷ ds) r
earlier_round ivs first d ds none k h = cc
earlier_round ivs none d ds (some x) k h = ground (arith, k, h)
earlier_round ivs (some f) d ds (some x) k h = ground (arith, k, h)

first_from-IsFirstFrom :
    (ivs : List Interval) (first : Option Time) (ds : List Time)
    → IsFirstFrom ivs first ds (first_from ivs first ds)
unfolding first_from
first_from-IsFirstFrom ivs none [] = (refl, tt)
first_from-IsFirstFrom ivs (some f) [] = (inl refl, tt, omega arith)
first_from-IsFirstFrom ivs first (d ∷ ds) =
    elim (Bool-cases (confirmed_on ivs d || not_before d first)) [
      | inl k ↦
          rw (k, first_from) (kept_round ivs first d ds _ k (first_from-IsFirstFrom ivs first ds))
      | inr k ↦
          rw (k, first_from)
            (earlier_round ivs first d ds _ k (first_from-IsFirstFrom ivs (some d) ds))
    ]

-- The first unconfirmed date is nothing where every date is confirmed, and otherwise the earliest of
-- the dates that are not.
pub first_unconfirmed-IsFirst :
    (ivs : List Interval) (dates : List Time) → IsFirst ivs dates (first_unconfirmed ivs dates)
unfolding first_unconfirmed
first_unconfirmed-IsFirst ivs dates =
    found (first_from ivs none dates) (first_from-IsFirstFrom ivs none dates)
  where
    found : (r : Option Time) → IsFirstFrom ivs none dates r → IsFirst ivs dates r
    found none h = h.1
    found (some d) h = ground (arith, h)
