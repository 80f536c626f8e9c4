-- ===== src/TickerValidity/Intervals.antt =====
-- server/internal/identity/tickervalidity/gaps.go, and the two methods of Interval in
-- server/internal/identity/tickervalidity/tickervalidity.go. A value and a flag that says whether it
-- was found are an option.
pub mod Gaps
pub mod First
use stonks.Base.{
  ℕ, Bool, true, false, not, ◌&&◌, ◌||◌, Option, none, some, List, [], ◌∷◌, ltb, if◌then◌else◌,
}
use stonks.Types.Time.{Time}
use stonks.Types.Period
use stonks.Types.Period.{Period}
use stonks.TickerValidity.Segments.{Interval, validity_eq, confirmed}

abbrev pub on_or_after : Option Time → Time → Bool
on_or_after none d = true
on_or_after (some t) d = not (ltb d t)

abbrev pub before_bound : Option Time → Time → Bool
before_bound none d = true
before_bound (some t) d = ltb d t

unfoldable pub contains : Interval → Time → Bool
contains iv d = on_or_after iv.from d && before_bound iv.before d

abbrev pub bound_or : Option Time → Time → Time
bound_or none t = t
bound_or (some b) t = b

unfoldable pub clip : Interval → Period → Period × Bool
unfolding Period.clip
clip iv p =
    Period.clip p (record { from = bound_or iv.from p.from; before = bound_or iv.before p.before })

unfoldable pub on : List Interval → Time → Option Interval
unfolding contains
on [] d = none
on (iv ∷ ivs) d = if contains iv d then some iv else on ivs d

unfoldable pub confirmed_on : List Interval → Time → Bool
unfolding on
confirmed_on ivs d = elim (on ivs d) [ none ↦ false | some iv ↦ validity_eq iv.validity confirmed ]

abbrev pub not_before : Time → Option Time → Bool
not_before d none = false
not_before d (some first) = not (ltb d first)

-- The loop of FirstUnconfirmed, with the earliest date so far.
unfoldable pub first_from : List Interval → Option Time → List Time → Option Time
unfolding confirmed_on
first_from ivs first [] = first
first_from ivs first (d ∷ ds) =
    first_from ivs (if confirmed_on ivs d || not_before d first then first else some d) ds

unfoldable pub first_unconfirmed : List Interval → List Time → Option Time
unfolding first_from
first_unconfirmed ivs dates = first_from ivs none dates

-- The confirmed parts of `p`.
unfoldable pub confirmed_parts : List Interval → Period → List Period
unfolding clip
confirmed_parts [] p = []
confirmed_parts (iv ∷ ivs) p =
    let (c, held) = clip iv p in
    let rest = confirmed_parts ivs p in
    if held && validity_eq iv.validity confirmed then c ∷ rest else rest

unfoldable pub gaps : List Interval → Period → List Period
unfolding confirmed_parts Period.gaps
gaps ivs p = Period.gaps (confirmed_parts ivs p) p
