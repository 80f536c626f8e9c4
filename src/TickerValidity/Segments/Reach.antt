-- ===== src/TickerValidity/Segments/Reach.antt =====
-- How far a confirmed range reaches through covered days.
use stonks.Base.{Option, none, some, List, [], ◌∷◌, arith, ◌≤◌}
use stonks.Types.Time.{Time}
use stonks.Types.Period
use stonks.Types.Period.{Period, any_contains}
use stonks.TickerValidity.Segments.{through, at_most, forward, back_through, at_least, back}

-- No later than the limit, where there is one.
abbrev pub UpTo : Time → Option Time → Type 0
UpTo d none = Unit
UpTo d (some limit) = d ≤ limit

abbrev pub FromOn : Option Time → Time → Type 0
FromOn none d = Unit
FromOn (some limit) d = limit ≤ d

pub le-through : (d : Time) (cover : List Period) → d ≤ through d cover
unfolding through Period.contains
le-through d [] = omega arith
le-through d (p ∷ ps) = ground (arith, le-through d ps, le-through p.before ps)

pub forward_bounds :
    (d : Time) (limit : Option Time) (cover : List Period)
    → UpTo d limit
    → (d ≤ forward d limit cover) × UpTo (forward d limit cover) limit
unfolding forward at_most
forward_bounds d none cover h = (le-through d cover, tt)
forward_bounds d (some limit) cover h = ground (arith, le-through d cover)

pub back_through-le : (d : Time) (cover : List Period) → back_through d cover ≤ d
unfolding back_through Period.contains
back_through-le d [] = omega arith
back_through-le d (p ∷ ps) = ground (arith, back_through-le d ps)

pub back_bounds :
    (d : Time) (limit : Option Time) (cover : List Period)
    → FromOn limit d
    → (back d limit cover ≤ d) × FromOn limit (back d limit cover)
unfolding back at_least
back_bounds d none cover h = (back_through-le d cover, tt)
back_bounds d (some limit) cover h = ground (arith, back_through-le d cover)
