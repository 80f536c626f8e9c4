-- ===== src/TickerValidity/Segments/Order.antt =====
-- The order of the intervals of a segment, between its cuts.
use mathlib.Core.List.{append-nil}
use stonks.Base.{
  Bool, false, Option, none, some, List, [], ◌∷◌, ◌++◌, arith, All, All-mono, All-append, ◌<◌, ◌≤◌,
}
use stonks.Types.Time.{Time}
use stonks.Types.Period.{Period}
use stonks.TickerValidity.Facts.{Id128}
use stonks.TickerValidity.Segments.{
  Interval, Span, ceiling, intervals_of, own_intervals, floor_after, segment_from,
}
use stonks.TickerValidity.Segments.Reach.{UpTo, FromOn, forward_bounds, back_bounds}

-- A lower bound is no later than another, an open one standing before every day.
abbrev pub LowLe : Option Time → Option Time → Type 0
LowLe none b = Unit
LowLe (some a) none = ⊥
LowLe (some a) (some b) = a ≤ b

-- An upper bound is no later than another, an open one standing after every day.
abbrev pub UpLe : Option Time → Option Time → Type 0
UpLe a none = Unit
UpLe none (some b) = ⊥
UpLe (some a) (some b) = a ≤ b

-- The range from a lower bound to an upper bound holds a day.
abbrev pub HasDay : Option Time → Option Time → Type 0
HasDay none b = Unit
HasDay (some a) none = Unit
HasDay (some a) (some b) = a < b

-- An upper bound is no later than a lower one.
abbrev pub EndsBy : Option Time → Option Time → Type 0
EndsBy none b = ⊥
EndsBy (some a) none = ⊥
EndsBy (some a) (some b) = a ≤ b

-- Nonempty intervals, each after the one before it.
abbrev pub InOrder : List Interval → Type 0
InOrder [] = Unit
InOrder (iv ∷ ivs) =
    HasDay iv.from iv.before × All (λ jv. EndsBy iv.before jv.from) ivs × InOrder ivs

-- Between a lower and an upper bound.
abbrev pub IsWithin : Option Time → Option Time → Interval → Type 0
IsWithin lo hi iv = LowLe lo iv.from × UpLe iv.before hi

-- Spans in order from `lo` up to `hi`.
abbrev pub SpansWithin : Option Time → List Span → Option Time → Type 0
SpansWithin lo [] hi = Unit
SpansWithin lo (r ∷ rs) hi =
    FromOn lo r.from
    × (r.from < r.before)
    × UpTo r.before (ceiling rs hi)
    × SpansWithin (some r.before) rs hi

intervals_of-Order :
    (first : Bool) (i : Id128) (r : Span) (floor ceil : Option Time) (cover : List Period)
    → FromOn floor r.from
    → r.from < r.before
    → UpTo r.before ceil
    → InOrder (intervals_of first i r floor ceil cover)
      × All (IsWithin floor ceil) (intervals_of first i r floor ceil cover)
unfolding intervals_of
intervals_of-Order first i r none none cover h k l =
    ground (arith, forward_bounds r.before none cover l, back_bounds r.from none cover h)
intervals_of-Order first i r (some f) none cover h k l =
    ground (arith, forward_bounds r.before none cover l, back_bounds r.from (some f) cover h)
intervals_of-Order first i r none (some c) cover h k l =
    ground (arith, forward_bounds r.before (some c) cover l, back_bounds r.from none cover h)
intervals_of-Order first i r (some f) (some c) cover h k l =
    ground (arith, forward_bounds r.before (some c) cover l, back_bounds r.from (some f) cover h)

pub EndsBy-within :
    (m : Time) (lo hi : Option Time) (x y : Interval)
    → IsWithin lo (some m) x
    → IsWithin (some m) hi y
    → EndsBy x.before y.from
EndsBy-within m lo hi x y h k = go x.before y.from h.1 k.0
  where
    go : (a b : Option Time) → UpLe a (some m) → LowLe (some m) b → EndsBy a b
    go none b h k = h
    go (some a) none h k = k
    go (some a) (some b) h k = omega arith

-- Intervals up to `m`, then intervals from `m` on.
pub InOrder-append :
    (m : Time) (lo hi : Option Time) (xs ys : List Interval)
    → InOrder xs
    → All (IsWithin lo (some m)) xs
    → InOrder ys
    → All (IsWithin (some m) hi) ys
    → InOrder (xs ++ ys)
InOrder-append m lo hi [] ys s h t k = t
InOrder-append m lo hi (x ∷ xs) ys s h t k = (
  s.0,
  All-append _ xs ys s.1 (All-mono (λ y g. EndsBy-within m lo hi x y h.0 g) ys k),
  InOrder-append m lo hi xs ys s.2 h.1 t k,
)

pub IsWithin-widen :
    (lo lo' hi hi' : Option Time) (x : Interval)
    → LowLe lo' lo
    → UpLe hi hi'
    → IsWithin lo hi x
    → IsWithin lo' hi' x
IsWithin-widen lo lo' hi hi' x h k w = (low lo' lo x.from h w.0, up x.before hi hi' w.1 k)
  where
    low : (a b c : Option Time) → LowLe a b → LowLe b c → LowLe a c
    low none b c h k = tt
    low (some a) none c h k = absurd h
    low (some a) (some b) none h k = absurd k
    low (some a) (some b) (some c) h k = omega arith

    up : (a b c : Option Time) → UpLe a b → UpLe b c → UpLe a c
    up a b none h k = tt
    up none none (some c) h k = absurd k
    up none (some b) (some c) h k = absurd h
    up (some a) none (some c) h k = absurd k
    up (some a) (some b) (some c) h k = omega arith

pub LowLe-refl : (a : Option Time) → LowLe a a
LowLe-refl none = tt
LowLe-refl (some a) = omega arith

pub UpLe-refl : (a : Option Time) → UpLe a a
UpLe-refl none = tt
UpLe-refl (some a) = omega arith

pub LowLe-of_FromOn : (a : Option Time) (d e : Time) → FromOn a d → d ≤ e → LowLe a (some e)
LowLe-of_FromOn none d e h k = tt
LowLe-of_FromOn (some a) d e h k = omega arith

-- The first span starts by the end of the segment.
first-up_to :
    (lo : Option Time) (s : Span) (ss : List Span) (hi : Option Time)
    → SpansWithin lo (s ∷ ss) hi
    → UpLe (some s.from) hi
first-up_to lo s [] none h = tt
first-up_to lo s [] (some hi) h = omega (arith, h.1, h.2)
first-up_to lo s (s' ∷ ss) none h = tt
first-up_to lo s (s' ∷ ss) (some hi) h =
    omega (arith, h.1, h.2, first-up_to (some s.before) s' ss (some hi) h.3)

-- The spans that follow lie after the new floor.
pub floor_after-SpansWithin :
    (o : Option Id128) (floor : Option Time) (r : Span) (ss : List Span) (hi : Option Time)
    → SpansWithin floor (r ∷ ss) hi
    → SpansWithin (floor_after o r (ceiling ss hi)) ss hi
unfolding floor_after
floor_after-SpansWithin none floor r ss hi h = h.3
floor_after-SpansWithin (some i) floor r [] hi h = tt
floor_after-SpansWithin (some i) floor r (s ∷ ss) hi h = (omega arith, h.3.1, h.3.2, h.3.3)

-- The intervals of the last span.
own_intervals-Order :
    (o : Option Id128) (first : Bool) (floor : Option Time) (r : Span) (hi : Option Time)
    (cover : List Period)
    → SpansWithin floor (r ∷ []) hi
    → InOrder (own_intervals o first r floor hi cover ++ [])
      × All (IsWithin floor hi) (own_intervals o first r floor hi cover ++ [])
unfolding own_intervals
own_intervals-Order none first floor r hi cover h = (tt, tt)
own_intervals-Order (some i) first floor r hi cover h =
    rw (append-nil (intervals_of first i r floor hi cover))
      (intervals_of-Order first i r floor hi cover h.0 h.1 h.2)

-- The intervals of a span, and those of the spans after it.
own_intervals-Order_append :
    (o : Option Id128) (first : Bool) (floor : Option Time) (r s : Span) (ss : List Span)
    (hi : Option Time) (cover : List Period) (rest : List Interval)
    → SpansWithin floor (r ∷ s ∷ ss) hi
    → InOrder rest
    → All (IsWithin (floor_after o r (some s.from)) hi) rest
    → InOrder (own_intervals o first r floor (some s.from) cover ++ rest)
      × All (IsWithin floor hi) (own_intervals o first r floor (some s.from) cover ++ rest)
unfolding own_intervals floor_after
own_intervals-Order_append none first floor r s ss hi cover rest h t k = (
  t,
  All-mono
      (λ x g.
        IsWithin-widen (some r.before) floor hi hi x
          (LowLe-of_FromOn floor r.from r.before h.0 (omega (arith, h.1))) (UpLe-refl hi) g)
      rest k,
)
own_intervals-Order_append (some i) first floor r s ss hi cover rest h t k =
    let own = intervals_of-Order first i r floor (some s.from) cover h.0 h.1 h.2 in
    (
      InOrder-append s.from floor hi (intervals_of first i r floor (some s.from) cover) rest own.0
          own.1 t k,
      All-append _ (intervals_of first i r floor (some s.from) cover) rest
          (All-mono
            (λ x g.
              IsWithin-widen floor floor (some s.from) hi x (LowLe-refl floor)
                (first-up_to (some r.before) s ss hi h.3) g)
            _ own.1)
          (All-mono
            (λ x g.
              IsWithin-widen (some s.from) floor hi hi x
                (LowLe-of_FromOn floor r.from s.from h.0 (omega (arith, h.1, h.2))) (UpLe-refl hi)
                g)
            rest k),
    )

pub segment_from-Order :
    (first : Bool) (floor : Option Time) (ss : List Span) (hi : Option Time) (cover : List Period)
    → SpansWithin floor ss hi
    → InOrder (segment_from first floor ss hi cover).0
      × All (IsWithin floor hi) (segment_from first floor ss hi cover).0
unfolding segment_from
segment_from-Order first floor [] hi cover h = (tt, tt)
segment_from-Order first floor (r ∷ []) hi cover h =
    own_intervals-Order r.instr first floor r hi cover h
segment_from-Order first floor (r ∷ s ∷ ss) hi cover h =
    let rest =
      segment_from-Order false (floor_after r.instr r (some s.from)) (s ∷ ss) hi cover
        (floor_after-SpansWithin r.instr floor r (s ∷ ss) hi h) in
    own_intervals-Order_append r.instr first floor r s ss hi cover _ h rest.0 rest.1
