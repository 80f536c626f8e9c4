-- ===== src/TickerValidity/Segments.antt =====
-- The intervals between two cuts: `spans`, `segment`, `forward`, `back` and `join` of
-- server/internal/identity/tickervalidity/derive.go. A missing bound is open.
pub mod Reach
pub mod Order
pub mod Join
use stonks.Base.{
  ℕ, Bool, true, false, not, ◌&&◌, ◌||◌, Option, none, some, List, [], ◌∷◌, ◌++◌, ltb, leb, ◌==◌,
  if◌then◌else◌, reverse,
}
use stonks.Types.Time.{Time, next, prev}
use stonks.Types.Period
use stonks.Types.Period.{Period}
use stonks.TickerValidity.Facts.{Id128, Assertion, same}
use stonks.TickerValidity.Winners.{Winner}

pub data Validity : Type 0 where
  confirmed provisional : Validity

pub record Interval : Type 0 where
  pub from : Option Time
  pub before : Option Time
  pub instr : Id128
  pub validity : Validity

-- A change that two winning assertions imply.
pub record Inferred : Type 0 where
  pub period : Period
  pub old : Option Id128
  pub new : Option Id128
  pub earlier : Assertion
  pub later : Assertion

-- Consecutive winners that name one thing.
pub record Span : Type 0 where
  pub instr : Option Id128
  pub from : Time
  pub before : Time
  pub head : Assertion
  pub tail : Assertion

abbrev pub span_of : Winner → Span
span_of w = record {
  instr = w.instr;
  from = w.from;
  before = w.before;
  head = w.assertion;
  tail = w.assertion;
}

-- The loop of `spans`: `last` is the last span of `out`.
unfoldable pub spans_from : Span → List Winner → List Span
spans_from last [] = last ∷ []
spans_from last (w ∷ ws) = elim (same last.instr w.instr) [
  | true ↦ spans_from (record last { before = w.before; tail = w.assertion }) ws
  | false ↦ last ∷ spans_from (span_of w) ws
]

unfoldable pub spans : List Winner → List Span
unfolding spans_from
spans [] = []
spans (w ∷ ws) = spans_from (span_of w) ws

-- The loop of `forward` through the covered periods, in order.
unfoldable pub through : Time → List Period → Time
unfolding Period.contains
through d [] = d
through d (p ∷ ps) = through (if Period.contains p d then p.before else d) ps

unfoldable pub at_most : Time → Option Time → Time
at_most d none = d
at_most d (some limit) = if ltb limit d then limit else d

unfoldable pub forward : Time → Option Time → List Period → Time
forward d limit cover = at_most (through d cover) limit

-- The loop of `back` through the covered periods, the last first.
unfoldable pub back_through : Time → List Period → Time
unfolding Period.contains
back_through d [] = d
back_through d (p ∷ ps) =
    let e = back_through d ps in if Period.contains p (prev e) then p.from else e

unfoldable pub at_least : Time → Option Time → Time
at_least d none = d
at_least d (some limit) = if ltb d limit then limit else d

unfoldable pub back : Time → Option Time → List Period → Time
back d limit cover = at_least (back_through d cover) limit

-- The limit of a span: the next span, or the end of the segment.
abbrev pub ceiling : List Span → Option Time → Option Time
ceiling [] end = end
ceiling (s ∷ ss) end = some s.from

abbrev before_limit : Option Time → Time → Bool
before_limit none d = true
before_limit (some limit) d = ltb limit d

abbrev after_limit : Time → Option Time → Bool
after_limit d none = true
after_limit d (some limit) = ltb d limit

-- The intervals of one span that names `i`. `first` says whether it is the first of its segment.
unfoldable pub intervals_of :
    Bool → Id128 → Span → Option Time → Option Time → List Period → List Interval
intervals_of first i r floor ceil cover =
    let from = back r.from floor cover in
    let to = forward r.before ceil cover in
    (if first && before_limit floor from
      then record { from = floor; before = some from; instr = i; validity = provisional } ∷ []
      else [])
    ++ record { from = some from; before = some to; instr = i; validity = confirmed }
      ∷ (if after_limit to ceil
          then record { from = some to; before = ceil; instr = i; validity = provisional } ∷ []
          else [])

unfoldable pub took : Option Id128 → Span → Span → List Period → Time
took none r s cover = r.before
took (some i) r s cover = forward r.before (some s.from) cover

-- The change between a span and the one after it.
unfoldable pub inferred_of : Span → List Span → List Period → List Inferred
unfolding took
inferred_of r [] cover = []
inferred_of r (s ∷ ss) cover =
    record {
      period = record { from = took r.instr r s cover; before = next s.from };
      old = r.instr;
      new = s.instr;
      earlier = r.tail;
      later = s.head;
    }
    ∷ []

-- An instrument keeps the days up to the next span, and a retirement the days after it.
unfoldable pub floor_after : Option Id128 → Span → Option Time → Option Time
floor_after none r ceil = some r.before
floor_after (some i) r ceil = ceil

unfoldable pub own_intervals :
    Option Id128 → Bool → Span → Option Time → Option Time → List Period → List Interval
own_intervals none first r floor ceil cover = []
own_intervals (some i) first r floor ceil cover = intervals_of first i r floor ceil cover

-- The loop of `segment`. `floor` is how far back the next span may extend.
unfoldable pub segment_from :
    Bool → Option Time → List Span → Option Time → List Period → List Interval × List Inferred
unfolding floor_after own_intervals
segment_from first floor [] end cover = ([], [])
segment_from first floor (r ∷ ss) end cover =
    let ceil = ceiling ss end in
    let (ivs, changes) = segment_from false (floor_after r.instr r ceil) ss end cover in
    (own_intervals r.instr first r floor ceil cover ++ ivs, inferred_of r ss cover ++ changes)

unfoldable pub segment :
    List Span → Option Time → Option Time → List Period → List Interval × List Inferred
unfolding segment_from
segment ss start end cover = segment_from true start ss end cover

unfoldable pub validity_eq : Validity → Validity → Bool
validity_eq confirmed confirmed = true
validity_eq confirmed provisional = false
validity_eq provisional confirmed = false
validity_eq provisional provisional = true

abbrev pub meet : Option Time → Option Time → Bool
meet none b = false
meet (some a) none = false
meet (some a) (some b) = a == b

unfoldable pub joins : Interval → Interval → Bool
unfolding validity_eq
joins a b = a.instr == b.instr && (validity_eq a.validity b.validity && meet a.before b.from)

-- The loop of `join`: `last` is the last interval of `out`.
unfoldable pub join_from : Interval → List Interval → List Interval
unfolding joins
join_from last [] = last ∷ []
join_from last (iv ∷ ivs) = elim (joins last iv) [
  | true ↦ join_from (record last { before = iv.before }) ivs
  | false ↦ last ∷ join_from iv ivs
]

unfoldable pub join : List Interval → List Interval
unfolding join_from
join [] = []
join (iv ∷ ivs) = join_from iv ivs
