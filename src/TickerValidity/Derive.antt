-- ===== src/TickerValidity/Derive.antt =====
-- `derive`, `overruled`, `missed` and `cuts` of server/internal/identity/tickervalidity/derive.go:
-- from the facts of one ticker to its intervals, its inferred changes and its diagnosis.
pub mod Split
pub mod Order
pub mod Confirmed
use stonks.Base.{
  ℕ, Bool, true, false, not, ◌&&◌, ◌||◌, Option, none, some, List, [], ◌∷◌, ◌++◌, map, any, ltb,
  leb, ◌==◌, if◌then◌else◌, flat_map, filter_b,
}
use stonks.Base.Order.{sort_times, compact}
use stonks.Types.Time.{Time}
use stonks.Types.Period.{Period, union, contains}
use stonks.TickerValidity.Facts.{
  Id128, Assertion, Edge, Facts, AssertionCoverage, is_attested, same,
}
use stonks.TickerValidity.Current.{current}
use stonks.TickerValidity.Winners.{Winner, Disagreement, BrokenBracket, winners, broken}
use stonks.TickerValidity.Segments.{Interval, Inferred, spans, segment, join}

pub record MissedEvent : Type 0 where
  pub inferred : Inferred
  pub by : AssertionCoverage

pub record Derived : Type 0 where
  pub disagreements : List Disagreement
  pub broken : List BrokenBracket
  pub missed : List MissedEvent
  pub intervals : List Interval
  pub inferred : List Inferred
  pub winners : List Winner

-- The day after the last day of `a` before `c`, and its first day on or after `c`.
unfoldable pub end_before : Assertion → Time → Time
end_before a c = if ltb a.period.before c then a.period.before else c

unfoldable pub start_after : Assertion → Time → Time
start_after a c = if ltb c a.period.from then a.period.from else c

unfoldable pub pick_before : Time → Option Assertion → Assertion → Option Assertion
unfolding end_before
pick_before c none x = if ltb x.period.from c then some x else none
pick_before c (some b) x =
    if ltb x.period.from c && not (ltb (end_before x c) (end_before b c)) then some x else some b

unfoldable pub pick_after : Time → Option Assertion → Assertion → Option Assertion
unfolding start_after
pick_after c none x = if ltb c x.period.before then some x else none
pick_after c (some a) x =
    if ltb c x.period.before && ltb (start_after x c) (start_after a c) then some x else some a

-- The loop of `overruled`: the nearest attestations before and after the cut so far.
unfoldable pub nearest :
    Time
    → Option Assertion
    → Option Assertion
    → List Assertion
    → Option Assertion × Option Assertion
unfolding pick_before pick_after
nearest c before after [] = (before, after)
nearest c before after (x ∷ xs) =
    nearest c (if is_attested x.source then pick_before c before x else before)
      (if is_attested x.source then pick_after c after x else after) xs

unfoldable pub bracketed : Option Assertion → Option Assertion → Bool
unfolding same
bracketed none after = false
bracketed (some b) none = false
bracketed (some b) (some a) = named b.instr && same b.instr a.instr
  where
    named : Option Id128 → Bool
    named none = false
    named (some i) = true

unfoldable pub overruled : Edge → List Assertion → Bool
unfolding nearest bracketed
overruled e assertions =
    let (before, after) = nearest e.at none none assertions in bracketed before after

unfoldable pub cutting : List Edge → List Assertion → List Edge
unfolding overruled
cutting es assertions = filter_b (λ e. not (overruled e assertions)) es

unfoldable pub cuts : List Edge → List Time
unfolding sort_times compact
cuts es = compact (sort_times (map (λ e. e.at) es))

-- The winners that start before `end`, and the rest.
unfoldable pub split_at : Time → List Winner → List Winner × List Winner
split_at end [] = ([], [])
split_at end (w ∷ ws) =
    let (seg, rest) = split_at end ws in if ltb w.from end then (w ∷ seg, rest) else ([], w ∷ ws)

unfoldable pub both :
    List Interval × List Inferred → List Interval × List Inferred → List Interval × List Inferred
both (ivs, changes) (ivs', changes') = (ivs ++ ivs', changes ++ changes')

-- The loop over the cuts: one segment up to each, and a last one that is open.
unfoldable pub segments_from :
    Option Time → List Time → List Winner → List Period → List Interval × List Inferred
segments_from start [] ws cover = segment (spans ws) start none cover
segments_from start (end ∷ bounds) ws cover =
    let (seg, rest) = split_at end ws in
    both (segment (spans seg) start (some end) cover) (segments_from (some end) bounds rest cover)

covers : Period → Period → Bool
covers p q = not (ltb q.from p.from) && not (ltb p.before q.before)

first_containing : Time → List AssertionCoverage → Option AssertionCoverage
unfolding contains
first_containing d [] = none
first_containing d (r ∷ rs) = if contains r.period d then some r else first_containing d rs

missed_by : Inferred → Bool → Option AssertionCoverage → List MissedEvent
missed_by i held none = []
missed_by i false (some r) = []
missed_by i true (some r) = record { inferred = i; by = r } ∷ []

unfoldable pub missed : List Inferred → List AssertionCoverage → List Period → List MissedEvent
unfolding covers first_containing missed_by
missed changes rows cover =
    flat_map
      (λ i. missed_by i (any (λ p. covers p i.period) cover) (first_containing i.period.from rows))
      changes

abbrev pub periods : List AssertionCoverage → List Period
periods = map (λ r. r.period)

unfoldable pub derive : Facts → Derived
derive f =
    let (assertions, es) = current f.assertions in
    let (ws, disagreements) = winners assertions es in
    let cover = union (periods f.coverage) in
    let cutting_edges = cutting es assertions in
    let (ivs, changes) = segments_from none (cuts cutting_edges) ws cover in
    record {
      disagreements = disagreements;
      broken = broken ws cutting_edges;
      missed = missed changes f.coverage cover;
      intervals = join ivs;
      inferred = changes;
      winners = ws;
    }
