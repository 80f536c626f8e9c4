-- ===== src/Corpact/Calendar/Build.antt =====
-- `Calendars` of server/internal/corpact/calendar.go: the calendars of instruments from the stored
-- answers and the ticker validity. A map is a list of entries in the order of their insertion.
pub mod Coverage
use Prim.Native.String.{String}
use stonks.Base.{
  ℕ, Bool, true, false, not, ◌&&◌, Option, none, some, List, [], ◌∷◌, ◌++◌, map, any, filter_b, leb,
  ltb, ◌==◌, ◌>>=◌, if◌then◌else◌,
}
use stonks.Base.Order.{stable_sort}
use stonks.Types.Time.{Time}
use stonks.Types.Period.{Period, union}
use stonks.Types.Ratio.{Decimals}
use stonks.Types.MarketTicker.{MarketTicker, ByTicker, lookup}
use stonks.TickerValidity.Segments.{Interval}
use stonks.TickerValidity.Intervals
use stonks.TickerValidity.Load.{ValidityQueries, load_naming}
use stonks.Corpact.{Act, unknown, same}
use stonks.Corpact.Days.{remove}
use stonks.Corpact.Stored.{
  Answer, ReadQueries, read, markets, market_is, unknown_days, is_empty, or_else,
}
use stonks.Corpact.Calendar.{Calendar}

-- An entry of `built`, with the entry of `unknown`.
pub record Built (D : Type 0) : Type 0 where
  pub instr : ℕ
  pub calendar : Calendar D
  pub unknown : List Time

-- The parts of the coverage that the interval holds.
unfoldable pub held_parts : Interval → List Period → List Period
unfolding Intervals.clip
held_parts iv [] = []
held_parts iv (c ∷ cs) =
    let (p, held) = Intervals.clip iv c in
    let rest = held_parts iv cs in if held then p ∷ rest else rest

-- The loop over the actions that the interval holds: an action that is there already is skipped.
unfoldable pub add_acts : {D : Type 0} → Decimals D → List (Act D) → List (Act D) → List (Act D)
unfolding same
add_acts dec acts [] = acts
add_acts dec acts (e ∷ es) =
    add_acts dec (if any (same dec e) acts then acts else acts ++ e ∷ []) es

-- What one interval of a ticker adds to the calendar of its instrument.
unfoldable pub add_interval : {D : Type 0} → Decimals D → Answer D → Interval → Built D → Built D
unfolding held_parts add_acts unknown_days Intervals.contains
add_interval dec a iv b =
    let acts = filter_b (λ e. Intervals.contains iv e.ex_date) a.acts in
    record b {
      calendar = record b.calendar {
        coverage = b.calendar.coverage ++ held_parts iv a.coverage;
        acts = add_acts dec b.calendar.acts acts;
      };
      unknown = b.unknown ++ unknown_days acts;
    }

abbrev pub new_calendar : {D : Type 0} → MarketTicker → Answer D → ℕ → Built D
new_calendar t a i = record {
  instr = i;
  calendar = record { market = t.market; datasource = a.datasource; acts = []; coverage = [] };
  unknown = [];
}

-- built[iv.Instr], made where it is missing.
unfoldable pub build_at :
    {D : Type 0} → Decimals D → MarketTicker → Answer D → Interval → List (Built D) → List (Built D)
unfolding add_interval
build_at dec t a iv [] = add_interval dec a iv (new_calendar t a iv.instr) ∷ []
build_at dec t a iv (b ∷ bs) =
    let rest = build_at dec t a iv bs in
    if b.instr == iv.instr then add_interval dec a iv b ∷ bs else b ∷ rest

-- The loop over the intervals of one ticker.
unfoldable pub build_ticker :
    {D : Type 0}
    → Decimals D
    → List (ℕ × String)
    → MarketTicker
    → Answer D
    → List Interval
    → List (Built D)
    → List (Built D)
unfolding market_is build_at
build_ticker dec ms t a [] built = built
build_ticker dec ms t a (iv ∷ ivs) built =
    build_ticker dec ms t a ivs
      (if market_is ms iv.instr t.market then build_at dec t a iv built else built)

-- The loop over the answers.
unfoldable pub build :
    {D : Type 0}
    → Decimals D
    → List (ℕ × String)
    → ByTicker (List Interval)
    → ByTicker (Answer D)
    → List (Built D)
    → List (Built D)
unfolding build_ticker lookup
build dec ms validity [] built = built
build dec ms validity ((t, a) ∷ answers) built =
    build dec ms validity answers (build_ticker dec ms t a (or_else [] (lookup t validity)) built)

abbrev finished : {D : Type 0} → Built D → Calendar D
finished b = record b.calendar {
  coverage = union (remove b.calendar.coverage b.unknown);
  acts = stable_sort (λ e o. leb e.ex_date o.ex_date) b.calendar.acts;
}

-- The last loop: a calendar that covers no day and has no action is left out.
unfoldable pub finish : {D : Type 0} → List (Built D) → List (ℕ × Calendar D)
unfolding remove union stable_sort
finish [] = []
finish (b ∷ bs) =
    let c = finished b in
    let rest = finish bs in
    if is_empty c.coverage && is_empty c.acts then rest else (b.instr, c) ∷ rest

-- The tickers of which an interval names an instrument of the ticker's market.
unfoldable pub asked : List (ℕ × String) → ByTicker (List Interval) → List MarketTicker
unfolding market_is
asked ms validity =
    map (λ e. e.0) (filter_b (λ e. any (λ iv. market_is ms iv.instr e.0.market) e.1) validity)

unfoldable pub calendars :
    {D : Type 0}
    → Decimals D
    → ReadQueries D
    → ValidityQueries
    → Period
    → List ℕ
    → Option (List (ℕ × Calendar D))
unfolding markets load_naming asked read build finish
calendars dec q vq always instrs = do
  ms ← markets q instrs
  elim ms [
    | [] ↦ some []
    | m ∷ rest ↦ do
      validity ← load_naming vq (map (λ e. e.0) (m ∷ rest))
      answers ← read q (asked (m ∷ rest) validity) always
      some (finish (build dec (m ∷ rest) validity answers []))
  ]
