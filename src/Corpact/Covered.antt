-- ===== src/Corpact/Covered.antt =====
-- The stated splits that recorded answers cover: `coverage`, `coveredSplits` and `restatedOnly` of
-- server/internal/corpact/split.go, with `Find` of server/internal/identity/tickers/tickers.go. The
-- generated queries are a parameter; a query that fails returns none.
pub mod Groups
use Prim.Native.String.{String}
use text.Mathlib.Text.{◌==◌ as str_eq}
use stonks.Base.{
  ℕ, Bool, true, false, not, ◌&&◌, Option, none, some, List, [], ◌∷◌, ◌++◌, map, flat_map, any,
  filter_b, ◌==◌, ◌>>=◌, if◌then◌else◌,
}
use stonks.Types.Time.{Time}
use stonks.Types.Period.{Period, contains}
use stonks.Types.Ratio.{Decimals, Ratio, ratio_equal}
use stonks.Types.AssetClass.{AssetClass, restated}
use stonks.Types.MarketTicker.{MarketTicker, ByTicker, lookup, update}
use stonks.TickerValidity.Segments.{Interval}
use stonks.Corpact.{Act}
use stonks.Corpact.Stored.{Answer, ReadQueries, read, markets, market_is, or_else}
use stonks.Corpact.Calendar.Build.{held_parts}
use stonks.Corpact.Splits.{SplitGroup}

-- A served fetch key, by its datasource and its run, with the ticker of its answer.
pub record RecordedKey : Type 0 where
  pub source : String
  pub run : ℕ
  pub ticker : MarketTicker

pub record Cover : Type 0 where
  pub instr : ℕ
  pub period : Period
  pub run : ℕ

-- A row of ListStatedSplits.
pub record StatedSplit (D : Type 0) : Type 0 where
  pub key : ℕ
  pub effective_date : Time
  pub ratio_from : Option D
  pub ratio_to : Option D
  pub instr : ℕ

pub record SplitQueries (D : Type 0) : Type 0 where
  pub list_stated_splits : List ℕ → List ℕ → Option ℕ → Option (List (StatedSplit D))
  pub list_instrs_by_id : List ℕ → Option (List (ℕ × AssetClass))
  pub list_tickers : List MarketTicker → Option (List (MarketTicker × ℕ))

-- The first of each identifier.
unfoldable pub distinct_from : List ℕ → List ℕ → List ℕ
distinct_from seen [] = []
distinct_from seen (i ∷ is) =
    let skipped = distinct_from seen is in
    let rest = distinct_from (i ∷ seen) is in if any (λ j. j == i) seen then skipped else i ∷ rest

abbrev pub intervals_of : ByTicker (List Interval) → MarketTicker → List Interval
intervals_of validity t = or_else [] (lookup t validity)

-- What one recorded key covers through one answer.
unfoldable pub key_covers :
    {D : Type 0} → List (ℕ × String) → RecordedKey → Answer D → List Interval → List Cover
unfolding market_is held_parts
key_covers ms rec a [] = []
key_covers ms rec a (iv ∷ ivs) =
    let rest = key_covers ms rec a ivs in
    if not (market_is ms iv.instr rec.ticker.market)
    then rest
    else map (λ p. record { instr = iv.instr; period = p; run = rec.run })
        (held_parts iv a.coverage)
      ++ rest

unfoldable pub covers_of :
    {D : Type 0}
    → List (ℕ × String)
    → ByTicker (Answer D)
    → ByTicker (List Interval)
    → RecordedKey
    → List Cover
unfolding key_covers
covers_of ms answers validity rec = elim (lookup rec.ticker answers) [
  | none ↦ []
  | some a ↦
      let held = key_covers ms rec a (intervals_of validity rec.ticker) in
      if not (str_eq a.datasource rec.source) then [] else held
]

unfoldable pub coverage :
    {D : Type 0}
    → ReadQueries D
    → Period
    → List RecordedKey
    → ByTicker (List Interval)
    → Option (List Cover)
unfolding markets read covers_of distinct_from
coverage q always recorded validity = do
  ms ← markets q (
      distinct_from []
        (map (λ iv. iv.instr) (flat_map (λ r. intervals_of validity r.ticker) recorded)))
  answers ← read q (map (λ r. r.ticker) recorded) always
  some (flat_map (covers_of ms answers validity) recorded)

-- tickers.Find
unfoldable pub find : {D : Type 0} → SplitQueries D → List MarketTicker → Option (ByTicker ℕ)
unfolding update
find q [] = some []
find q (t ∷ ts) = do rows ← q.list_tickers (t ∷ ts); some (by_row rows [])
  where
    by_row : List (MarketTicker × ℕ) → ByTicker ℕ → ByTicker ℕ
    by_row [] out = out
    by_row ((s, id) ∷ rows) out = by_row rows (update id (λ i. id) s out)

unfoldable pub ratio_of : {D : Type 0} → StatedSplit D → Option (Ratio D)
ratio_of row = elim row.ratio_from [
  | none ↦ none
  | some f ↦ elim row.ratio_to [ none ↦ none | some t ↦ some (record { from = f; to = t }) ]
]

unfoldable pub add_ratio :
    {D : Type 0} → Decimals D → Option (Ratio D) → SplitGroup D → SplitGroup D
unfolding ratio_equal
add_ratio dec none g = g
add_ratio dec (some r) g = record g {
  ratios = if any (ratio_equal dec r) g.ratios then g.ratios else g.ratios ++ r ∷ [];
}

-- The cover of a stated split: the first that holds its date for its instrument.
unfoldable pub cover_of : {D : Type 0} → List Cover → StatedSplit D → Option Cover
unfolding contains
cover_of [] row = none
cover_of (c ∷ cs) row =
    if c.instr == row.instr && contains c.period row.effective_date then some c else cover_of cs row

-- The group of the split's key and day, made at the end where it is missing.
unfoldable pub group_row :
    {D : Type 0} → Decimals D → Cover → StatedSplit D → List (SplitGroup D) → List (SplitGroup D)
unfolding add_ratio ratio_of
group_row dec c row [] =
    add_ratio dec (ratio_of row) (record {
      key = row.key;
      day = row.effective_date;
      instr = row.instr;
      ratios = [];
      run = c.run;
    })
    ∷ []
group_row dec c row (g ∷ gs) =
    let rest = group_row dec c row gs in
    if g.key == row.key && g.day == row.effective_date
    then add_ratio dec (ratio_of row) g ∷ gs
    else g ∷ rest

unfoldable pub group_rows :
    {D : Type 0}
    → Decimals D
    → List Cover
    → List (StatedSplit D)
    → List (SplitGroup D)
    → List (SplitGroup D)
unfolding cover_of group_row
group_rows dec covers [] groups = groups
group_rows dec covers (row ∷ rows) groups = elim (cover_of covers row) [
  | none ↦ group_rows dec covers rows groups
  | some c ↦ group_rows dec covers rows (group_row dec c row groups)
]

-- restated[id]: a later row takes the place of an earlier one, and a missing one is false.
unfoldable pub restated_in : List (ℕ × AssetClass) → ℕ → Option Bool
unfolding restated
restated_in [] i = none
restated_in ((j, c) ∷ rows) i = elim (restated_in rows i) [
  | some b ↦ some b
  | none ↦ if j == i then some (restated c) else none
]

unfoldable pub restated_only :
    {D : Type 0} → SplitQueries D → List (SplitGroup D) → Option (List (SplitGroup D))
unfolding restated_in
restated_only q [] = some []
restated_only q (g ∷ gs) = do
  rows ← q.list_instrs_by_id (map (λ h. h.instr) (g ∷ gs))
  some (filter_b (λ h. or_else false (restated_in rows h.instr)) (g ∷ gs))

unfoldable pub covered_splits :
    {D : Type 0}
    → Decimals D
    → SplitQueries D
    → Option ℕ
    → List MarketTicker
    → List Cover
    → Option (List (SplitGroup D))
unfolding find distinct_from group_rows restated_only
covered_splits dec q user ts [] = some []
covered_splits dec q user ts (c ∷ cs) = do
  found ← find q ts
  rows ←
      q.list_stated_splits (distinct_from [] (map (λ d. d.instr) (c ∷ cs))) (map (λ e. e.1) found)
        user
  restated_only q (group_rows dec (c ∷ cs) rows [])
