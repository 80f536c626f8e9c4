-- ===== src/Identity/Coverage/Alerts.antt =====
-- The alerts of the stated tickers: `Unconfirmed`, `attestedNothing`, `namesNothing`, `gapInstr` and
-- `nameGaps` of server/internal/identity/coverage/coverage.go. The generated queries are a
-- parameter; a query that fails returns none. The zero value of a name is none.
pub mod Nothing
pub mod Days
pub mod Tickers
use stonks.Base.{
  ℕ, ◌+◌, Bool, true, false, ◌||◌, Option, none, some, List, [], ◌∷◌, ◌++◌, map, length, any,
  filter_b, ltb, ◌==◌, ◌>>=◌, if◌then◌else◌,
}
use stonks.Types.Time.{Time}
use stonks.Types.Period
use stonks.Types.Period.{Period, contains}
use stonks.Types.Identifier.{Identifier}
use stonks.Types.MarketTicker.{MarketTicker, ByTicker, lookup, update}
use stonks.TickerValidity.Facts.{Id128}
use stonks.TickerValidity.Segments.{Interval}
use stonks.TickerValidity.Intervals.{on}
use stonks.TickerValidity.Load.{ValidityQueries, load}
use stonks.Identity.Coverage.{TxnDay, Gap, put_key, gaps, holdings}

pub record NamesNothing : Type 0 where
  pub ticker : MarketTicker
  pub keys : ℕ
  pub txns : ℕ
  pub first : Time

pub record TickerGap : Type 0 where
  pub ticker : MarketTicker
  pub instr : Option Id128
  pub name : Option Identifier
  pub gap : Gap

-- The counts of the loop of namesNothing: its keys are the map of the keys to true.
pub record Unnamed : Type 0 where
  pub txns : ℕ
  pub keys : List Id128
  pub first : Time

unfoldable pub is_settled : List Period → Time → Bool
is_settled settled t = any (λ p. contains p t) settled

module _ {D : Type 0} where
  unfoldable pub unnamed_days : List Period → List (TxnDay D) → Unnamed → Unnamed
  unfolding is_settled put_key
  unnamed_days settled [] s = s
  unnamed_days settled (d ∷ ds) s = unnamed_days settled ds (
      if is_settled settled d.as_at then s else record {
        txns = s.txns + d.txns;
        keys = put_key d.key s.keys;
        first = if s.txns == 0 then d.as_at else s.first;
      })

  unfoldable pub names_nothing : MarketTicker → List (TxnDay D) → List Period → NamesNothing × Bool
  unfolding unnamed_days
  names_nothing v ds settled =
      let s = unnamed_days settled ds (record { txns = 0; keys = []; first = 0 }) in
      (record { ticker = v; keys = length s.keys; txns = s.txns; first = s.first }, ltb 0 s.txns)

abbrev is_at : Option Time → Time → Bool
is_at none t = false
is_at (some b) t = b == t

unfoldable pub ending_at : Time → List Interval → Option Id128
ending_at t [] = none
ending_at t (iv ∷ ivs) = if is_at iv.before t then some iv.instr else ending_at t ivs

unfoldable pub starting_at : Time → List Interval → Option Id128
starting_at t [] = none
starting_at t (iv ∷ ivs) = if is_at iv.from t then some iv.instr else starting_at t ivs

unfoldable pub gap_instr : List Interval → Period → Option Id128
unfolding on ending_at starting_at
gap_instr ivs g = elim (on ivs g.from) [
  | some iv ↦ some iv.instr
  | none ↦ elim (ending_at g.from ivs) [ some i ↦ some i | none ↦ starting_at g.before ivs ]
]

-- days[v] = append(days[v], d), and the tickers in order of their first row.
unfoldable pub by_ticker {ℓ} :
    {A : Type ℓ} → List (MarketTicker × A) → ByTicker (List A) → ByTicker (List A)
unfolding update
by_ticker [] out = out
by_ticker ((v, a) ∷ rows) out = by_ticker rows (update [] (λ held. held ++ a ∷ []) v out)

-- The value of a key, and the empty list for a missing one.
unfoldable pub listed {ℓ} : {A : Type ℓ} → MarketTicker → ByTicker (List A) → List A
unfolding lookup
listed v m = elim (lookup v m) [ none ↦ [] | some values ↦ values ]

-- A key that states the ticker holds a position across some of the gap's days.
unfoldable pub is_held : List Period → Gap → Bool
unfolding Period.clip
is_held held g = any (λ p. (Period.clip p g.period).1) held

module _ {D : Type 0} (nothing : D) (plus : D → D → D) (is_zero : D → Bool) (today : Time) where
  unfoldable pub held_gaps : List Interval → List Period → List (TxnDay D) → List Gap
  unfolding is_held holdings gaps
  held_gaps ivs settled ds =
      filter_b (is_held (holdings nothing plus is_zero ds today)) (gaps ivs settled ds today)

  -- The loop over the tickers.
  unfoldable pub alerts :
      ByTicker (List Interval)
      → ByTicker (List Period)
      → ByTicker (List (TxnDay D))
      → List NamesNothing × List TickerGap
  unfolding listed held_gaps names_nothing gap_instr
  alerts ivs settled [] = ([], [])
  alerts ivs settled ((v, ds) ∷ days) =
      let (unnamed, gapped) = alerts ivs settled days in
      elim (listed v ivs) [
        | [] ↦
            let (n, reported) = names_nothing v ds (listed v settled) in
            (if reported then n ∷ unnamed else unnamed, gapped)
        | iv ∷ rest ↦ (
          unnamed,
          map
                (λ g. record {
                  ticker = v;
                  instr = gap_instr (iv ∷ rest) g.period;
                  name = none;
                  gap = g;
                })
                (held_gaps (iv ∷ rest) (listed v settled) ds)
              ++ gapped,
        )
      ]

pub record AlertQueries (D : Type 0) : Type 0 where
  pub list_stated_ticker_txns : Option (List (MarketTicker × TxnDay D))
  pub list_attested_nothing : Option (List (MarketTicker × Period))
  pub validity : ValidityQueries
  pub list_instr_names : List Id128 → Option (List (Id128 × Identifier))

-- The instruments of the gaps, the first of each.
unfoldable pub gap_instrs : List Id128 → List TickerGap → List Id128
gap_instrs seen [] = []
gap_instrs seen (g ∷ gs) = elim g.instr [
  | none ↦ gap_instrs seen gs
  | some i ↦
      let skipped = gap_instrs seen gs in
      let rest = gap_instrs (i ∷ seen) gs in if any (λ j. j == i) seen then skipped else i ∷ rest
]

-- The last row of the instrument.
unfoldable pub name_of : Id128 → List (Id128 × Identifier) → Option Identifier
name_of i [] = none
name_of i ((j, n) ∷ rows) = elim (name_of i rows) [
  | some later ↦ some later
  | none ↦ if j == i then some n else none
]

unfoldable pub names :
    {D : Type 0} → AlertQueries D → List Id128 → Option (List (Id128 × Identifier))
names q [] = some []
names q (i ∷ is) = q.list_instr_names (i ∷ is)

unfoldable pub set_name : List (Id128 × Identifier) → TickerGap → TickerGap
unfolding name_of
set_name rows g = record {
  ticker = g.ticker;
  instr = g.instr;
  name = elim g.instr [ none ↦ g.name | some i ↦ name_of i rows ];
  gap = g.gap;
}

unfoldable pub name_gaps : {D : Type 0} → AlertQueries D → List TickerGap → Option (List TickerGap)
unfolding gap_instrs names set_name
name_gaps q gapped = do rows ← names q (gap_instrs [] gapped); some (map (set_name rows) gapped)

module _ {D : Type 0} (nothing : D) (plus : D → D → D) (is_zero : D → Bool) where
  unfoldable pub unconfirmed : AlertQueries D → Time → Option (List NamesNothing × List TickerGap)
  unfolding by_ticker load alerts name_gaps
  unconfirmed q today = do
    rows ← q.list_stated_ticker_txns
    elim (by_ticker rows []) [
      | [] ↦ some ([], [])
      | entry ∷ rest ↦ do
        attested ← q.list_attested_nothing
        ivs ← load q.validity (map (λ e. e.0) (entry ∷ rest))
        let found = alerts nothing plus is_zero today ivs (by_ticker attested []) (entry ∷ rest)
        gapped ← name_gaps q found.1
        some (found.0, gapped)
    ]
