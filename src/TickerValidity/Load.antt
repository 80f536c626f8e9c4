-- ===== src/TickerValidity/Load.antt =====
-- Stored ticker validity: `Load` and `LoadNaming` of
-- server/internal/identity/tickervalidity/store.go. The generated queries are a parameter; a query
-- that fails returns none.
use stonks.Base.{Option, some, List, [], ◌∷◌, ◌++◌, map, ◌>>=◌}
use stonks.Types.MarketTicker.{MarketTicker, ByTicker, update, distinct}
use stonks.TickerValidity.Facts.{Id128}
use stonks.TickerValidity.Segments.{Interval}

pub record ValidityQueries : Type 0 where
  -- The rows of each ticker, in order of its days.
  pub list_ticker_validity : List MarketTicker → Option (List (MarketTicker × Interval))
  pub list_tickers_naming : List Id128 → Option (List MarketTicker)

-- out[t] = append(out[t], iv)
unfoldable pub append_rows :
    List (MarketTicker × Interval) → ByTicker (List Interval) → ByTicker (List Interval)
unfolding update
append_rows [] out = out
append_rows ((t, iv) ∷ rows) out = append_rows rows (update [] (λ ivs. ivs ++ iv ∷ []) t out)

unfoldable pub load : ValidityQueries → List MarketTicker → Option (ByTicker (List Interval))
unfolding append_rows distinct
load q ts = elim (distinct ts) [
  | [] ↦ some []
  | t ∷ rest ↦ do
    rows ← q.list_ticker_validity (t ∷ rest)
    some (append_rows rows (map (λ s. (s, [])) (t ∷ rest)))
]

unfoldable pub load_naming : ValidityQueries → List Id128 → Option (ByTicker (List Interval))
unfolding load
load_naming q [] = some []
load_naming q (i ∷ is) = do ts ← q.list_tickers_naming (i ∷ is); load q ts
