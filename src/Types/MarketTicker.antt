-- ===== src/Types/MarketTicker.antt =====
-- server/internal/types/market_ticker.go, and a map from tickers as a list of entries, in order of
-- their first insertion.
use Prim.Native.String.{String}
use text.Mathlib.Text.{◌==◌ as str_eq}
use stonks.Base.{Bool, ◌&&◌, Option, none, some, List, [], ◌∷◌, any, if◌then◌else◌}

pub record MarketTicker : Type 0 where
  pub market : String
  pub value : String

unfoldable pub ticker_eq : MarketTicker → MarketTicker → Bool
ticker_eq s t = str_eq s.market t.market && str_eq s.value t.value

abbrev pub ByTicker {ℓ} : Type ℓ → Type ℓ
ByTicker V = List (MarketTicker × V)

unfoldable pub lookup {ℓ} : {V : Type ℓ} → MarketTicker → ByTicker V → Option V
unfolding ticker_eq
lookup t [] = none
lookup t ((s, v) ∷ entries) = if ticker_eq t s then some v else lookup t entries

-- m[t] = f(m[t]), where `d` stands for the value of a missing key.
unfoldable pub update {ℓ} : {V : Type ℓ} → V → (V → V) → MarketTicker → ByTicker V → ByTicker V
unfolding ticker_eq
update d f t [] = (t, f d) ∷ []
update d f t ((s, v) ∷ entries) =
    let rest = update d f t entries in if ticker_eq t s then (s, f v) ∷ entries else (s, v) ∷ rest

-- The first of each ticker.
unfoldable pub distinct_from : List MarketTicker → List MarketTicker → List MarketTicker
unfolding ticker_eq
distinct_from seen [] = []
distinct_from seen (t ∷ ts) =
    let skipped = distinct_from seen ts in
    let rest = distinct_from (t ∷ seen) ts in if any (ticker_eq t) seen then skipped else t ∷ rest

unfoldable pub distinct : List MarketTicker → List MarketTicker
unfolding distinct_from
distinct = distinct_from []
