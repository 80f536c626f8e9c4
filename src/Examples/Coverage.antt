-- ===== src/Examples/Coverage.antt =====
-- The theorems of the coverage of a ticker at an example: two keys trade on days 5, 12, 35 and 45,
-- the ticker is confirmed from day 10 to day 30, and day 35 is settled.
use stonks.Base.{ℕ, ◌+◌, ◌≡◌, Bool, true, ◌==◌, List, [], ◌∷◌, map, All, arith}
use stonks.Types.Period.{Period, any_contains}
use stonks.Types.MarketTicker.{MarketTicker, ByTicker}
use stonks.TickerValidity.Segments.{Interval}
use stonks.TickerValidity.Segments.Order.{InOrder}
use stonks.Identity.Coverage.{TxnDay, gaps, holdings}
use stonks.Identity.Coverage.Sums.{is_uncovered, periods, txns_on, total_txns, total_txns-gaps}
use stonks.Identity.Coverage.Counts.{IsCounted, gaps-IsCounted}
use stonks.Identity.Coverage.Positions.{trade_all, held_to, holdings-positions}
use stonks.Identity.Coverage.Alerts.{held_gaps}
use stonks.Identity.Coverage.Alerts.Days.{held_gaps-days}
use stonks.Examples.{on, days, known}

abbrev traded : ℕ → ℕ → ℕ → TxnDay ℕ
traded k n q = record { key = k; as_at = on n; txns = 2; quantity = q }

abbrev bought : TxnDay ℕ
bought = traded 1 5 10

abbrev later : List (TxnDay ℕ)
later = traded 2 12 3 ∷ traded 1 35 4 ∷ traded 2 45 1 ∷ []

abbrev settled_days : List Period
settled_days = days 35 36 ∷ []

abbrev is_nothing : ℕ → Bool
is_nothing n = n == 0

abbrev acme : MarketTicker
acme = record { market = "US"; value = "ACME" }

abbrev bare : MarketTicker
bare = record { market = "US"; value = "NONE" }

abbrev intervals : ByTicker (List Interval)
intervals = (acme, known) ∷ []

abbrev stated_days : ByTicker (List (TxnDay ℕ))
stated_days = (acme, bought ∷ later) ∷ (bare, later) ∷ []

known-InOrder : InOrder known
known-InOrder = ground arith

total_txns-gaps_example :
    total_txns (gaps known settled_days (bought ∷ later) (on 50))
    ≡ txns_on (is_uncovered known settled_days bought (on 50)) (bought ∷ later)
total_txns-gaps_example = total_txns-gaps known settled_days bought later (on 50) known-InOrder

gaps-IsCounted_example :
    All (IsCounted (bought ∷ later)) (gaps known settled_days (bought ∷ later) (on 50))
gaps-IsCounted_example = gaps-IsCounted known settled_days (bought ∷ later) (on 50) (ground arith)

holdings-positions_example :
    holdings 0 ◌+◌ is_nothing (bought ∷ later) (on 50)
    ≡ map (held_to is_nothing (on 50)) (trade_all 0 ◌+◌ (bought ∷ later) [])
holdings-positions_example = holdings-positions 0 ◌+◌ is_nothing (bought ∷ later) (on 50)

held_gaps-days_example :
    let alerted =
      any_contains
        (periods (held_gaps 0 ◌+◌ is_nothing (on 50) known settled_days (bought ∷ later)))
        (on 8) in
    (alerted ≡ true → is_uncovered known settled_days bought (on 50) (on 8) ≡ true)
    × (is_uncovered known settled_days bought (on 50) (on 8) ≡ true
        → any_contains (holdings 0 ◌+◌ is_nothing (bought ∷ later) (on 50)) (on 8) ≡ true
        → alerted ≡ true)
held_gaps-days_example =
    held_gaps-days 0 ◌+◌ is_nothing (on 50) known settled_days bought later (on 8) known-InOrder
