-- ===== src/Examples/Periods.antt =====
-- The theorems of the periods and of the asset classes at examples.
use stonks.Base.{◌≡◌, ◌↔◌, true, not, ◌&&◌, ◌≤◌, ◌<◌, All, List, [], ◌∷◌}
use stonks.Types.Period.{Period, contains, union, any_contains, gaps}
use stonks.Types.Period.Union.{IsApart, any_contains-union, union-IsApart}
use stonks.Types.Period.Gaps.{any_contains-gaps, gaps-IsApart}
use stonks.Types.AssetClass.{etf, equity, under}
use stonks.Types.AssetClass.Tree.{IsUnder, under_iff}
use stonks.Examples.{on, days}

abbrev held : List Period
held = days 3 5 ∷ days 1 4 ∷ days 8 9 ∷ []

any_contains-union_example : any_contains (union held) (on 4) ≡ any_contains held (on 4)
any_contains-union_example = any_contains-union held (on 4)

union-IsApart_example : IsApart (union held)
union-IsApart_example = union-IsApart held

any_contains-gaps_example :
    any_contains (gaps held (days 0 10)) (on 6)
    ≡ (contains (days 0 10) (on 6) && not (any_contains held (on 6)))
any_contains-gaps_example = any_contains-gaps held (days 0 10) (on 6)

gaps-IsApart_example :
    IsApart (gaps held (days 0 10))
    × All (λ q. (on 0 ≤ q.from) × (q.from < q.before) × (q.before ≤ on 10)) (gaps held (days 0 10))
gaps-IsApart_example = gaps-IsApart held (days 0 10)

under_iff_example : (under etf equity ≡ true) ↔ IsUnder etf equity
under_iff_example = under_iff etf equity
