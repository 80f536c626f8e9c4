-- ===== src/Corpact/Days.antt =====
-- `remove` of server/internal/corpact/read.go: coverage less the days of unknown actions.
pub mod Removed
use stonks.Base.{
  ℕ, Bool, true, false, not, ◌&&◌, ◌||◌, List, [], ◌∷◌, ◌++◌, ◌≡◌, arith, ltb, leb, if◌then◌else◌,
  flat_map,
}
use stonks.Base.Order.{sort_times}
use stonks.Types.Time.{Time, next}
use stonks.Types.Period.{Period, contains}

abbrev pub nonempty : Period → List Period
nonempty p = if ltb p.from p.before then p ∷ [] else []

-- The loop over the days, on what is left of the period.
unfoldable pub remove_from : Period → List Time → List Period
unfolding contains
remove_from p [] = nonempty p
remove_from p (d ∷ ds) =
    let skipped = remove_from p ds in
    let rest = remove_from (record p { from = next d }) ds in
    if not (contains p d) then skipped else nonempty (record p { before = d }) ++ rest

unfoldable pub remove : List Period → List Time → List Period
unfolding remove_from sort_times
remove ps days = flat_map (λ p. remove_from p (sort_times days)) ps
