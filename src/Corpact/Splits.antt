-- ===== src/Corpact/Splits.antt =====
-- The stated splits that the calendar lacks: `unmatchedSplits` and `days` of
-- server/internal/corpact/split.go. `cal` gives the actions of the calendar of each instrument.
pub mod Unmatched
use stonks.Base.{
  ℕ, ◌-◌, ◌/◌, ◌++◌, Bool, true, false, not, ◌&&◌, ◌||◌, Option, none, some, List, [], ◌∷◌, ltb,
  if◌then◌else◌, filter_b, any,
}
use stonks.Types.Time.{Time, day_length}
use stonks.Types.Ratio.{Decimals, Ratio, ratio_equal}
use stonks.Corpact.{Act, restates, is_undecided}

-- The stated splits of one key on one day.
pub record SplitGroup (D : Type 0) : Type 0 where
  pub key : ℕ
  pub day : Time
  pub instr : ℕ
  pub ratios : List (Ratio D)
  pub run : ℕ

pub record UnmatchedSplit (D : Type 0) : Type 0 where
  pub group : SplitGroup D
  pub ratio : Option (Ratio D)

abbrev pub window : ℕ
window = 7

unfoldable pub days : Time → Time → ℕ
days a b = (if ltb a b then b - a else a - b) / day_length

unfoldable pub near : {D : Type 0} → Time → List (Act D) → List (Act D)
unfolding days restates is_undecided
near day = filter_b (λ e.
    not (ltb window (days e.ex_date day) || (not (is_undecided e.decision) && not (restates e))))

-- The loop over the ratios of a group.
unfoldable pub first_lacking :
    {D : Type 0}
    → Decimals D
    → SplitGroup D
    → List (Act D)
    → List (Ratio D)
    → List (UnmatchedSplit D)
unfolding ratio_equal
first_lacking dec g acts [] = []
first_lacking dec g acts (r ∷ rs) =
    let rest = first_lacking dec g acts rs in
    if not (any (λ e. ratio_equal dec e.ratio r) acts)
    then record { group = g; ratio = some r } ∷ []
    else rest

-- A group by its ratios: one without any lacks an action where none is near.
unfoldable pub unmatched_by :
    {D : Type 0}
    → Decimals D
    → SplitGroup D
    → List (Act D)
    → List (Ratio D)
    → List (UnmatchedSplit D)
unfolding first_lacking
unmatched_by dec g [] [] = record { group = g; ratio = none } ∷ []
unmatched_by dec g (e ∷ es) [] = []
unmatched_by dec g acts (r ∷ rs) = first_lacking dec g acts (r ∷ rs)

unfoldable pub unmatched_splits :
    {D : Type 0} → Decimals D → List (SplitGroup D) → (ℕ → List (Act D)) → List (UnmatchedSplit D)
unfolding unmatched_by near
unmatched_splits dec [] cal = []
unmatched_splits dec (g ∷ gs) cal =
    unmatched_by dec g (near g.day (cal g.instr)) g.ratios ++ unmatched_splits dec gs cal
