-- ===== src/Corpact.antt =====
-- One corporate action and the decision on it: `Act` of server/internal/corpact/read.go, Restates,
-- Fits and Unknown of decision.go, and `same` of calendar.go.
pub mod Decided
pub mod Days
pub mod Calendar
pub mod Splits
pub mod Stored
pub mod Covered
use Prim.Native.String.{String}
use stonks.Base.{
  ℕ, Bool, true, false, not, ◌&&◌, ◌||◌, Option, none, some, List, [], ◌∷◌, ◌==◌, if◌then◌else◌,
}
use stonks.Types.Time.{Time}
use stonks.Types.Ratio.{Decimals, Ratio, ratio_equal}

-- The type that an administrator decided, `undecided` being Go's "".
pub data Decision : Type 0 where
  undecided split reverse_split stock_dividend spin_off_price_factor rights_issue other : Decision

pub record Act (D : Type 0) : Type 0 where
  pub id : ℕ
  pub ex_date : Time
  pub ratio : Ratio D
  pub word : String
  pub handled : Bool
  pub decision : Decision

unfoldable pub is_undecided : Decision → Bool
is_undecided undecided = true
is_undecided _ = false

unfoldable pub restates : {D : Type 0} → Act D → Bool
restates e = elim e.decision [
  | split ↦ true
  | reverse_split ↦ true
  | stock_dividend ↦ true
  | undecided ↦ e.handled
  | _ ↦ false
]

-- Whether a decision agrees with the direction of a ratio.
unfoldable pub fits : {D : Type 0} → Decimals D → Decision → Ratio D → Bool
fits dec split r = dec.greater r.to r.from
fits dec stock_dividend r = dec.greater r.to r.from
fits dec reverse_split r = dec.less r.to r.from
fits dec _ r = true

unfoldable pub is_other : Decision → Bool
is_other other = true
is_other _ = false

unfoldable pub unknown : {D : Type 0} → Act D → Bool
unfolding is_undecided is_other
unknown e = (is_undecided e.decision && not e.handled) || is_other e.decision

abbrev pub agree : Bool → Bool → Bool
agree true b = b
agree false b = not b

unfoldable pub same : {D : Type 0} → Decimals D → Act D → Act D → Bool
unfolding ratio_equal restates unknown
same dec e o =
    e.ex_date == o.ex_date
    && (ratio_equal dec e.ratio o.ratio
        && (agree (restates e) (restates o) && agree (unknown e) (unknown o)))
