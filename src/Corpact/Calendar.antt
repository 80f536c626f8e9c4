-- ===== src/Corpact/Calendar.antt =====
-- The calendar of an instrument and the factor that it gives: server/internal/corpact/calendar.go.
-- A big.Rat is a numerator over a denominator that are not reduced.
pub mod Factor
pub mod Build
use Prim.Native.String.{String}
use stonks.Base.{ℕ, ◌*◌, Bool, true, false, not, ◌&&◌, List, [], ◌∷◌, ltb, if◌then◌else◌}
use stonks.Types.Time.{Time, next, day}
use stonks.Types.Period
use stonks.Types.Period.{Period, contains}
use stonks.Types.Ratio.{Decimals}
use stonks.Corpact.{Act, restates}

pub record Calendar (D : Type 0) : Type 0 where
  pub market : String
  pub datasource : String
  pub acts : List (Act D)
  pub coverage : List Period

abbrev pub Rat : Type 0
Rat = ℕ × ℕ

abbrev pub times : Rat → Rat → Rat
times (a, b) (c, d) = (a * c, b * d)

abbrev pub quo : Rat → Rat → Rat
quo (a, b) (c, d) = (a * d, b * c)

-- The days whose actions a quantity as at `as_at` does not yet follow.
unfoldable pub need : Time → Time → Period
unfolding day
need as_at today = record { from = next (day as_at); before = next (day today) }

unfoldable pub factor_from : {D : Type 0} → Decimals D → Period → Rat → List (Act D) → Rat
unfolding restates contains
factor_from dec p f [] = f
factor_from dec p f (e ∷ es) =
    factor_from dec p
      (if restates e && contains p e.ex_date
        then times f (quo (dec.rat e.ratio.to) (dec.rat e.ratio.from))
        else f)
      es

abbrev pub is_nil {ℓ} : {A : Type ℓ} → List A → Bool
is_nil [] = true
is_nil (x ∷ xs) = false

unfoldable pub gaps : {D : Type 0} → Calendar D → Period → List Period
unfolding Period.gaps
gaps c p = Period.gaps c.coverage p

unfoldable pub factor : {D : Type 0} → Decimals D → Calendar D → Time → Time → Rat × Bool
unfolding need factor_from Period.gaps
factor dec c as_at today =
    let p = need as_at today in
    if not (ltb p.from p.before)
    then ((1, 1), true)
    else (factor_from dec p (1, 1) c.acts, is_nil (Period.gaps c.coverage p))
