-- ===== src/Identity/Coverage/Alerts/Days.antt =====
-- The days of the gaps that are alerts.
use stonks.Base.{Bool, true, List, [], ◌∷◌, ◌≡◌, sym, ◌∙◌, arith, filter_b}
use stonks.Types.Time.{Time}
use stonks.Types.Period.{Period, contains, any_contains}
use stonks.Types.Period.Clip.{clip-empty}
use stonks.TickerValidity.Segments.{Interval}
use stonks.TickerValidity.Segments.Order.{InOrder}
use stonks.Identity.Coverage.{TxnDay, Gap, gaps, holdings}
use stonks.Identity.Coverage.Sums.{is_uncovered, periods, any_contains-gaps_uncovered}
use stonks.Identity.Coverage.Alerts.{is_held, held_gaps}

-- A period with a day of the gap meets it.
is_held-of_day :
    (held : List Period) (g : Gap) (t : Time)
    → any_contains held t ≡ true
    → contains g.period t ≡ true
    → is_held held g ≡ true
unfolding is_held any_contains
is_held-of_day [] g t h k = absurd (ground (arith, h))
is_held-of_day (p ∷ held) g t h k = ground (arith, clip-empty p g.period t, is_held-of_day held g t)

filtered :
    (f : Gap → Bool) (gs : List Gap) (t : Time)
    → any_contains (periods (filter_b f gs)) t ≡ true
    → any_contains (periods gs) t ≡ true
unfolding any_contains
filtered f [] t h = h
filtered f (g ∷ gs) t h = ground (arith, h, filtered f gs t)

kept :
    (held : List Period) (gs : List Gap) (t : Time)
    → any_contains held t ≡ true
    → any_contains (periods gs) t ≡ true
    → any_contains (periods (filter_b (is_held held) gs)) t ≡ true
unfolding any_contains
kept held [] t h k = k
kept held (g ∷ gs) t h k = ground (arith, h, k, is_held-of_day held g t h, kept held gs t h)

module _ {D : Type 0} (nothing : D) (plus : D → D → D) (is_zero : D → Bool) (today : Time) where
  -- Where the intervals are in order: a day of a gap that is an alert is neither settled nor
  -- confirmed, and lies between the first transaction and today; and each such day on which a key
  -- that states the ticker holds a position lies in a gap that is an alert.
  pub held_gaps-days :
      (ivs : List Interval) (settled : List Period) (d : TxnDay D) (ds : List (TxnDay D)) (t : Time)
      → InOrder ivs
      → let alerted =
          any_contains (periods (held_gaps nothing plus is_zero today ivs settled (d ∷ ds))) t in
        (alerted ≡ true → is_uncovered ivs settled d today t ≡ true)
        × (is_uncovered ivs settled d today t ≡ true
            → any_contains (holdings nothing plus is_zero (d ∷ ds) today) t ≡ true
            → alerted ≡ true)
  unfolding held_gaps
  held_gaps-days ivs settled d ds t s =
      let days = any_contains-gaps_uncovered ivs settled d ds today t s in
      (
        λ h. sym days ∙ filtered _ (gaps ivs settled (d ∷ ds) today) t h,
        λ h k. kept _ (gaps ivs settled (d ∷ ds) today) t k (days ∙ h),
      )
