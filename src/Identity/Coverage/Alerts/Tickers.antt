-- ===== src/Identity/Coverage/Alerts/Tickers.antt =====
-- Which alert a ticker may have.
use stonks.Base.{
  Bool, none, List, [], ◌∷◌, map, ◌≡◌, ◌≢◌, ◌≤◌, refl, arith, All, All-append, inl, inr, ◌⊎◌,
  if◌then◌else◌,
}
use stonks.Types.Time.{Time}
use stonks.Types.Period.{Period}
use stonks.Types.MarketTicker.{MarketTicker, ByTicker}
use stonks.TickerValidity.Segments.{Interval}
use stonks.Identity.Coverage.{TxnDay, Gap}
use stonks.Identity.Coverage.Alerts.{
  NamesNothing, TickerGap, gap_instr, listed, names_nothing, alerts,
}

abbrev pub Unnames : ByTicker (List Interval) → NamesNothing → Type 0
Unnames ivs n = (listed n.ticker ivs ≡ []) × (1 ≤ n.txns)

-- The gap is of a ticker with an interval, and its instrument is that of the nearest interval.
abbrev pub Gapped : ByTicker (List Interval) → TickerGap → Type 0
Gapped ivs g = (listed g.ticker ivs ≢ []) × (g.instr ≡ gap_instr (listed g.ticker ivs) g.gap.period)

List-cases : {A : Type 0} (xs : List A) → (xs ≡ []) ⊎ ((y : A) × (ys : List A) × (xs ≡ y ∷ ys))
List-cases [] = inl refl
List-cases (x ∷ xs) = inr (x, xs, refl)

nearest_each :
    (ivs : ByTicker (List Interval)) (v : MarketTicker) (iv : Interval) (rest : List Interval)
    (gs : List Gap)
    → listed v ivs ≡ iv ∷ rest
    → All (Gapped ivs) (
        map
          (λ g. record { ticker = v; instr = gap_instr (iv ∷ rest) g.period; name = none; gap = g })
          gs)
nearest_each ivs v iv rest [] e = tt
nearest_each ivs v iv rest (g ∷ gs) e =
    (((λ k. absurd (cc (e, k))), rw e refl), nearest_each ivs v iv rest gs e)

unnamed_first :
    {D : Type 0} (ivs : ByTicker (List Interval)) (v : MarketTicker) (ds : List (TxnDay D))
    (settled : List Period) (ns : List NamesNothing)
    → listed v ivs ≡ []
    → All (Unnames ivs) ns
    → All
        (Unnames ivs)
        (let (n, reported) = names_nothing v ds settled in if reported then n ∷ ns else ns)
unfolding names_nothing
unnamed_first ivs v ds settled ns e h = ground (arith, e, h)

module _ {D : Type 0} (nothing : D) (plus : D → D → D) (is_zero : D → Bool) (today : Time) where
  -- A ticker is reported as naming nothing only where it has no interval and a transaction, and with
  -- a gap only where it has an interval; the gap has the instrument of the interval nearest to it.
  pub alerts-split :
      (ivs : ByTicker (List Interval)) (settled : ByTicker (List Period))
      (days : ByTicker (List (TxnDay D)))
      → let (unnamed, gapped) = alerts nothing plus is_zero today ivs settled days in
        All (Unnames ivs) unnamed × All (Gapped ivs) gapped
  unfolding alerts
  alerts-split ivs settled [] = (tt, tt)
  alerts-split ivs settled ((v, ds) ∷ days) =
      let rest = alerts-split ivs settled days in
      elim (List-cases (listed v ivs)) [
        | inl e ↦ rw (e, alerts) (unnamed_first ivs v ds (listed v settled) _ e rest.0, rest.1)
        | inr (iv, others, e) ↦
            rw (e, alerts)
              (rest.0, All-append (Gapped ivs) _ _ (nearest_each ivs v iv others _ e) rest.1)
      ]
