-- ===== src/Identity/Coverage/Sums.antt =====
-- The days and the transactions of a ticker's gaps.
use stonks.Base.{
  ℕ, ◌+◌, ◌<◌, Bool, true, false, not, ◌&&◌, ◌||◌, List, [], ◌∷◌, ◌++◌, map, ltb, ◌≡◌, refl, sym,
  ap, ◌∙◌, arith, any-append, All, All-mono, Bool-cases, inl, inr, if◌then◌else◌,
}
use stonks.Types.Time.{Time, next, day}
use stonks.Types.Period
use stonks.Types.Period.{Period, contains, any_contains}
use stonks.Types.Period.Union.{IsApart}
use stonks.Types.Period.Gaps.{any_contains-gaps, gaps-IsApart}
use stonks.TickerValidity.Facts.{Id128}
use stonks.TickerValidity.Segments.{Interval}
use stonks.TickerValidity.Segments.Order.{InOrder}
use stonks.TickerValidity.Intervals.{confirmed_on, confirmed_parts}
use stonks.TickerValidity.Intervals.Gaps.{confirmed_parts-days, confirmed_on-any}
use stonks.Identity.Coverage.{TxnDay, Gap, count_days, gap_of, txn_period, gaps}

-- Neither settled nor confirmed, from the first transaction to today.
abbrev pub is_uncovered : {D : Type 0} → List Interval → List Period → TxnDay D → Time → Time → Bool
is_uncovered ivs settled d today t =
    contains (txn_period d today) t && not (any_contains settled t || confirmed_on ivs t)

abbrev pub periods : List Gap → List Period
periods = map (λ g. g.period)

covered_days : (a b p : Bool) → (p && not (a || (b && p))) ≡ (p && not (a || b))
covered_days a b p = ground arith

module _ {D : Type 0} where
  periods-gap_of : (ds : List (TxnDay D)) (ps : List Period) → periods (map (gap_of ds) ps) ≡ ps
  unfolding gap_of
  periods-gap_of ds [] = refl
  periods-gap_of ds (p ∷ ps) = ap (◌∷◌ p) (periods-gap_of ds ps)

  -- What the gaps of the period hold.
  uncovered :
      (ivs : List Interval) (settled : List Period) (d : TxnDay D) (today t : Time)
      → InOrder ivs
      → any_contains
          (Period.gaps (settled ++ confirmed_parts ivs (txn_period d today)) (txn_period d today))
          t
        ≡ is_uncovered ivs settled d today t
  unfolding any_contains
  uncovered ivs settled d today t s =
      let period = txn_period d today in
      any_contains-gaps (settled ++ confirmed_parts ivs period) period t
      ∙ ap (λ x. contains period t && not x)
          (any-append (λ p. contains p t) settled (confirmed_parts ivs period)
            ∙ ap (◌||◌ (any_contains settled t)) (
                confirmed_parts-days ivs period t
                ∙ ap (λ x. x && contains period t) (sym (confirmed_on-any ivs t s))))
      ∙ covered_days (any_contains settled t) (confirmed_on ivs t) (contains period t)

  empty_period :
      (ivs : List Interval) (settled : List Period) (d : TxnDay D) (today t : Time)
      → ltb d.as_at (next (day today)) ≡ false
      → is_uncovered ivs settled d today t ≡ false
  unfolding txn_period contains
  empty_period ivs settled d today t h = ground arith

  -- Where the intervals are in order, the gaps of a ticker hold exactly the days from its first
  -- transaction up to and including today that are neither settled nor confirmed.
  pub any_contains-gaps_uncovered :
      (ivs : List Interval) (settled : List Period) (d : TxnDay D) (ds : List (TxnDay D))
      (today t : Time)
      → InOrder ivs
      → any_contains (periods (gaps ivs settled (d ∷ ds) today)) t
        ≡ is_uncovered ivs settled d today t
  unfolding gaps any_contains
  any_contains-gaps_uncovered ivs settled d ds today t s =
      elim (Bool-cases (ltb d.as_at (next (day today)))) [
        | inl e ↦
            rw (e, gaps)
              (ap (λ ps. any_contains ps t) (periods-gap_of (d ∷ ds) _)
                ∙ uncovered ivs settled d today t s)
        | inr e ↦ rw (e, gaps) (sym (empty_period ivs settled d today t e))
      ]

apart_days :
    (p : Period) (ps : List Period) (t : Time)
    → All (λ q. p.before < q.from) ps
    → contains p t ≡ true
    → any_contains ps t ≡ false
unfolding any_contains contains
apart_days p [] t h k = refl
apart_days p (q ∷ ps) t h k = ground (arith, apart_days p ps t h.1 k)

-- The transactions of the days that pass a test.
unfoldable pub txns_on : {D : Type 0} → (Time → Bool) → List (TxnDay D) → ℕ
txns_on f [] = 0
txns_on f (d ∷ ds) = (if f d.as_at then d.txns else 0) + txns_on f ds

unfoldable pub total_txns : List Gap → ℕ
total_txns [] = 0
total_txns (g ∷ gs) = g.txns + total_txns gs

module _ {D : Type 0} where
  txns_on-ext :
      (f g : Time → Bool) (ds : List (TxnDay D))
      → ((t : Time) → f t ≡ g t)
      → txns_on f ds ≡ txns_on g ds
  unfolding txns_on
  txns_on-ext f g [] h = refl
  txns_on-ext f g (d ∷ ds) h = ground (arith, h d.as_at, txns_on-ext f g ds h)

  txns_on-none :
      (f : Time → Bool) (ds : List (TxnDay D)) → ((t : Time) → f t ≡ false) → txns_on f ds ≡ 0
  unfolding txns_on
  txns_on-none f [] h = refl
  txns_on-none f (d ∷ ds) h = ground (arith, h d.as_at, txns_on-none f ds h)

  txns_on-or :
      (f g : Time → Bool) (ds : List (TxnDay D))
      → ((t : Time) → f t ≡ true → g t ≡ false)
      → txns_on f ds + txns_on g ds ≡ txns_on (λ t. f t || g t) ds
  unfolding txns_on
  txns_on-or f g [] h = refl
  txns_on-or f g (d ∷ ds) h = ground (arith, h d.as_at, txns_on-or f g ds h)

  pub count_days-txns :
      (f : Time → Bool) (ds : List (TxnDay D)) (n : ℕ) (ks : List Id128)
      → (count_days f ds (n, ks)).0 ≡ n + txns_on f ds
  unfolding count_days txns_on
  count_days-txns f [] n ks = omega arith
  count_days-txns f (d ∷ ds) n ks = elim (Bool-cases (f d.as_at)) [
    | inl e ↦ rw (e, count_days, txns_on) (count_days-txns f ds _ _ ∙ omega arith)
    | inr e ↦ rw (e, count_days, txns_on) (count_days-txns f ds n ks ∙ omega arith)
  ]

  -- Periods that lie apart count each transaction once.
  total_txns-apart :
      (ds : List (TxnDay D)) (ps : List Period)
      → IsApart ps
      → total_txns (map (gap_of ds) ps) ≡ txns_on (any_contains ps) ds
  unfolding total_txns gap_of any_contains
  total_txns-apart ds [] s = sym (txns_on-none _ ds (λ t. refl))
  total_txns-apart ds (p ∷ ps) s =
      ap (λ n. n + total_txns (map (gap_of ds) ps)) (count_days-txns (contains p) ds 0 [])
      ∙ ap (λ n. 0 + txns_on (contains p) ds + n) (total_txns-apart ds ps s.1)
      ∙ omega (
        arith,
        txns_on-or (contains p) (any_contains ps) ds
            (λ t. apart_days p ps t (All-mono (λ q h. h.1) ps s.0)),
      )

  -- Where the intervals are in order, the transactions of the gaps add up to those of the days that
  -- are neither settled nor confirmed and not after today: each is counted in exactly one gap.
  pub total_txns-gaps :
      (ivs : List Interval) (settled : List Period) (d : TxnDay D) (ds : List (TxnDay D))
      (today : Time)
      → InOrder ivs
      → total_txns (gaps ivs settled (d ∷ ds) today)
        ≡ txns_on (is_uncovered ivs settled d today) (d ∷ ds)
  unfolding gaps total_txns
  total_txns-gaps ivs settled d ds today s = elim (Bool-cases (ltb d.as_at (next (day today)))) [
    | inl e ↦
        rw (e, gaps)
          (total_txns-apart (d ∷ ds) _
              (gaps-IsApart (settled ++ confirmed_parts ivs (txn_period d today))
                (txn_period d today)).0
            ∙ txns_on-ext _ _ (d ∷ ds) (λ t. uncovered ivs settled d today t s))
    | inr e ↦
        rw (e, gaps) (sym (txns_on-none _ (d ∷ ds) (λ t. empty_period ivs settled d today t e)))
  ]
