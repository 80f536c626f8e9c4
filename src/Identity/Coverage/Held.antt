-- ===== src/Identity/Coverage/Held.antt =====
-- The holdings hold the days of the transactions.
use stonks.Base.{◌≤◌, Bool, true, List, [], ◌∷◌, map, ◌≡◌, arith, All, All-const}
use stonks.Types.Time.{Time, day_bounds}
use stonks.Types.Period.{contains, any_contains}
use stonks.Identity.Coverage.{TxnDay, holdings}
use stonks.Identity.Coverage.Positions.{
  Position, spans, trade, trade_all, held_to, holdings-positions,
}

module _ {D : Type 0} where
  -- The days of the transactions do not go back, and none is after `today`.
  abbrev pub InDayOrder : Time → List (TxnDay D) → Type 0
  InDayOrder today [] = Unit
  InDayOrder today (d ∷ ds) =
      (d.as_at ≤ today) × All (λ e. d.as_at ≤ e.as_at) ds × InDayOrder today ds

  abbrev Begun : Time → List (Position D) → Type 0
  Begun t = All (λ r. r.span.from ≤ t)

module _ {D : Type 0} (nothing : D) (plus : D → D → D) where
  trade-Begun :
      (d : TxnDay D) (t : Time) (rs : List (Position D))
      → d.as_at ≤ t
      → Begun t rs
      → Begun t (trade nothing plus d rs)
  unfolding trade
  trade-Begun d t [] h b = (h, tt)
  trade-Begun d t (r ∷ rs) h b = ground (arith, trade-Begun d t rs h b.1)

  trade-keeps :
      (d : TxnDay D) (t : Time) (rs : List (Position D))
      → t ≤ d.as_at
      → any_contains (spans rs) t ≡ true
      → any_contains (spans (trade nothing plus d rs)) t ≡ true
  unfolding trade any_contains contains
  trade-keeps d t [] h k = absurd (ground (arith, k))
  trade-keeps d t (r ∷ rs) h k = ground (arith, trade-keeps d t rs h)

  trade-holds :
      (d : TxnDay D) (rs : List (Position D))
      → Begun d.as_at rs
      → any_contains (spans (trade nothing plus d rs)) d.as_at ≡ true
  unfolding trade any_contains contains
  trade-holds d [] b = ground arith
  trade-holds d (r ∷ rs) b = ground (arith, b.0, trade-holds d rs b.1)

  trade_all-keeps :
      (ds : List (TxnDay D)) (t : Time) (rs : List (Position D))
      → All (λ d. t ≤ d.as_at) ds
      → any_contains (spans rs) t ≡ true
      → any_contains (spans (trade_all nothing plus ds rs)) t ≡ true
  unfolding trade_all
  trade_all-keeps [] t rs h k = k
  trade_all-keeps (d ∷ ds) t rs h k =
      trade_all-keeps ds t (trade nothing plus d rs) h.1 (trade-keeps d t rs h.0 k)

  trade_all-holds :
      (today : Time) (ds : List (TxnDay D)) (rs : List (Position D))
      → InDayOrder today ds
      → All (λ d. Begun d.as_at rs) ds
      → All (λ d. any_contains (spans (trade_all nothing plus ds rs)) d.as_at ≡ true) ds
  unfolding trade_all
  trade_all-holds today [] rs s b = tt
  trade_all-holds today (d ∷ ds) rs s b = (
    trade_all-keeps ds d.as_at (trade nothing plus d rs) s.1 (trade-holds d rs b.0),
    trade_all-holds today ds (trade nothing plus d rs) s.2 (begun ds s.1 b.1),
  )
    where
      begun :
          (es : List (TxnDay D))
          → All (λ e. d.as_at ≤ e.as_at) es
          → All (λ e. Begun e.as_at rs) es
          → All (λ e. Begun e.as_at (trade nothing plus d rs)) es
      begun [] h k = tt
      begun (e ∷ es) h k = (trade-Begun d e.as_at rs h.0 k.0, begun es h.1 k.1)

held_to-keeps :
    {D : Type 0} (is_zero : D → Bool) (today t : Time) (rs : List (Position D))
    → t ≤ today
    → any_contains (spans rs) t ≡ true
    → any_contains (map (held_to is_zero today) rs) t ≡ true
unfolding any_contains contains
held_to-keeps is_zero today t [] h k = absurd (ground (arith, k))
held_to-keeps is_zero today t (r ∷ rs) h k =
    ground (arith, day_bounds today, held_to-keeps is_zero today t rs h)

module _ {D : Type 0} (nothing : D) (plus : D → D → D) (is_zero : D → Bool) where
  -- Where the days of the transactions do not go back and none is after today, some holding holds
  -- the day of each transaction.
  pub holdings-hold :
      (ds : List (TxnDay D)) (today : Time)
      → InDayOrder today ds
      → All (λ d. any_contains (holdings nothing plus is_zero ds today) d.as_at ≡ true) ds
  holdings-hold ds today s =
      rw (holdings-positions nothing plus is_zero ds today)
        (held ds s (trade_all-holds nothing plus today ds [] s (All-const (λ d. tt) ds)))
    where
      held :
          (es : List (TxnDay D))
          → InDayOrder today es
          → All (λ d. any_contains (spans (trade_all nothing plus ds [])) d.as_at ≡ true) es
          → All
              (λ d.
                any_contains (map (held_to is_zero today) (trade_all nothing plus ds [])) d.as_at
                ≡ true)
              es
      held [] o h = tt
      held (e ∷ es) o h = (
        held_to-keeps is_zero today e.as_at (trade_all nothing plus ds []) o.0 h.0,
        held es o.2 h.1,
      )
