-- ===== src/TickerValidity/Derive/Split.antt =====
-- The winners and the spans of one segment, between its cuts.
use stonks.Base.{
  Option, none, some, List, [], ◌∷◌, ◌≡◌, refl, arith, ltb, All, All-mono, Bool-cases, inl, inr,
  ◌⊎◌, ◌<◌, ◌≤◌,
}
use stonks.Types.Time.{Time}
use stonks.TickerValidity.Facts.{same}
use stonks.TickerValidity.Winners.{Winner}
use stonks.TickerValidity.Winners.Wins.{InOrder}
use stonks.TickerValidity.Segments.{Span, ceiling, spans_from, spans, span_of}
use stonks.TickerValidity.Segments.Reach.{UpTo, FromOn}
use stonks.TickerValidity.Segments.Order.{SpansWithin}
use stonks.TickerValidity.Derive.{split_at}

-- Winners in order from `lo` up to `hi`.
abbrev pub WinnersWithin : Option Time → List Winner → Option Time → Type 0
WinnersWithin lo [] hi = Unit
WinnersWithin lo (w ∷ ws) hi =
    FromOn lo w.from × (w.from < w.before) × UpTo w.before hi × WinnersWithin (some w.before) ws hi

ceiling-spans_from :
    (last : Span) (ws : List Winner) (hi : Option Time)
    → ceiling (spans_from last ws) hi ≡ some last.from
unfolding spans_from
ceiling-spans_from last [] hi = refl
ceiling-spans_from last (w ∷ ws) hi = elim (Bool-cases (same last.instr w.instr)) [
  | inl e ↦
      rw (e, spans_from)
        (ceiling-spans_from (record last { before = w.before; tail = w.assertion }) ws hi)
  | inr e ↦ rw (e, spans_from) refl
]

spans_from-Within :
    (lo : Option Time) (last : Span) (ws : List Winner) (hi : Option Time)
    → FromOn lo last.from
    → last.from < last.before
    → UpTo last.before hi
    → WinnersWithin (some last.before) ws hi
    → SpansWithin lo (spans_from last ws) hi
unfolding spans_from
spans_from-Within lo last [] hi h k l s = (h, k, l, tt)
spans_from-Within lo last (w ∷ ws) hi h k l s = elim (Bool-cases (same last.instr w.instr)) [
  | inl e ↦
      rw (e, spans_from)
        (spans_from-Within lo (record last { before = w.before; tail = w.assertion }) ws hi h
          (omega (arith, k, s.0, s.1)) s.2 s.3)
  | inr e ↦
      rw (e, spans_from, ceiling-spans_from (span_of w) ws hi)
        (h, k, s.0, spans_from-Within (some last.before) (span_of w) ws hi s.0 s.1 s.2 s.3)
]

pub spans-Within :
    (lo : Option Time) (ws : List Winner) (hi : Option Time)
    → WinnersWithin lo ws hi
    → SpansWithin lo (spans ws) hi
unfolding spans
spans-Within lo [] hi s = tt
spans-Within lo (w ∷ ws) hi s = spans_from-Within lo (span_of w) ws hi s.0 s.1 s.2 s.3

-- Winners of which none spans the day `end`.
abbrev pub Unspanned : Time → List Winner → Type 0
Unspanned end = All (λ w. (end ≤ w.from) ⊎ (w.before ≤ end))

pub split_at-Within :
    (lo : Option Time) (end : Time) (ws : List Winner)
    → InOrder ws
    → All (λ w. FromOn lo w.from) ws
    → Unspanned end ws
    → WinnersWithin lo (split_at end ws).0 (some end)
unfolding split_at
split_at-Within lo end [] s f u = tt
split_at-Within lo end (w ∷ ws) s f u = elim (Bool-cases (ltb w.from end)) [
  | inl e ↦
      rw (e, split_at)
        (f.0, s.0, ground (arith, u.0), split_at-Within (some w.before) end ws s.2 s.1 u.1)
  | inr e ↦ rw (e, split_at) tt
]

-- The rest starts on or after the cut.
pub split_at-rest :
    (P : Winner → Type 0) (end : Time) (ws : List Winner)
    → InOrder ws
    → All P ws
    → Unspanned end ws
    → InOrder (split_at end ws).1
      × All P (split_at end ws).1
      × All (λ w. end ≤ w.from) (split_at end ws).1
unfolding split_at
split_at-rest P end [] s f u = (tt, tt, tt)
split_at-rest P end (w ∷ ws) s f u = elim (Bool-cases (ltb w.from end)) [
  | inl e ↦ rw (e, split_at) (split_at-rest P end ws s.2 f.1 u.1)
  | inr e ↦ rw (e, split_at) (s, f, (ground arith, All-mono (λ v g. ground (arith, s.0)) ws s.1))
]

pub winners-Within :
    (lo : Option Time) (ws : List Winner)
    → InOrder ws
    → All (λ w. FromOn lo w.from) ws
    → WinnersWithin lo ws none
winners-Within lo [] s f = tt
winners-Within lo (w ∷ ws) s f = (f.0, s.0, tt, winners-Within (some w.before) ws s.2 s.1)
