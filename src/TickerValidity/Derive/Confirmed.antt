-- ===== src/TickerValidity/Derive/Confirmed.antt =====
-- The days that `derive` confirms.
use stonks.Base.{
  Bool, true, false, not, ◌&&◌, ◌||◌, Option, none, some, List, [], ◌∷◌, ◌≡◌, refl, ◌∙◌, arith, ltb,
  ◌==◌, All, All-const, any, any-append, Bool-cases, inl, inr, ◌⊎◌, ◌<◌,
}
use stonks.Types.Time.{Time}
use stonks.Types.Period.{Period, union}
use stonks.TickerValidity.Facts.{Id128, Facts, same}
use stonks.TickerValidity.Current.{current}
use stonks.TickerValidity.Winners
use stonks.TickerValidity.Winners.{Winner}
use stonks.TickerValidity.Winners.Best.{on_day}
use stonks.TickerValidity.Winners.Wins
use stonks.TickerValidity.Segments.{
  Interval, Inferred, Span, confirmed, ceiling, intervals_of, own_intervals, floor_after,
  segment_from, segment, spans_from, spans, span_of, validity_eq,
}
use stonks.TickerValidity.Segments.Reach.{UpTo, FromOn, forward_bounds, back_bounds}
use stonks.TickerValidity.Segments.Order.{SpansWithin, floor_after-SpansWithin}
use stonks.TickerValidity.Segments.Join.{says, join-says}
use stonks.TickerValidity.Derive.{split_at, both, segments_from, cuts, cutting, periods, derive}
use stonks.TickerValidity.Derive.Split.{
  WinnersWithin, spans-Within, split_at-Within, split_at-rest, winners-Within,
}
use stonks.TickerValidity.Derive.Order.{
  CutsWithin, CutsWithin-rest, segmented, segmented-InOrder, winners-CutsWithin,
}

module _ (i : Id128) (t : Time) where
  -- The winner, or the span, holds the day and names `i`.
  abbrev pub wins : Winner → Bool
  wins w = on_day w t && same w.instr (some i)

  abbrev spans_day : Span → Bool
  spans_day r = (not (ltb t r.from) && ltb t r.before) && same r.instr (some i)

  same-some : (a b : Option Id128) → same a b ≡ true → same a (some i) ≡ same b (some i)
  unfolding same
  same-some none none h = refl
  same-some none (some b) h = cc
  same-some (some a) none h = cc
  same-some (some a) (some b) h = ground arith

  spans_from-wins :
      (last : Span) (ws : List Winner) (hi : Option Time)
      → last.from < last.before
      → WinnersWithin (some last.before) ws hi
      → (spans_day last || any wins ws) ≡ true
      → any spans_day (spans_from last ws) ≡ true
  unfolding spans_from
  spans_from-wins last [] hi k s h = h
  spans_from-wins last (w ∷ ws) hi k s h = elim (Bool-cases (same last.instr w.instr)) [
    | inl e ↦
        rw (e, spans_from)
          (spans_from-wins (record last { before = w.before; tail = w.assertion }) ws hi
            (omega (arith, k, s.0, s.1)) s.3
            (ground (arith, same-some last.instr w.instr e, s.0, s.1)))
    | inr e ↦ rw (e, spans_from) (ground (arith, spans_from-wins (span_of w) ws hi s.1 s.3))
  ]

  spans-wins :
      (lo : Option Time) (ws : List Winner) (hi : Option Time)
      → WinnersWithin lo ws hi
      → any wins ws ≡ true
      → any spans_day (spans ws) ≡ true
  unfolding spans
  spans-wins lo [] hi s h = h
  spans-wins lo (w ∷ ws) hi s h = spans_from-wins (span_of w) ws hi s.1 s.3 h

  intervals_of-says :
      (first : Bool) (j : Id128) (r : Span) (floor ceil : Option Time) (cover : List Period)
      → FromOn floor r.from
      → UpTo r.before ceil
      → (not (ltb t r.from) && ltb t r.before) ≡ true
      → (j == i) ≡ true
      → any (says i confirmed t) (intervals_of first j r floor ceil cover) ≡ true
  unfolding intervals_of validity_eq
  intervals_of-says first j r floor ceil cover h k d e =
      ground (arith, back_bounds r.from floor cover h, forward_bounds r.before ceil cover k)

  own_intervals-says :
      (o : Option Id128) (first : Bool) (r : Span) (floor ceil : Option Time) (cover : List Period)
      → FromOn floor r.from
      → UpTo r.before ceil
      → ((not (ltb t r.from) && ltb t r.before) && same o (some i)) ≡ true
      → any (says i confirmed t) (own_intervals o first r floor ceil cover) ≡ true
  unfolding own_intervals same
  own_intervals-says none first r floor ceil cover h k d = absurd (ground arith)
  own_intervals-says (some j) first r floor ceil cover h k d =
      intervals_of-says first j r floor ceil cover h k (ground arith) (ground arith)

  or-true : (a b : Bool) → (a ≡ true) ⊎ (b ≡ true) → (a || b) ≡ true
  or-true a b h = ground arith

  segment_from-says :
      (first : Bool) (floor : Option Time) (ss : List Span) (hi : Option Time) (cover : List Period)
      → SpansWithin floor ss hi
      → any spans_day ss ≡ true
      → any (says i confirmed t) (segment_from first floor ss hi cover).0 ≡ true
  unfolding segment_from
  segment_from-says first floor [] hi cover s h = h
  segment_from-says first floor (r ∷ ss) hi cover s h =
      let own = own_intervals r.instr first r floor (ceiling ss hi) cover in
      any-append (says i confirmed t) own _
      ∙ or-true _ _ (elim (Bool-cases (spans_day r)) [
        | inl e ↦ inl (own_intervals-says r.instr first r floor (ceiling ss hi) cover s.0 s.2 e)
        | inr e ↦ inr (
            segment_from-says false (floor_after r.instr r (ceiling ss hi)) ss hi cover
              (floor_after-SpansWithin r.instr floor r ss hi s) (ground arith))
      ])

  segment-says :
      (lo : Option Time) (ws : List Winner) (hi : Option Time) (cover : List Period)
      → WinnersWithin lo ws hi
      → any wins ws ≡ true
      → any (says i confirmed t) (segment (spans ws) lo hi cover).0 ≡ true
  unfolding segment
  segment-says lo ws hi cover s h =
      segment_from-says true lo (spans ws) hi cover (spans-Within lo ws hi s)
        (spans-wins lo ws hi s h)

  any-split_at :
      (f : Winner → Bool) (end : Time) (ws : List Winner)
      → any f ws ≡ (any f (split_at end ws).0 || any f (split_at end ws).1)
  unfolding split_at
  any-split_at f end [] = refl
  any-split_at f end (w ∷ ws) = ground (arith, any-split_at f end ws)

  any-both :
      (f : Interval → Bool) (x y : List Interval × List Inferred)
      → any f (both x y).0 ≡ (any f x.0 || any f y.0)
  unfolding both
  any-both f x y = any-append f x.0 y.0

  segments_from-says :
      (lo : Option Time) (bs : List Time) (ws : List Winner) (cover : List Period)
      → Winners.Wins.InOrder ws
      → All (λ w. FromOn lo w.from) ws
      → CutsWithin lo bs ws
      → any wins ws ≡ true
      → any (says i confirmed t) (segments_from lo bs ws cover).0 ≡ true
  unfolding segments_from
  segments_from-says lo [] ws cover s f c h =
      segment-says lo ws none cover (winners-Within lo ws s f) h
  segments_from-says lo (b ∷ bs) ws cover s f c h =
      let rest = split_at-rest (λ w. FromOn lo w.from) b ws s f c.1 in
      any-both (says i confirmed t) (segment (spans (split_at b ws).0) lo (some b) cover) _
      ∙ or-true _ _ (elim (Bool-cases (any wins (split_at b ws).0)) [
        | inl e ↦
            inl
              (segment-says lo (split_at b ws).0 (some b) cover (split_at-Within lo b ws s f c.1) e)
        | inr e ↦ inr (
            segments_from-says (some b) bs (split_at b ws).1 cover rest.0 rest.2
              (CutsWithin-rest (some b) b bs ws s c.1 c.2)
              (ground (arith, any-split_at wins b ws, h, e)))
      ])

  -- Where a winner that names `i` holds the day `t`, a confirmed interval of `i` holds it.
  pub derive-confirmed :
      (f : Facts)
      → any wins (derive f).winners ≡ true
      → any (says i confirmed t) (derive f).intervals ≡ true
  unfolding derive
  derive-confirmed f h =
      let es = (current f.assertions).1 in
      let assertions = (current f.assertions).0 in
      let ws = (Winners.winners assertions es).0 in
      join-says i confirmed t (segmented f) (segmented-InOrder f)
      ∙ segments_from-says none (cuts (cutting es assertions)) ws (union (periods f.coverage))
          (Winners.Wins.winners-InOrder assertions es) (All-const (λ w. tt) ws)
          (winners-CutsWithin f) h
