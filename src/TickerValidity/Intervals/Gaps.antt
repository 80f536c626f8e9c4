-- ===== src/TickerValidity/Intervals/Gaps.antt =====
-- What the intervals of a ticker leave unconfirmed.
use stonks.Base.{
  Bool, true, false, not, ◌&&◌, ◌||◌, Option, none, some, List, [], ◌∷◌, ◌≡◌, refl, sym, ap, ◌∙◌,
  arith, Bool-cases, inl, inr, any, All, ◌⊎◌,
}
use stonks.Types.Time.{Time}
use stonks.Types.Period
use stonks.Types.Period.{Period, any_contains}
use stonks.Types.Period.Clip.{contains-clip, clip-empty}
use stonks.Types.Period.Gaps.{any_contains-gaps}
use stonks.TickerValidity.Segments.{Interval, validity_eq, confirmed}
use stonks.TickerValidity.Segments.Order.{InOrder, EndsBy}
use stonks.TickerValidity.Intervals.{
  contains, clip, on, confirmed_on, confirmed_parts, gaps, on_or_after, before_bound, bound_or,
}

bounds-clip :
    (a b : Option Time) (p : Period) (d : Time)
    → (Period.contains p d
        && Period.contains (record { from = bound_or a p.from; before = bound_or b p.before }) d)
      ≡ ((on_or_after a d && before_bound b d) && Period.contains p d)
unfolding Period.contains
bounds-clip none none p d = ground arith
bounds-clip none (some t) p d = ground arith
bounds-clip (some s) none p d = ground arith
bounds-clip (some s) (some t) p d = ground arith

pub contains-clip_interval :
    (iv : Interval) (p : Period) (d : Time)
    → Period.contains (clip iv p).0 d ≡ (contains iv d && Period.contains p d)
unfolding clip contains
contains-clip_interval iv p d = contains-clip p _ d ∙ bounds-clip iv.from iv.before p d

pub clip_interval-empty :
    (iv : Interval) (p : Period) (d : Time)
    → (clip iv p).1 ≡ false
    → (contains iv d && Period.contains p d) ≡ false
unfolding clip contains
clip_interval-empty iv p d h = sym (bounds-clip iv.from iv.before p d) ∙ clip-empty p _ d h

kept_part :
    (c v r p : Bool) (x : Bool) → x ≡ (c && p) → v ≡ true → (x || (r && p)) ≡ (((c && v) || r) && p)
kept_part c v r p x e h = ground (arith, e, h)

dropped_part :
    (c v r p : Bool) → (v ≡ false) ⊎ ((c && p) ≡ false) → (r && p) ≡ (((c && v) || r) && p)
dropped_part c v r p h = ground (arith, h)

-- The parts hold the days of `p` that a confirmed interval holds.
pub confirmed_parts-days :
    (ivs : List Interval) (p : Period) (t : Time)
    → any_contains (confirmed_parts ivs p) t
      ≡ (any (λ iv. contains iv t && validity_eq iv.validity confirmed) ivs && Period.contains p t)
unfolding any_contains confirmed_parts
confirmed_parts-days [] p t = refl
confirmed_parts-days (iv ∷ ivs) p t =
    let ih = confirmed_parts-days ivs p t in
    elim (Bool-cases (clip iv p).1) [
      | inr empty ↦
          rw (empty, confirmed_parts)
            (ih
              ∙ dropped_part (contains iv t) (validity_eq iv.validity confirmed) (among ivs)
                  (Period.contains p t) (inr (clip_interval-empty iv p t empty)))
      | inl held ↦ elim (Bool-cases (validity_eq iv.validity confirmed)) [
        | inl v ↦
            rw (held, v, confirmed_parts)
              (ap (◌||◌ (Period.contains (clip iv p).0 t)) ih
                ∙ kept_part (contains iv t) true (among ivs) (Period.contains p t) _
                    (contains-clip_interval iv p t) refl)
        | inr v ↦
            rw (held, v, confirmed_parts)
              (ih ∙ dropped_part (contains iv t) false (among ivs) (Period.contains p t) (inl refl))
      ]
    ]
  where
    among : List Interval → Bool
    among = any (λ jv. contains jv t && validity_eq jv.validity confirmed)

after_bound :
    (a b : Option Time) (t : Time) → EndsBy a b → before_bound a t ≡ true → on_or_after b t ≡ false
after_bound none b t h k = absurd h
after_bound (some x) none t h k = absurd h
after_bound (some x) (some y) t h k = ground (arith, h, k)

-- The intervals after one that holds a day do not hold it.
none_after :
    (iv : Interval) (ivs : List Interval) (t : Time)
    → All (λ jv. EndsBy iv.before jv.from) ivs
    → before_bound iv.before t ≡ true
    → any (λ jv. contains jv t && validity_eq jv.validity confirmed) ivs ≡ false
unfolding contains
none_after iv [] t s h = refl
none_after iv (jv ∷ ivs) t s h =
    ground (arith, after_bound iv.before jv.from t s.0 h, none_after iv ivs t s.1 h)

contains-before :
    (iv : Interval) (t : Time) → contains iv t ≡ true → before_bound iv.before t ≡ true
unfolding contains
contains-before iv t h = ground (arith, h)

-- Intervals in order hold a day in one of them only, which `on` finds.
pub confirmed_on-any :
    (ivs : List Interval) (t : Time)
    → InOrder ivs
    → confirmed_on ivs t ≡ any (λ iv. contains iv t && validity_eq iv.validity confirmed) ivs
unfolding confirmed_on on
confirmed_on-any [] t s = refl
confirmed_on-any (iv ∷ ivs) t s = elim (Bool-cases (contains iv t)) [
  | inl h ↦
      rw (h, confirmed_on, on, none_after iv ivs t s.1 (contains-before iv t h)) (ground arith)
  | inr h ↦ rw (h, confirmed_on, on) (confirmed_on-any ivs t s.2)
]

unconfirmed : (a p : Bool) → (p && not (a && p)) ≡ (p && not a)
unconfirmed a p = ground arith

-- Where the intervals are in order, the gaps of `p` hold exactly the days of `p` on which the ticker
-- is not confirmed.
pub any_contains-gaps_confirmed :
    (ivs : List Interval) (p : Period) (t : Time)
    → InOrder ivs
    → any_contains (gaps ivs p) t ≡ (Period.contains p t && not (confirmed_on ivs t))
unfolding gaps
any_contains-gaps_confirmed ivs p t s =
    any_contains-gaps (confirmed_parts ivs p) p t
    ∙ rw (confirmed_parts-days ivs p t, confirmed_on-any ivs t s)
        (unconfirmed (any (λ iv. contains iv t && validity_eq iv.validity confirmed) ivs)
          (Period.contains p t))
