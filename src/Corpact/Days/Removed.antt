-- ===== src/Corpact/Days/Removed.antt =====
-- The days that `remove` leaves.
use stonks.Base.{
  ◌<◌, Bool, true, false, not, ◌&&◌, ◌||◌, List, [], ◌∷◌, ◌≡◌, refl, ap, ap₂, ◌∙◌, arith, leb, ◌==◌,
  any, All, flat_map, any-append, Bool-cases, inl, inr,
}
use stonks.Base.Order.{sort_times}
use stonks.Base.Any.{any-stable_sort, stable_sort-IsOrdered, All-stable_sort, IsOrdered}
use stonks.Types.Time.{Time, next, day}
use stonks.Types.Period.{Period, contains, any_contains}
use stonks.Corpact.Days.{nonempty, remove_from, remove}

-- A midnight, at which a day starts.
abbrev pub IsMidnight : Time → Type 0
IsMidnight d = day d ≡ d

abbrev pub among : List Time → Time → Bool
among ds t = any (λ d. day t == d) ds

contains-nonempty : (p : Period) (t : Time) → any_contains (nonempty p) t ≡ contains p t
unfolding any_contains contains
contains-nonempty p t = ground arith

next-IsMidnight : (d : Time) → IsMidnight d → IsMidnight (next d)
unfolding day
next-IsMidnight d h = omega (arith, h)

-- The day of a moment of `p` is no day outside `p`.
outside :
    (p : Period) (d t : Time)
    → IsMidnight p.from
    → contains p d ≡ false
    → contains p t ≡ true
    → (day t == d) ≡ false
unfolding day contains
outside p d t m h k = ground (arith, m, h, k)

later_days :
    (d t : Time) (ds : List Time) → t < d → All (λ e. leb d e ≡ true) ds → among ds t ≡ false
unfolding day
later_days d t [] h s = refl
later_days d t (e ∷ ds) h s = ground (arith, later_days d t ds h s.1, s.0, h)

split_day :
    (p : Period) (d t : Time)
    → IsMidnight d
    → contains p d ≡ true
    → (a : Bool) → (t < d → a ≡ false)
    → (contains (record p { before = d }) t || (contains (record p { from = next d }) t && not a))
      ≡ (contains p t && not ((day t == d) || a))
unfolding day contains
split_day p d t m h a early = ground (arith, m, h, early)

skipped_day : (c e a : Bool) → (c ≡ true → e ≡ false) → (c && not a) ≡ (c && not (e || a))
skipped_day c e a h = ground (arith, h)

remove_from-days :
    (p : Period) (ds : List Time) (t : Time)
    → IsMidnight p.from
    → IsOrdered leb ds
    → All IsMidnight ds
    → any_contains (remove_from p ds) t ≡ (contains p t && not (among ds t))
unfolding remove_from any_contains
remove_from-days p [] t m s h = contains-nonempty p t ∙ ground arith
remove_from-days p (d ∷ ds) t m s h = elim (Bool-cases (contains p d)) [
  | inr out ↦
      rw (out, remove_from)
        (remove_from-days p ds t m s.1 h.1 ∙ skipped_day _ _ _ (outside p d t m out))
  | inl held ↦
      rw (held, remove_from)
        (any-append (λ q. contains q t) (nonempty (record p { before = d })) _
          ∙ ap₂ ◌||◌ (contains-nonempty (record p { before = d }) t)
              (remove_from-days (record p { from = next d }) ds t (next-IsMidnight d h.0) s.1 h.1)
          ∙ split_day p d t h.0 held (among ds t) (λ e. later_days d t ds e s.0))
]

distribute : (a b k : Bool) → ((a && not k) || (b && not k)) ≡ ((a || b) && not k)
distribute a b k = ground arith

each_period :
    (ps : List Period) (ds : List Time) (t : Time)
    → All (λ p. IsMidnight p.from) ps
    → IsOrdered leb ds
    → All IsMidnight ds
    → any_contains (flat_map (λ p. remove_from p ds) ps) t ≡ (any_contains ps t && not (among ds t))
unfolding any_contains
each_period [] ds t m s h = refl
each_period (p ∷ ps) ds t m s h =
    any-append (λ q. contains q t) (remove_from p ds) _
    ∙ ap₂ ◌||◌ (remove_from-days p ds t m.0 s h) (each_period ps ds t m.1 s h)
    ∙ distribute (contains p t) (any_contains ps t) (among ds t)

-- Where periods start at midnight, the periods less some days hold exactly the moments of the
-- periods that lie on none of the days.
pub any_contains-remove :
    (ps : List Period) (days : List Time) (t : Time)
    → All (λ p. IsMidnight p.from) ps
    → All IsMidnight days
    → any_contains (remove ps days) t ≡ (any_contains ps t && not (any (λ d. day t == d) days))
unfolding remove sort_times
any_contains-remove ps days t m h =
    each_period ps (sort_times days) t m
      (stable_sort-IsOrdered leb (λ a b. ground arith) (λ a b c. ground arith) days)
      (All-stable_sort IsMidnight leb days h)
    ∙ ap (λ b. any_contains ps t && not b) (any-stable_sort (λ d. day t == d) leb days)
