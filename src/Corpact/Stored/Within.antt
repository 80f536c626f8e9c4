-- ===== src/Corpact/Stored/Within.antt =====
-- The days that the answers of `Read` cover.
use stonks.Base.{
  Bool, true, false, not, ◌&&◌, ◌||◌, List, [], ◌∷◌, ◌≡◌, refl, sym, ap, ap₂, ◌∙◌, arith, any, All,
  ◌==◌, Bool-cases, inl, inr,
}
use stonks.Types.Time.{Time, day}
use stonks.Types.Period.{Period, contains, clip, any_contains}
use stonks.Types.Period.Clip.{contains-clip, clip-empty}
use stonks.Types.MarketTicker.{MarketTicker, ByTicker, ticker_eq}
use stonks.Corpact.Days.{remove}
use stonks.Corpact.Days.Removed.{IsMidnight, any_contains-remove}
use stonks.Corpact.Stored.{Answer, clip_all, unknown_days, is_empty, within}

part_held : (c d r x : Bool) → x ≡ (d && c) → (x || (r && c)) ≡ ((d || r) && c)
part_held c d r x h = ground (arith, h)

part_empty : (c d r : Bool) → (d && c) ≡ false → (r && c) ≡ ((d || r) && c)
part_empty c d r h = ground (arith, h)

clip_all-days :
    (p : Period) (cs : List Period) (x : Time)
    → any_contains (clip_all p cs) x ≡ (any_contains cs x && contains p x)
unfolding clip_all any_contains
clip_all-days p [] x = refl
clip_all-days p (c ∷ cs) x =
    let ih = clip_all-days p cs x in
    elim (Bool-cases (clip c p).1) [
      | inl held ↦
          rw (held, clip_all)
            (ap (λ b. contains (clip c p).0 x || b) ih
              ∙ part_held (contains p x) (contains c x) (any_contains cs x) _ (contains-clip c p x))
      | inr empty ↦
          rw (empty, clip_all)
            (ih
              ∙ part_empty (contains p x) (contains c x) (any_contains cs x)
                  (clip-empty c p x empty))
    ]

nothing :
    (cs : List Period) (x : Time) (k : Bool) → (is_empty cs && k) ≡ true → any_contains cs x ≡ false
unfolding any_contains
nothing [] x k h = refl
nothing (c ∷ cs) x k h = cc

dropped : (e k r : Bool) → k ≡ false → r ≡ ((e && k) || r)
dropped e k r h = ground (arith, h)

module _ {D : Type 0} (p : Period) (t : MarketTicker) (x : Time) where
  -- The answer's coverage holds the moment, outside the days of its unknown actions.
  abbrev pub known : Answer D → Bool
  known a = any_contains a.coverage x && not (any (λ d. day x == d) (unknown_days a.acts))

  -- Every period of coverage and every unknown action of an answer starts at midnight.
  abbrev pub AtMidnight : Answer D → Type 0
  AtMidnight a =
      All (λ (q : Period). IsMidnight q.from) a.coverage × All IsMidnight (unknown_days a.acts)

  covers : Answer D → List Period
  covers a = clip_all p (remove a.coverage (unknown_days a.acts))

  covers-days :
      (a : Answer D) → AtMidnight a → any_contains (covers a) x ≡ (known a && contains p x)
  unfolding covers
  covers-days a m =
      clip_all-days p (remove a.coverage (unknown_days a.acts)) x
      ∙ ap (λ b. b && contains p x) (any_contains-remove a.coverage (unknown_days a.acts) x m.0 m.1)

  -- Where coverage and unknown actions start at midnight, the answers that Read returns cover a
  -- moment of a ticker exactly where the moment lies in the period that was read, and a stored
  -- answer of the ticker covers it outside the days of the answer's unknown actions.
  pub within-days :
      (stored : ByTicker (Answer D))
      → All (λ e. AtMidnight e.1) stored
      → any (λ e. ticker_eq t e.0 && any_contains e.1.coverage x) (within p stored)
        ≡ any (λ e. ticker_eq t e.0 && (known e.1 && contains p x)) stored
  unfolding within covers
  within-days [] m = refl
  within-days ((s, a) ∷ stored) m =
      let ih = within-days stored m.1 in
      let here = covers-days a m.0 in
      elim (Bool-cases (is_empty (covers a) && is_empty a.acts)) [
        | inl e ↦
            rw (e, within)
              (ih
                ∙ dropped (ticker_eq t s) (known a && contains p x) _
                    (sym here ∙ nothing (covers a) x _ e))
        | inr e ↦ rw (e, within) (ap₂ (λ b c. (ticker_eq t s && b) || c) here ih)
      ]
