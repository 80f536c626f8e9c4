-- ===== src/TickerValidity/Winners/Wins.antt =====
-- The winners of a ticker: their order, their days, their assertions and the cuts.
use mathlib.Core.List.{reverse-cons}
use stonks.Base.{
  ℕ, Bool, true, false, ◌&&◌, List, [], ◌∷◌, ◌++◌, map, reverse, ◌≡◌, refl, subst, sym, ap, ◌∙◌,
  arith, All, All-mono, All-append, any, any-append, ◌⊎◌, ◌<◌, ◌≤◌,
}
use stonks.Types.Time.{Time}
use stonks.Types.Period.{contains}
use stonks.TickerValidity.Facts.{Assertion, Edge, better}
use stonks.TickerValidity.Winners.{
  Winner, Ranked, sweep, counted, by_first_day, boundaries, is_cut, winners,
}
use stonks.TickerValidity.Winners.Days.{Chain, any_holds, IsBestOn}
use stonks.TickerValidity.Winners.Best.{on_day, any_on, IsSound}
use stonks.TickerValidity.Winners.Winning.{
  counted-numbered, counts_in, any-counted, boundaries-Splits_cut, boundaries-within,
  boundaries-IsIncreasing, sweep-lem,
}

-- Nonempty runs of days, each after the one before it.
abbrev pub InOrder : List Winner → Type 0
InOrder [] = Unit
InOrder (w ∷ ws) = (w.from < w.before) × All (λ v. w.before ≤ v.from) ws × InOrder ws

InOrder-snoc :
    (ws : List Winner) (w : Winner)
    → InOrder ws
    → All (λ v. v.before ≤ w.from) ws
    → w.from < w.before
    → InOrder (ws ++ w ∷ [])
InOrder-snoc [] w s h k = (k, tt, tt)
InOrder-snoc (v ∷ ws) w s h k =
    (s.0, All-append _ ws (w ∷ []) s.1 (h.0, tt), InOrder-snoc ws w s.2 h.1 k)

abbrev in_days : List (ℕ × Winner) → List Winner
in_days out = reverse (map (λ e. e.1) out)

All-in_days :
    (P : Winner → Type 0) (out : List (ℕ × Winner)) → All (λ e. P e.1) out → All P (in_days out)
All-in_days P [] h = tt
All-in_days P (e ∷ out) h =
    subst (All P) (sym (reverse-cons e.1 (map (λ e. e.1) out)))
      (All-append P (in_days out) (e.1 ∷ []) (All-in_days P out h.1) (h.0, tt))

any-in_days :
    (f : Winner → Bool) (out : List (ℕ × Winner)) → any f (in_days out) ≡ any (λ e. f e.1) out
any-in_days f [] = refl
any-in_days f (e ∷ out) =
    ap (any f) (reverse-cons e.1 (map (λ e. e.1) out))
    ∙ any-append f (in_days out) (e.1 ∷ [])
    ∙ ground (arith, any-in_days f out)

Chain-ends : (b : Time) (out : List (ℕ × Winner)) → Chain b out → All (λ e. e.1.before ≤ b) out
Chain-ends b [] s = tt
Chain-ends b ((i, w) ∷ out) s =
    (s.0, All-mono (λ e g. omega (arith, s.1, s.0)) out (Chain-ends w.from out s.2))

Chain-InOrder : (b : Time) (out : List (ℕ × Winner)) → Chain b out → InOrder (in_days out)
Chain-InOrder b [] s = tt
Chain-InOrder b ((i, w) ∷ out) s = subst InOrder (sym (reverse-cons w (map (λ e. e.1) out))) (
    InOrder-snoc (in_days out) w (Chain-InOrder w.from out s.2)
      (All-in_days (λ v. v.before ≤ w.from) out (Chain-ends w.from out s.2)) s.1)

IsBestOn-any :
    (rs : List Ranked) (t : Time) (a : Assertion)
    → IsBestOn rs t a
    → any (λ r. contains r.assertion.period t && better r.assertion a) rs ≡ false
IsBestOn-any [] t a h = refl
IsBestOn-any (r ∷ rs) t a h = ground (arith, h.1.0, IsBestOn-any rs t a (h.0, h.1.1))

module _ (all : List Assertion) (es : List Edge) where
  abbrev ranked : List Ranked
  ranked = counted (by_first_day all)

  swept :
      (t c : Time)
      → let s = sweep (is_cut es) ranked (boundaries ranked es) in
        (last : Time) × Chain last s.out
        × All (IsSound (is_cut es) (by_first_day all) ranked t c) s.out
        × (any_on s.out t ≡ any_holds ranked t)
  swept t c =
      sweep-lem (is_cut es) (by_first_day all) ranked t c (counted-numbered (by_first_day all))
        (boundaries ranked es) (boundaries-IsIncreasing ranked es) (boundaries-within ranked es)
        (boundaries-Splits_cut ranked es c)

  -- The winners are nonempty runs of days, each after the one before it.
  pub winners-InOrder : InOrder (winners all es).0
  unfolding winners
  winners-InOrder = let s = swept 0 0 in Chain-InOrder s.0 _ s.1

  -- A winner holds a day exactly where an assertion that counts holds it.
  pub winners-on_day :
      (t : Time)
      → any (λ w. on_day w t) (winners all es).0
        ≡ any (λ a. counts_in all a && contains a.period t) all
  unfolding winners
  winners-on_day t =
      any-in_days (λ w. on_day w t) _ ∙ (swept t t).3 ∙ any-counted (λ a. contains a.period t) all

  -- A winner names what its assertion names. On each day of the winner the assertion holds the day,
  -- and no assertion that counts and holds the day is better.
  pub winners-best :
      (t : Time)
      → All
          (λ w.
            on_day w t ≡ true
            → (w.instr ≡ w.assertion.instr)
              × (contains w.assertion.period t ≡ true)
              × (any (λ a. counts_in all a && (contains a.period t && better a w.assertion)) all
                  ≡ false))
          (winners all es).0
  unfolding winners
  winners-best t = All-in_days _ _ (
      All-mono
        (λ e g h.
          let best = g.2 (ground arith) (ground arith) in
          (
            g.1,
            best.0,
            sym (any-counted (λ a. contains a.period t && better a e.1.assertion) all)
                ∙ IsBestOn-any ranked t e.1.assertion best,
          ))
        _ (swept t t).2)

  -- No winner spans a cut.
  pub winners-cut :
      (c : Time) → is_cut es c ≡ true → All (λ w. (c ≤ w.from) ⊎ (w.before ≤ c)) (winners all es).0
  unfolding winners
  winners-cut c h = All-in_days _ _ (All-mono (λ e g. g.3 h) _ (swept c c).2)
