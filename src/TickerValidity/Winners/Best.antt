-- ===== src/TickerValidity/Winners/Best.antt =====
-- The invariant of the loop over the runs of days, at one day `t` and one cut `c`.
use stonks.Base.{
  ℕ, Bool, true, not, ◌&&◌, ◌||◌, some, List, [], ◌∷◌, ◌≡◌, refl, subst, sym, ap, ◌∙◌, arith, ltb,
  ◌==◌, All, All-mono, any, Bool-cases, Option-cases, inl, inr, ◌⊎◌, ◌<◌, ◌≤◌, get_elem?,
}
use stonks.Base.Compact.{IsIncreasing, Splits}
use stonks.Types.Time.{Time}
use stonks.TickerValidity.Facts.{Assertion}
use stonks.TickerValidity.Winners.{
  Winner, Ranked, Sweep, day_of, best_of, append_winner, sweep_day, sweep_from,
}
use stonks.TickerValidity.Winners.Better.{best_of-All, best_of-none, day_of-All, day_of-nil}
use stonks.TickerValidity.Winners.Days.{
  Chain, Chain-mono, append_winner-Chain, any_holds, IsBestOn, IsOutside, any_holds-same_day,
  any_holds-found, best-IsBestOn,
}

abbrev pub on_day : Winner → Time → Bool
on_day w d = not (ltb d w.from) && ltb d w.before

abbrev pub any_on : List (ℕ × Winner) → Time → Bool
any_on out d = any (λ e. on_day e.1 d) out

-- A winner names what its assertion names, is the best on the day `t` if it holds it, and does not
-- span the cut `c`.
abbrev pub IsSound : (ℕ → Bool) → List Assertion → List Ranked → Time → Time → ℕ × Winner → Type 0
IsSound cut sorted rs t c e =
    (get_elem? sorted e.0 ≡ some e.1.assertion)
    × (e.1.instr ≡ e.1.assertion.instr)
    × (e.1.from ≤ t → t < e.1.before → IsBestOn rs t e.1.assertion)
    × (cut c ≡ true → (c ≤ e.1.from) ⊎ (e.1.before ≤ c))

module _ (cut : ℕ → Bool) (sorted : List Assertion) (rs : List Ranked) (t c : Time)
    (numbered : All (λ r. get_elem? sorted r.at ≡ some r.assertion) rs) where
  append_winner-IsSound :
      (from before : Time) (best : Ranked) (out : List (ℕ × Winner))
      → get_elem? sorted best.at ≡ some best.assertion
      → (from ≤ t → t < before → IsBestOn rs t best.assertion)
      → (cut c ≡ true → (c ≤ from) ⊎ (before ≤ c))
      → All (IsSound cut sorted rs t c) out
      → All (IsSound cut sorted rs t c) (append_winner cut from before best out)
  unfolding append_winner
  append_winner-IsSound from before best [] n b k s = ((n, refl, b, k), tt)
  append_winner-IsSound from before best ((i, w) ∷ out) n b k s =
      elim (Bool-cases (i == best.at && (w.before == from && not (cut from)))) [
        | inl again ↦ rw (again, append_winner) ((s.0.0, s.0.1, extended again, apart again), s.1)
        | inr fresh ↦ rw (fresh, append_winner) ((n, refl, b, k), s)
      ]
    where
      one :
          (i == best.at && (w.before == from && not (cut from))) ≡ true
          → w.assertion ≡ best.assertion
      one again = let e : i ≡ best.at = ground arith in cc (ap (get_elem? sorted) e, n, s.0.0)

      extended :
          (i == best.at && (w.before == from && not (cut from))) ≡ true
          → w.from ≤ t
          → t < before
          → IsBestOn rs t w.assertion
      extended again h l = elim (Bool-cases (ltb t w.before)) [
        | inl early ↦ s.0.2 h (ground arith)
        | inr late ↦ subst (IsBestOn rs t) (sym (one again)) (b (ground arith) l)
      ]

      apart :
          (i == best.at && (w.before == from && not (cut from))) ≡ true
          → cut c ≡ true
          → (c ≤ w.from) ⊎ (before ≤ c)
      apart again is_cut = elim (s.0.3 is_cut) [
        | inl h ↦ inl h
        | inr h ↦ elim (k is_cut) [
          | inl g ↦ let e : c ≡ from = ground arith in absurd (ground (arith, ap cut e))
          | inr g ↦ inr g
        ]
      ]

  any_on-append_winner :
      (from before : Time) (best : Ranked) (out : List (ℕ × Winner))
      → from < before
      → Chain from out
      → any_on (append_winner cut from before best out) t
        ≡ ((not (ltb t from) && ltb t before) || any_on out t)
  unfolding append_winner
  any_on-append_winner from before best [] h s = refl
  any_on-append_winner from before best ((i, w) ∷ out) h s = ground arith

  -- What the loop has established when it reaches the day `from`.
  abbrev pub IsSwept : Time → Sweep → Type 0
  IsSwept from s =
      Chain from s.out
      × All (IsSound cut sorted rs t c) s.out
      × (any_on s.out t ≡ (ltb t from && any_holds rs t))

  sweep_day-IsSwept :
      (from before : Time) (s : Sweep)
      → from < before
      → All (IsOutside from before) rs
      → (cut c ≡ true → (c ≤ from) ⊎ (before ≤ c))
      → IsSwept from s
      → IsSwept before (sweep_day cut rs from before s)
  unfolding sweep_day
  sweep_day-IsSwept from before s h outside k v = elim (Option-cases (best_of (day_of from rs))) [
    | inl e ↦
        rw (e, sweep_day)
          (
            Chain-mono from before s.out (omega arith) v.0,
            v.1,
            v.2 ∙ idle (best_of-none (day_of from rs) e),
          )
    | inr (best, e) ↦
        rw (e, sweep_day)
          (
            append_winner-Chain cut from before best s.out h v.0,
            append_winner-IsSound from before best s.out (at best e)
                (best-IsBestOn rs from before best e t outside) k v.1,
            any_on-append_winner from before best s.out h v.0 ∙ busy best e,
          )
  ]
    where
      idle : day_of from rs ≡ [] → (ltb t from && any_holds rs t) ≡ (ltb t before && any_holds rs t)
      idle e =
          ground (arith, v.2, any_holds-same_day from before t rs outside, day_of-nil from rs e)

      at :
          (best : Ranked)
          → best_of (day_of from rs) ≡ some best
          → get_elem? sorted best.at ≡ some best.assertion
      at best e =
          best_of-All (λ r. get_elem? sorted r.at ≡ some r.assertion) (day_of from rs) best e
            (All-mono (λ r g. g.1) _
              (day_of-All (λ r. get_elem? sorted r.at ≡ some r.assertion) from rs numbered))

      busy :
          (best : Ranked)
          → best_of (day_of from rs) ≡ some best
          → ((not (ltb t from) && ltb t before) || any_on s.out t)
            ≡ (ltb t before && any_holds rs t)
      busy best e = ground (
        arith,
        v.2,
        any_holds-same_day from before t rs outside,
        any_holds-found rs from before best e,
      )

  pub sweep_from-IsSwept :
      (from : Time) (bounds : List Time) (s : Sweep)
      → IsIncreasing (from ∷ bounds)
      → All
          (λ r.
            Splits r.assertion.period.from (from ∷ bounds)
            × Splits r.assertion.period.before (from ∷ bounds))
          rs
      → (cut c ≡ true → Splits c (from ∷ bounds))
      → IsSwept from s
      → (last : Time) × IsSwept last (sweep_from cut rs from bounds s)
        × All (λ b. b ≤ last) (from ∷ bounds)
  unfolding sweep_from
  sweep_from-IsSwept from [] s inc splits k v = (from, v, (omega arith, tt))
  sweep_from-IsSwept from (before ∷ bounds) s inc splits k v =
      let (last, swept, below) =
        sweep_from-IsSwept before bounds _ inc.1 (All-mono (λ r g. (g.0.1, g.1.1)) rs splits)
          (λ h. (k h).1)
          (sweep_day-IsSwept from before s inc.0.0 (All-mono (λ r g. (g.0.0, g.1.0)) rs splits)
            (λ h. (k h).0) v) in
      (last, swept, (omega (arith, inc.0.0, below.0), below))
