-- ===== src/TickerValidity/Winners/Days.antt =====
-- The loop over the runs of days.
use stonks.Base.{
  ℕ, Bool, true, false, some, List, [], ◌∷◌, ◌≡◌, refl, sym, ◌∙◌, arith, All, All-mono, any,
  Bool-cases, inl, inr, ◌⊎◌, ◌<◌, ◌≤◌,
}
use stonks.Types.Time.{Time}
use stonks.Types.Period.{contains}
use stonks.TickerValidity.Facts.{Assertion, better}
use stonks.TickerValidity.Winners.{Winner, Ranked, day_of, best_of, append_winner}
use stonks.TickerValidity.Winners.Better.{best_of-All, best_of-Unbeaten, day_of-All, All-day_of}

-- Newest first: each winner is nonempty, ends by `b`, and the one before it ends by its start.
abbrev pub Chain : Time → List (ℕ × Winner) → Type 0
Chain b [] = Unit
Chain b ((i, w) ∷ out) = (w.before ≤ b) × (w.from < w.before) × Chain w.from out

pub Chain-mono : (a b : Time) (out : List (ℕ × Winner)) → a ≤ b → Chain a out → Chain b out
Chain-mono a b [] h s = tt
Chain-mono a b ((i, w) ∷ out) h s = (omega arith, s.1, s.2)

pub append_winner-Chain :
    (cut : ℕ → Bool) (from before : Time) (best : Ranked) (out : List (ℕ × Winner))
    → from < before
    → Chain from out
    → Chain before (append_winner cut from before best out)
unfolding append_winner
append_winner-Chain cut from before best [] h s = (omega arith, h, tt)
append_winner-Chain cut from before best ((i, w) ∷ out) h s = ground arith

-- One of the assertions holds the day.
abbrev pub any_holds : List Ranked → Time → Bool
any_holds rs d = any (λ r. contains r.assertion.period d) rs

-- None of the assertions that hold the day beats `a`, which holds it too.
abbrev pub IsBestOn : List Ranked → Time → Assertion → Type 0
IsBestOn rs d a =
    (contains a.period d ≡ true)
    × All (λ r. contains r.assertion.period d ≡ true → better r.assertion a ≡ false) rs

-- No bound of the assertion lies strictly between the days `from` and `before`.
abbrev pub IsOutside : Time → Time → Ranked → Type 0
IsOutside from before r =
    ((r.assertion.period.from ≤ from) ⊎ (before ≤ r.assertion.period.from))
    × ((r.assertion.period.before ≤ from) ⊎ (before ≤ r.assertion.period.before))

same_day :
    (from before d : Time) (r : Ranked)
    → IsOutside from before r
    → from ≤ d
    → d < before
    → contains r.assertion.period d ≡ contains r.assertion.period from
unfolding contains
same_day from before d r h k l = ground arith

pub any_holds-same_day :
    (from before d : Time) (rs : List Ranked)
    → All (IsOutside from before) rs
    → from ≤ d
    → d < before
    → any_holds rs d ≡ any_holds rs from
any_holds-same_day from before d [] h k l = refl
any_holds-same_day from before d (r ∷ rs) h k l =
    ground (arith, same_day from before d r h.0, any_holds-same_day from before d rs h.1)

pub any-false→All :
    {A : Type 0} (f : A → Bool) (xs : List A) → any f xs ≡ false → All (λ x. f x ≡ false) xs
any-false→All f [] h = tt
any-false→All f (x ∷ xs) h = (ground arith, any-false→All f xs (ground arith))

module _ (rs : List Ranked) (from before : Time) (best : Ranked)
    (found : best_of (day_of from rs) ≡ some best) where
  pub best-holds : contains best.assertion.period from ≡ true
  best-holds =
      best_of-All (λ r. contains r.assertion.period from ≡ true) (day_of from rs) best found
        (All-mono (λ r h. h.0) _ (day_of-All (λ r. Unit {0}) from rs (trivial rs)))
    where
      trivial : (xs : List Ranked) → All (λ r. Unit {0}) xs
      trivial [] = tt
      trivial (x ∷ xs) = (tt, trivial xs)

  pub any_holds-found : any_holds rs from ≡ true
  any_holds-found = elim (Bool-cases (any_holds rs from)) [
    | inl e ↦ e
    | inr e ↦
        let missing =
          best_of-All
            (λ r.
              (contains r.assertion.period from ≡ true)
              × (contains r.assertion.period from ≡ false))
            (day_of from rs) best found
            (day_of-All (λ r. contains r.assertion.period from ≡ false) from rs
              (any-false→All _ rs e)) in
        ground (arith, missing.0, missing.1)
  ]

  -- The best of the first day is the best of every day of the run.
  pub best-IsBestOn :
      (d : Time)
      → All (IsOutside from before) rs
      → from ≤ d
      → d < before
      → IsBestOn rs d best.assertion
  best-IsBestOn d out k l = (
    same_day from before d best outside k l ∙ best-holds,
    each rs out (
        All-day_of (λ r. better r.assertion best.assertion ≡ false) from rs
          (best_of-Unbeaten _ best found)),
  )
    where
      outside : IsOutside from before best
      outside =
          best_of-All (IsOutside from before) (day_of from rs) best found
            (All-mono (λ r h. h.1) _ (day_of-All (IsOutside from before) from rs out))

      each :
          (xs : List Ranked)
          → All (IsOutside from before) xs
          → All
              (λ r.
                contains r.assertion.period from ≡ true → better r.assertion best.assertion ≡ false)
              xs
          → All
              (λ r.
                contains r.assertion.period d ≡ true → better r.assertion best.assertion ≡ false)
              xs
      each [] o h = tt
      each (x ∷ xs) o h = (λ g. h.0 (sym (same_day from before d x o.0 k l) ∙ g), each xs o.1 h.1)
