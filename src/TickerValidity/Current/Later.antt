-- ===== src/TickerValidity/Current/Later.antt =====
-- What `current` keeps of the assertions.
use stonks.Base.{
  ℕ, Bool, not, ◌&&◌, ◌||◌, Option, List, [], ◌∷◌, map, ◌≡◌, refl, ap, ap₂, ◌∙◌, arith, All-mono,
  any, any-append, filter_b, suc,
}
use stonks.Base.Any.{any-ext, any-filter_b, any-and_of_All, any-stable_sort, any-map, any-flat_map}
use stonks.Types.Time.{Time}
use stonks.Types.Period.{Period, contains, union, any_contains}
use stonks.Types.Period.Union.{any_contains-union, union-IsApart}
use stonks.TickerValidity.Facts.{Id128, Source, Assertion, group, newer, source_eq}
use stonks.TickerValidity.Current.{
  Taken, Placed, left_by, none_taken, take_more, take_all, reach, start_rounds, place_from,
  by_newest, lefts, current, clip,
}
use stonks.TickerValidity.Current.Clip.{holds-clip, clip-IsPieceOf}
use stonks.TickerValidity.Current.Rounds.{
  taken_before, newer_than, placed_assertion, by_newest-IsByNewest, start_rounds-lem,
}

-- A later answer of the source of `a` reaches the day `t`.
abbrev pub reached_later : List Assertion → Assertion → Time → Bool
reached_later all a t =
    any
      (λ b.
        newer b.source a.source
        && (source_eq (group b.source) (group a.source) && any_contains (reach b) t))
      all

any_contains-take_more :
    (h g : Source) (ps : List Period) (taken : Taken) (t : Time)
    → any_contains (take_more h ps taken g) t
      ≡ (any_contains (taken g) t || (source_eq h g && any_contains ps t))
unfolding take_more any_contains
any_contains-take_more h g ps taken t = ground (arith, any-append (λ p. contains p t) (taken g) ps)

any_contains-take_all :
    (xs : List Assertion) (taken : Taken) (g : Source) (t : Time)
    → any_contains (take_all xs taken g) t ≡ (
        any_contains (taken g) t
        || any (λ b. source_eq (group b.source) g && any_contains (reach b) t) xs)
unfolding take_all
any_contains-take_all [] taken g t = ground arith
any_contains-take_all (x ∷ xs) taken g t =
    any_contains-take_all xs (take_more (group x.source) (reach x) taken) g t
    ∙ rw (any_contains-take_more (group x.source) g (reach x) taken t) (ground arith)

any-place_from :
    (f : Assertion → Bool) (i : ℕ) (xs : List Assertion)
    → any (λ p. f p.assertion) (place_from i xs) ≡ any f xs
unfolding place_from
any-place_from f i [] = refl
any-place_from f i (x ∷ xs) = ap (◌||◌ (f x)) (any-place_from f (suc i) xs)

any-by_newest :
    (f : Assertion → Bool) (xs : List Assertion)
    → any (λ p. f p.assertion) (by_newest (place_from 0 xs)) ≡ any f xs
unfolding by_newest
any-by_newest f xs = any-stable_sort _ _ (place_from 0 xs) ∙ any-place_from f 0 xs

module _ (f : Option Id128 → Source → Bool) (t : Time) where
  abbrev named : Assertion → Bool
  named x = contains x.period t && f x.instr x.source

  any-clip :
      (a : Assertion) (later : List Period)
      → any named (clip a (union later))
        ≡ ((contains a.period t && not (any_contains later t)) && f a.instr a.source)
  any-clip a later =
      any-and_of_All (λ x. contains x.period t) (λ x. f x.instr x.source) (f a.instr a.source) _
        (All-mono (λ x h. ap₂ f h.0 h.1) _ (clip-IsPieceOf a (union later)))
      ∙ ap (λ b. b && f a.instr a.source)
          (holds-clip a (union later) t (union-IsApart later)
            ∙ ap (λ b. contains a.period t && not b) (any_contains-union later t))

  any_contains-taken_before :
      (all : List Assertion) (p : Placed)
      → any_contains
          (taken_before none_taken (by_newest (place_from 0 all)) p (group p.assertion.source))
          t
        ≡ reached_later all p.assertion t
  unfolding none_taken any_contains
  any_contains-taken_before all p =
      any_contains-take_all (map placed_assertion (filter_b (newer_than p) ps)) none_taken
        (group p.assertion.source) t
      ∙ any-map reaches placed_assertion (filter_b (newer_than p) ps)
      ∙ any-filter_b (λ q. reaches q.assertion) (newer_than p) ps
      ∙ any-by_newest (λ b. newer b.source p.assertion.source && reaches b) all
    where
      ps : List Placed
      ps = by_newest (place_from 0 all)

      reaches : Assertion → Bool
      reaches b = source_eq (group b.source) (group p.assertion.source) && any_contains (reach b) t

  -- The pieces that an answer is left, at its place.
  any-left_by :
      (all : List Assertion) (p : Placed)
      → any named (left_by (taken_before none_taken (by_newest (place_from 0 all)) p) p).pieces ≡ (
          (contains p.assertion.period t && not (reached_later all p.assertion t))
          && f p.assertion.instr p.assertion.source)
  unfolding left_by
  any-left_by all p =
      any-clip p.assertion
        (taken_before none_taken (by_newest (place_from 0 all)) p (group p.assertion.source))
      ∙ ap (λ b. (contains p.assertion.period t && not b) && f p.assertion.instr p.assertion.source)
          (any_contains-taken_before all p)

  -- `current` keeps the day `t` of an assertion exactly where no later answer of the assertion's
  -- source reaches the day. So it is for the assertions of each instrument and source that the test
  -- `f` selects.
  pub current-reached_later :
      (all : List Assertion)
      → any (λ x. contains x.period t && f x.instr x.source) (current all).0
        ≡ any (λ a. (contains a.period t && not (reached_later all a t)) && f a.instr a.source) all
  unfolding current
  current-reached_later all =
      any-flat_map named (λ l. l.pieces) (lefts all)
      ∙ any-stable_sort _ _ (start_rounds ps)
      ∙ ap (any (λ l. any named l.pieces))
          (start_rounds-lem ps (by_newest-IsByNewest (place_from 0 all)))
      ∙ any-map (λ l. any named l.pieces) (λ p. left_by (taken_before none_taken ps p) p) ps
      ∙ any-ext _ _ (any-left_by all) ps
      ∙ any-by_newest
          (λ a. (contains a.period t && not (reached_later all a t)) && f a.instr a.source) all
    where
      ps : List Placed
      ps = by_newest (place_from 0 all)
