-- ===== src/Corpact/Calendar/Build/Coverage.antt =====
-- Which days and which unknown actions the calendars take from the answers.
use Prim.Native.String.{String}
use stonks.Base.{
  ℕ, Bool, false, ◌&&◌, ◌||◌, List, [], ◌∷◌, ◌≡◌, refl, sym, ap, ◌∙◌, arith, any, any-append,
  filter_b, ◌==◌, ==_iff, Bool-cases, inl, inr,
}
use stonks.Base.Any.{any-filter_b, any-map}
use stonks.Types.Time.{Time}
use stonks.Types.Period
use stonks.Types.Period.{Period, any_contains}
use stonks.Types.Ratio.{Decimals}
use stonks.Types.MarketTicker.{MarketTicker, ByTicker, lookup}
use stonks.TickerValidity.Segments.{Interval}
use stonks.TickerValidity.Intervals
use stonks.TickerValidity.Intervals.Gaps.{contains-clip_interval, clip_interval-empty}
use stonks.Corpact.{Act, unknown}
use stonks.Corpact.Stored.{Answer, market_is, unknown_days, or_else}
use stonks.Corpact.Calendar.Build.{
  Built, held_parts, add_interval, new_calendar, build_at, build_ticker, build,
}

new_entry : (p r q : Bool) → q ≡ false → ((p && (q || r)) || false) ≡ (p && r)
new_entry p r q h = ground (arith, h)

same_entry : (p q r rest : Bool) → ((p && (q || r)) || rest) ≡ (((p && q) || rest) || (p && r))
same_entry p q r rest = ground arith

or_assoc : (p q r : Bool) → (p || (q || r)) ≡ ((p || q) || r)
or_assoc p q r = ground arith

or_false : (r : Bool) → r ≡ (r || false)
or_false r = ground arith

module _ {D : Type 0} (dec : Decimals D) (ms : List (ℕ × String))
    (validity : ByTicker (List Interval)) (i : ℕ) (g : Built D → Bool)
    (n : Answer D → Interval → Bool)
    (grows : (a : Answer D) (iv : Interval) (b : Built D)
      → g (add_interval dec a iv b) ≡ (g b || n a iv))
    (starts : (t : MarketTicker) (a : Answer D) (j : ℕ) → g (new_calendar t a j) ≡ false) where
  abbrev entry : Built D → Bool
  entry b = b.instr == i && g b

  entry-add_interval :
      (a : Answer D) (iv : Interval) (b : Built D)
      → entry (add_interval dec a iv b) ≡ (b.instr == i && (g b || n a iv))
  unfolding add_interval
  entry-add_interval a iv b = ap (λ x. b.instr == i && x) (grows a iv b)

  build_at-any :
      (t : MarketTicker) (a : Answer D) (iv : Interval) (bs : List (Built D))
      → any entry (build_at dec t a iv bs) ≡ (any entry bs || (iv.instr == i && n a iv))
  unfolding build_at
  build_at-any t a iv [] =
      ap (λ x. x || false) (entry-add_interval a iv (new_calendar t a iv.instr))
      ∙ new_entry (iv.instr == i) (n a iv) (g (new_calendar t a iv.instr)) (starts t a iv.instr)
  build_at-any t a iv (b ∷ bs) = elim (Bool-cases (b.instr == iv.instr)) [
    | inl e ↦
        let same : b.instr ≡ iv.instr = (==_iff b.instr iv.instr).0 e in
        rw (e, build_at)
          (ap (λ x. x || any entry bs) (entry-add_interval a iv b)
            ∙ same_entry (b.instr == i) (g b) (n a iv) (any entry bs)
            ∙ ap (λ j. ((b.instr == i && g b) || any entry bs) || (j == i && n a iv)) same)
    | inr e ↦
        rw (e, build_at)
          (ap (λ x. entry b || x) (build_at-any t a iv bs)
            ∙ or_assoc (entry b) (any entry bs) (iv.instr == i && n a iv))
  ]

  -- What an interval adds, where its instrument's market is the ticker's.
  abbrev adds : MarketTicker → Answer D → Interval → Bool
  adds t a iv = market_is ms iv.instr t.market && (iv.instr == i && n a iv)

  build_ticker-any :
      (t : MarketTicker) (a : Answer D) (ivs : List Interval) (built : List (Built D))
      → any entry (build_ticker dec ms t a ivs built) ≡ (any entry built || any (adds t a) ivs)
  unfolding build_ticker
  build_ticker-any t a [] built = or_false (any entry built)
  build_ticker-any t a (iv ∷ ivs) built = elim (Bool-cases (market_is ms iv.instr t.market)) [
    | inl e ↦
        rw (e, build_ticker)
          (build_ticker-any t a ivs (build_at dec t a iv built)
            ∙ ap (λ x. x || any (adds t a) ivs) (build_at-any t a iv built)
            ∙ sym (or_assoc (any entry built) (iv.instr == i && n a iv) (any (adds t a) ivs)))
    | inr e ↦ rw (e, build_ticker) (build_ticker-any t a ivs built)
  ]

  build-any :
      (answers : ByTicker (Answer D)) (built : List (Built D))
      → any entry (build dec ms validity answers built) ≡ (
          any entry built
          || any (λ e. any (adds e.0 e.1) (or_else [] (lookup e.0 validity))) answers)
  unfolding build
  build-any [] built = or_false (any entry built)
  build-any ((t, a) ∷ answers) built =
      let ivs = or_else [] (lookup t validity) in
      build-any answers (build_ticker dec ms t a ivs built)
      ∙ ap (λ x. x || any (λ e. any (adds e.0 e.1) (or_else [] (lookup e.0 validity))) answers)
          (build_ticker-any t a ivs built)
      ∙ sym (or_assoc (any entry built) (any (adds t a) ivs) _)

part_held : (c d r x : Bool) → x ≡ (c && d) → (x || (c && r)) ≡ (c && (d || r))
part_held c d r x h = ground (arith, h)

part_empty : (c d r : Bool) → (c && d) ≡ false → (c && r) ≡ (c && (d || r))
part_empty c d r h = ground (arith, h)

and_false : (c : Bool) → false ≡ (c && false)
and_false c = ground arith

held_parts-days :
    (iv : Interval) (cs : List Period) (x : Time)
    → any_contains (held_parts iv cs) x ≡ (Intervals.contains iv x && any_contains cs x)
unfolding held_parts any_contains
held_parts-days iv [] x = and_false (Intervals.contains iv x)
held_parts-days iv (c ∷ cs) x =
    let ih = held_parts-days iv cs x in
    elim (Bool-cases (Intervals.clip iv c).1) [
      | inl held ↦
          rw (held, held_parts)
            (ap (λ b. Period.contains (Intervals.clip iv c).0 x || b) ih
              ∙ part_held (Intervals.contains iv x) (Period.contains c x) (any_contains cs x) _
                  (contains-clip_interval iv c x))
      | inr empty ↦
          rw (empty, held_parts)
            (ih
              ∙ part_empty (Intervals.contains iv x) (Period.contains c x) (any_contains cs x)
                  (clip_interval-empty iv c x empty))
    ]

grows_coverage :
    {D : Type 0} (dec : Decimals D) (x : Time) (a : Answer D) (iv : Interval) (b : Built D)
    → any_contains (add_interval dec a iv b).calendar.coverage x ≡ (
        any_contains b.calendar.coverage x
        || (Intervals.contains iv x && any_contains a.coverage x))
unfolding add_interval any_contains
grows_coverage dec x a iv b =
    any-append (λ q. Period.contains q x) b.calendar.coverage (held_parts iv a.coverage)
    ∙ ap (λ k. any_contains b.calendar.coverage x || k) (held_parts-days iv a.coverage x)

unknown_days-any :
    {D : Type 0} (x : Time) (acts : List (Act D))
    → any (λ d. d == x) (unknown_days acts) ≡ any (λ u. unknown u && u.ex_date == x) acts
unfolding unknown_days
unknown_days-any x acts =
    any-map (λ d. d == x) (λ u. u.ex_date) (filter_b unknown acts)
    ∙ any-filter_b (λ u. u.ex_date == x) unknown acts

grows_unknown :
    {D : Type 0} (dec : Decimals D) (x : Time) (a : Answer D) (iv : Interval) (b : Built D)
    → any (λ d. d == x) (add_interval dec a iv b).unknown ≡ (
        any (λ d. d == x) b.unknown
        || any (λ u. Intervals.contains iv u.ex_date && (unknown u && u.ex_date == x)) a.acts)
unfolding add_interval
grows_unknown dec x a iv b =
    let held = filter_b (λ u. Intervals.contains iv u.ex_date) a.acts in
    any-append (λ d. d == x) b.unknown (unknown_days held)
    ∙ ap (λ k. any (λ d. d == x) b.unknown || k)
        (unknown_days-any x held
          ∙ any-filter_b (λ u. unknown u && u.ex_date == x) (λ u. Intervals.contains iv u.ex_date)
              a.acts)

module _ {D : Type 0} (dec : Decimals D) (ms : List (ℕ × String))
    (validity : ByTicker (List Interval)) (answers : ByTicker (Answer D)) (i : ℕ) (x : Time) where
  -- Before unknown actions are taken from it, the coverage of an instrument holds a day exactly
  -- where the answer of a ticker covers the day, and the ticker, whose market is the instrument's,
  -- named the instrument on it.
  pub build-coverage :
      any
        (λ b. b.instr == i && any_contains b.calendar.coverage x)
        (build dec ms validity answers [])
      ≡ any
          (λ e.
            any
              (λ iv.
                market_is ms iv.instr e.0.market
                && (iv.instr == i && (Intervals.contains iv x && any_contains e.1.coverage x)))
              (or_else [] (lookup e.0 validity)))
          answers
  unfolding any_contains
  build-coverage =
      build-any dec ms validity i (λ b. any_contains b.calendar.coverage x)
        (λ a iv. Intervals.contains iv x && any_contains a.coverage x) (grows_coverage dec x)
        (λ t a j. refl) answers []

  -- The unknown days of an instrument are the days of the unknown actions that the answer of a
  -- ticker holds, where the ticker, whose market is the instrument's, named the instrument on the
  -- day.
  pub build-unknown :
      any (λ b. b.instr == i && any (λ d. d == x) b.unknown) (build dec ms validity answers [])
      ≡ any
          (λ e.
            any
              (λ iv.
                market_is ms iv.instr e.0.market
                && (iv.instr == i
                    && any
                        (λ u. Intervals.contains iv u.ex_date && (unknown u && u.ex_date == x))
                        e.1.acts))
              (or_else [] (lookup e.0 validity)))
          answers
  build-unknown =
      build-any dec ms validity i (λ b. any (λ d. d == x) b.unknown)
        (λ a iv. any (λ u. Intervals.contains iv u.ex_date && (unknown u && u.ex_date == x)) a.acts)
        (grows_unknown dec x) (λ t a j. refl) answers []
