-- ===== src/TickerValidity/Winners.antt =====
-- The winning assertion of each day, and the disagreements: `winners`, `better` and `broken` of
-- server/internal/identity/tickervalidity/derive.go.
pub mod Better
pub mod Days
pub mod Best
pub mod Winning
pub mod Wins
use Prim.Native.String.{String}
use text.Mathlib.Text.{◌==◌ as str_eq}
use stonks.Base.{
  ℕ, zero, suc, Bool, true, false, not, ◌&&◌, ◌||◌, Option, none, some, List, [], ◌∷◌, ◌++◌, map,
  ltb, leb, ◌==◌, if◌then◌else◌, flat_map, filter_b, any, reverse,
}
use stonks.Base.Order.{stable_sort, sort_times, compact}
use stonks.Types.Time.{Time, prev}
use stonks.Types.Period.{Period, contains}
use stonks.TickerValidity.Facts.{Id128, Source, Assertion, Edge, is_attested, same, better}

-- A winner never spans a cut; a missing instrument is nothing.
pub record Winner : Type 0 where
  pub from : Time
  pub before : Time
  pub instr : Option Id128
  pub assertion : Assertion

pub record Disagreement : Type 0 where
  pub period : Period
  pub winner : Assertion
  pub loser : Assertion

pub record BrokenBracket : Type 0 where
  pub edge : Edge
  pub instr : Id128
  pub first : Time
  pub last : Time

abbrev pub is_positive : Assertion → Bool
is_positive a = elim a.instr [ none ↦ false | some i ↦ true ]

-- `earliest`: the first day of the first positive assertion.
unfoldable pub earliest : List Assertion → Option Time
earliest [] = none
earliest (a ∷ rest) = if is_positive a then some a.period.from else earliest rest

-- `first[ds]`: the first day of the first positive assertion of the datasource.
unfoldable pub first_of : String → List Assertion → Option Time
first_of ds [] = none
first_of ds (a ∷ rest) =
    if is_positive a && (not (is_attested a.source) && str_eq a.source.datasource ds)
    then some a.period.from
    else first_of ds rest

abbrev starts_before : Option Time → Time → Bool
starts_before none d = false
starts_before (some t) d = ltb t d

-- Whether an assertion counts beside the assertions `all`, which are in order of first day.
unfoldable pub counts : List Assertion → Assertion → Bool
unfolding earliest first_of
counts all a =
    if is_positive a
    then true
    else if is_attested a.source
    then starts_before (earliest all) a.period.from
    else starts_before (first_of a.source.datasource all) a.period.from

-- An assertion with its position in order of first day.
pub record Ranked : Type 0 where
  pub at : ℕ
  pub assertion : Assertion

unfoldable pub number_from : ℕ → List Assertion → List Ranked
number_from i [] = []
number_from i (a ∷ rest) = record { at = i; assertion = a } ∷ number_from (suc i) rest

unfoldable pub by_first_day : List Assertion → List Assertion
unfolding stable_sort
by_first_day = stable_sort (λ a b. leb a.period.from b.period.from)

unfoldable pub counted : List Assertion → List Ranked
unfolding number_from counts
counted sorted = filter_b (λ r. counts sorted r.assertion) (number_from 0 sorted)

unfoldable pub boundaries : List Ranked → List Edge → List Time
unfolding sort_times compact
boundaries rs es = compact (
    sort_times (
      flat_map (λ r. r.assertion.period.from ∷ r.assertion.period.before ∷ []) rs
      ++ map (λ e. e.at) es))

-- The assertions of one day, in order.
unfoldable pub day_of : Time → List Ranked → List Ranked
day_of d = filter_b (λ r. contains r.assertion.period d)

-- The best so far, over the rest of the day.
unfoldable pub best_from : Ranked → List Ranked → Ranked
best_from best [] = best
best_from best (r ∷ rs) = best_from (if better r.assertion best.assertion then r else best) rs

unfoldable pub best_of : List Ranked → Option Ranked
unfolding best_from
best_of [] = none
best_of (r ∷ rs) = some (best_from r rs)

-- The lists of `winners` as the loop builds them: `out` and `won` from the last, and
-- `disagreements` with `lost` in order.
pub record Sweep : Type 0 where
  pub out : List (ℕ × Winner)
  pub lost : List ((ℕ × ℕ) × Disagreement)

unfoldable pub append_winner :
    (ℕ → Bool) → Time → Time → Ranked → List (ℕ × Winner) → List (ℕ × Winner)
append_winner cut from before best [] =
    (
      best.at,
      record {
        from = from;
        before = before;
        instr = best.assertion.instr;
        assertion = best.assertion;
      },
    )
    ∷ []
append_winner cut from before best ((i, w) ∷ out) =
    if i == best.at && (w.before == from && not (cut from))
    then (i, record w { before = before }) ∷ out
    else (
      best.at,
      record {
        from = from;
        before = before;
        instr = best.assertion.instr;
        assertion = best.assertion;
      },
    )
      ∷ (i, w)
      ∷ out

-- slices.Index(lost, pair): the first disagreement of the pair is extended where it ends at `from`;
-- otherwise a new one is appended.
extend_first :
    Time → Time → ℕ × ℕ → List ((ℕ × ℕ) × Disagreement) → Option (List ((ℕ × ℕ) × Disagreement))
extend_first from before pair [] = none
extend_first from before (i, j) (((i', j'), d) ∷ ds) =
    let later = extend_first from before (i, j) ds in
    if i == i' && j == j'
    then if d.period.before == from
      then some
          (((i', j'), record d { period = record { from = d.period.from; before = before } }) ∷ ds)
      else none
    else elim later [ none ↦ none | some ds' ↦ some (((i', j'), d) ∷ ds') ]

unfoldable pub disagree :
    Time → Time → Ranked → Ranked → List ((ℕ × ℕ) × Disagreement) → List ((ℕ × ℕ) × Disagreement)
unfolding extend_first
disagree from before best r lost = elim (extend_first from before (best.at, r.at) lost) [
  | some ds ↦ ds
  | none ↦
      lost
      ++ (
        (best.at, r.at),
        record {
          period = record { from = from; before = before };
          winner = best.assertion;
          loser = r.assertion;
        },
      )
        ∷ []
]

disagree_all :
    Time
    → Time
    → Ranked
    → List Ranked
    → List ((ℕ × ℕ) × Disagreement)
    → List ((ℕ × ℕ) × Disagreement)
unfolding disagree same
disagree_all from before best [] lost = lost
disagree_all from before best (r ∷ rs) lost = disagree_all from before best rs (
    if is_attested r.assertion.source || same r.assertion.instr best.assertion.instr
    then lost
    else disagree from before best r lost)

-- One round, over the days from `from` up to `before`.
unfoldable pub sweep_day : (ℕ → Bool) → List Ranked → Time → Time → Sweep → Sweep
unfolding day_of best_of append_winner disagree_all
sweep_day cut rs from before s =
    let today = day_of from rs in
    elim (best_of today) [
      | none ↦ s
      | some best ↦ record {
        out = append_winner cut from before best s.out;
        lost =
            if is_attested best.assertion.source
            then s.lost
            else disagree_all from before best today s.lost;
      }
    ]

unfoldable pub sweep_from : (ℕ → Bool) → List Ranked → Time → List Time → Sweep → Sweep
unfolding sweep_day
sweep_from cut rs from [] s = s
sweep_from cut rs from (before ∷ bounds) s =
    sweep_from cut rs before bounds (sweep_day cut rs from before s)

unfoldable pub sweep : (ℕ → Bool) → List Ranked → List Time → Sweep
unfolding sweep_from
sweep cut rs [] = record { out = []; lost = [] }
sweep cut rs (from ∷ bounds) = sweep_from cut rs from bounds (record { out = []; lost = [] })

abbrev pub is_cut : List Edge → Time → Bool
is_cut es d = any (λ e. e.at == d) es

unfoldable pub winners : List Assertion → List Edge → List Winner × List Disagreement
winners assertions es =
    let sorted = by_first_day assertions in
    let rs = counted sorted in
    let s = sweep (is_cut es) rs (boundaries rs es) in
    (reverse (map (λ w. w.1) s.out), map (λ d. d.1) s.lost)

-- The first winner that starts at or after `at`, and the one before it.
bracket : Time → Winner → List Winner → Option (Winner × Winner)
bracket at last [] = none
bracket at last (w ∷ ws) = if leb at w.from then some (last, w) else bracket at w ws

-- An index of zero, or none, is no bracket.
bracket_of : Time → List Winner → Option (Winner × Winner)
unfolding bracket
bracket_of at [] = none
bracket_of at (w ∷ ws) = if leb at w.from then none else bracket at w ws

broken_by : Edge → Option (Winner × Winner) → List BrokenBracket
broken_by e none = []
broken_by e (some (w, v)) = elim w.instr [
  | none ↦ []
  | some i ↦
      if same (some i) v.instr
      then record { edge = e; instr = i; first = prev w.before; last = v.from } ∷ []
      else []
]

unfoldable pub broken : List Winner → List Edge → List BrokenBracket
unfolding bracket_of broken_by
broken ws = flat_map (λ e. broken_by e (bracket_of e.at ws))
