-- ===== src/TickerValidity/Current.antt =====
-- What the later answers of each source leave of the assertions: `edges`, `clip` and `current` of
-- server/internal/identity/tickervalidity/derive.go.
pub mod Clip
pub mod Rounds
pub mod Later
use stonks.Base.{
  ℕ, zero, suc, Bool, true, false, not, ◌&&◌, ◌||◌, List, [], ◌∷◌, ◌++◌, map, ltb, leb, ◌==◌,
  if◌then◌else◌, flat_map, filter_b,
}
use stonks.Base.Order.{stable_sort}
use stonks.Types.Time.{Time, prev}
use stonks.Types.Period.{Period, union, any_contains}
use stonks.TickerValidity.Facts.{Source, Assertion, Edge, group, newer, source_eq}

-- The edges that one assertion states.
unfoldable pub edges_of : Assertion → List Edge
edges_of a =
    (if a.edge_from then record { at = a.period.from; assertion = a } ∷ [] else [])
    ++ (if a.edge_before then record { at = a.period.before; assertion = a } ∷ [] else [])

unfoldable pub edges : List Assertion → List Edge
unfolding edges_of
edges = flat_map edges_of

-- The piece of `a` from `from` up to `before`; an edge stays on a bound of `a` only.
unfoldable pub piece : Assertion → Time → Time → List Assertion
piece a from before =
    if ltb from before
    then record a {
      period = record { from = from; before = before };
      edge_from = a.edge_from && from == a.period.from;
      edge_before = a.edge_before && before == a.period.before;
    }
      ∷ []
    else []

-- The loop of `clip`: the days of `a` before `from` are accounted for.
unfoldable pub clip_from : Assertion → Time → List Period → List Assertion
unfolding piece
clip_from a from [] = piece a from a.period.before
clip_from a from (t ∷ ts) =
    let skipped = clip_from a from ts in
    let rest = clip_from a t.before ts in
    if leb t.before from
    then skipped
    else if leb a.period.before t.from
    then piece a from a.period.before
    else if ltb from t.from
    then piece a from t.from ++ rest
    else rest

unfoldable pub clip : Assertion → List Period → List Assertion
unfolding clip_from
clip a taken = clip_from a a.period.from taken

-- An edge is kept unless later answers hold the days on both its sides.
unfoldable pub kept_edges : List Period → Assertion → List Edge
unfolding edges_of
kept_edges later a =
    filter_b (λ e. not (any_contains later (prev e.at)) || not (any_contains later e.at))
      (edges_of a)

-- The periods that the answers so far take, by grouped source.
abbrev pub Taken : Type 0
Taken = Source → List Period

unfoldable pub none_taken : Taken
none_taken g = []

-- taken[g] = append(taken[g], ps...)
take_more : Source → List Period → Taken → Taken
take_more g ps taken h = if source_eq g h then taken h ++ ps else taken h

-- The reach of an answer: the period of its assertion, and that of its request where it has one.
unfoldable pub reach : Assertion → List Period
reach a =
    a.period ∷ (if ltb a.source.asked.from a.source.asked.before then a.source.asked ∷ [] else [])

unfoldable pub take_all : List Assertion → Taken → Taken
unfolding take_more reach
take_all [] taken = taken
take_all (a ∷ rest) taken = take_all rest (take_more (group a.source) (reach a) taken)

pub record Placed : Type 0 where
  pub index : ℕ
  pub assertion : Assertion

pub record Left : Type 0 where
  pub index : ℕ
  pub pieces : List Assertion
  pub kept : List Edge

unfoldable pub left_by : Taken → Placed → Left
unfolding clip kept_edges
left_by taken p =
    let later = union (taken (group p.assertion.source)) in
    record { index = p.index; pieces = clip p.assertion later; kept = kept_edges later p.assertion }

-- The loop over the answers, newest first. `batch` holds the answers read so far that are as new
-- as `head`: they meet the same taken days, and then take their own reach together.
unfoldable pub rounds : Taken → Placed → List Placed → List Placed → List Left
rounds taken head batch [] = map (left_by taken) batch
rounds taken head batch (p ∷ ps) = elim (newer head.assertion.source p.assertion.source) [
  | true ↦
      map (left_by taken) batch
      ++ rounds (take_all (map (λ q. q.assertion) batch) taken) p (p ∷ []) ps
  | false ↦ rounds taken head (batch ++ p ∷ []) ps
]

unfoldable pub start_rounds : List Placed → List Left
unfolding rounds
start_rounds [] = []
start_rounds (p ∷ ps) = rounds none_taken p (p ∷ []) ps

unfoldable pub place_from : ℕ → List Assertion → List Placed
place_from i [] = []
place_from i (a ∷ rest) = record { index = i; assertion = a } ∷ place_from (suc i) rest

-- Newest first; answers of one moment and id keep the order of the assertions.
unfoldable pub by_newest : List Placed → List Placed
unfolding stable_sort newer
by_newest = stable_sort (λ p q. not (newer q.assertion.source p.assertion.source))

-- The slots `pieces` and `kept` are filled by index, and read in order of index.
unfoldable pub lefts : List Assertion → List Left
unfolding start_rounds by_newest place_from stable_sort left_by take_all none_taken
lefts assertions =
    stable_sort (λ (l m : Left). leb l.index m.index)
      (start_rounds (by_newest (place_from 0 assertions)))

unfoldable pub current : List Assertion → List Assertion × List Edge
unfolding lefts
current assertions =
    let ls = lefts assertions in (flat_map (λ l. l.pieces) ls, flat_map (λ l. l.kept) ls)
