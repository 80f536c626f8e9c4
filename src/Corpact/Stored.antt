-- ===== src/Corpact/Stored.antt =====
-- The stored answers of tickers: `Read` and `toAct` of server/internal/corpact/read.go, and `Markets`
-- of server/internal/corpact/calendar.go. The generated queries are a parameter; a query that fails
-- returns none.
pub mod Within
use Prim.Native.String.{String}
use text.Mathlib.Text.{◌==◌ as str_eq}
use stonks.Base.{
  ℕ, Bool, true, false, ◌&&◌, Option, none, some, List, [], ◌∷◌, ◌++◌, map, filter_b, ◌==◌, ◌>>=◌,
  if◌then◌else◌,
}
use stonks.Types.Time.{Time}
use stonks.Types.Period.{Period, clip}
use stonks.Types.MarketTicker.{MarketTicker, ByTicker, update, distinct}
use stonks.Corpact.{Act, Decision, undecided, unknown}
use stonks.Corpact.Days.{remove}

pub record Answer (D : Type 0) : Type 0 where
  pub datasource : String
  pub acts : List (Act D)
  pub coverage : List Period

-- A row of corp_act_answers with its ticker.
pub record AnswerRow : Type 0 where
  pub id : ℕ
  pub datasource : String
  pub covered_from : Option Time
  pub covered_before : Option Time
  pub ticker : MarketTicker

-- A row of corp_acts.
pub record ActRow (D : Type 0) : Type 0 where
  pub answer_id : ℕ
  pub id : ℕ
  pub ex_date : Time
  pub ratio_from : D
  pub ratio_to : D
  pub word : Option String
  pub handled : Bool
  pub decision : Option Decision

pub record ReadQueries (D : Type 0) : Type 0 where
  pub list_corp_act_answers : List MarketTicker → Option (List AnswerRow)
  pub list_corp_acts : List MarketTicker → Period → Option (List (ActRow D))
  -- The market of each instrument that has one.
  pub list_instr_markets : List ℕ → Option (List (ℕ × String))

abbrev pub or_else {ℓ} : {A : Type ℓ} → A → Option A → A
or_else d none = d
or_else d (some a) = a

unfoldable pub to_act : {D : Type 0} → ActRow D → Act D
to_act e = record {
  id = e.id;
  ex_date = e.ex_date;
  ratio = record { from = e.ratio_from; to = e.ratio_to };
  word = or_else "" e.word;
  handled = e.handled;
  decision = or_else undecided e.decision;
}

abbrev pub covered : Option Time → Option Time → List Period
covered none b = []
covered (some f) none = []
covered (some f) (some b) = record { from = f; before = b } ∷ []

unfoldable pub answer_of : {D : Type 0} → AnswerRow → Answer D
answer_of row = record {
  datasource = row.datasource;
  acts = [];
  coverage = covered row.covered_from row.covered_before;
}

-- stored[t] = s
unfoldable pub store_rows :
    {D : Type 0} → List AnswerRow → ByTicker (Answer D) → ByTicker (Answer D)
unfolding update answer_of
store_rows [] stored = stored
store_rows (row ∷ rows) stored =
    store_rows rows (update (answer_of row) (λ s. answer_of row) row.ticker stored)

-- byID: a later row takes the place of an earlier one.
unfoldable pub by_id : ℕ → List AnswerRow → Option MarketTicker
by_id id [] = none
by_id id (row ∷ rows) = elim (by_id id rows) [
  | some t ↦ some t
  | none ↦ if row.id == id then some row.ticker else none
]

abbrev no_answer : {D : Type 0} → Answer D
no_answer = record { datasource = ""; acts = []; coverage = [] }

unfoldable pub store_acts :
    {D : Type 0} → List AnswerRow → List (ActRow D) → ByTicker (Answer D) → ByTicker (Answer D)
unfolding by_id update to_act
store_acts rows [] stored = stored
store_acts rows (e ∷ es) stored = elim (by_id e.answer_id rows) [
  | none ↦ store_acts rows es stored
  | some t ↦
      store_acts rows es
        (update no_answer (λ a. record a { acts = a.acts ++ to_act e ∷ [] }) t stored)
]

-- The periods that `p` holds part of, clipped to it.
unfoldable pub clip_all : Period → List Period → List Period
unfolding clip
clip_all p [] = []
clip_all p (c ∷ cs) =
    let (r, held) = clip c p in let rest = clip_all p cs in if held then r ∷ rest else rest

unfoldable pub unknown_days : {D : Type 0} → List (Act D) → List Time
unfolding unknown
unknown_days acts = map (λ e. e.ex_date) (filter_b unknown acts)

abbrev pub is_empty {ℓ} : {A : Type ℓ} → List A → Bool
is_empty [] = true
is_empty (x ∷ xs) = false

-- The last loop of Read.
unfoldable pub within : {D : Type 0} → Period → ByTicker (Answer D) → ByTicker (Answer D)
unfolding clip_all unknown_days remove
within p [] = []
within p ((t, a) ∷ stored) =
    let cov = clip_all p (remove a.coverage (unknown_days a.acts)) in
    let rest = within p stored in
    if is_empty cov && is_empty a.acts then rest else (t, record a { coverage = cov }) ∷ rest

unfoldable pub read :
    {D : Type 0} → ReadQueries D → List MarketTicker → Period → Option (ByTicker (Answer D))
unfolding within store_acts store_rows distinct
read q ts p = elim (distinct ts) [
  | [] ↦ some []
  | t ∷ rest ↦ do
    rows ← q.list_corp_act_answers (t ∷ rest)
    elim rows [
      | [] ↦ some []
      | r ∷ rs ↦ do
        acts ← q.list_corp_acts (t ∷ rest) p
        some (within p (store_acts (r ∷ rs) acts (store_rows (r ∷ rs) [])))
    ]
]

-- out[row.InstrID] = row.Market: a later row takes the place of an earlier one.
unfoldable pub market_of : ℕ → List (ℕ × String) → Option String
market_of i [] = none
market_of i ((j, m) ∷ rows) = elim (market_of i rows) [
  | some n ↦ some n
  | none ↦ if j == i then some m else none
]

-- markets[i] == m, where a missing instrument has the market "".
unfoldable pub market_is : List (ℕ × String) → ℕ → String → Bool
unfolding market_of
market_is rows i m = str_eq (or_else "" (market_of i rows)) m

unfoldable pub markets : {D : Type 0} → ReadQueries D → List ℕ → Option (List (ℕ × String))
markets q [] = some []
markets q (i ∷ is) = q.list_instr_markets (i ∷ is)
