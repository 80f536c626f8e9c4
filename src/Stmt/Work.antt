-- ===== src/Stmt/Work.antt =====
-- resolve of server/internal/stmt/stmt.go and the rows of write of server/internal/stmt/write.go: what
-- becomes of the rows of a statement. The resolver is a parameter, which returns none where it fails.
-- The times and ids that the writes add, and the queries, are left out.
pub mod Outcomes
pub mod Written
pub mod Asked
use Prim.Native.String.{String, ◌++◌ as ◌<>◌}
use text.Mathlib.Text.{◌==◌ as str_eq}
use stonks.Base.{
  ℕ, suc, Bool, true, false, not, ◌&&◌, ◌==◌, Option, none, some, List, [], ◌∷◌, ◌++◌, any,
  get_elem?, ◌>>=◌, if◌then◌else◌,
}
use stonks.Types.Time.{Time}
use stonks.Stmt.{Result}
use stonks.Stmt.Validate.{RowError, Row}

pub data Outcome : Type 0 where
  matched rejected unrecognised unavailable : Outcome

-- The row of a key that is prepared: its id, and whether it has an instrument.
pub record KeyRow : Type 0 where
  pub id : ℕ
  pub has_instr : Bool

-- What the resolution records of a key.
pub record ResolutionKey : Type 0 where
  pub stated_key : ℕ
  pub outcome : Outcome
  pub reasons : List String

-- A key once it is resolved, with no outcome where it had an instrument.
pub record KeyState : Type 0 where
  pub id : ℕ
  pub outcome : Option Outcome
  pub reason : String

-- strings.Join with "; "
unfoldable pub join_reasons : List String → String
join_reasons [] = ""
join_reasons (r ∷ []) = r
join_reasons (r ∷ s ∷ rs) = r <> ("; " <> join_reasons (s ∷ rs))

-- The last record of a key, which its entry in the map holds.
unfoldable pub by_key : List ResolutionKey → ℕ → Option ResolutionKey
by_key [] id = none
by_key (rk ∷ out) id = elim (by_key out id) [
  | some later ↦ some later
  | none ↦ if rk.stated_key == id then some rk else none
]

abbrev pub resolved : KeyRow → ResolutionKey → KeyState
resolved k rk = record { id = k.id; outcome = some rk.outcome; reason = join_reasons rk.reasons }

abbrev pub associated : KeyRow → KeyState
associated k = record { id = k.id; outcome = none; reason = "" }

-- The outcome of one key; none where the resolution recorded none for it.
unfoldable pub outcome_of : List ResolutionKey → KeyRow → Option KeyState
unfolding by_key join_reasons
outcome_of out k =
    if k.has_instr
    then some (associated k)
    else elim (by_key out k.id) [ none ↦ none | some rk ↦ some (resolved k rk) ]

unfoldable pub take_outcomes : List ResolutionKey → List KeyRow → Option (List KeyState)
unfolding outcome_of
take_outcomes out [] = some []
take_outcomes out (k ∷ ks) = do s ← outcome_of out k; ss ← take_outcomes out ks; some (s ∷ ss)

abbrev pub is_rejected : Option Outcome → Bool
is_rejected (some rejected) = true
is_rejected _ = false

-- A key whose rows are not accepted: it is rejected, with a reason.
abbrev pub refused : KeyState → Bool
refused k = is_rejected k.outcome && not (str_eq k.reason "")

-- Why a row is not accepted: a check of its own, or its key.
pub data Reason : Type 0 where
  invalid : RowError → Reason
  of_key : String → Reason

pub record Item : Type 0 where
  pub ordinal : ℕ
  pub reason : Reason

unfoldable pub add_date : Time → List Time → List Time
add_date t ts = if any (λ u. u == t) ts then ts else ts ++ t ∷ []

module _ (Decimal : Type 0) where
  -- The as-at dates of the rows of a key.
  unfoldable pub dates_of : ℕ → List (Result RowError (Row Decimal)) → List Time → List Time
  unfolding add_date
  dates_of i [] ts = ts
  dates_of i (Result.err e ∷ rows) ts = dates_of i rows ts
  dates_of i (Result.ok row ∷ rows) ts =
      dates_of i rows (if row.key == i then add_date row.as_at ts else ts)

  -- The keys without an instrument, from the place `i` on.
  unfoldable pub to_resolve :
      ℕ → List KeyRow → List (Result RowError (Row Decimal)) → List (KeyRow × List Time)
  unfolding dates_of
  to_resolve i [] rows = []
  to_resolve i (k ∷ ks) rows =
      let rest = to_resolve (suc i) ks rows in
      if k.has_instr then rest else (k, dates_of i rows []) ∷ rest

  unfoldable pub resolve :
      (List (KeyRow × List Time) → Option (List ResolutionKey))
      → List KeyRow
      → List (Result RowError (Row Decimal))
      → Option (List KeyState)
  unfolding to_resolve take_outcomes
  resolve resolver ks rows = do out ← resolver (to_resolve 0 ks rows); take_outcomes out ks

  pub record Txn : Type 0 where
    pub stated_key : ℕ
    pub order : Time
    pub settlement : Time
    pub as_at : Time
    pub quantity : Decimal

  abbrev pub txn_of : KeyState → Row Decimal → Txn
  txn_of k row = record {
    stated_key = k.id;
    order = row.order;
    settlement = row.settlement;
    as_at = row.as_at;
    quantity = row.quantity;
  }

  -- A row whose key is `k`, before the rows that are written already.
  abbrev pub write_row : ℕ → KeyState → Row Decimal → List Item × List Txn → List Item × List Txn
  write_row n k row (items, txns) =
      if refused k
      then (record { ordinal = n; reason = Reason.of_key k.reason } ∷ items, txns)
      else (items, txn_of k row ∷ txns)

  -- The items and the transactions of the rows; none where a row has no key.
  unfoldable pub write_rows :
      List KeyState → ℕ → List (Result RowError (Row Decimal)) → Option (List Item × List Txn)
  write_rows ks n [] = some ([], [])
  write_rows ks n (Result.err e ∷ rows) = do
    (items, txns) ← write_rows ks (suc n) rows
    some (record { ordinal = n; reason = Reason.invalid e } ∷ items, txns)
  write_rows ks n (Result.ok row ∷ rows) = do
    k ← get_elem? ks row.key
    rest ← write_rows ks (suc n) rows
    some (write_row n k row rest)
