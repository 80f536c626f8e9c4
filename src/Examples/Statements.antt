-- ===== src/Examples/Statements.antt =====
-- The theorems of the statements at an example: a row and a split of one key, whose identifiers are
-- stated in two orders.
use Prim.Native.String.{String}
use stonks.Base.{All, false, Option, ℕ, ◌*◌, ◌+◌, none, some, List, [], ◌∷◌, ◌≡◌, ◌↔◌, refl}
use stonks.Base.In.{In}
use stonks.Base.Order.{stable_sort, insert_sorted}
use stonks.Base.Sorted.{SameMembers}
use stonks.Types.AssetClass.{AssetClass}
use stonks.Types.Identifier.{
  Identifier, isin, mic_ticker, trait, exclusive, IdentifierType-discrete,
}
use stonks.Types.Time.{Time, day, day_length}
use stonks.Currency.{Families, known}
use stonks.Identity.Group.{identifier_eq}
use stonks.Identity.Resolve.Claim.{type_eq}
use stonks.Stmt.{FromProto, Result, IdentifierMsg, StatedKeyMsg, Key, RowMsg, SplitMsg}
use stonks.Stmt.Dates.{parse_date, digits, days_in, days_before, date, checked_date}
use stonks.Stmt.Keys.{
  type_word, compare_identifiers, clashing, hold, read_identifier, read_identifiers, key_of,
  key_for,
}
use stonks.Stmt.Keys.Canonical.{stated}
use stonks.Stmt.Keys.Form.{IsAcceptable, key_of-SameMembers, key_of-ok_iff}
use stonks.Stmt.Intern.{class_word, class_part, canon_identifiers, canon, held_at, intern}
use stonks.Stmt.Intern.Canon.{no_zero, IsClean, canon-injective}
use stonks.Stmt.Validate.{
  Statement, Ingestion, read_all, check_row, validate, validate_rows, read_ratio, split, splits,
  create,
}
use stonks.Stmt.Validate.Created.{IsAgainst, StatementHolds, create-Holds}
use stonks.Stmt.Work.{
  Outcome, KeyRow, ResolutionKey, KeyState, Item, Txn, add_date, dates_of, to_resolve, resolve,
  by_key, join_reasons, outcome_of, take_outcomes, write_rows,
}
use stonks.Stmt.Work.Outcomes.{OutcomesOf}
use stonks.Stmt.Work.Written.{Written, resolve-Written}
use stonks.Stmt.Work.Asked.{AreDates, IsAsked, to_resolve-Asked}
use stonks.Stmt.Validate.Accepted.{IsReadable, create-ok_iff}

abbrev apple : IdentifierMsg
apple = record { type = FromProto.value isin; domain = ""; value = "US0378331005" }

abbrev at_nasdaq : IdentifierMsg
at_nasdaq = record { type = FromProto.value mic_ticker; domain = "XNAS"; value = "AAPL" }

abbrev key_msg : List IdentifierMsg → StatedKeyMsg
key_msg ids = record {
  asset_class = FromProto.value AssetClass.stock;
  currency = some "USD";
  identifiers = ids;
}

abbrev key : Key
key = record {
  class = some AssetClass.stock;
  currency = some "USD";
  identifiers =
      record { type = isin; domain = ""; value = "US0378331005" }
      ∷ record { type = mic_ticker; domain = "XNAS"; value = "AAPL" }
      ∷ [];
}

first-key : key_of "ibkr" (key_msg (apple ∷ at_nasdaq ∷ [])) ≡ Result.ok key
unfolding key_of read_identifiers read_identifier hold clashing type_eq identifier_eq
    IdentifierType-discrete exclusive trait stable_sort insert_sorted compare_identifiers type_word
first-key = refl

second-key : key_of "ibkr" (key_msg (at_nasdaq ∷ apple ∷ at_nasdaq ∷ [])) ≡ Result.ok key
unfolding key_of read_identifiers read_identifier hold clashing type_eq identifier_eq
    IdentifierType-discrete exclusive trait stable_sort insert_sorted compare_identifiers type_word
second-key = refl

orders-SameMembers :
    SameMembers (stated (apple ∷ at_nasdaq ∷ [])) (stated (at_nasdaq ∷ apple ∷ at_nasdaq ∷ []))
orders-SameMembers x = (to x, from x)
  where
    to :
        (x : Identifier)
        → In x (stated (apple ∷ at_nasdaq ∷ []))
        → In x (stated (at_nasdaq ∷ apple ∷ at_nasdaq ∷ []))
    to _ In.here = In.there In.here
    to _ (In.there In.here) = In.here
    to x (In.there (In.there m)) = elim m [ ]

    from :
        (x : Identifier)
        → In x (stated (at_nasdaq ∷ apple ∷ at_nasdaq ∷ []))
        → In x (stated (apple ∷ at_nasdaq ∷ []))
    from _ In.here = In.there In.here
    from _ (In.there In.here) = In.here
    from _ (In.there (In.there In.here)) = In.there In.here
    from x (In.there (In.there (In.there m))) = elim m [ ]

key_of-SameMembers_example : Path Key key key
key_of-SameMembers_example =
    key_of-SameMembers "ibkr" (key_msg (apple ∷ at_nasdaq ∷ []))
      (key_msg (at_nasdaq ∷ apple ∷ at_nasdaq ∷ [])) key key first-key second-key refl refl
      orders-SameMembers

key_of-ok_iff_example :
    ((k : Key) × (key_of "ibkr" (key_msg (apple ∷ at_nasdaq ∷ [])) ≡ Result.ok k))
    ↔ IsAcceptable "ibkr" (key_msg (apple ∷ at_nasdaq ∷ []))
key_of-ok_iff_example = key_of-ok_iff "ibkr" (key_msg (apple ∷ at_nasdaq ∷ []))

key-IsClean : IsClean key
unfolding no_zero
key-IsClean = (refl, ((refl, refl), ((refl, refl), tt)))

canon-injective_example : Path Key key key
canon-injective_example = canon-injective key key key-IsClean key-IsClean refl

abbrev row : RowMsg
row = record {
  key = some (key_msg (at_nasdaq ∷ apple ∷ []));
  order_date = "2026-01-05";
  settlement_date = "2026-01-07";
  as_at = "2026-01-05";
  quantity = "10";
}

abbrev doubling : SplitMsg
doubling = record {
  key = some (key_msg (apple ∷ at_nasdaq ∷ []));
  effective_date = "2026-01-09";
  quantity = "10";
  ratio = none;
}

abbrev at_day : ℕ → Time
at_day n = n * day_length

-- The decimals are their texts, each currency is a family, and it is the afternoon of 2026-02-01.
abbrev read_text : String → Option String
read_text s = some s

abbrev families : Families
families c = some c

abbrev ibkr : FromProto String
ibkr = FromProto.value "ibkr"

abbrev now : Time
now = at_day 740016 + 5

abbrev statement : Statement String
statement = record {
  rows =
      Result.ok (record {
        key = 0;
        order = at_day 739986;
        settlement = at_day 739988;
        as_at = at_day 739986;
        quantity = "10";
      })
      ∷ [];
  splits = record { key = 0; effective = at_day 739990; quantity = "10"; ratio = none } ∷ [];
  keys = key ∷ [];
}

statement-made :
    create String read_text families ibkr now "2026-01-01" "2026-02-01" (row ∷ []) (doubling ∷ [])
    ≡ Result.ok statement
unfolding create read_all parse_date digits days_in days_before date checked_date day validate_rows
    validate check_row splits split read_ratio key_for known intern held_at canon canon_identifiers
    class_part class_word key_of read_identifiers read_identifier hold clashing type_eq
    identifier_eq IdentifierType-discrete exclusive trait stable_sort insert_sorted
    compare_identifiers type_word
statement-made = refl

create-Holds_example :
    (g : Ingestion) × IsAgainst String read_text families ibkr now "2026-01-01" "2026-02-01" g
    × StatementHolds String read_text g (row ∷ []) (doubling ∷ []) statement
create-Holds_example =
    create-Holds String read_text statement families ibkr now "2026-01-01" "2026-02-01" (row ∷ [])
      (doubling ∷ []) statement-made

create-ok_iff_example :
    ((st : Statement String) × (create String read_text families ibkr now "2026-01-01" "2026-02-01"
          (row ∷ [])
          (doubling ∷ [])
        ≡ Result.ok st))
    ↔ ((g : Ingestion) × IsAgainst String read_text families ibkr now "2026-01-01" "2026-02-01" g
        × All (IsReadable String read_text g) (doubling ∷ []))
create-ok_iff_example =
    create-ok_iff String read_text families ibkr now "2026-01-01" "2026-02-01" (row ∷ [])
      (doubling ∷ [])

abbrev key_rows : List KeyRow
key_rows = record { id = 7; has_instr = false } ∷ []

-- The resolver rejecting the key.
abbrev rejecting : List (KeyRow × List Time) → Option (List ResolutionKey)
rejecting asked =
    some (record { stated_key = 7; outcome = Outcome.rejected; reasons = "a" ∷ "b" ∷ [] } ∷ [])

abbrev states : List KeyState
states = record { id = 7; outcome = some Outcome.rejected; reason = "a; b" } ∷ []

made-resolved : resolve String rejecting key_rows statement.rows ≡ some states
unfolding resolve to_resolve dates_of add_date take_outcomes outcome_of by_key join_reasons
made-resolved = refl

resolve-Written_example :
    (g : Ingestion) × IsAgainst String read_text families ibkr now "2026-01-01" "2026-02-01" g
    × ((out : List ResolutionKey) × (rejecting (to_resolve String 0 key_rows statement.rows)
          ≡ some out)
        × OutcomesOf out key_rows states)
    × ((items : List Item) × (txns : List (Txn String)) × (write_rows String states 0 statement.rows
          ≡ some (items, txns))
        × Written String read_text g (key ∷ []) states 0 (row ∷ []) items txns)
resolve-Written_example =
    resolve-Written String read_text families ibkr now "2026-01-01" "2026-02-01" (row ∷ [])
      (doubling ∷ []) statement rejecting key_rows states statement-made refl made-resolved

to_resolve-Asked_example :
    (In
        (record { id = 7; has_instr = false }, at_day 739986 ∷ [])
        (to_resolve String 0 key_rows statement.rows)
      ↔ IsAsked String 0 key_rows statement.rows
          (record { id = 7; has_instr = false }, at_day 739986 ∷ []))
    × ((i : ℕ) → AreDates String i statement.rows (dates_of String i statement.rows []))
to_resolve-Asked_example =
    to_resolve-Asked String key_rows statement.rows
      (record { id = 7; has_instr = false }, at_day 739986 ∷ [])
