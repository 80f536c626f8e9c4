-- ===== src/Stmt/Validate.antt =====
-- validate and split of server/internal/stmt/validate.go, and Create of stmt.go up to the start of the
-- run. The clock is read once, at `now`. The decimals are a parameter. A row that is rejected keeps its reason only: what it holds
-- besides is not read.
pub mod Rows
pub mod Created
pub mod Accepted
use Prim.Native.String.{String}
use stonks.Base.{
  Bool, true, false, not, ◌||◌, Option, none, some, List, [], ◌∷◌, ℕ, ltb, if◌then◌else◌,
}
use stonks.Types.Time.{Time, day}
use stonks.Currency.{Families}
use stonks.Stmt.{FromProto, Result, Key, KeyError, RowMsg, RatioMsg, SplitMsg}
use stonks.Stmt.Dates.{parse_date}
use stonks.Stmt.Keys.{key_for}
use stonks.Stmt.Intern.{intern}

pub data RowError : Type 0 where
  malformed_order_date malformed_settlement_date malformed_as_at malformed_quantity outside_period
        after_today malformed_effective_date malformed_ratio_from malformed_ratio_to :
      RowError
  bad_key : KeyError → RowError

-- What a statement is read against.
pub record Ingestion : Type 0 where
  pub broker : String
  pub from : Time
  pub before : Time
  pub today : Time
  pub families : Families

-- A value that is read, or the error of a malformed one.
abbrev pub read_or {ℓ} : {A : Type 0} {B : Type ℓ} → Option A → B → (A → B) → B
read_or none bad go = bad
read_or (some a) bad go = go a

pub data Invalid : Type 0 where
  bad_broker malformed_from malformed_before empty_period : Invalid
  bad_split : RowError → Invalid

abbrev pub broker_of : FromProto String → Option String
broker_of (FromProto.value b) = some b
broker_of _ = none

module _ (Decimal : Type 0) where
  pub record Row : Type 0 where
    pub key : ℕ
    pub order : Time
    pub settlement : Time
    pub as_at : Time
    pub quantity : Decimal

  pub record Split : Type 0 where
    pub key : ℕ
    pub effective : Time
    pub quantity : Decimal
    pub ratio : Option (Decimal × Decimal)

  pub record Statement : Type 0 where
    pub rows : List (Result RowError Row)
    pub splits : List Split
    pub keys : List Key

module _ (Decimal : Type 0) (parse_decimal : String → Option Decimal) where
  -- The checks after the key, with the key in the end.
  unfoldable pub check_row :
      Ingestion
      → RowMsg
      → (Time → Time → Time → Decimal → Row Decimal)
      → Result RowError (Row Decimal)
  unfolding parse_date
  check_row g r row =
      read_or (parse_date r.order_date) (Result.err RowError.malformed_order_date) (λ order.
        read_or (parse_date r.settlement_date) (Result.err RowError.malformed_settlement_date)
          (λ settlement.
            read_or (parse_date r.as_at) (Result.err RowError.malformed_as_at) (λ as_at.
              read_or (parse_decimal r.quantity) (Result.err RowError.malformed_quantity)
                (λ quantity.
                  if ltb order g.from || not (ltb order g.before)
                  then Result.err RowError.outside_period
                  else if ltb g.today order
                  then Result.err RowError.after_today
                  else Result.ok (row order settlement as_at quantity)))))

  -- A row is read, and its key is held once it passes.
  unfoldable pub validate : Ingestion → RowMsg → List Key → Result RowError (Row Decimal) × List Key
  unfolding check_row key_for intern
  validate g r order = elim (key_for g.families g.broker r.key) [
    | Result.err e ↦ (Result.err (RowError.bad_key e), order)
    | Result.ok k ↦
        let (order', i) = intern k order in
        elim (check_row g r
          (λ o s a q. record { key = i; order = o; settlement = s; as_at = a; quantity = q })) [
            | Result.err e ↦ (Result.err e, order)
            | Result.ok row ↦ (Result.ok row, order')
          ]
  ]

  unfoldable pub read_ratio : Option RatioMsg → Result RowError (Option (Decimal × Decimal))
  read_ratio none = Result.ok none
  read_ratio (some r) =
      read_or (parse_decimal r.from) (Result.err RowError.malformed_ratio_from) (λ from.
        read_or (parse_decimal r.to) (Result.err RowError.malformed_ratio_to)
          (λ to. Result.ok (some (from, to))))

  unfoldable pub split :
      Ingestion → SplitMsg → List Key → Result RowError (Split Decimal × List Key)
  unfolding key_for intern parse_date read_ratio
  split g sp order = elim (key_for g.families g.broker sp.key) [
    | Result.err e ↦ Result.err (RowError.bad_key e)
    | Result.ok k ↦
        read_or (parse_date sp.effective_date) (Result.err RowError.malformed_effective_date)
          (λ effective.
            read_or (parse_decimal sp.quantity) (Result.err RowError.malformed_quantity)
              (λ quantity. elim (read_ratio sp.ratio) [
                | Result.err e ↦ Result.err e
                | Result.ok ratio ↦
                    let (order', i) = intern k order in
                    Result.ok (
                      record { key = i; effective = effective; quantity = quantity; ratio = ratio },
                      order',
                    )
              ]))
  ]

  -- The loops of Create over the rows and over the splits, of which the first that fails fails it.
  unfoldable pub validate_rows :
      Ingestion → List RowMsg → List Key → List (Result RowError (Row Decimal)) × List Key
  unfolding validate
  validate_rows g [] order = ([], order)
  validate_rows g (r ∷ rs) order =
      let (row, order') = validate g r order in
      let (rows, order'') = validate_rows g rs order' in (row ∷ rows, order'')

  unfoldable pub splits :
      Ingestion → List SplitMsg → List Key → Result RowError (List (Split Decimal) × List Key)
  unfolding split
  splits g [] order = Result.ok ([], order)
  splits g (sp ∷ sps) order = elim (split g sp order) [
    | Result.err e ↦ Result.err e
    | Result.ok (s, order') ↦ elim (splits g sps order') [
      | Result.err e ↦ Result.err e
      | Result.ok (ss, order'') ↦ Result.ok (s ∷ ss, order'')
    ]
  ]

  -- The rows and the splits of a statement, each in a loop.
  unfoldable pub read_all :
      Ingestion → List RowMsg → List SplitMsg → Result Invalid (Statement Decimal)
  unfolding validate_rows splits
  read_all g rows sps =
      let (rs, order) = validate_rows g rows [] in
      elim (splits g sps order) [
        | Result.err e ↦ Result.err (Invalid.bad_split e)
        | Result.ok (ss, keys) ↦ Result.ok (record { rows = rs; splits = ss; keys = keys })
      ]

  unfoldable pub create :
      Families
      → FromProto String
      → Time
      → String
      → String
      → List RowMsg
      → List SplitMsg
      → Result Invalid (Statement Decimal)
  unfolding parse_date day read_all
  create families msg now from before rows sps =
      read_or (broker_of msg) (Result.err Invalid.bad_broker) (λ broker.
        read_or (parse_date from) (Result.err Invalid.malformed_from) (λ f.
          read_or (parse_date before) (Result.err Invalid.malformed_before) (λ b.
            if not (ltb f b)
            then Result.err Invalid.empty_period
            else read_all
                (record {
                  broker = broker;
                  from = f;
                  before = b;
                  today = day now;
                  families = families;
                })
                rows sps)))
