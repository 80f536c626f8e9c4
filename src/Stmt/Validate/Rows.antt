-- ===== src/Stmt/Validate/Rows.antt =====
-- What `validate` makes of a row: its reason where it is rejected, and what holds of it otherwise.
use Prim.Native.String.{String}
use stonks.Base.{
  ℕ, Bool, true, false, not, ◌||◌, Option, none, some, List, ◌≡◌, ◌≤◌, ◌<◌, refl, sym, subst, arith,
  ltb, ◌⊎◌, if◌then◌else◌,
}
use stonks.Types.Time.{Time}
use stonks.Stmt.{Result, Key, KeyError, RowMsg}
use stonks.Stmt.Dates.{parse_date}
use stonks.Stmt.Keys.{key_for}
use stonks.Stmt.Intern.{intern}
use stonks.Stmt.Intern.Places.{OneCanon, Extends, HeldAs, intern-HeldAs}
use stonks.Stmt.Validate.{RowError, Ingestion, Row, read_or, check_row, validate}

pub read_or_elim :
    {A : Type 0} {B : Type 0} (P : B → Type 0) (o : Option A) (bad : B) (go : A → B)
    → (o ≡ none → P bad)
    → ((a : A) → o ≡ some a → P (go a))
    → P (read_or o bad go)
read_or_elim P none bad go h k = h refl
read_or_elim P (some a) bad go h k = k a refl

pub if_elim :
    {B : Type 0} (P : B → Type 0) (b : Bool) (x y : B)
    → (b ≡ true → P x)
    → (b ≡ false → P y)
    → P (if b then x else y)
if_elim P true x y h k = h refl
if_elim P false x y h k = k refl

module _ (Decimal : Type 0) (parse_decimal : String → Option Decimal) (g : Ingestion) where
  -- The key of a row is read.
  abbrev pub HasKey : RowMsg → Type 0
  HasKey r = (k : Key) × (key_for g.families g.broker r.key ≡ Result.ok k)

  abbrev pub IsDate : String → Type 0
  IsDate s = (t : Time) × (parse_date s ≡ some t)

  -- The key, the dates and the quantity of a row are read.
  abbrev pub AreRead : RowMsg → Type 0
  AreRead r =
      HasKey r
      × IsDate r.order_date
      × IsDate r.settlement_date
      × IsDate r.as_at
      × ((q : Decimal) × (parse_decimal r.quantity ≡ some q))

  -- Why a row is rejected: the first check that it fails, after the ones that it passes.
  abbrev pub IsReason : RowMsg → RowError → Type 0
  IsReason r (RowError.bad_key e) = key_for g.families g.broker r.key ≡ Result.err e
  IsReason r RowError.malformed_order_date = HasKey r × (parse_date r.order_date ≡ none)
  IsReason r RowError.malformed_settlement_date =
      HasKey r × IsDate r.order_date × (parse_date r.settlement_date ≡ none)
  IsReason r RowError.malformed_as_at =
      HasKey r × IsDate r.order_date × IsDate r.settlement_date × (parse_date r.as_at ≡ none)
  IsReason r RowError.malformed_quantity =
      HasKey r
      × IsDate r.order_date
      × IsDate r.settlement_date
      × IsDate r.as_at
      × (parse_decimal r.quantity ≡ none)
  IsReason r RowError.outside_period =
      AreRead r
      × ((order : Time) × (parse_date r.order_date ≡ some order)
          × ((order < g.from) ⊎ (g.before ≤ order)))
  IsReason r RowError.after_today =
      AreRead r
      × ((order : Time) × (parse_date r.order_date ≡ some order)
          × (g.from ≤ order)
          × (order < g.before)
          × (g.today < order))
  IsReason r _ = ⊥

  -- The dates and the quantity of a row that passes.
  abbrev pub IsRead : RowMsg → Row Decimal → Type 0
  IsRead r row =
      (parse_date r.order_date ≡ some row.order)
      × (parse_date r.settlement_date ≡ some row.settlement)
      × (parse_date r.as_at ≡ some row.as_at)
      × (parse_decimal r.quantity ≡ some row.quantity)
      × (g.from ≤ row.order)
      × (row.order < g.before)
      × (row.order ≤ g.today)

  abbrev Judged : RowMsg → ℕ → Result RowError (Row Decimal) → Type 0
  Judged r i (Result.err e) = IsReason r e
  Judged r i (Result.ok row) = IsRead r row × (row.key ≡ i)

  outside : (o f b : ℕ) → (ltb o f || not (ltb o b)) ≡ true → (o < f) ⊎ (b ≤ o)
  outside o f b h = ground (arith, h)

  inside : (o f b : ℕ) → (ltb o f || not (ltb o b)) ≡ false → (f ≤ o) × (o < b)
  inside o f b h = ground (arith, h)

  later : (t o : ℕ) → ltb t o ≡ true → t < o
  later t o h = ground (arith, h)

  in_time : (t o : ℕ) → ltb t o ≡ false → o ≤ t
  in_time t o h = ground (arith, h)

  check_row-Judged :
      (r : RowMsg) (i : ℕ)
      → HasKey r
      → Judged r i (
          check_row Decimal parse_decimal g r
            (λ o s a q. record { key = i; order = o; settlement = s; as_at = a; quantity = q }))
  unfolding check_row
  check_row-Judged r i k =
      read_or_elim (Judged r i) (parse_date r.order_date) _ _ (λ e. (k, e))
        (λ o eo.
          read_or_elim (Judged r i) (parse_date r.settlement_date) _ _ (λ e. (k, (o, eo), e))
            (λ s es.
              read_or_elim (Judged r i) (parse_date r.as_at) _ _ (λ e. (k, (o, eo), (s, es), e))
                (λ a ea.
                  read_or_elim (Judged r i) (parse_decimal r.quantity) _ _
                    (λ e. (k, (o, eo), (s, es), (a, ea), e))
                    (λ q eq.
                      let read : AreRead r = (k, (o, eo), (s, es), (a, ea), (q, eq)) in
                      if_elim (Judged r i) (ltb o g.from || not (ltb o g.before)) _ _
                        (λ x. (read, (o, eo, outside o g.from g.before x)))
                        (λ x.
                          let (f, b) = inside o g.from g.before x in
                          if_elim (Judged r i) (ltb g.today o) _ _
                            (λ y. (read, (o, eo, f, b, later g.today o y)))
                            (λ y. ((eo, es, ea, eq, f, b, in_time g.today o y), refl)))))))

  -- What holds of a row that is made of a message, beside the keys held.
  abbrev pub RowHolds : List Key → RowMsg → Result RowError (Row Decimal) → Type 0
  RowHolds keys r (Result.err e) = IsReason r e
  RowHolds keys r (Result.ok row) =
      IsRead r row
      × ((k : Key) × (key_for g.families g.broker r.key ≡ Result.ok k) × HeldAs keys row.key k)

  pub validate-RowHolds :
      (r : RowMsg) (order : List Key)
      → OneCanon order
      → let (row, next) = validate Decimal parse_decimal g r order in
        OneCanon next × Extends order next × RowHolds next r row
  unfolding validate
  validate-RowHolds r order one = go (key_for g.families g.broker r.key) refl
    where
      Left : Result RowError (Row Decimal) × List Key → Type 0
      Left (row, next) = OneCanon next × Extends order next × RowHolds next r row

      passed :
          (k : Key) (next : List Key) (i : ℕ)
          → key_for g.families g.broker r.key ≡ Result.ok k
          → OneCanon next × Extends order next × HeldAs next i k
          → (c : Result RowError (Row Decimal)) → Judged r i c
          → Left (elim c [
            | Result.err e ↦ (Result.err e, order)
            | Result.ok row ↦ (Result.ok row, next)
          ])
      passed k next i e h (Result.err x) j = (one, (λ m l f. f), j)
      passed k next i e h (Result.ok row) j =
          (h.0, h.1, (j.0, (k, e, subst (λ n. HeldAs next n k) (sym j.1) h.2)))

      go :
          (o : Result KeyError Key)
          → key_for g.families g.broker r.key ≡ o
          → Left (elim o [
            | Result.err e ↦ (Result.err (RowError.bad_key e), order)
            | Result.ok k ↦
                elim (check_row Decimal parse_decimal g r (λ o s a q. record {
                  key = (intern k order).1;
                  order = o;
                  settlement = s;
                  as_at = a;
                  quantity = q;
                })) [
                  | Result.err e ↦ (Result.err e, order)
                  | Result.ok row ↦ (Result.ok row, (intern k order).0)
                ]
          ])
      go (Result.err x) e = (one, (λ m l f. f), e)
      go (Result.ok k) e =
          passed k (intern k order).0 (intern k order).1 e (intern-HeldAs k order one) _
            (check_row-Judged r (intern k order).1 (k, e))
