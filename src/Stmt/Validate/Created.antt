-- ===== src/Stmt/Validate/Created.antt =====
-- What `create` makes of a statement: every row and every split names a key that is held.
use Prim.Native.String.{String}
use stonks.Base.{ℕ, false, not, Option, some, List, [], ◌∷◌, ◌≡◌, ◌<◌, refl, subst, arith, ltb}
use stonks.Types.Time.{Time, day}
use stonks.Currency.{Families}
use stonks.Stmt.{FromProto, Result, Key, KeyError, RowMsg, SplitMsg}
use stonks.Stmt.Dates.{parse_date}
use stonks.Stmt.Keys.{key_for}
use stonks.Stmt.Intern.{intern}
use stonks.Stmt.Intern.Places.{OneCanon, Extends, HeldAs, intern-HeldAs}
use stonks.Stmt.Validate.{
  RowError, Ingestion, Row, Split, Invalid, Statement, read_or, validate, validate_rows, read_ratio,
  split, splits, broker_of, read_all, create,
}
use stonks.Stmt.Validate.Rows.{RowHolds, read_or_elim, if_elim, validate-RowHolds}

module _ (Decimal : Type 0) (parse_decimal : String → Option Decimal) where
  module _ (g : Ingestion) where
    -- Each message has its row.
    abbrev pub RowsHold : List Key → List RowMsg → List (Result RowError (Row Decimal)) → Type 0
    RowsHold keys [] [] = Unit
    RowsHold keys (r ∷ rs) (row ∷ rows) =
        RowHolds Decimal parse_decimal g keys r row × RowsHold keys rs rows
    RowsHold keys _ _ = ⊥

    abbrev pub SplitHolds : List Key → SplitMsg → Split Decimal → Type 0
    SplitHolds keys sp s =
        ((k : Key) × (key_for g.families g.broker sp.key ≡ Result.ok k) × HeldAs keys s.key k)
        × (parse_date sp.effective_date ≡ some s.effective)
        × (parse_decimal sp.quantity ≡ some s.quantity)
        × (read_ratio Decimal parse_decimal sp.ratio ≡ Result.ok s.ratio)

    abbrev pub SplitsHold : List Key → List SplitMsg → List (Split Decimal) → Type 0
    SplitsHold keys [] [] = Unit
    SplitsHold keys (sp ∷ sps) (s ∷ ss) = SplitHolds keys sp s × SplitsHold keys sps ss
    SplitsHold keys _ _ = ⊥

    HeldAs-Extends :
        (keys next : List Key) (i : ℕ) (k : Key)
        → Extends keys next
        → HeldAs keys i k
        → HeldAs next i k
    HeldAs-Extends keys next i k h (l, e, f) = (l, h i l e, f)

    RowHolds-Extends :
        (keys next : List Key) (r : RowMsg) (row : Result RowError (Row Decimal))
        → Extends keys next
        → RowHolds Decimal parse_decimal g keys r row
        → RowHolds Decimal parse_decimal g next r row
    RowHolds-Extends keys next r (Result.err e) h x = x
    RowHolds-Extends keys next r (Result.ok row) h (x, (k, e, f)) =
        (x, (k, e, HeldAs-Extends keys next row.key k h f))

    RowsHold-Extends :
        (keys next : List Key) (rs : List RowMsg) (rows : List (Result RowError (Row Decimal)))
        → Extends keys next
        → RowsHold keys rs rows
        → RowsHold next rs rows
    RowsHold-Extends keys next [] [] h x = tt
    RowsHold-Extends keys next (r ∷ rs) (row ∷ rows) h x =
        (RowHolds-Extends keys next r row h x.0, RowsHold-Extends keys next rs rows h x.1)
    RowsHold-Extends keys next [] (row ∷ rows) h x = absurd x
    RowsHold-Extends keys next (r ∷ rs) [] h x = absurd x

    validate_rows-RowsHold :
        (rs : List RowMsg) (order : List Key)
        → OneCanon order
        → let (rows, next) = validate_rows Decimal parse_decimal g rs order in
          OneCanon next × Extends order next × RowsHold next rs rows
    unfolding validate_rows
    validate_rows-RowsHold [] order one = (one, (λ i k e. e), tt)
    validate_rows-RowsHold (r ∷ rs) order one =
        let (row, next) = validate Decimal parse_decimal g r order in
        let (one1, ext1, holds) = validate-RowHolds Decimal parse_decimal g r order one in
        let (one2, ext2, rest) = validate_rows-RowsHold rs next one1 in
        let last = (validate_rows Decimal parse_decimal g rs next).1 in
        (
          one2,
          (λ i k e. ext2 i k (ext1 i k e)),
          (RowHolds-Extends next last r row ext2 holds, rest),
        )

    abbrev SplitLeft : List Key → SplitMsg → Result RowError (Split Decimal × List Key) → Type 0
    SplitLeft order sp (Result.err e) = Unit
    SplitLeft order sp (Result.ok (s, next)) =
        OneCanon next × Extends order next × SplitHolds next sp s

    split-SplitLeft :
        (sp : SplitMsg) (order : List Key)
        → OneCanon order
        → SplitLeft order sp (split Decimal parse_decimal g sp order)
    unfolding split
    split-SplitLeft sp order one = go (key_for g.families g.broker sp.key) refl
      where
        ratio :
            (k : Key) (d : Time) (q : Decimal)
            → key_for g.families g.broker sp.key ≡ Result.ok k
            → parse_date sp.effective_date ≡ some d
            → parse_decimal sp.quantity ≡ some q
            → (x : Result RowError (Option (Decimal × Decimal)))
            → read_ratio Decimal parse_decimal sp.ratio ≡ x
            → SplitLeft order sp (elim x [
              | Result.err e ↦ Result.err e
              | Result.ok y ↦ Result.ok (
                record { key = (intern k order).1; effective = d; quantity = q; ratio = y },
                (intern k order).0,
              )
            ])
        ratio k d q e f h (Result.err x) i = tt
        ratio k d q e f h (Result.ok y) i =
            let (a, b, c) = intern-HeldAs k order one in (a, b, ((k, e, c), f, h, i))

        go :
            (o : Result KeyError Key)
            → key_for g.families g.broker sp.key ≡ o
            → SplitLeft order sp (elim o [
              | Result.err e ↦ Result.err (RowError.bad_key e)
              | Result.ok k ↦
                  read_or
                    (parse_date sp.effective_date)
                    (Result.err RowError.malformed_effective_date)
                    (λ d.
                      read_or
                        (parse_decimal sp.quantity)
                        (Result.err RowError.malformed_quantity)
                        (λ q. elim (read_ratio Decimal parse_decimal sp.ratio) [
                          | Result.err e ↦ Result.err e
                          | Result.ok y ↦ Result.ok (
                            record {
                              key = (intern k order).1;
                              effective = d;
                              quantity = q;
                              ratio = y;
                            },
                            (intern k order).0,
                          )
                        ]))
            ])
        go (Result.err x) e = tt
        go (Result.ok k) e =
            read_or_elim (SplitLeft order sp) (parse_date sp.effective_date) _ _ (λ x. tt)
              (λ d f.
                read_or_elim (SplitLeft order sp) (parse_decimal sp.quantity) _ _ (λ x. tt)
                  (λ q h. ratio k d q e f h (read_ratio Decimal parse_decimal sp.ratio) refl))

    abbrev SplitsLeft :
        List Key → List SplitMsg → Result RowError (List (Split Decimal) × List Key) → Type 0
    SplitsLeft order sps (Result.err e) = Unit
    SplitsLeft order sps (Result.ok (ss, next)) =
        OneCanon next × Extends order next × SplitsHold next sps ss

    splits-SplitsLeft :
        (sps : List SplitMsg) (order : List Key)
        → OneCanon order
        → SplitsLeft order sps (splits Decimal parse_decimal g sps order)
    unfolding splits
    splits-SplitsLeft [] order one = (one, (λ i k e. e), tt)
    splits-SplitsLeft (sp ∷ sps) order one =
        go (split Decimal parse_decimal g sp order) (split-SplitLeft sp order one)
          (λ next h. splits-SplitsLeft sps next h)
      where
        both :
            (s : Split Decimal) (next : List Key)
            → Extends order next
            → SplitHolds next sp s
            → (x : Result RowError (List (Split Decimal) × List Key)) → SplitsLeft next sps x
            → SplitsLeft order
                (sp ∷ sps)
                (elim x [ Result.err e ↦ Result.err e | Result.ok y ↦ Result.ok (s ∷ y.0, y.1) ])
        both s next h z (Result.err x) i = tt
        both s next h z (Result.ok (ss, last)) (one, more, rest) = (
          one,
          (λ i k e. more i k (h i k e)),
          (((z.0.0, z.0.1, HeldAs-Extends next last s.key z.0.0 more z.0.2), z.1, z.2, z.3), rest),
        )

        go :
            (x : Result RowError (Split Decimal × List Key))
            → SplitLeft order sp x
            → ((next : List Key)
                → OneCanon next
                → SplitsLeft next sps (splits Decimal parse_decimal g sps next))
            → SplitsLeft order (sp ∷ sps) (elim x [
              | Result.err e ↦ Result.err e
              | Result.ok (s, next) ↦ elim (splits Decimal parse_decimal g sps next) [
                | Result.err e ↦ Result.err e
                | Result.ok (ss, last) ↦ Result.ok (s ∷ ss, last)
              ]
            ])
        go (Result.err x) i ih = tt
        go (Result.ok (s, next)) (one, more, z) ih = both s next more z _ (ih next one)

  -- What a statement holds, for the messages that it is made of.
  abbrev pub StatementHolds : Ingestion → List RowMsg → List SplitMsg → Statement Decimal → Type 0
  StatementHolds g rows sps st =
      OneCanon st.keys × RowsHold g st.keys rows st.rows × SplitsHold g st.keys sps st.splits

  -- What a statement is read against, where it is read.
  abbrev pub IsAgainst : Families → FromProto String → Time → String → String → Ingestion → Type 0
  IsAgainst families msg now from before g =
      (broker_of msg ≡ some g.broker)
      × (parse_date from ≡ some g.from)
      × (parse_date before ≡ some g.before)
      × (g.from < g.before)
      × (g.today ≡ day now)
      × (g.families ≡ families)

  lt_of : (f b : ℕ) → not (ltb f b) ≡ false → f < b
  lt_of f b h = ground (arith, h)

  module _ (st : Statement Decimal) where
    -- What holds of a result that is the statement.
    abbrev Makes : Type 0 → Result (Invalid) (Statement Decimal) → Type 0
    Makes P x = x ≡ Result.ok st → P

    no_st : (P : Type 0) (x : Invalid) → Makes P (Result.err x)
    no_st P x e = absurd (cc e)

    one_st :
        {a : Statement Decimal}
        → Path (Result (Invalid) (Statement Decimal)) (Result.ok a) (Result.ok st)
        → a ≡ st
    one_st e = cc e

    all-StatementHolds :
        (g : Ingestion) (rows : List RowMsg) (sps : List SplitMsg)
        → Makes (StatementHolds g rows sps st) (read_all Decimal parse_decimal g rows sps)
    unfolding read_all
    all-StatementHolds g rows sps =
        let (one, more, z) = validate_rows-RowsHold g rows [] tt in
        last (validate_rows Decimal parse_decimal g rows []).0
          (validate_rows Decimal parse_decimal g rows []).1 z _ (splits-SplitsLeft g sps _ one)
      where
        last :
            (rs : List (Result RowError (Row Decimal))) (order : List Key)
            → RowsHold g order rows rs
            → (x : Result RowError (List (Split Decimal) × List Key)) → SplitsLeft g order sps x
            → Makes (StatementHolds g rows sps st) (elim x [
              | Result.err e ↦ Result.err (Invalid.bad_split e)
              | Result.ok (ss, keys) ↦ Result.ok (record { rows = rs; splits = ss; keys = keys })
            ])
        last rs order z (Result.err x) i = no_st _ _
        last rs order z (Result.ok (ss, keys)) (one, more, y) = λ e.
            subst (StatementHolds g rows sps) (one_st e)
              (one, RowsHold-Extends g order keys rows rs more z, y)

    -- `Create` makes of a statement of a broker, with a period that is not empty, one row of each
    -- message. A row that passes has its dates, its quantity and its order date within the period
    -- and not after today, any other one its first failing check; each row that passes and each
    -- split names the place of a key with the encoding of its own, and no two keys have one encoding.
    pub create-Holds :
        (families : Families) (msg : FromProto String) (now : Time) (from before : String)
        (rows : List RowMsg) (sps : List SplitMsg)
        → create Decimal parse_decimal families msg now from before rows sps ≡ Result.ok st
        → (g : Ingestion) × IsAgainst families msg now from before g × StatementHolds g rows sps st
    unfolding create
    create-Holds families msg now from before rows sps =
        read_or_elim (Makes Read) (broker_of msg) _ _ (λ x. no_st _ _)
          (λ broker e.
            read_or_elim (Makes Read) (parse_date from) _ _ (λ x. no_st _ _)
              (λ f ef.
                read_or_elim (Makes Read) (parse_date before) _ _ (λ x. no_st _ _)
                  (λ b eb.
                    if_elim (Makes Read) (not (ltb f b)) _ _ (λ x. no_st _ _)
                      (λ x h. (
                        record {
                          broker = broker;
                          from = f;
                          before = b;
                          today = day now;
                          families = families;
                        },
                        (e, ef, eb, lt_of f b x, refl, refl),
                        all-StatementHolds _ rows sps h,
                      )))))
      where
        Read : Type 0
        Read =
            (g : Ingestion) × IsAgainst families msg now from before g
            × StatementHolds g rows sps st
