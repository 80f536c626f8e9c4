-- ===== src/Stmt/Validate/Accepted.antt =====
-- Which statements `create` accepts.
use Prim.Native.String.{String}
use stonks.Base.{
  ℕ, Option, some, List, [], ◌∷◌, All, ◌≡◌, ◌↔◌, ◌<◌, refl, subst, arith, ltb, not, false,
}
use stonks.Types.Time.{Time, day}
use stonks.Currency.{Families}
use stonks.Stmt.{FromProto, Result, Key, RowMsg, SplitMsg}
use stonks.Stmt.Dates.{parse_date}
use stonks.Stmt.Keys.{key_for}
use stonks.Stmt.Intern.{intern}
use stonks.Stmt.Validate.{
  Ingestion, Split, Statement, validate_rows, read_ratio, split, splits, read_all, create,
}
use stonks.Stmt.Validate.Created.{SplitsHold, IsAgainst, create-Holds}

module _ (Decimal : Type 0) (parse_decimal : String → Option Decimal) where
  module _ (g : Ingestion) where
    -- A split whose key is accepted and whose date and decimals are read.
    abbrev pub IsReadable : SplitMsg → Type 0
    IsReadable sp =
        ((k : Key) × (key_for g.families g.broker sp.key ≡ Result.ok k))
        × ((d : Time) × (parse_date sp.effective_date ≡ some d))
        × ((q : Decimal) × (parse_decimal sp.quantity ≡ some q))
        × ((r : Option (Decimal × Decimal)) × (read_ratio Decimal parse_decimal sp.ratio
              ≡ Result.ok r))

    split-read :
        (sp : SplitMsg) (order : List Key)
        → IsReadable sp
        → (x : Split Decimal × List Key) × (split Decimal parse_decimal g sp order ≡ Result.ok x)
    unfolding split
    split-read sp order ((k, ek), (d, ed), (q, eq), (r, er)) =
        let (order', i) = intern k order in
        (
          (record { key = i; effective = d; quantity = q; ratio = r }, order'),
          rw (split, ek, ed, eq, er) refl,
        )

    splits-read :
        (sps : List SplitMsg) (order : List Key)
        → All IsReadable sps
        → (x : List (Split Decimal) × List Key) × (splits Decimal parse_decimal g sps order
            ≡ Result.ok x)
    unfolding splits
    splits-read [] order h = (_, refl)
    splits-read (sp ∷ sps) order h =
        let (one, e) = split-read sp order h.0 in
        let (rest, f) = splits-read sps one.1 h.1 in
        ((one.0 ∷ rest.0, rest.1), rw (splits, e, f) refl)

    read_all-read :
        (rows : List RowMsg) (sps : List SplitMsg)
        → All IsReadable sps
        → (st : Statement Decimal) × (read_all Decimal parse_decimal g rows sps ≡ Result.ok st)
    unfolding read_all
    read_all-read rows sps h =
        let (x, e) = splits-read sps (validate_rows Decimal parse_decimal g rows []).1 h in
        (
          record {
            rows = (validate_rows Decimal parse_decimal g rows []).0;
            splits = x.0;
            keys = x.1;
          },
          rw (read_all, e) refl,
        )

    SplitsHold-IsReadable :
        (keys : List Key) (sps : List SplitMsg) (ss : List (Split Decimal))
        → SplitsHold Decimal parse_decimal g keys sps ss
        → All IsReadable sps
    SplitsHold-IsReadable keys [] [] h = tt
    SplitsHold-IsReadable keys (sp ∷ sps) (s ∷ ss) (((k, e, i), d, q, r), h) =
        (((k, e), (_, d), (_, q), (_, r)), SplitsHold-IsReadable keys sps ss h)
    SplitsHold-IsReadable keys [] (s ∷ ss) h = absurd h
    SplitsHold-IsReadable keys (sp ∷ sps) [] h = absurd h

  not_before : (f b : ℕ) → f < b → not (ltb f b) ≡ false
  not_before f b h = ground (arith, h)

  accepts :
      (families : Families) (msg : FromProto String) (now : Time) (from before : String)
      (rows : List RowMsg) (sps : List SplitMsg)
      → (g : Ingestion) × IsAgainst Decimal parse_decimal families msg now from before g
        × All (IsReadable g) sps
      → (st : Statement Decimal) × (create Decimal parse_decimal families msg now from before rows
            sps
          ≡ Result.ok st)
  unfolding create
  accepts families msg now from before rows sps (g, (e, ef, eb, lt, et, es), h) =
      let at : Families → Ingestion = λ fs. record {
        broker = g.broker;
        from = g.from;
        before = g.before;
        today = day now;
        families = fs;
      } in
      let (st, k) =
        read_all-read (at families) rows sps (subst (λ fs. All (IsReadable (at fs)) sps) es h) in
      (st, rw (e, ef, eb, not_before g.from g.before lt) k)

  -- `Create` accepts a statement exactly when its broker is one of the vocabulary, both ends of its
  -- period are dates, the first before the second, and the key, the date and the decimals of each of
  -- its splits are read. No row makes it fail.
  pub create-ok_iff :
      (families : Families) (msg : FromProto String) (now : Time) (from before : String)
      (rows : List RowMsg) (sps : List SplitMsg)
      → ((st : Statement Decimal) × (create Decimal parse_decimal families msg now from before rows
              sps
            ≡ Result.ok st))
        ↔ ((g : Ingestion) × IsAgainst Decimal parse_decimal families msg now from before g
            × All (IsReadable g) sps)
  create-ok_iff families msg now from before rows sps =
      (accepted, accepts families msg now from before rows sps)
    where
      accepted :
          (st : Statement Decimal) × (create Decimal parse_decimal families msg now from before rows
                sps
              ≡ Result.ok st)
          → (g : Ingestion) × IsAgainst Decimal parse_decimal families msg now from before g
            × All (IsReadable g) sps
      accepted (st, e) =
          let (g, a, (one, rs, ss)) =
            create-Holds Decimal parse_decimal st families msg now from before rows sps e in
          (g, a, SplitsHold-IsReadable g st.keys sps st.splits ss)
