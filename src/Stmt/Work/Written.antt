-- ===== src/Stmt/Work/Written.antt =====
-- Every row of a statement is written once, as a transaction or as an item.
use Prim.Native.String.{String}
use stonks.Base.{
  Bool, not, ◌&&◌, ◌↔◌, clash, none_some, ℕ, zero, suc, true, false, Bool-cases, Option, none, some,
  List, [], ◌∷◌, length, get_elem?, ◌≡◌, refl, inl, inr, arith, ◌>>=◌,
}
use stonks.Types.Time.{Time}
use stonks.Identity.Group.Joined.{str_eq_iff}
use stonks.Currency.{Families}
use stonks.Stmt.{FromProto, Result, Key, RowMsg, SplitMsg}
use stonks.Stmt.Keys.{key_for}
use stonks.Stmt.Intern.Places.{HeldAs}
use stonks.Stmt.Validate.{RowError, Ingestion, Row, Statement, create}
use stonks.Stmt.Validate.Rows.{IsReason, IsRead}
use stonks.Stmt.Validate.Created.{RowsHold, IsAgainst, create-Holds}
use stonks.Stmt.Work.{
  ResolutionKey, KeyRow, KeyState, Reason, Item, Txn, Outcome, is_rejected, refused, take_outcomes,
  to_resolve, resolve, txn_of, write_row, write_rows,
}
use stonks.Stmt.Work.Outcomes.{OutcomesOf, OutcomesOf-place, take_outcomes-OutcomesOf}

module _ (Decimal : Type 0) (parse_decimal : String → Option Decimal) (g : Ingestion)
    (keys : List Key) (ks : List KeyState) where
  -- The row states the key that is held at the place, which has the state.
  abbrev pub StatesKey : RowMsg → ℕ → KeyState → Type 0
  StatesKey r i k =
      ((l : Key) × (key_for g.families g.broker r.key ≡ Result.ok l) × HeldAs keys i l)
      × (get_elem? ks i ≡ some k)

  -- The rows of the key are not accepted.
  abbrev pub IsRefused : KeyState → Type 0
  IsRefused k = (k.outcome ≡ some Outcome.rejected) × (k.reason ≡ "" → ⊥)

  -- The row passes the checks, with what the transaction has of it.
  abbrev pub IsStated : RowMsg → ℕ → Txn Decimal → Type 0
  IsStated r i t = IsRead Decimal parse_decimal g r (record {
    key = i;
    order = t.order;
    settlement = t.settlement;
    as_at = t.as_at;
    quantity = t.quantity;
  })

  -- Why a row is not accepted: the first check that it fails, or, where it passes them, its key.
  abbrev pub Refusal : RowMsg → Reason → Type 0
  Refusal r (Reason.invalid e) = IsReason Decimal parse_decimal g r e
  Refusal r (Reason.of_key s) =
      (i : ℕ) × (k : KeyState) × (t : Txn Decimal) × StatesKey r i k
      × IsStated r i t
      × IsRefused k
      × (s ≡ k.reason)

  -- A row that passes and whose key is not refused, with its dates and its quantity.
  abbrev pub Acceptance : RowMsg → Txn Decimal → Type 0
  Acceptance r t =
      (i : ℕ) × (k : KeyState) × StatesKey r i k
      × IsStated r i t
      × (IsRefused k → ⊥)
      × (t.stated_key ≡ k.id)

  -- Each row, in order, is the next item, under its ordinal, or the next transaction.
  pub data Written : ℕ → List RowMsg → List Item → List (Txn Decimal) → Type 0 where
    done : {n : ℕ} → Written n [] [] []
    item :
        {n : ℕ} {r : RowMsg} {rs : List RowMsg} {items : List Item} {txns : List (Txn Decimal)}
        (why : Reason)
        → Refusal r why
        → Written (suc n) rs items txns
        → Written n (r ∷ rs) (record { ordinal = n; reason = why } ∷ items) txns
    txn :
        {n : ℕ} {r : RowMsg} {rs : List RowMsg} {items : List Item} {txns : List (Txn Decimal)}
        (t : Txn Decimal)
        → Acceptance r t
        → Written (suc n) rs items txns
        → Written n (r ∷ rs) items (t ∷ txns)

  abbrev pub IsWritten : ℕ → List RowMsg → Option (List Item × List (Txn Decimal)) → Type 0
  IsWritten n rs none = ⊥
  IsWritten n rs (some (items, txns)) = Written n rs items txns

  is_rejected_iff : (o : Option Outcome) → (is_rejected o ≡ true) ↔ (o ≡ some Outcome.rejected)
  is_rejected_iff (some Outcome.rejected) = (λ e. refl, λ e. refl)
  is_rejected_iff none = (λ e. absurd (clash e refl), λ e. cc e)
  is_rejected_iff (some Outcome.matched) = (λ e. absurd (clash e refl), λ e. cc e)
  is_rejected_iff (some Outcome.unrecognised) = (λ e. absurd (clash e refl), λ e. cc e)
  is_rejected_iff (some Outcome.unavailable) = (λ e. absurd (clash e refl), λ e. cc e)

  both : (a b : Bool) → (a && not b) ≡ true → (a ≡ true) × (b ≡ false)
  both a b h = (ground (arith, h), ground (arith, h))

  neither : (a b : Bool) → (a && not b) ≡ false → a ≡ true → b ≡ true
  neither a b h e = ground (arith, h, e)

  refused-IsRefused : (k : KeyState) → refused k ≡ true → IsRefused k
  refused-IsRefused k e =
      let (o, n) = both _ _ e in
      ((is_rejected_iff k.outcome).0 o, λ f. clash ((str_eq_iff k.reason "").1 f) n)

  accepted-IsRefused : (k : KeyState) → refused k ≡ false → IsRefused k → ⊥
  accepted-IsRefused k e (o, n) =
      n ((str_eq_iff k.reason "").0 (neither _ _ e ((is_rejected_iff k.outcome).1 o)))

  write_row-Written :
      (n : ℕ) (k : KeyState) (row : Row Decimal) (r : RowMsg) (rs : List RowMsg) (items : List Item)
      (txns : List (Txn Decimal))
      → StatesKey r row.key k
      → IsRead Decimal parse_decimal g r row
      → Written (suc n) rs items txns
      → IsWritten n (r ∷ rs) (some (write_row Decimal n k row (items, txns)))
  write_row-Written n k row r rs items txns h i w = elim (Bool-cases (refused k)) [
    | inl e ↦ rw e (
        Written.item (Reason.of_key k.reason)
          (row.key, k, txn_of Decimal k row, h, i, refused-IsRefused k e, refl) w)
    | inr e ↦
        rw e (Written.txn (txn_of Decimal k row) (row.key, k, h, i, accepted-IsRefused k e, refl) w)
  ]

  -- Every place of a key has an outcome.
  abbrev pub IsResolved : Type 0
  IsResolved =
      (i : ℕ) (l : Key) → get_elem? keys i ≡ some l → (k : KeyState) × (get_elem? ks i ≡ some k)

  write_rows-IsWritten :
      (n : ℕ) (rs : List RowMsg) (rows : List (Result RowError (Row Decimal)))
      → IsResolved
      → RowsHold Decimal parse_decimal g keys rs rows
      → IsWritten n rs (write_rows Decimal ks n rows)
  unfolding write_rows
  write_rows-IsWritten n [] [] h x = Written.done
  write_rows-IsWritten n (r ∷ rs) (Result.err e ∷ rows) h (x, y) =
      failed (write_rows Decimal ks (suc n) rows) (write_rows-IsWritten (suc n) rs rows h y)
    where
      failed :
          (o : Option (List Item × List (Txn Decimal)))
          → IsWritten (suc n) rs o
          → IsWritten n (r ∷ rs) (do
            (items, txns) ← o
            some (record { ordinal = n; reason = Reason.invalid e } ∷ items, txns))
      failed none w = absurd w
      failed (some (items, txns)) w = Written.item (Reason.invalid e) x w
  write_rows-IsWritten n (r ∷ rs) (Result.ok row ∷ rows) h ((i, (l, e, (m, at, c))), y) =
      let (k, f) = h row.key m at in
      rw f
        (passed k f (write_rows Decimal ks (suc n) rows) (write_rows-IsWritten (suc n) rs rows h y))
    where
      passed :
          (k : KeyState)
          → get_elem? ks row.key ≡ some k
          → (o : Option (List Item × List (Txn Decimal))) → IsWritten (suc n) rs o
          → IsWritten n (r ∷ rs) (do rest ← o; some (write_row Decimal n k row rest))
      passed k f none w = absurd w
      passed k f (some (items, txns)) w =
          write_row-Written n k row r rs items txns ((l, e, (m, at, c)), f) i w
  write_rows-IsWritten n [] (row ∷ rows) h x = absurd x
  write_rows-IsWritten n (r ∷ rs) [] h x = absurd x

same_places :
    {A B : Type 0} (xs : List A) (ys : List B) (i : ℕ) (y : B)
    → length xs ≡ length ys
    → get_elem? ys i ≡ some y
    → (x : A) × (get_elem? xs i ≡ some x)
same_places (x ∷ xs) (y ∷ ys) zero z e f = (x, refl)
same_places (x ∷ xs) (y ∷ ys) (suc i) z e f = same_places xs ys i z (omega (arith, e)) f
same_places [] (y ∷ ys) i z e f = absurd (omega (arith, e))
same_places xs [] i z e f = absurd (none_some refl f)

module _ (Decimal : Type 0) (parse_decimal : String → Option Decimal) where
  resolve-take :
      (resolver : List (KeyRow × List Time) → Option (List ResolutionKey)) (krs : List KeyRow)
      (rows : List (Result RowError (Row Decimal))) (ks : List KeyState)
      → resolve Decimal resolver krs rows ≡ some ks
      → (out : List ResolutionKey) × (resolver (to_resolve Decimal 0 krs rows) ≡ some out)
        × OutcomesOf out krs ks
  unfolding resolve
  resolve-take resolver krs rows ks e = go (resolver (to_resolve Decimal 0 krs rows)) refl e
    where
      go :
          (o : Option (List ResolutionKey))
          → resolver (to_resolve Decimal 0 krs rows) ≡ o
          → (do out ← o; take_outcomes out krs) ≡ some ks
          → (out : List ResolutionKey) × (resolver (to_resolve Decimal 0 krs rows) ≡ some out)
            × OutcomesOf out krs ks
      go none f e = absurd (none_some refl e)
      go (some out) f e = (out, f, take_outcomes-OutcomesOf out krs ks e)

  -- Once a statement is made, and each of its keys has a row and those without an instrument an
  -- outcome, which is the last that the resolution records of the key, each row of the statement is
  -- written once, in order. A row that passes its checks and whose key is not refused is written as a
  -- transaction of its key, with the dates and the quantity that it states; any other one as an item,
  -- under its ordinal, with its first failing check, or else with the reasons of its key. A key is
  -- refused where its outcome is rejected, for a reason.
  pub resolve-Written :
      (families : Families) (msg : FromProto String) (now : Time) (from before : String)
      (rows : List RowMsg) (sps : List SplitMsg) (st : Statement Decimal)
      (resolver : List (KeyRow × List Time) → Option (List ResolutionKey)) (krs : List KeyRow)
      (ks : List KeyState)
      → create Decimal parse_decimal families msg now from before rows sps ≡ Result.ok st
      → length krs ≡ length st.keys
      → resolve Decimal resolver krs st.rows ≡ some ks
      → (g : Ingestion) × IsAgainst Decimal parse_decimal families msg now from before g
        × ((out : List ResolutionKey) × (resolver (to_resolve Decimal 0 krs st.rows) ≡ some out)
            × OutcomesOf out krs ks)
        × ((items : List Item) × (txns : List (Txn Decimal)) × (write_rows Decimal ks 0 st.rows
              ≡ some (items, txns))
            × Written Decimal parse_decimal g st.keys ks 0 rows items txns)
  resolve-Written families msg now from before rows sps st resolver krs ks e n r =
      let (g, a, (one, holds, splits)) =
        create-Holds Decimal parse_decimal st families msg now from before rows sps e in
      let (out, asked, outcomes) = resolve-take resolver krs st.rows ks r in
      (
        g,
        a,
        (out, asked, outcomes),
        ends g (write_rows Decimal ks 0 st.rows) refl (
            write_rows-IsWritten Decimal parse_decimal g st.keys ks 0 rows st.rows
              (λ i l at.
                let (k, f) = same_places krs st.keys i l n at in
                let (s, h, o) = OutcomesOf-place out krs ks i k outcomes f in (s, h))
              holds),
      )
    where
      ends :
          (g : Ingestion) (o : Option (List Item × List (Txn Decimal)))
          → write_rows Decimal ks 0 st.rows ≡ o
          → IsWritten Decimal parse_decimal g st.keys ks 0 rows o
          → (items : List Item) × (txns : List (Txn Decimal)) × (write_rows Decimal ks 0 st.rows
              ≡ some (items, txns))
            × Written Decimal parse_decimal g st.keys ks 0 rows items txns
      ends g none e w = absurd w
      ends g (some (items, txns)) e w = (items, txns, e, w)
