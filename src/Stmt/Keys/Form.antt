-- ===== src/Stmt/Keys/Form.antt =====
-- keyOf: what it accepts, and the key that it makes of it.
use Prim.Native.String.{String, compare}
use stonks.Base.{Option, List, [], All, ◌≡◌, ◌↔◌, refl, sym, ap, ap₂, ◌∙◌, inl, inr}
use stonks.Base.Compare.{IsOrder, String-IsOrder, then-IsOrder, le_total, le_trans, le_antisym}
use stonks.Base.In.{In, In-All, All-In}
use stonks.Base.Order.{stable_sort}
use stonks.Base.Any.{IsOrdered, stable_sort-IsOrdered}
use stonks.Base.Sorted.{SameMembers, Distinct, sort-SameMembers, sort-Distinct, sorted_unique}
use stonks.Types.AssetClass.{AssetClass}
use stonks.Types.Identifier.{Identifier}
use stonks.Stmt.{Result, StatedKeyMsg, Key, KeyError}
use stonks.Stmt.Intern.Canon.{type_word-injective}
use stonks.Stmt.Keys.{
  type_word, compare_identifiers, read_identifiers, may_precede, class_of, key_of,
}
use stonks.Stmt.Keys.Held.{IsAllowed}
use stonks.Stmt.Keys.Canonical.{stated, HasOneValue, IsHeld}
use stonks.Stmt.Keys.Read.{AllValues, Either, Reads, read-IsHeld, IsStatable-read}

identifiers-IsOrder : IsOrder compare_identifiers
unfolding compare_identifiers
identifiers-IsOrder =
    then-IsOrder compare _ (λ i. type_word i.type) (λ i. (i.domain, i.value)) String-IsOrder
      (then-IsOrder compare compare (λ (v : String × String). v.0) (λ v. v.1) String-IsOrder
        String-IsOrder (λ a b d v. λ x. (d x, v x)))
      (λ a b t v. λ x. record {
        type = type_word-injective a.type b.type t x;
        domain = (v x).0;
        value = (v x).1;
      })

sorted-IsOrdered : (ids : List Identifier) → IsOrdered may_precede (stable_sort may_precede ids)
sorted-IsOrdered =
    stable_sort-IsOrdered may_precede (le_total compare_identifiers identifiers-IsOrder)
      (le_trans compare_identifiers identifiers-IsOrder)

-- The same identifiers, once each, have one order.
sorted_same :
    (xs ys : List Identifier)
    → Distinct xs
    → Distinct ys
    → SameMembers xs ys
    → stable_sort may_precede xs ≡ stable_sort may_precede ys
sorted_same xs ys c d h =
    sorted_unique may_precede (le_antisym compare_identifiers identifiers-IsOrder)
      (stable_sort may_precede xs) (stable_sort may_precede ys) (sorted-IsOrdered xs)
      (sorted-IsOrdered ys) (sort-Distinct may_precede xs c) (sort-Distinct may_precede ys d)
      (λ x. (
        λ m.
            (sort-SameMembers may_precede ys x).1
              ((h x).0 ((sort-SameMembers may_precede xs x).0 m)),
        λ m.
            (sort-SameMembers may_precede xs x).1
              ((h x).1 ((sort-SameMembers may_precede ys x).0 m)),
      ))

alone : {x : Identifier} {ids : List Identifier} → Either [] ids x → In x ids
alone (inl m) = elim m [ ]
alone (inr m) = m

empty-IsHeld : (broker : String) → IsHeld broker []
empty-IsHeld broker = (tt, tt, λ i j m. elim m [ ])

-- What a key that is made holds: the class and the currency that are stated, and the identifiers read.
abbrev Made : String → StatedKeyMsg → Key → Type 0
Made broker sk k =
    (class_of sk.asset_class ≡ Result.ok k.class)
    × (k.currency ≡ sk.currency)
    × ((ids : List Identifier) × (k.identifiers ≡ stable_sort may_precede ids)
        × Reads broker sk.identifiers [] (stated sk.identifiers) ids)

key_of-Made :
    (broker : String) (sk : StatedKeyMsg) (k : Key)
    → key_of broker sk ≡ Result.ok k
    → Made broker sk k
unfolding key_of
key_of-Made broker sk k e =
    go (class_of sk.asset_class) (read_identifiers broker sk.identifiers []) refl refl e
  where
    no_key : {x : KeyError} → Path (Result KeyError Key) (Result.err x) (Result.ok k) → ⊥
    no_key e = absurd (cc e)

    one_key : {a b : Key} → Path (Result KeyError Key) (Result.ok a) (Result.ok b) → a ≡ b
    one_key e = cc e

    made_of : Option AssetClass → List Identifier → Key
    made_of c ids = record {
      class = c;
      currency = sk.currency;
      identifiers = stable_sort may_precede ids;
    }

    go :
        (c : Result KeyError (Option AssetClass)) (r : Result KeyError (List Identifier))
        → class_of sk.asset_class ≡ c
        → read_identifiers broker sk.identifiers [] ≡ r
        → (elim c [
          | Result.err x ↦ Result.err x
          | Result.ok class ↦ elim r [
            | Result.err x ↦ Result.err x
            | Result.ok ids ↦ Result.ok (made_of class ids)
          ]
        ])
          ≡ Result.ok k
        → Made broker sk k
    go (Result.err x) r f g e = absurd (no_key e)
    go (Result.ok c) (Result.err x) f g e = absurd (no_key e)
    go (Result.ok c) (Result.ok ids) f g e =
        let same = one_key e in
        (
          f ∙ ap (λ (l : Key). Result.ok l.class) same,
          sym (ap (λ (l : Key). l.currency) same),
          (
            ids,
            sym (ap (λ (l : Key). l.identifiers) same),
            read-IsHeld broker sk.identifiers [] ids g (empty-IsHeld broker),
          ),
        )

-- Two messages that state one class, one currency and the same identifiers are read as one key, in
-- whatever order and however often they state them.
pub key_of-SameMembers :
    (broker : String) (sk sl : StatedKeyMsg) (k l : Key)
    → key_of broker sk ≡ Result.ok k
    → key_of broker sl ≡ Result.ok l
    → sk.asset_class ≡ sl.asset_class
    → sk.currency ≡ sl.currency
    → SameMembers (stated sk.identifiers) (stated sl.identifiers)
    → k ≡ l
key_of-SameMembers broker sk sl k l e f c u h =
    let (a, v, (xs, p, (held, m, n))) = key_of-Made broker sk k e in
    let (b, w, (ys, q, (held2, m2, n2))) = key_of-Made broker sl l f in
    let ec = one_class (sym a ∙ ap class_of c ∙ b) in
    let eu = v ∙ u ∙ sym w in
    let ei = p ∙ sorted_same xs ys held.0 held2.0 (members xs ys m m2) ∙ sym q in
    λ x. record { class = ec x; currency = eu x; identifiers = ei x }
  where
    one_class :
        {a b : Option AssetClass}
        → Path (Result KeyError (Option AssetClass)) (Result.ok a) (Result.ok b)
        → a ≡ b
    one_class e = cc e

    members :
        (xs ys : List Identifier)
        → ((x : Identifier) → In x xs ↔ Either [] (stated sk.identifiers) x)
        → ((x : Identifier) → In x ys ↔ Either [] (stated sl.identifiers) x)
        → SameMembers xs ys
    members xs ys m n x = (
      λ i. (n x).1 (inr ((h x).0 (alone ((m x).0 i)))),
      λ i. (m x).1 (inr ((h x).1 (alone ((n x).0 i)))),
    )

-- What a statement may state: a class in the vocabulary, types in the vocabulary, no identifier of a
-- datasource or of another broker and none without a value, and one value of each exclusive type and
-- domain.
abbrev pub IsAcceptable : String → StatedKeyMsg → Type 0
IsAcceptable broker sk =
    ((c : Option AssetClass) × (class_of sk.asset_class ≡ Result.ok c))
    × AllValues sk.identifiers
    × All (IsAllowed broker) (stated sk.identifiers)
    × HasOneValue (stated sk.identifiers)

-- `keyOf` reads a key exactly where its class and its types are of the vocabulary, no identifier is
-- of a datasource or of another broker or has no value, and each exclusive type has one value in each
-- domain. It fails on every other message.
pub key_of-ok_iff :
    (broker : String) (sk : StatedKeyMsg)
    → ((k : Key) × (key_of broker sk ≡ Result.ok k)) ↔ IsAcceptable broker sk
unfolding key_of
key_of-ok_iff broker sk = (to, from)
  where
    pick :
        Result KeyError (Option AssetClass)
        → Result KeyError (List Identifier)
        → Result KeyError Key
    pick c r = elim c [
      | Result.err x ↦ Result.err x
      | Result.ok class ↦ elim r [
        | Result.err x ↦ Result.err x
        | Result.ok ids ↦ Result.ok (record {
          class = class;
          currency = sk.currency;
          identifiers = stable_sort may_precede ids;
        })
      ]
    ]

    to : (k : Key) × (key_of broker sk ≡ Result.ok k) → IsAcceptable broker sk
    to (k, e) =
        let (a, v, (xs, p, (held, m, n))) = key_of-Made broker sk k e in
        (
          (k.class, a),
          n,
          In-All (IsAllowed broker) (stated sk.identifiers)
              (λ x i. All-In _ held.1 ((m x).1 (inr i))),
          λ i j a b. held.2 i j ((m i).1 (inr a)) ((m j).1 (inr b)),
        )

    from : IsAcceptable broker sk → (k : Key) × (key_of broker sk ≡ Result.ok k)
    from ((c, e), v, a, one) =
        let (ids, f) =
          IsStatable-read broker sk.identifiers [] (empty-IsHeld broker) v
            (a, λ i j x y. one i j (alone x) (alone y)) in
        (
          record { class = c; currency = sk.currency; identifiers = stable_sort may_precede ids },
          ap₂ pick e f,
        )
