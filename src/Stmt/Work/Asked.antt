-- ===== src/Stmt/Work/Asked.antt =====
-- What resolve of server/internal/stmt/stmt.go asks the resolver for.
use stonks.Base.{
  clash, some-injective, none_some, ℕ, zero, suc, ◌+◌, Bool, true, false, ◌==◌, Bool-cases, some,
  List, [], ◌∷◌, any, get_elem?, ◌≡◌, refl, sym, ap, ◌∙◌, subst, ◌⊎◌, ◌↔◌, inl, inr, arith,
  if◌then◌else◌,
}
use stonks.Base.In.{In}
use stonks.Base.Sorted.{Distinct, In-cons, In-append, append-In, Distinct-append}
use stonks.Types.Time.{Time}
use stonks.Stmt.{Result}
use stonks.Stmt.Validate.{RowError, Row}
use stonks.Stmt.Work.{KeyRow, add_date, dates_of, to_resolve}

is_same : (u t : ℕ) → (u == t) ≡ true → u ≡ t
is_same u t h = ground (arith, h)

differ : (u t : ℕ) → (u == t) ≡ false → t ≡ u → ⊥
differ u t h e = ground (arith, h, e)

-- A date is one of the dates.
any-In : (t : Time) (ts : List Time) → any (λ u. u == t) ts ≡ true → In t ts
any-In t [] e = absurd (clash e refl)
any-In t (u ∷ ts) e = elim (Bool-cases (u == t)) [
  | inl f ↦ subst (λ z. In z (u ∷ ts)) (is_same u t f) In.here
  | inr f ↦ In.there (any-In t ts (rw f at e))
]

any-Out : (t : Time) (ts : List Time) → any (λ u. u == t) ts ≡ false → In t ts → ⊥
any-Out t [] e m = elim m [ ]
any-Out t (u ∷ ts) e m = elim (Bool-cases (u == t)) [
  | inl f ↦ clash refl (rw f at e)
  | inr f ↦ elim (In-cons m) [ inl g ↦ differ u t f g | inr n ↦ any-Out t ts (rw f at e) n ]
]

module _ (Decimal : Type 0) where
  add_date-In : (t : Time) (ts : List Time) (d : Time) → In d (add_date t ts) ↔ (In d ts ⊎ (d ≡ t))
  unfolding add_date
  add_date-In t ts d = elim (Bool-cases (any (λ u. u == t) ts)) [
    | inl e ↦
        rw (add_date, e)
          (
            λ m. inl m,
            λ s. elim s [ inl m ↦ m | inr f ↦ subst (λ z. In z ts) (sym f) (any-In t ts e) ],
          )
    | inr e ↦ rw (add_date, e) (λ m. In-append d ts t m, λ s. append-In d ts t s)
  ]

  add_date-Distinct : (t : Time) (ts : List Time) → Distinct ts → Distinct (add_date t ts)
  unfolding add_date
  add_date-Distinct t ts h = elim (Bool-cases (any (λ u. u == t) ts)) [
    | inl e ↦ rw (add_date, e) h
    | inr e ↦ rw (add_date, e) (Distinct-append ts t h (any-Out t ts e))
  ]

  -- A row of the key has the as-at date.
  abbrev pub HasDate : ℕ → List (Result RowError (Row Decimal)) → Time → Type 0
  HasDate i rows d = (row : Row Decimal) × In (Result.ok row) rows × (row.key ≡ i) × (row.as_at ≡ d)

  -- The as-at dates of the rows of the key, each once.
  abbrev pub AreDates : ℕ → List (Result RowError (Row Decimal)) → List Time → Type 0
  AreDates i rows ts = Distinct ts × ((d : Time) → In d ts ↔ HasDate i rows d)

  dates_of-Distinct :
      (i : ℕ) (rows : List (Result RowError (Row Decimal))) (ts : List Time)
      → Distinct ts
      → Distinct (dates_of Decimal i rows ts)
  unfolding dates_of
  dates_of-Distinct i [] ts h = h
  dates_of-Distinct i (Result.err e ∷ rows) ts h = dates_of-Distinct i rows ts h
  dates_of-Distinct i (Result.ok row ∷ rows) ts h = elim (Bool-cases (row.key == i)) [
    | inl e ↦ rw (dates_of, e) (dates_of-Distinct i rows _ (add_date-Distinct row.as_at ts h))
    | inr e ↦ rw (dates_of, e) (dates_of-Distinct i rows ts h)
  ]

  HasDate-cons :
      (i : ℕ) (x : Result RowError (Row Decimal)) (rows : List (Result RowError (Row Decimal)))
      (d : Time)
      → HasDate i rows d
      → HasDate i (x ∷ rows) d
  HasDate-cons i x rows d (row, m, e, f) = (row, In.there m, e, f)

  -- A date of the first row or of a later one.
  HasDate-first :
      (i : ℕ) (first : Row Decimal) (rows : List (Result RowError (Row Decimal))) (d : Time)
      → HasDate i (Result.ok first ∷ rows) d
      → ((first.key ≡ i) × (d ≡ first.as_at)) ⊎ HasDate i rows d
  HasDate-first i first rows d (row, m, e, f) = elim (In-cons m) [
    | inl g ↦
        let same = one_row g in
        inl (
          ap (λ (r : Row Decimal). r.key) (sym same) ∙ e,
          sym f ∙ ap (λ (r : Row Decimal). r.as_at) same,
        )
    | inr n ↦ inr (row, n, e, f)
  ]
    where
      one_row :
          {a b : Row Decimal}
          → Path (Result RowError (Row Decimal)) (Result.ok a) (Result.ok b)
          → a ≡ b
      one_row e = cc e

  HasDate-failed :
      (i : ℕ) (x : RowError) (rows : List (Result RowError (Row Decimal))) (d : Time)
      → HasDate i (Result.err x ∷ rows) d
      → HasDate i rows d
  HasDate-failed i x rows d (row, m, e, f) = elim (In-cons m) [
    | inl g ↦ absurd (ok_err g)
    | inr n ↦ (row, n, e, f)
  ]
    where
      ok_err : Path (Result RowError (Row Decimal)) (Result.ok row) (Result.err x) → ⊥
      ok_err e = cc e

  dates_of-In :
      (i : ℕ) (rows : List (Result RowError (Row Decimal))) (ts : List Time) (d : Time)
      → In d (dates_of Decimal i rows ts) ↔ (In d ts ⊎ HasDate i rows d)
  unfolding dates_of
  dates_of-In i [] ts d = (λ m. inl m, λ s. elim s [ inl m ↦ m | inr (row, m, e, f) ↦ elim m [ ] ])
  dates_of-In i (Result.err x ∷ rows) ts d =
      let (to, from) = dates_of-In i rows ts d in
      (
        λ m. elim (to m) [ inl n ↦ inl n | inr h ↦ inr (HasDate-cons i _ rows d h) ],
        λ s. from (elim s [ inl n ↦ inl n | inr h ↦ inr (HasDate-failed i x rows d h) ]),
      )
  dates_of-In i (Result.ok row ∷ rows) ts d = elim (Bool-cases (row.key == i)) [
    | inl e ↦
        let (to, from) = dates_of-In i rows (add_date row.as_at ts) d in
        let (left, back) = add_date-In row.as_at ts d in
        rw (dates_of, e)
          (
            λ m. elim (to m) [
              | inl n ↦ elim (left n) [
                | inl k ↦ inl k
                | inr f ↦ inr (row, In.here, is_same row.key i e, sym f)
              ]
              | inr h ↦ inr (HasDate-cons i _ rows d h)
            ],
            λ s. elim s [
              | inl n ↦ from (inl (back (inl n)))
              | inr h ↦ elim (HasDate-first i row rows d h) [
                | inl f ↦ from (inl (back (inr f.1)))
                | inr k ↦ from (inr k)
              ]
            ],
          )
    | inr e ↦
        let (to, from) = dates_of-In i rows ts d in
        rw (dates_of, e)
          (
            λ m. elim (to m) [ inl n ↦ inl n | inr h ↦ inr (HasDate-cons i _ rows d h) ],
            λ s. elim s [
              | inl n ↦ from (inl n)
              | inr h ↦ elim (HasDate-first i row rows d h) [
                | inl f ↦ absurd (differ row.key i e (sym f.0))
                | inr k ↦ from (inr k)
              ]
            ],
          )
  ]

  dates_of-AreDates :
      (i : ℕ) (rows : List (Result RowError (Row Decimal)))
      → AreDates i rows (dates_of Decimal i rows [])
  dates_of-AreDates i rows = (
    dates_of-Distinct i rows [] tt,
    λ d.
        let (to, from) = dates_of-In i rows [] d in
        (λ m. elim (to m) [ inl n ↦ elim n [ ] | inr h ↦ h ], λ h. from (inr h)),
  )

  abbrev Rows : Type 0
  Rows = List (Result RowError (Row Decimal))

  -- A key without an instrument with the dates of its rows; the keys have the places from `j` on.
  abbrev pub IsAsked : ℕ → List KeyRow → Rows → KeyRow × List Time → Type 0
  IsAsked j ks rows (k, ts) =
      (i : ℕ) × (get_elem? ks i ≡ some k)
      × (k.has_instr ≡ false)
      × (ts ≡ dates_of Decimal (j + i) rows [])

  IsAsked-cons :
      (j : ℕ) (l : KeyRow) (ks : List KeyRow) (rows : Rows) (entry : KeyRow × List Time)
      → IsAsked (suc j) ks rows entry
      → IsAsked j (l ∷ ks) rows entry
  IsAsked-cons j l ks rows (k, ts) (i, at, n, h) =
      (suc i, at, n, h ∙ ap (λ z. dates_of Decimal z rows []) (omega arith))

  if_false : {A : Type 0} (b : Bool) (x y : A) → b ≡ false → (if b then x else y) ≡ y
  if_false b x y e = rw e refl

  to_resolve-IsAsked :
      (j : ℕ) (ks : List KeyRow) (rows : Rows) (entry : KeyRow × List Time)
      → In entry (to_resolve Decimal j ks rows)
      → IsAsked j ks rows entry
  unfolding to_resolve
  to_resolve-IsAsked j [] rows entry m = elim m [ ]
  to_resolve-IsAsked j (k ∷ ks) rows entry m = elim (Bool-cases k.has_instr) [
    | inl e ↦
        IsAsked-cons j k ks rows entry
          (to_resolve-IsAsked (suc j) ks rows entry (rw (to_resolve, e) at m))
    | inr e ↦ elim (In-cons (subst (In entry) (if_false k.has_instr _ _ e) m)) [
      | inl f ↦
          subst (IsAsked j (k ∷ ks) rows) (sym f)
            (0, refl, e, ap (λ z. dates_of Decimal z rows []) (omega arith))
      | inr n ↦ IsAsked-cons j k ks rows entry (to_resolve-IsAsked (suc j) ks rows entry n)
    ]
  ]

  later : (j i : ℕ) → suc j + i ≡ j + suc i
  later j i = omega arith

  IsAsked-to_resolve :
      (j : ℕ) (ks : List KeyRow) (rows : Rows) (i : ℕ) (k : KeyRow)
      → get_elem? ks i ≡ some k
      → k.has_instr ≡ false
      → In (k, dates_of Decimal (j + i) rows []) (to_resolve Decimal j ks rows)
  unfolding to_resolve
  IsAsked-to_resolve j [] rows i k at n = absurd (none_some refl at)
  IsAsked-to_resolve j (l ∷ ks) rows zero k at n =
      subst (In (k, dates_of Decimal (j + 0) rows []))
        (sym (if_false l.has_instr _ _ (ap (λ (r : KeyRow). r.has_instr) (some-injective at) ∙ n)))
        (subst (λ z. In z (first ∷ rest)) same In.here)
    where
      first : KeyRow × List Time
      first = (l, dates_of Decimal j rows [])

      rest : List (KeyRow × List Time)
      rest = to_resolve Decimal (suc j) ks rows

      place : j ≡ j + 0
      place = omega arith

      same : first ≡ (k, dates_of Decimal (j + 0) rows [])
      same x = (some-injective at x, dates_of Decimal (place x) rows [])
  IsAsked-to_resolve j (l ∷ ks) rows (suc i) k at n =
      subst (λ z. In (k, dates_of Decimal z rows []) (to_resolve Decimal j (l ∷ ks) rows))
        (later j i)
        (elim (Bool-cases l.has_instr) [
          | inl e ↦ rw (to_resolve, e) (IsAsked-to_resolve (suc j) ks rows i k at n)
          | inr e ↦ rw (to_resolve, e) (In.there (IsAsked-to_resolve (suc j) ks rows i k at n))
        ])

  -- The resolver is asked for exactly the keys without an instrument, each with the as-at dates of the
  -- rows of the key that pass, of which it has each once.
  pub to_resolve-Asked :
      (ks : List KeyRow) (rows : List (Result RowError (Row Decimal))) (entry : KeyRow × List Time)
      → (In entry (to_resolve Decimal 0 ks rows) ↔ IsAsked 0 ks rows entry)
        × ((i : ℕ) → AreDates i rows (dates_of Decimal i rows []))
  to_resolve-Asked ks rows entry = (
    (
      to_resolve-IsAsked 0 ks rows entry,
      λ (i, at, n, e).
          subst (λ z. In (entry.0, z) (to_resolve Decimal 0 ks rows)) (sym e)
            (IsAsked-to_resolve 0 ks rows i entry.0 at n),
    ),
    λ i. dates_of-AreDates i rows,
  )
