-- ===== src/Identity/Resolve/Merge/Conflict.antt =====
-- The conflict that the loop over the identifiers ends at.
use Prim.Native.String.{String}
use text.Mathlib.Text.{◌==◌ as str_eq}
use stonks.Base.{
  some-injective, none_some, ℕ, Bool, true, false, not, ◌&&◌, Option, none, some, List, [], ◌∷◌,
  ◌≡◌, ◌↔◌, refl, sym, ap, subst, arith, All, All-mono, ◌⊎◌, Bool-cases, Option-cases, inl, inr,
  clash, ==_iff, if◌then◌else◌,
}
use stonks.Types.Identifier.{exclusive}
use stonks.Identity.Group.Joined.{str_eq_iff, type_eq_iff, all_three, three}
use stonks.Identity.Resolve.Claim.{type_eq}
use stonks.Identity.Resolve.Merge.{
  IdentifierRow, InstrMatch, Key, key_eq, key_of, FirstSeen, seen, Conflicting, differs,
  conflict_row, unless_found, conflict_rows, fam_of, conflict_matches,
}

key_eq_iff : (k l : Key) → (key_eq k l ≡ true) ↔ (k ≡ l)
unfolding key_eq type_eq
key_eq_iff k l = (to, from)
  where
    to : key_eq k l ≡ true → k ≡ l
    to h =
        let (t, d, f) = all_three _ _ _ h in
        let et = (type_eq_iff k.typ l.typ).0 t in
        let ed = (str_eq_iff k.domain l.domain).0 d in
        let ef = (str_eq_iff k.family l.family).0 f in
        λ i. record { typ = et i; domain = ed i; family = ef i }

    from : k ≡ l → key_eq k l ≡ true
    from e =
        three _ _ _ ((type_eq_iff k.typ l.typ).1 (ap (λ (m : Key). m.typ) e))
          ((str_eq_iff k.domain l.domain).1 (ap (λ (m : Key). m.domain) e))
          ((str_eq_iff k.family l.family).1 (ap (λ (m : Key). m.family) e))

-- A row of the key.
abbrev pub Stated : Type 1
Stated = Key → IdentifierRow → Type 0

-- An instrument carries one value of each key.
abbrev pub OneValue : Stated → Type 0
OneValue u =
    (k : Key) (r s : IdentifierRow)
    → u k r
    → u k s
    → r.instr_id ≡ s.instr_id
    → r.identifier.value ≡ s.identifier.value

abbrev pub Clash : Stated → IdentifierRow → IdentifierRow → Type 0
Clash u r s = (k : Key) × u k r × u k s × (differs r s ≡ true)

-- The first row seen of the key has the value of the row.
abbrev pub Found : FirstSeen → Key → IdentifierRow → Type 0
Found first k row =
    (prior : IdentifierRow) × (seen k first ≡ some prior)
    × (prior.identifier.value ≡ row.identifier.value)

abbrev Grows : FirstSeen → FirstSeen → Type 0
Grows first next = (k : Key) (row : IdentifierRow) → Found first k row → Found next k row

module _ (u : Stated) (one : OneValue u) where
  abbrev IsSeen : FirstSeen → Type 0
  IsSeen first = (k : Key) (prior : IdentifierRow) → seen k first ≡ some prior → u k prior

  -- A loop ends with `R` of what it has seen, or at a conflict.
  abbrev pub Ends : (FirstSeen → Type 0) → FirstSeen × Conflicting → Type 0
  Ends R (first, none) = R first
  Ends R (first, some (r, s)) = Clash u r s

  Ends-unless_found :
      (R S : FirstSeen → Type 0) (r rest : FirstSeen × Conflicting)
      → Ends R r
      → (R r.0 → Ends S rest)
      → Ends S (unless_found r rest)
  Ends-unless_found R S (first, none) rest h go = go h
  Ends-unless_found R S (first, some c) rest h go = h

  Ends-mono :
      (R S : FirstSeen → Type 0) (r : FirstSeen × Conflicting)
      → ((first : FirstSeen) → R first → S first)
      → Ends R r
      → Ends S r
  Ends-mono R S (first, none) f h = f first h
  Ends-mono R S (first, some c) f h = h

  same_value :
      (k : Key) (prior row : IdentifierRow)
      → u k prior
      → u k row
      → differs prior row ≡ false
      → prior.identifier.value ≡ row.identifier.value
  same_value k prior row h g e =
      elim (Bool-cases (str_eq prior.identifier.value row.identifier.value)) [
        | inl s ↦ (str_eq_iff prior.identifier.value row.identifier.value).0 s
        | inr s ↦ one k prior row h g ((==_iff prior.instr_id row.instr_id).0 (same_instr _ _ s e))
      ]
    where
      same_instr : (s i : Bool) → s ≡ false → (not s && not i) ≡ false → i ≡ true
      same_instr s i h g = ground (arith, h, g)

  seen-new :
      (k : Key) (row : IdentifierRow) (first : FirstSeen)
      → IsSeen first
      → u k row
      → seen k first ≡ none
      → IsSeen ((k, row) ∷ first) × Grows first ((k, row) ∷ first) × Found ((k, row) ∷ first) k row
  unfolding seen
  seen-new k row first h g new = (
    λ l prior at. elim (Bool-cases (key_eq l k)) [
      | inl e ↦
          subst (λ m. u m prior) (sym ((key_eq_iff l k).0 e))
            (subst (u k) (some-injective (rw e at at)) g)
      | inr e ↦ h l prior (rw e at at)
    ],
    λ l r (prior, at, v). elim (Bool-cases (key_eq l k)) [
      | inl e ↦
          absurd (none_some new (subst (λ m. seen m first ≡ some prior) ((key_eq_iff l k).0 e) at))
      | inr e ↦ (prior, rw e at, v)
    ],
    (row, rw ((key_eq_iff k k).1 refl) refl, refl),
  )

  abbrev pub AllSeen : FirstSeen → (ℕ → String) → List IdentifierRow → Type 0
  AllSeen next fam rows =
      All (λ row. exclusive row.identifier ≡ true → Found next (key_of fam row) row) rows

  abbrev RowsSeen : FirstSeen → (ℕ → String) → List IdentifierRow → FirstSeen → Type 0
  RowsSeen first fam rows next = IsSeen next × Grows first next × AllSeen next fam rows

  abbrev pub MatchesSeen : FirstSeen → List InstrMatch → FirstSeen → Type 0
  MatchesSeen first ms next =
      IsSeen next
      × Grows first next
      × All (λ h. AllSeen next (fam_of h.instr) h.instr.identifiers) ms

  row-Ends :
      (fam : ℕ → String) (row : IdentifierRow) (first : FirstSeen)
      → IsSeen first
      → (exclusive row.identifier ≡ true → u (key_of fam row) row)
      → Ends (RowsSeen first fam (row ∷ [])) (conflict_row fam row first)
  unfolding conflict_row
  row-Ends fam row first h g = elim (Bool-cases (exclusive row.identifier)) [
    | inl e ↦
        subst Result (sym (ap (λ b. step b (seen (key_of fam row) first)) e))
          (elim (Option-cases (seen (key_of fam row) first)) [
            | inl new ↦
                let (seen', grows, found) = seen-new (key_of fam row) row first h (g e) new in
                subst Result (sym (ap (step true) new)) (seen', grows, ((λ x. found), tt))
            | inr (prior, at) ↦
                subst Result (sym (ap (step true) at))
                  (met prior at (g e) (Bool-cases (differs prior row)))
          ])
    | inr e ↦
        subst Result (sym (ap (λ b. step b (seen (key_of fam row) first)) e))
          (h, (λ k r f. f), ((λ x. absurd (clash x e)), tt))
  ]
    where
      step : Bool → Option IdentifierRow → FirstSeen × Conflicting
      step b o = if not b then (first, none) else elim o [
        | some prior ↦ if differs prior row then (first, some (prior, row)) else (first, none)
        | none ↦ ((key_of fam row, row) ∷ first, none)
      ]

      Result : FirstSeen × Conflicting → Type 0
      Result r = Ends (RowsSeen first fam (row ∷ [])) r

      met :
          (prior : IdentifierRow)
          → seen (key_of fam row) first ≡ some prior
          → u (key_of fam row) row
          → (differs prior row ≡ true) ⊎ (differs prior row ≡ false)
          → Result (if differs prior row then (first, some (prior, row)) else (first, none))
      met prior at x (inl d) =
          subst (λ b. Result (if b then (first, some (prior, row)) else (first, none))) (sym d)
            (key_of fam row, h (key_of fam row) prior at, x, d)
      met prior at x (inr d) =
          subst (λ b. Result (if b then (first, some (prior, row)) else (first, none))) (sym d)
            (
              h,
              (λ k r f. f),
              (
                (λ e. (
                  prior,
                  at,
                  same_value (key_of fam row) prior row (h (key_of fam row) prior at) x d,
                )),
                tt,
              ),
            )

  rows-Ends :
      (fam : ℕ → String) (rows : List IdentifierRow) (first : FirstSeen)
      → IsSeen first
      → All (λ row. exclusive row.identifier ≡ true → u (key_of fam row) row) rows
      → Ends (RowsSeen first fam rows) (conflict_rows fam rows first)
  unfolding conflict_rows
  rows-Ends fam [] first h g = (h, (λ k r f. f), tt)
  rows-Ends fam (row ∷ rows) first h g =
      Ends-unless_found (RowsSeen first fam (row ∷ [])) (RowsSeen first fam (row ∷ rows))
        (conflict_row fam row first) _ (row-Ends fam row first h g.0)
        (λ (seen', grows, found).
          Ends-mono (RowsSeen (conflict_row fam row first).0 fam rows)
            (RowsSeen first fam (row ∷ rows))
            (conflict_rows fam rows (conflict_row fam row first).0)
            (λ next (seen2, grows2, found2). (
              seen2,
              (λ k r f. grows2 k r (grows k r f)),
              (λ e. grows2 (key_of fam row) row (found.0 e), found2),
            ))
            (rows-Ends fam rows (conflict_row fam row first).0 seen' g.1))

  pub matches-Ends :
      (ms : List InstrMatch) (first : FirstSeen)
      → IsSeen first
      → All
          (λ h.
            All
              (λ row. exclusive row.identifier ≡ true → u (key_of (fam_of h.instr) row) row)
              h.instr.identifiers)
          ms
      → Ends (MatchesSeen first ms) (conflict_matches ms first)
  unfolding conflict_matches
  matches-Ends [] first h g = (h, (λ k r f. f), tt)
  matches-Ends (m ∷ ms) first h g =
      let r = conflict_rows (fam_of m.instr) m.instr.identifiers first in
      Ends-unless_found (RowsSeen first (fam_of m.instr) m.instr.identifiers)
        (MatchesSeen first (m ∷ ms)) r _
        (rows-Ends (fam_of m.instr) m.instr.identifiers first h g.0)
        (λ (seen', grows, found).
          Ends-mono (MatchesSeen r.0 ms) (MatchesSeen first (m ∷ ms)) (conflict_matches ms r.0)
            (λ next (seen2, grows2, found2). (
              seen2,
              (λ k r f. grows2 k r (grows k r f)),
              (
                All-mono (λ row f e. grows2 (key_of (fam_of m.instr) row) row (f e))
                    m.instr.identifiers found,
                found2,
              ),
            ))
            (matches-Ends ms r.0 seen' g.1))
