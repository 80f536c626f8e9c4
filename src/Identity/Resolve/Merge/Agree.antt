-- ===== src/Identity/Resolve/Merge/Agree.antt =====
-- When the instruments of the matches can be one.
use stonks.Base.{
  none_some, Bool, true, false, not, ◌&&◌, ◌||◌, none, some, List, [], ◌∷◌, any, ◌≡◌, ◌↔◌, refl,
  sym, ap, ◌∙◌, subst, arith, clash, if◌then◌else◌,
}
use stonks.Types.AssetClass.{disjoint}
use stonks.Types.Identifier.{exclusive}
use stonks.Base.In.{In, All-In, In-All}
use stonks.Identity.Group.Joined.{str_eq_iff}
use stonks.Identity.Resolve.Merge.{
  IdentifierRow, InstrMatch, Key, key_of, FirstSeen, Conflicting, fam_of, conflict_matches,
  classes_conflict, merge_conflict,
}
use stonks.Identity.Resolve.Merge.Conflict.{
  Stated, OneValue, Clash, Found, Ends, AllSeen, MatchesSeen, matches-Ends,
}

-- The row stands on an instrument of the matches, under the key, and its type is exclusive.
abbrev pub Carried : List InstrMatch → Stated
Carried ms k row =
    (h : InstrMatch) × In h ms
    × In row h.instr.identifiers
    × (exclusive row.identifier ≡ true)
    × (k ≡ key_of (fam_of h.instr) row)

abbrev pub IsUnanimous : Stated → Type 0
IsUnanimous u =
    (k : Key) (r s : IdentifierRow) → u k r → u k s → r.identifier.value ≡ s.identifier.value

-- Two places of the matches, the first one before the second one.
pub data Before (a b : InstrMatch) : List InstrMatch → Type 0 where
  now : {ms : List InstrMatch} → In b ms → Before a b (a ∷ ms)
  later : {h : InstrMatch} {ms : List InstrMatch} → Before a b ms → Before a b (h ∷ ms)

-- No two instruments have disjoint classes.
abbrev pub HasOneClass : List InstrMatch → Type 0
HasOneClass ms =
    (a b : InstrMatch) → Before a b ms → disjoint a.instr.asset_class b.instr.asset_class ≡ false

or_false : (a b : Bool) → (a || b) ≡ false → (a ≡ false) × (b ≡ false)
or_false a b h = ground (arith, h)

no_or : (a b : Bool) → a ≡ false → b ≡ false → (a || b) ≡ false
no_or a b h g = ground (arith, h, g)

any-In :
    (P : InstrMatch → Bool) (xs : List InstrMatch)
    → any P xs ≡ false
    → (x : InstrMatch) → In x xs
    → P x ≡ false
any-In P (y ∷ xs) h x In.here = (or_false (P y) (any P xs) h).0
any-In P (y ∷ xs) h x (In.there m) = any-In P xs (or_false (P y) (any P xs) h).1 x m
any-In P [] h x m = elim m [ ]

In-any :
    (P : InstrMatch → Bool) (xs : List InstrMatch)
    → ((x : InstrMatch) → In x xs → P x ≡ false)
    → any P xs ≡ false
In-any P [] h = refl
In-any P (y ∷ xs) h = no_or (P y) (any P xs) (h y In.here) (In-any P xs (λ x m. h x (In.there m)))

either : (b c : Bool) → (if b then true else c) ≡ false → (b ≡ false) × (c ≡ false)
either b c h = ground (arith, h)

classes_conflict-HasOneClass : (ms : List InstrMatch) → classes_conflict ms ≡ false → HasOneClass ms
unfolding classes_conflict
classes_conflict-HasOneClass (a ∷ ms) h x y (Before.now m) =
    any-In (λ b. disjoint x.instr.asset_class b.instr.asset_class) ms
      (either _ (classes_conflict ms) h).0 y m
classes_conflict-HasOneClass (a ∷ ms) h x y (Before.later m) =
    classes_conflict-HasOneClass ms (either _ (classes_conflict ms) h).1 x y m
classes_conflict-HasOneClass [] h x y m = elim m [ ]

HasOneClass-classes_conflict : (ms : List InstrMatch) → HasOneClass ms → classes_conflict ms ≡ false
unfolding classes_conflict
HasOneClass-classes_conflict [] h = refl
HasOneClass-classes_conflict (a ∷ ms) h =
    rw (In-any _ ms (λ b m. h a b (Before.now m)), classes_conflict)
      (HasOneClass-classes_conflict ms (λ x y m. h x y (Before.later m)))

-- `mergeConflict` finds no conflict exactly when the instruments can be one: the exclusive identifiers
-- of one type, domain and currency family have one value, and no two classes are disjoint. Each
-- instrument is taken to carry one value of each of these by itself.
pub merge_conflict-none_iff :
    (ms : List InstrMatch)
    → OneValue (Carried ms)
    → (merge_conflict ms ≡ false) ↔ (IsUnanimous (Carried ms) × HasOneClass ms)
unfolding merge_conflict
merge_conflict-none_iff ms one = go (conflict_matches ms []) (
    matches-Ends (Carried ms) one ms [] (λ k prior e. absurd (none_some refl e))
      (In-All _ ms (λ h m. In-All _ h.instr.identifiers (λ row n e. (h, m, n, e, refl)))))
  where
    at :
        (first : FirstSeen)
        → MatchesSeen (Carried ms) one [] ms first
        → (k : Key) (row : IdentifierRow) → Carried ms k row
        → Found first k row
    at first s k row (h, m, n, e, g) =
        subst (λ l. Found first l row) (sym g)
          (All-In (λ d. exclusive d.identifier ≡ true → Found first (key_of (fam_of h.instr) d) d)
            (All-In (λ i. AllSeen (Carried ms) one first (fam_of i.instr) i.instr.identifiers) s.2
              m)
            n e)

    found :
        (first : FirstSeen) → MatchesSeen (Carried ms) one [] ms first → IsUnanimous (Carried ms)
    found first s k r t hr ht = one_prior (at first s k r hr) (at first s k t ht)
      where
        one_prior : Found first k r → Found first k t → r.identifier.value ≡ t.identifier.value
        one_prior (p, e, v) (q, f, w) =
            let same : p ≡ q = cc (e, f) in
            sym v ∙ ap (λ (d : IdentifierRow). d.identifier.value) same ∙ w

    apart : (r s : IdentifierRow) → Clash (Carried ms) r s → IsUnanimous (Carried ms) → ⊥
    apart r s (k, hr, hs, d) z =
        clash ((str_eq_iff r.identifier.value s.identifier.value).1 (z k r s hr hs))
          (not_same _ _ d)
      where
        not_same : (a b : Bool) → (not a && not b) ≡ true → a ≡ false
        not_same a b h = ground (arith, h)

    go :
        (r : FirstSeen × Conflicting)
        → Ends (Carried ms) one (MatchesSeen (Carried ms) one [] ms) r
        → (elim r.1 [ some c ↦ true | none ↦ classes_conflict ms ] ≡ false)
          ↔ (IsUnanimous (Carried ms) × HasOneClass ms)
    go (first, none) h = (
      λ e. (found first h, classes_conflict-HasOneClass ms e),
      λ z. HasOneClass-classes_conflict ms z.1,
    )
    go (first, some (r, s)) h = (λ e. absurd (clash refl e), λ z. absurd (apart r s h z.0))
