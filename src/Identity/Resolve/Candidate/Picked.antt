-- ===== src/Identity/Resolve/Candidate/Picked.antt =====
-- What a user's pick finds, or why it finds nothing.
use Prim.Native.String.{String}
use text.Mathlib.Text.{◌==◌ as str_eq}
use stonks.Base.{
  Bool, true, false, not, ◌||◌, Option, none, some, List, [], ◌∷◌, ◌≡◌, ◌⊎◌, ◌↔◌, refl, sym, subst,
  arith, All, Bool-cases, Option-cases, inl, inr, clash, none_some, some-injective,
}
use stonks.Types.Identifier.{Identifier, stable}
use stonks.Types.Instr.{identified_by, all_ids}
use stonks.Market.{FetchKey, FetchOutcome}
use stonks.Identity.Group.Joined.{str_eq_iff, has-In}
use stonks.Base.In.{In, IsFirstOf}
use stonks.Identity.Resolve.Claim.{IdentityClaim, Resolution, strongest_stable}
use stonks.Identity.Resolve.Claim.Strongest.{IsStrongest, strongest_stable-IsStrongest}
use stonks.Identity.Resolve.Choose.{ConsistentClaims}
use stonks.Identity.Resolve.Gather.{gather_consistent_claims}
use stonks.Identity.Resolve.Candidate.{
  offered_claims, is_served, Pick, Found, chosen, refused, not_asked, unserved, unstable,
  not_offered, asked_of, comes_from, via_stable, choose_set, pick_from, find_user_choice,
}

-- The head of the set came from the datasource of the pick and carries its identifier.
abbrev pub IsPicked : Pick → ConsistentClaims → Type 0
IsPicked p a =
    ((fk : FetchKey) × (a.head.fetch_key ≡ some fk) × (fk.source ≡ p.datasource))
    × In p.identifier (all_ids a.head.instr)

-- The identifier that fixes the key: the one picked where it is stable, and else the strongest stable
-- one of the head.
abbrev pub IsVia : Pick → ConsistentClaims → Identifier → Type 0
IsVia p a via =
    ((stable p.identifier ≡ true) × (via ≡ p.identifier))
    ⊎ ((stable p.identifier ≡ false) × IsStrongest stable (all_ids a.head.instr) (some via))

-- What a pick among sets is told.
abbrev pub IsPick : Pick → List ConsistentClaims → Found → Type 0
IsPick p sets (chosen u) = IsFirstOf (IsPicked p) u.claims sets × IsVia p u.claims u.via
IsPick p sets (refused unstable) =
    (a : ConsistentClaims) × IsFirstOf (IsPicked p) a sets
    × (stable p.identifier ≡ false)
    × All (λ id. stable id ≡ false) (all_ids a.head.instr)
IsPick p sets (refused not_offered) = All (λ a. IsPicked p a → ⊥) sets
IsPick p sets (refused _) = ⊥

-- The fetch key is the first one of the datasource of the pick.
abbrev pub IsAskedBy : Resolution → Pick → FetchKey → Type 0
IsAskedBy res p fk = IsFirstOf (λ l. l.source ≡ p.datasource) fk res.fetch_keys

-- The datasource of the pick was asked, it served its first fetch key, and the pick among the sets
-- that are gathered is told the answer.
abbrev pub IsServedPick : Resolution → Pick → Found → Type 0
IsServedPick res p r =
    ((fk : FetchKey) × IsAskedBy res p fk × (fk.outcome ≡ FetchOutcome.served))
    × IsPick p (gather_consistent_claims res (offered_claims res).0) r

-- What a pick is told of a key.
abbrev pub IsAnswer : Resolution → Pick → Found → Type 0
IsAnswer res p (refused not_asked) = All (λ fk. fk.source ≡ p.datasource → ⊥) res.fetch_keys
IsAnswer res p (refused unserved) =
    (fk : FetchKey) × IsAskedBy res p fk × (fk.outcome ≡ FetchOutcome.served → ⊥)
IsAnswer res p (refused unstable) = IsServedPick res p (refused unstable)
IsAnswer res p (refused not_offered) = IsServedPick res p (refused not_offered)
IsAnswer res p (chosen u) = IsServedPick res p (chosen u)

picked : (a b : Bool) → (not a || not b) ≡ false → (a ≡ true) × (b ≡ true)
picked a b h = (ground (arith, h), ground (arith, h))

passed : (a b : Bool) → (not a || not b) ≡ true → a ≡ true → b ≡ true → ⊥
passed a b h e f = ground (arith, h, e, f)

comes_from_iff :
    (source : String) (c : IdentityClaim)
    → (comes_from source c ≡ true)
      ↔ ((fk : FetchKey) × (c.fetch_key ≡ some fk) × (fk.source ≡ source))
comes_from_iff source c = go c.fetch_key
  where
    go :
        (o : Option FetchKey)
        → (elim o [ none ↦ false | some fk ↦ str_eq fk.source source ] ≡ true)
          ↔ ((fk : FetchKey) × (o ≡ some fk) × (fk.source ≡ source))
    go none = (λ e. absurd (clash e refl), λ (fk, e, s). absurd (none_some refl e))
    go (some fk) = (
      λ e. (fk, refl, (str_eq_iff fk.source source).0 e),
      λ (l, e, s).
          (str_eq_iff fk.source source).1
            (subst (λ (z : FetchKey). z.source ≡ source) (sym (some-injective e)) s),
    )

-- The tests of the loop on one set.
of_set :
    (p : Pick) (a : ConsistentClaims)
    → (not (comes_from p.datasource a.head) || not (identified_by a.head.instr p.identifier))
      ≡ false
    → IsPicked p a
unfolding identified_by
of_set p a e =
    let (c, i) = picked _ _ e in
    ((comes_from_iff p.datasource a.head).0 c, (has-In p.identifier (all_ids a.head.instr)).0 i)

not_of_set :
    (p : Pick) (a : ConsistentClaims)
    → (not (comes_from p.datasource a.head) || not (identified_by a.head.instr p.identifier)) ≡ true
    → IsPicked p a
    → ⊥
unfolding identified_by
not_of_set p a e (c, i) =
    passed _ _ e ((comes_from_iff p.datasource a.head).1 c)
      ((has-In p.identifier (all_ids a.head.instr)).1 i)

via_stable-IsPick :
    (p : Pick) (a : ConsistentClaims) (sets : List ConsistentClaims) (via : Option Identifier)
    → IsPicked p a
    → stable p.identifier ≡ false
    → IsStrongest stable (all_ids a.head.instr) via
    → IsPick p (a ∷ sets) (via_stable a via)
via_stable-IsPick p a sets none e s h = (a, inl (refl, e), s, h)
via_stable-IsPick p a sets (some via) e s h = (inl (refl, e), inr (s, h))

choose_set-IsPick :
    (p : Pick) (a : ConsistentClaims) (sets : List ConsistentClaims)
    → IsPicked p a
    → IsPick p (a ∷ sets) (choose_set p a)
unfolding choose_set
choose_set-IsPick p a sets e = elim (Bool-cases (stable p.identifier)) [
  | inl s ↦ rw (s, choose_set) (inl (refl, e), inl (s, refl))
  | inr s ↦
      rw (s, choose_set)
        (via_stable-IsPick p a sets (strongest_stable a.head) e s
          (strongest_stable-IsStrongest a.head))
]

later :
    (p : Pick) (a : ConsistentClaims) (sets : List ConsistentClaims) (r : Found)
    → (IsPicked p a → ⊥)
    → IsPick p sets r
    → IsPick p (a ∷ sets) r
later p a sets (chosen u) e h = (inr (e, h.0), h.1)
later p a sets (refused unstable) e h = (h.0, inr (e, h.1), h.2, h.3)
later p a sets (refused not_offered) e h = (e, h)
later p a sets (refused not_asked) e h = h
later p a sets (refused unserved) e h = h

pick_from-IsPick : (p : Pick) (sets : List ConsistentClaims) → IsPick p sets (pick_from p sets)
unfolding pick_from
pick_from-IsPick p [] = tt
pick_from-IsPick p (a ∷ sets) =
    elim (Bool-cases
      (not (comes_from p.datasource a.head) || not (identified_by a.head.instr p.identifier))) [
        | inl e ↦ rw (e, pick_from) (later p a sets _ (not_of_set p a e) (pick_from-IsPick p sets))
        | inr e ↦ rw (e, pick_from) (choose_set-IsPick p a sets (of_set p a e))
      ]

served-IsAnswer :
    (res : Resolution) (p : Pick) (r : Found) → IsServedPick res p r → IsAnswer res p r
served-IsAnswer res p (chosen u) h = h
served-IsAnswer res p (refused unstable) h = h
served-IsAnswer res p (refused not_offered) h = h
served-IsAnswer res p (refused not_asked) h = absurd h.1
served-IsAnswer res p (refused unserved) h = absurd h.1

is_served_iff : (o : FetchOutcome) → (is_served o ≡ true) ↔ (o ≡ FetchOutcome.served)
is_served_iff FetchOutcome.served = (λ e. refl, λ e. refl)
is_served_iff FetchOutcome.not_served = (λ e. absurd (clash e refl), λ e. cc e)
is_served_iff FetchOutcome.blocked = (λ e. absurd (clash e refl), λ e. cc e)
is_served_iff FetchOutcome.failed_temporary = (λ e. absurd (clash e refl), λ e. cc e)
is_served_iff FetchOutcome.failed_permanent = (λ e. absurd (clash e refl), λ e. cc e)

-- What the search for the fetch key finds.
abbrev Asked : String → List FetchKey → Option FetchKey → Type 0
Asked source fks none = All (λ fk. fk.source ≡ source → ⊥) fks
Asked source fks (some fk) = IsFirstOf (λ l. l.source ≡ source) fk fks

Asked-later :
    (source : String) (fk : FetchKey) (fks : List FetchKey) (o : Option FetchKey)
    → (fk.source ≡ source → ⊥)
    → Asked source fks o
    → Asked source (fk ∷ fks) o
Asked-later source fk fks none n h = (n, h)
Asked-later source fk fks (some l) n h = inr (n, h)

asked_of-Asked : (source : String) (fks : List FetchKey) → Asked source fks (asked_of source fks)
unfolding asked_of
asked_of-Asked source [] = tt
asked_of-Asked source (fk ∷ fks) = elim (Bool-cases (str_eq fk.source source)) [
  | inl h ↦ rw (h, asked_of) (inl (refl, (str_eq_iff fk.source source).0 h))
  | inr h ↦
      rw (h, asked_of)
        (Asked-later source fk fks _ (λ e. clash ((str_eq_iff fk.source source).1 e) h)
          (asked_of-Asked source fks))
]

-- A pick is refused for a datasource that was not asked, and for one that did not serve its first
-- fetch key, and for no other datasource for these reasons. For one that did, it finds the first set
-- that is gathered whose head is of the datasource and carries the identifier picked. It is fixed by
-- this identifier where it is stable, and else by the strongest stable one of the head. The pick is
-- refused where there is no such set, and where that head carries no stable identifier.
pub find_user_choice-IsAnswer :
    (res : Resolution) (p : Pick) → IsAnswer res p (find_user_choice res p)
unfolding find_user_choice
find_user_choice-IsAnswer res p = elim (Option-cases (asked_of p.datasource res.fetch_keys)) [
  | inl e ↦
      rw (e, find_user_choice)
        (subst (Asked p.datasource res.fetch_keys) e (asked_of-Asked p.datasource res.fetch_keys))
  | inr (fk, e) ↦
      let asked : IsAskedBy res p fk =
        subst (Asked p.datasource res.fetch_keys) e (asked_of-Asked p.datasource res.fetch_keys) in
      elim (Bool-cases (is_served fk.outcome)) [
        | inl s ↦
            rw (e, s, find_user_choice)
              (served-IsAnswer res p _ (
                (fk, asked, (is_served_iff fk.outcome).0 s),
                pick_from-IsPick p (gather_consistent_claims res (offered_claims res).0),
              ))
        | inr s ↦
            rw (e, s, find_user_choice) (fk, asked, λ o. clash ((is_served_iff fk.outcome).1 o) s)
      ]
]
