-- ===== src/Stmt/Keys/Held.antt =====
-- What the loop of `key_of` over the identifiers holds.
use Prim.Native.String.{String}
use text.Mathlib.Text.{◌==◌ as str_eq}
use stonks.Base.{
  Bool, true, false, not, ◌&&◌, Option, none, some, List, [], ◌∷◌, ◌++◌, any, All, ◌≡◌, ◌↔◌, refl,
  sym, ap, ◌⊎◌, inl, inr, Bool-cases, clash, if◌then◌else◌,
}
use stonks.Base.In.{In}
use stonks.Types.Identifier.{Identifier, exclusive}
use stonks.Identity.Group.{identifier_eq}
use stonks.Identity.Group.Joined.{has-In}
use stonks.Identity.Resolve.Claim.{type_eq}
use stonks.Stmt.{Result, KeyError}
use stonks.Stmt.Keys.{clashing, is_broker_type, is_datasource_ticker, hold}

-- A statement may state the identifier by itself.
abbrev pub IsAllowed : String → Identifier → Type 0
IsAllowed broker id =
    (is_datasource_ticker id.type ≡ false)
    × (str_eq id.value "" ≡ false)
    × ((is_broker_type id.type && not (str_eq id.domain broker)) ≡ false)

-- A further value of one exclusive type and domain.
unfoldable pub clashes : Identifier → Identifier → Bool
unfolding type_eq exclusive
clashes id h = type_eq h.type id.type && (str_eq h.domain id.domain && exclusive id)

abbrev pub HasNoClash : Identifier → List Identifier → Type 0
HasNoClash id held = All (λ h. clashes id h ≡ false) held

-- Where one identifier leaves the ones held.
abbrev pub Holds : String → Identifier → List Identifier → List Identifier → Type 0
Holds broker id held next =
    IsAllowed broker id
    × ((In id held × (next ≡ held))
        ⊎ ((In id held → ⊥) × HasNoClash id held × (next ≡ held ++ id ∷ [])))

clashing-none_iff :
    (id : Identifier) (held : List Identifier) → (clashing id held ≡ none) ↔ HasNoClash id held
unfolding clashing clashes
clashing-none_iff id [] = (λ e. tt, λ h. refl)
clashing-none_iff id (h ∷ held) = go (clashes id h) (clashing id held) (clashing-none_iff id held)
  where
    some_none : {h : Identifier} → some h ≡ none → ⊥
    some_none e = absurd (cc e)

    go :
        (b : Bool) (o : Option Identifier)
        → (o ≡ none) ↔ HasNoClash id held
        → ((if b then some h else o) ≡ none) ↔ ((b ≡ false) × HasNoClash id held)
    go true o r = (λ e. absurd (some_none e), λ z. absurd (clash refl z.0))
    go false o r = (λ e. (refl, r.0 e), λ z. r.1 z.1)

err_ok :
    {e : KeyError} {next : List Identifier}
    → Path (Result KeyError (List Identifier)) (Result.err e) (Result.ok next)
    → ⊥
err_ok e = absurd (cc e)

ok_inj :
    {xs ys : List Identifier}
    → Path (Result KeyError (List Identifier)) (Result.ok xs) (Result.ok ys)
    → ys ≡ xs
ok_inj e = cc e

-- The tests of a round, and where they leave the identifiers held.
round :
    (id : Identifier) (held next : List Identifier) (a b c d : Bool) (o : Option Identifier)
    → ((if a
          then Result.err KeyError.datasource_ticker_stated
          else if b
          then Result.err KeyError.no_value
          else if c
          then Result.err KeyError.other_broker
          else if d
          then Result.ok held
          else elim o [
            | some h ↦ Result.err (KeyError.two_values h id)
            | none ↦ Result.ok (held ++ id ∷ [])
          ])
        ≡ Result.ok next)
      ↔ (((a ≡ false) × (b ≡ false) × (c ≡ false))
          × (((d ≡ true) × (next ≡ held)) ⊎ ((d ≡ false) × (o ≡ none) × (next ≡ held ++ id ∷ []))))
round id held next true b c d o = (λ e. absurd (err_ok e), λ z. absurd (clash refl z.0.0))
round id held next false true c d o = (λ e. absurd (err_ok e), λ z. absurd (clash refl z.0.1))
round id held next false false true d o = (λ e. absurd (err_ok e), λ z. absurd (clash refl z.0.2))
round id held next false false false true o = (
  λ e. ((refl, refl, refl), inl (refl, ok_inj e)),
  λ z. elim z.1 [
    | inl (x, e) ↦ ap (λ xs. Result.ok xs) (sym e)
    | inr (x, y, e) ↦ absurd (clash refl x)
  ],
)
round id held next false false false false (some h) = (
  λ e. absurd (err_ok e),
  λ z. elim z.1 [ inl (x, e) ↦ absurd (clash x refl) | inr (x, y, e) ↦ absurd (some_none y) ],
)
  where
    some_none : {h : Identifier} → some h ≡ none → ⊥
    some_none e = absurd (cc e)
round id held next false false false false none = (
  λ e. ((refl, refl, refl), inr (refl, refl, ok_inj e)),
  λ z. elim z.1 [
    | inl (x, e) ↦ absurd (clash x refl)
    | inr (x, y, e) ↦ ap (λ xs. Result.ok xs) (sym e)
  ],
)

pub hold_iff :
    (broker : String) (id : Identifier) (held next : List Identifier)
    → (hold broker id held ≡ Result.ok next) ↔ Holds broker id held next
unfolding hold
hold_iff broker id held next =
    let tests =
      round id held next (is_datasource_ticker id.type) (str_eq id.value "")
        (is_broker_type id.type && not (str_eq id.domain broker))
        (any (λ h. identifier_eq h id) held) (clashing id held) in
    (
      λ e.
          let (t, k) = tests.0 e in
          (
            t,
            elim k [
              | inl (x, f) ↦ inl ((has-In id held).0 x, f)
              | inr (x, y, f) ↦
                  inr ((λ m. clash ((has-In id held).1 m) x), (clashing-none_iff id held).0 y, f)
            ],
          ),
      λ (t, k). tests.1 (
        t,
        elim k [
          | inl (m, f) ↦ inl ((has-In id held).1 m, f)
          | inr (n, y, f) ↦ inr (not_in n, (clashing-none_iff id held).1 y, f)
        ],
      ),
    )
  where
    not_in : (In id held → ⊥) → any (λ h. identifier_eq h id) held ≡ false
    not_in n = elim (Bool-cases (any (λ h. identifier_eq h id) held)) [
      | inl e ↦ absurd (n ((has-In id held).0 e))
      | inr e ↦ e
    ]
