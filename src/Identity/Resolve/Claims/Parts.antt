-- ===== src/Identity/Resolve/Claims/Parts.antt =====
-- What the inner loop of `partition` leaves of the roots, for the identifiers of one listing.
use stonks.Base.{
  some-injective, none_some, ℕ, suc, ◌+◌, ◌≤◌, ◌<◌, Bool, false, Option, none, some, List, [], ◌∷◌,
  length, ◌≡◌, refl, sym, ap, subst, arith, All, Bool-cases, Option-cases, inl, inr, clash,
  if◌then◌else◌,
}
use stonks.Types.Identifier.{Identifier}
use stonks.Market.{Listing}
use stonks.Identity.Group.{First, Parent, stated_first, identifier_eq}
use stonks.Identity.Group.Joined.{identifier_eq_iff}
use stonks.Identity.Resolve.Claim.{of_listing}
use stonks.Identity.Resolve.Claims.{union, own, own_all}
use stonks.Identity.Resolve.Claims.Forest.{IsForest-mono}
use stonks.Identity.Resolve.Claims.Linked.{HasId, Linked, Refines, Owned, State, union-State}

-- The listing `x` has the root of the owner of the identifier.
abbrev pub Found : First → (ℕ → ℕ) → Identifier → ℕ → Type 0
Found owner top id x = (j : ℕ) × (stated_first id owner ≡ some j) × (top x ≡ top j)

abbrev pub Grows : First → (ℕ → ℕ) → First → (ℕ → ℕ) → Type 0
Grows owner top owner' top' =
    Refines top top' × ((id : Identifier) (x : ℕ) → Found owner top id x → Found owner' top' id x)

own_owner : (id : Identifier) (i : ℕ) (owner : First) → stated_first id ((id, i) ∷ owner) ≡ some i
unfolding stated_first
own_owner id i owner = rw ((identifier_eq_iff id id).1 refl, stated_first) refl

-- An owner stays where an identifier without one gets one.
kept_owner :
    (id : Identifier) (i : ℕ) (owner : First) (d : Identifier) (j : ℕ)
    → stated_first id owner ≡ none
    → stated_first d owner ≡ some j
    → stated_first d ((id, i) ∷ owner) ≡ some j
unfolding stated_first
kept_owner id i owner d j new found = elim (Bool-cases (identifier_eq d id)) [
  | inl e ↦
      let twice : stated_first id owner ≡ some j =
        subst (λ k. stated_first k owner ≡ some j) ((identifier_eq_iff d id).0 e) found in
      absurd (none_some new twice)
  | inr e ↦ rw (e, stated_first) found
]

module _ (ls : List Listing) (strict : Bool) where
  -- What a round leaves: a state with further roots, which satisfies `Q`.
  abbrev pub Leaves :
      ℕ → ℕ → First × Parent → (ℕ → ℕ) → (First → (ℕ → ℕ) → Type 0) → First × Parent → Type 0
  Leaves n bound (owner, p) top Q s' =
      (top' : ℕ → ℕ) × State ls strict n bound s' top' × Grows owner top s'.0 top' × Q s'.0 top'

  pub State-mono :
      (n b c : ℕ) (s : First × Parent) (top : ℕ → ℕ)
      → b ≤ c
      → State ls strict n b s top
      → State ls strict n c s top
  State-mono n b c (owner, p) top h (height, f, fresh, sound, owned) =
      (height, IsForest-mono b c h f, fresh, sound, owned)

  pub State-at :
      (n m b c : ℕ) (s : First × Parent) (top : ℕ → ℕ)
      → n ≡ m
      → b ≡ c
      → State ls strict n b s top
      → State ls strict m c s top
  State-at n m b c s top e g h =
      subst (λ x. State ls strict x c s top) e (subst (λ x. State ls strict n x s top) g h)

  Owned-new :
      (i : ℕ) (id : Identifier) (owner : First)
      → Owned ls strict (suc i) owner
      → HasId ls i id
      → Owned ls strict (suc i) ((id, i) ∷ owner)
  unfolding stated_first
  Owned-new i id owner owned has d j found = elim (Bool-cases (identifier_eq d id)) [
    | inl e ↦
        let same : i ≡ j = some-injective (rw e at found) in
        subst (λ k. HasId ls k d × (k < suc i)) same
          (subst (HasId ls i) (sym ((identifier_eq_iff d id).0 e)) has, omega arith)
    | inr e ↦ owned d j (rw e at found)
  ]

  -- One identifier of the listing `i`.
  own-Leaves :
      (fuel i bound : ℕ) (id : Identifier) (owner : First) (p : Parent) (top : ℕ → ℕ)
      → State ls strict (suc i) bound (owner, p) top
      → bound < fuel
      → (of_listing id ≡ false → HasId ls i id)
      → Leaves
          (suc i)
          (suc bound)
          (owner, p)
          top
          (λ owner' top'. of_listing id ≡ false → Found owner' top' id i)
          (own fuel i id (owner, p))
  unfolding own stated_first
  own-Leaves fuel i bound id owner p top s h has = elim (Bool-cases (of_listing id)) [
    | inl e ↦ subst Result (sym (ap (λ b. step b (stated_first id owner)) e)) (
      top,
      State-mono (suc i) bound (suc bound) (owner, p) top (omega arith) s,
      (λ x y g. g, λ d x g. g),
      λ g. absurd (clash e g),
    )
    | inr e ↦
        subst Result (sym (ap (λ b. step b (stated_first id owner)) e))
          (elim (Option-cases (stated_first id owner)) [
            | inl new ↦ subst Result (sym (ap (step false) new)) (
              top,
              (
                s.0,
                IsForest-mono bound (suc bound) (omega arith) s.1,
                s.2,
                s.3,
                Owned-new i id owner s.4 (has e),
              ),
              (λ x y g. g, λ d x g. (g.0, kept_owner id i owner d g.0 new g.1, g.2)),
              λ g. (i, own_owner id i owner, refl),
            )
            | inr (j, found) ↦
                let next =
                  union-State ls strict fuel (suc i) bound owner p top j i s h (s.4 id j found).1
                    (omega arith) (Linked.shared (s.4 id j found).0 (has e)) in
                subst Result (sym (ap (step false) found)) (
                  next.0,
                  next.1,
                  (next.2, λ d x g. (g.0, g.1, next.2 x g.0 g.2)),
                  λ g. (j, found, sym next.3),
                )
          ])
  ]
    where
      step : Bool → Option ℕ → First × Parent
      step b o =
          if b
          then (owner, p)
          else elim o [ some j ↦ (owner, union fuel p j i) | none ↦ ((id, i) ∷ owner, p) ]

      Result : First × Parent → Type 0
      Result s' =
          Leaves (suc i) (suc bound) (owner, p) top
            (λ owner' top'. of_listing id ≡ false → Found owner' top' id i) s'

  -- The identifiers of the listing `i`.
  pub own_all-Leaves :
      (fuel i bound : ℕ) (ids : List Identifier) (owner : First) (p : Parent) (top : ℕ → ℕ)
      → State ls strict (suc i) bound (owner, p) top
      → bound + length ids < fuel
      → All (λ id. of_listing id ≡ false → HasId ls i id) ids
      → Leaves
          (suc i)
          (bound + length ids)
          (owner, p)
          top
          (λ owner' top'. All (λ id. of_listing id ≡ false → Found owner' top' id i) ids)
          (own_all fuel i ids (owner, p))
  unfolding own_all
  own_all-Leaves fuel i bound [] owner p top s h has = (
    top,
    State-mono (suc i) bound (bound + 0) (owner, p) top (omega arith) s,
    (λ x y g. g, λ d x g. g),
    tt,
  )
  own_all-Leaves fuel i bound (id ∷ ids) owner p top s h has =
      let (top1, s1, grows1, found1) =
        own-Leaves fuel i bound id owner p top s (omega (arith, h)) has.0 in
      let s' = own fuel i id (owner, p) in
      let (top2, s2, grows2, found2) =
        own_all-Leaves fuel i (suc bound) ids s'.0 s'.1 top1 s1 (omega (arith, h)) has.1 in
      (
        top2,
        subst (λ b. State ls strict (suc i) b (own_all fuel i ids s') top2) (omega arith) s2,
        (λ x y g. grows2.0 x y (grows1.0 x y g), λ d x g. grows2.1 d x (grows1.1 d x g)),
        (λ g. grows2.1 id i (found1 g), found2),
      )
