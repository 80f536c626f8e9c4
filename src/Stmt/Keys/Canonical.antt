-- ===== src/Stmt/Keys/Canonical.antt =====
-- The canonical form of a key: its identifiers are those that are stated, once each and in order.
use Prim.Native.String.{String}
use stonks.Base.{
  Bool, true, false, ◌&&◌, List, [], ◌∷◌, ◌++◌, All, ◌≡◌, ◌↔◌, sym, ap, ◌∙◌, subst, arith, ◌⊎◌, inl,
  inr, clash,
}
use stonks.Base.In.{In, All-In, In-All}
use stonks.Base.Sorted.{Distinct, In-append, append-In, Distinct-append}
use stonks.Types.Identifier.{Identifier, IdentifierType, exclusive, trait}
use stonks.Identity.Group.Joined.{type_eq_iff, str_eq_iff}
use stonks.Identity.Resolve.Claim.{type_eq}
use stonks.Stmt.{FromProto, IdentifierMsg}
use stonks.Stmt.Keys.Held.{IsAllowed, clashes, HasNoClash, Holds}

-- The identifier of a message, where its type is in the vocabulary.
abbrev pub stated : List IdentifierMsg → List Identifier
stated [] = []
stated (msg ∷ msgs) = elim msg.type [
  | FromProto.outside ↦ stated msgs
  | FromProto.unspecified ↦ stated msgs
  | FromProto.value t ↦ record { type = t; domain = msg.domain; value = msg.value } ∷ stated msgs
]

abbrev pub is_value : FromProto IdentifierType → Bool
is_value (FromProto.value t) = true
is_value _ = false

-- No two identifiers of one exclusive type and domain.
abbrev pub HasOneValue : List Identifier → Type 0
HasOneValue ids = (i j : Identifier) → In i ids → In j ids → clashes i j ≡ true → i ≡ j

three : (a b c : Bool) → (a && (b && c)) ≡ true → (a ≡ true) × (b ≡ true) × (c ≡ true)
three a b c h = ground (arith, h)

all_three : (a b c : Bool) → a ≡ true → b ≡ true → c ≡ true → (a && (b && c)) ≡ true
all_three a b c h g k = ground (arith, h, g, k)

clashes_turn : (i j : Identifier) → clashes i j ≡ true → clashes j i ≡ true
unfolding clashes type_eq exclusive
clashes_turn i j e =
    let (t, d, x) = three _ _ _ e in
    let u = (type_eq_iff j.type i.type).0 t in
    all_three _ _ _ ((type_eq_iff i.type j.type).1 (sym u))
      ((str_eq_iff i.domain j.domain).1 (sym ((str_eq_iff j.domain i.domain).0 d)))
      (ap (λ w. (trait w).exclusive) u ∙ x)

module _ (broker : String) where
  abbrev pub IsHeld : List Identifier → Type 0
  IsHeld ids = Distinct ids × All (IsAllowed broker) ids × HasOneValue ids

  HasOneValue-append :
      (held : List Identifier) (id : Identifier)
      → HasOneValue held
      → HasNoClash id held
      → HasOneValue (held ++ id ∷ [])
  HasOneValue-append held id one n i j m k e = elim (In-append i held id m) [
    | inl a ↦ elim (In-append j held id k) [
      | inl b ↦ one i j a b e
      | inr b ↦ absurd (clash (ap (λ w. clashes w i) (sym b) ∙ clashes_turn i j e) (All-In _ n a))
    ]
    | inr a ↦ elim (In-append j held id k) [
      | inl b ↦ absurd (clash (ap (λ w. clashes w j) (sym a) ∙ e) (All-In _ n b))
      | inr b ↦ a ∙ sym b
    ]
  ]

  -- What a round leaves: held identifiers, with the one that is read.
  pub Holds-IsHeld :
      (id : Identifier) (held next : List Identifier)
      → Holds broker id held next
      → IsHeld held
      → IsHeld next × ((x : Identifier) → In x next ↔ (In x held ⊎ (x ≡ id)))
  Holds-IsHeld id held next (a, inl (m, e)) h =
      subst (λ ids. IsHeld ids × ((x : Identifier) → In x ids ↔ (In x held ⊎ (x ≡ id)))) (sym e)
        (h, λ x. (λ n. inl n, λ k. elim k [ inl n ↦ n | inr f ↦ subst (λ z. In z held) (sym f) m ]))
  Holds-IsHeld id held next (a, inr (n, c, e)) (d, allowed, one) =
      subst (λ ids. IsHeld ids × ((x : Identifier) → In x ids ↔ (In x held ⊎ (x ≡ id)))) (sym e)
        (
          (
            Distinct-append held id d n,
            In-All (IsAllowed broker) (held ++ id ∷ []) (λ x m. elim (In-append x held id m) [
              | inl k ↦ All-In _ allowed k
              | inr f ↦ subst (IsAllowed broker) (sym f) a
            ]),
            HasOneValue-append held id one c,
          ),
          λ x. (In-append x held id, append-In x held id),
        )
