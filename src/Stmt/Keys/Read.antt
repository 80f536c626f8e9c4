-- ===== src/Stmt/Keys/Read.antt =====
-- The loop of `key_of` over the identifiers: it succeeds exactly on those that a statement may state.
use Prim.Native.String.{String}
use stonks.Base.{
  true, false, List, [], ◌∷◌, ◌++◌, All, any, ◌≡◌, ◌↔◌, refl, sym, ap, ◌∙◌, subst, ◌⊎◌, inl, inr,
  Bool-cases, clash,
}
use stonks.Base.In.{In, In-All}
use stonks.Base.Sorted.{In-cons}
use stonks.Types.Identifier.{Identifier, IdentifierType}
use stonks.Identity.Group.{identifier_eq}
use stonks.Stmt.{FromProto, Result, IdentifierMsg, KeyError}
use stonks.Stmt.Keys.{hold, read_identifier, read_identifiers}
use stonks.Stmt.Keys.Held.{IsAllowed, clashes, Holds, hold_iff}
use stonks.Identity.Group.Joined.{has-In}
use stonks.Stmt.Keys.Canonical.{stated, is_value, IsHeld, Holds-IsHeld}

no_ok :
    {e : KeyError} {out : List Identifier}
    → Path (Result KeyError (List Identifier)) (Result.err e) (Result.ok out)
    → ⊥
no_ok e = absurd (cc e)

one_ok :
    {a b : List Identifier}
    → Path (Result KeyError (List Identifier)) (Result.ok a) (Result.ok b)
    → a ≡ b
one_ok e = cc e

-- The identifiers held from the start, and those of the messages.
abbrev pub Either : List Identifier → List Identifier → Identifier → Type 0
Either held ids x = In x held ⊎ In x ids

abbrev pub AllValues : List IdentifierMsg → Type 0
AllValues msgs = All (λ (m : IdentifierMsg). is_value m.type ≡ true) msgs

-- An identifier that a round holds, as one of those before it and of those that it reads.
back :
    (held next : List Identifier) (id : Identifier) (ids : List Identifier) (x : Identifier)
    → In x next ↔ (In x held ⊎ (x ≡ id))
    → Either next ids x
    → Either held (id ∷ ids) x
back held next id ids x m (inl n) = elim (m.0 n) [
  | inl k ↦ inl k
  | inr f ↦ inr (subst (λ z. In z (id ∷ ids)) (sym f) In.here)
]
back held next id ids x m (inr n) = inr (In.there n)

into :
    (held next : List Identifier) (id : Identifier) (ids : List Identifier) (x : Identifier)
    → In x next ↔ (In x held ⊎ (x ≡ id))
    → Either held (id ∷ ids) x
    → Either next ids x
into held next id ids x m (inl k) = inl (m.1 (inl k))
into held next id ids x m (inr k) = elim (In-cons k) [ inl f ↦ inl (m.1 (inr f)) | inr n ↦ inr n ]

module _ (broker : String) where
  abbrev go_on :
      List IdentifierMsg → Result KeyError (List Identifier) → Result KeyError (List Identifier)
  unfolding read_identifiers
  go_on msgs (Result.err e) = Result.err e
  go_on msgs (Result.ok next) = read_identifiers broker msgs next

  abbrev pub Reads :
      List IdentifierMsg → List Identifier → List Identifier → List Identifier → Type 0
  Reads msgs held ids out =
      IsHeld broker out × ((x : Identifier) → In x out ↔ Either held ids x) × AllValues msgs

  abbrev id_of : IdentifierMsg → IdentifierType → Identifier
  id_of msg t = record { type = t; domain = msg.domain; value = msg.value }

  -- One round, and the others by induction.
  Reads-cons :
      (id : Identifier) (msgs : List IdentifierMsg) (held out : List Identifier)
      → IsHeld broker held
      → ((next : List Identifier)
          → read_identifiers broker msgs next ≡ Result.ok out
          → IsHeld broker next
          → Reads msgs next (stated msgs) out)
      → (r : Result KeyError (List Identifier)) → hold broker id held ≡ r
      → go_on msgs r ≡ Result.ok out
      → Reads msgs held (id ∷ stated msgs) out
  unfolding go_on
  Reads-cons id msgs held out h ih (Result.err x) g e = absurd (no_ok e)
  Reads-cons id msgs held out h ih (Result.ok next) g e =
      let (k, m) = Holds-IsHeld broker id held next ((hold_iff broker id held next).0 g) h in
      let (k2, m2, v) = ih next e k in
      (
        k2,
        (λ x. (
          λ n. back held next id (stated msgs) x (m x) ((m2 x).0 n),
          λ n. (m2 x).1 (into held next id (stated msgs) x (m x) n),
        )),
        v,
      )

  -- The identifiers that are read are held once each, and are those of the messages.
  pub read-IsHeld :
      (msgs : List IdentifierMsg) (held out : List Identifier)
      → read_identifiers broker msgs held ≡ Result.ok out
      → IsHeld broker held
      → Reads msgs held (stated msgs) out
  unfolding read_identifiers read_identifier go_on
  read-IsHeld [] held out e h =
      subst (Reads [] held []) (one_ok e)
        (h, (λ x. (λ n. inl n, λ n. elim n [ inl k ↦ k | inr k ↦ elim k [ ] ])), tt)
  read-IsHeld (msg ∷ msgs) held out e h =
      go msg.type refl e (λ next f k. read-IsHeld msgs next out f k)
    where
      go :
          (t : FromProto IdentifierType)
          → msg.type ≡ t
          → go_on msgs (elim t [
            | FromProto.outside ↦ Result.err KeyError.type_outside
            | FromProto.unspecified ↦ Result.err KeyError.type_outside
            | FromProto.value t ↦ hold broker (id_of msg t) held
          ])
            ≡ Result.ok out
          → ((next : List Identifier)
              → read_identifiers broker msgs next ≡ Result.ok out
              → IsHeld broker next
              → Reads msgs next (stated msgs) out)
          → IsHeld broker out
            × ((x : Identifier)
                → In x out
                  ↔ Either held
                      (elim t [
                        | FromProto.outside ↦ stated msgs
                        | FromProto.unspecified ↦ stated msgs
                        | FromProto.value t ↦ id_of msg t ∷ stated msgs
                      ])
                      x)
            × ((is_value msg.type ≡ true) × AllValues msgs)
      go FromProto.outside g e ih = absurd (no_ok e)
      go FromProto.unspecified g e ih = absurd (no_ok e)
      go (FromProto.value t) g e ih =
          let (k, m, v) =
            Reads-cons (id_of msg t) msgs held out h ih (hold broker (id_of msg t) held) refl e in
          (k, m, (ap is_value g, v))

  -- Every identifier may be held beside the others.
  abbrev pub IsStatable : List Identifier → List Identifier → Type 0
  IsStatable held ids =
      All (IsAllowed broker) ids
      × ((i j : Identifier) → Either held ids i → Either held ids j → clashes i j ≡ true → i ≡ j)

  -- An identifier that a statement may state is held.
  hold-Holds :
      (id : Identifier) (held : List Identifier)
      → IsAllowed broker id
      → ((h : Identifier) → In h held → clashes id h ≡ true → id ≡ h)
      → (next : List Identifier) × Holds broker id held next
  hold-Holds id held a one = elim (Bool-cases (any (λ h. identifier_eq h id) held)) [
    | inl e ↦ (held, (a, inl ((has-In id held).0 e, refl)))
    | inr e ↦ (
      held ++ id ∷ [],
      (a, inr (absent e, In-All (λ h. clashes id h ≡ false) held (apart (absent e)), refl)),
    )
  ]
    where
      absent : any (λ h. identifier_eq h id) held ≡ false → In id held → ⊥
      absent e m = clash ((has-In id held).1 m) e

      apart : (In id held → ⊥) → (h : Identifier) → In h held → clashes id h ≡ false
      apart n h m = elim (Bool-cases (clashes id h)) [
        | inl e ↦ absurd (n (subst (λ z. In z held) (sym (one h m e)) m))
        | inr e ↦ e
      ]

  -- The identifiers that a statement may state are read.
  pub IsStatable-read :
      (msgs : List IdentifierMsg) (held : List Identifier)
      → IsHeld broker held
      → AllValues msgs
      → IsStatable held (stated msgs)
      → (out : List Identifier) × (read_identifiers broker msgs held ≡ Result.ok out)
  unfolding read_identifiers read_identifier go_on
  IsStatable-read [] held h v s = (held, refl)
  IsStatable-read (msg ∷ msgs) held h v s =
      go msg.type v.0 s (λ next k t. IsStatable-read msgs next k v.1 t)
    where
      go :
          (t : FromProto IdentifierType)
          → is_value t ≡ true
          → IsStatable held (elim t [
            | FromProto.outside ↦ stated msgs
            | FromProto.unspecified ↦ stated msgs
            | FromProto.value t ↦ id_of msg t ∷ stated msgs
          ])
          → ((next : List Identifier)
              → IsHeld broker next
              → IsStatable next (stated msgs)
              → (out : List Identifier) × (read_identifiers broker msgs next ≡ Result.ok out))
          → (out : List Identifier) × (go_on msgs (elim t [
            | FromProto.outside ↦ Result.err KeyError.type_outside
            | FromProto.unspecified ↦ Result.err KeyError.type_outside
            | FromProto.value t ↦ hold broker (id_of msg t) held
          ])
              ≡ Result.ok out)
      go FromProto.outside g z ih = absurd (clash g refl)
      go FromProto.unspecified g z ih = absurd (clash g refl)
      go (FromProto.value t) g z ih =
          let id = id_of msg t in
          let (next, k) = hold-Holds id held z.0.0 (λ i m. z.1 id i (inr In.here) (inl m)) in
          let (h2, m) = Holds-IsHeld broker id held next k h in
          let (out, e) = ih next h2 (
            z.0.1,
            λ i j a b.
                z.1 i j (back held next id (stated msgs) i (m i) a)
                  (back held next id (stated msgs) j (m j) b),
          ) in
          (out, ap (go_on msgs) ((hold_iff broker id held next).1 k) ∙ e)
