-- ===== src/Identity/Group/Joined.antt =====
-- The roots of keys that share a joining identifier.
use Prim.Native.String.{String, compare}
use Prim.Native.Nat.{Ordering}
use text.Mathlib.Text.{◌==◌ as str_eq, is_eq}
use text.Mathlib.TextEquality.{path_by_compare}
use text.Mathlib.TextPositions.{compare_refl}
use mathlib.Core.Logic.{ite, if_neg}
use stonks.Base.{
  any, ◌||◌, ◌⊎◌, none_some, ℕ, Bool, true, false, ◌&&◌, none, some, List, [], ◌∷◌, ◌≡◌, ◌↔◌, refl,
  sym, ap, subst, arith, All, All-mono, Bool-cases, Option-cases, inl, inr, clash, if◌then◌else◌,
}
use stonks.Base.In.{In}
use stonks.Base.Sorted.{In-cons}
use stonks.Types.Identifier.{Identifier, IdentifierType, isin, IdentifierType-discrete, joining}
use stonks.Identity.Group.{
  Parent, StatedKey, First, union, identifier_eq, stated_first, join, join_key, join_keys,
}
use stonks.Identity.Group.Roots.{IsDown, Root, Root-exists}
use stonks.Identity.Group.Union.{merged, union-Root}

eq_of_is_eq : (o : Ordering) → is_eq o ≡ true → o ≡ Ordering.eq
eq_of_is_eq Ordering.lt h = cc
eq_of_is_eq Ordering.eq h = refl
eq_of_is_eq Ordering.gt h = cc

pub str_eq_iff : (s t : String) → (str_eq s t ≡ true) ↔ (s ≡ t)
str_eq_iff s t = (
  λ h. path_by_compare s t (eq_of_is_eq (compare s t) h),
  λ e. subst (λ u. str_eq s u ≡ true) e (ap is_eq (compare_refl s)),
)

pub type_eq_iff :
    (a b : IdentifierType) → (ite (IdentifierType-discrete a b) true false ≡ true) ↔ (a ≡ b)
unfolding IdentifierType-discrete
type_eq_iff a b = (
  λ h. to h (IdentifierType-discrete a b),
  λ e. subst (λ c. ite (IdentifierType-discrete a c) true false ≡ true) e (self a),
)
  where
    to : ite (IdentifierType-discrete a b) true false ≡ true → Dec (a ≡ b) → a ≡ b
    to h (yes e) = e
    to h (no n) = let k = rw (if_neg (IdentifierType-discrete a b) n) at h in cc

    self : (c : IdentifierType) → ite (IdentifierType-discrete c c) true false ≡ true
    self isin = refl
    self _ = refl

pub all_three : (a b c : Bool) → (a && (b && c)) ≡ true → (a ≡ true) × (b ≡ true) × (c ≡ true)
all_three a b c h = ground (arith, h)

pub three : (a b c : Bool) → a ≡ true → b ≡ true → c ≡ true → (a && (b && c)) ≡ true
three a b c g h k = ground (arith, g, h, k)

pub identifier_eq_iff : (i j : Identifier) → (identifier_eq i j ≡ true) ↔ (i ≡ j)
unfolding identifier_eq
identifier_eq_iff i j = (to, from)
  where
    to : identifier_eq i j ≡ true → i ≡ j
    to h =
        let (t, d, v) = all_three _ _ _ h in
        let et = (type_eq_iff i.type j.type).0 t in
        let ed = (str_eq_iff i.domain j.domain).0 d in
        let ev = (str_eq_iff i.value j.value).0 v in cc (et, ed, ev)

    from : i ≡ j → identifier_eq i j ≡ true
    from e =
        three _ _ _ ((type_eq_iff i.type j.type).1 (ap (λ k. k.type) e))
          ((str_eq_iff i.domain j.domain).1 (ap (λ k. k.domain) e))
          ((str_eq_iff i.value j.value).1 (ap (λ k. k.value) e))

-- The test that an identifier is in a list.
pub has-In :
    (id : Identifier) (held : List Identifier)
    → (any (λ h. identifier_eq h id) held ≡ true) ↔ In id held
has-In id [] = (λ e. absurd (clash e refl), λ m. elim m [ ])
has-In id (h ∷ held) = (
  λ e. elim (or_cases _ _ e) [
    | inl f ↦ subst (λ z. In z (h ∷ held)) ((identifier_eq_iff h id).0 f) In.here
    | inr f ↦ In.there ((has-In id held).0 f)
  ],
  λ m. elim (In-cons m) [
    | inl f ↦ or_left _ _ ((identifier_eq_iff h id).1 (sym f))
    | inr n ↦ or_right _ _ ((has-In id held).1 n)
  ],
)
  where
    or_cases : (a b : Bool) → (a || b) ≡ true → (a ≡ true) ⊎ (b ≡ true)
    or_cases a b e = ground (arith, e)

    or_left : (a b : Bool) → a ≡ true → (a || b) ≡ true
    or_left a b e = ground (arith, e)

    or_right : (a b : Bool) → b ≡ true → (a || b) ≡ true
    or_right a b e = ground (arith, e)

-- Two keys have one root.
pub data Same (p : Parent) (x y : ℕ) : Type 0 where
  same : {r : ℕ} → Root p x r → Root p y r → Same p x y

union-Same : (p : Parent) (a b x y : ℕ) → IsDown p → Same p x y → Same (union p a b) x y
union-Same p a b x y d (Same.same {r} u v) =
    let (ra, ua, ba) = Root-exists p a d in
    let (rb, ub, bb) = Root-exists p b d in
    let roots = union-Root p a b ra rb d ua ub in Same.same (roots.1 x r u) (roots.1 y r v)

merged-both : (ra rb : ℕ) → merged ra rb ra ≡ merged ra rb rb
merged-both ra rb = ground arith

pub union-joins : (p : Parent) (a b : ℕ) → IsDown p → Same (union p a b) b a × IsDown (union p a b)
union-joins p a b d =
    let (ra, ua, ba) = Root-exists p a d in
    let (rb, ub, bb) = Root-exists p b d in
    let roots = union-Root p a b ra rb d ua ub in
    (
      Same.same (roots.1 b rb ub)
          (subst (Root (union p a b) a) (merged-both ra rb) (roots.1 a ra ua)),
      roots.0,
    )

-- The key has the root of the first key that states the identifier.
abbrev pub Found : Identifier → ℕ → First × Parent → Type 0
Found i x s = (held : ℕ) × (stated_first i s.0 ≡ some held) × Same s.1 x held

abbrev pub Keeps : First × Parent → First × Parent → Type 0
Keeps s s' = (i : Identifier) (x : ℕ) → Found i x s → Found i x s'

pub Same-flip : {p : Parent} {x y : ℕ} → Same p x y → Same p y x
Same-flip (Same.same u v) = Same.same v u

-- An identifier that no key has stated is stated by the key.
add-Found :
    (i : Identifier) (id : ℕ) (first : First) (p : Parent)
    → stated_first i first ≡ none
    → Keeps (first, p) ((i, id) ∷ first, p)
unfolding stated_first
add-Found i id first p new j x (held, found, with) = elim (Bool-cases (identifier_eq j i)) [
  | inl e ↦
      let twice : stated_first i first ≡ some held =
        subst (λ k. stated_first k first ≡ some held) ((identifier_eq_iff j i).0 e) found in
      absurd (none_some new twice)
  | inr e ↦ (held, rw (e, stated_first) found, with)
]

join-Found :
    (i : Identifier) (id : ℕ) (first : First) (p : Parent)
    → IsDown p
    → IsDown (join i id (first, p)).1
      × Found i id (join i id (first, p))
      × Keeps (first, p) (join i id (first, p))
unfolding join stated_first
join-Found i id first p d = elim (Option-cases (stated_first i first)) [
  | inr (held, e) ↦
      let joins = union-joins p held id d in
      rw (e, join)
        (joins.1, (held, e, joins.0), λ j x f. (f.0, f.1, union-Same p held id x f.0 d f.2))
  | inl e ↦
      let (r, u, b) = Root-exists p id d in
      rw (e, join)
        (
          d,
          (id, rw ((identifier_eq_iff i i).1 refl, stated_first) refl, Same.same u u),
          add-Found i id first p e,
        )
]

join_key-Found :
    (id : ℕ) (is : List Identifier) (s : First × Parent)
    → IsDown s.1
    → IsDown (join_key id is s).1
      × All (λ i. joining i ≡ true → Found i id (join_key id is s)) is
      × Keeps s (join_key id is s)
unfolding join_key
join_key-Found id [] s d = (d, tt, λ j x f. f)
join_key-Found id (i ∷ is) (first, p) d = elim (Bool-cases (joining i)) [
  | inl e ↦
      let one = join-Found i id first p d in
      let rest = join_key-Found id is (join i id (first, p)) one.0 in
      subst Result (sym (ap step e))
        (rest.0, (λ g. rest.2 i id one.1, rest.1), λ j x f. rest.2 j x (one.2 j x f))
  | inr e ↦
      let rest = join_key-Found id is (first, p) d in
      subst Result (sym (ap step e)) (rest.0, (λ g. absurd (clash g e), rest.1), rest.2)
]
  where
    step : Bool → First × Parent
    step b = join_key id is (if b then join i id (first, p) else (first, p))

    Result : First × Parent → Type 0
    Result s = IsDown s.1 × All (λ j. joining j ≡ true → Found j id s) (i ∷ is) × Keeps (first, p) s

-- Every joining identifier of every key is stated by a key with the same root.
pub join_keys-Found :
    (ks : List StatedKey) (s : First × Parent)
    → IsDown s.1
    → IsDown (join_keys ks s).1
      × All (λ k. All (λ i. joining i ≡ true → Found i k.id (join_keys ks s)) k.identifiers) ks
      × Keeps s (join_keys ks s)
unfolding join_keys
join_keys-Found [] s d = (d, tt, λ j x f. f)
join_keys-Found (k ∷ ks) s d =
    let one = join_key-Found k.id k.identifiers s d in
    let rest = join_keys-Found ks (join_key k.id k.identifiers s) one.0 in
    (
      rest.0,
      (All-mono (λ i f g. rest.2 i k.id (f g)) k.identifiers one.1, rest.1),
      λ j x f. rest.2 j x (one.2 j x f),
    )
