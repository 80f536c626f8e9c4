-- ===== src/Types/AssetClass/Tree.antt =====
-- The order of the tree, and the classes below two.
use mathlib.Core.Logic.{ite, if_neg}
use stonks.Base.{
  ℕ, zero, suc, ◌<◌, Bool, true, false, not, ◌&&◌, ◌≡◌, ◌≢◌, ◌↔◌, refl, subst, arith, Bool-cases,
  inl, inr, ◌⊎◌,
}
use stonks.Types.AssetClass.{
  AssetClass, none, unknown, cash, security, equity, stock, etf, mutual_fund, fixed_income,
  derivative, option, future, parent, class_eq, under_from, under, disjoint, rounds,
  AssetClass-discrete,
}

-- `c` is `o` or lies below it.
pub data IsUnder : AssetClass → AssetClass → Type 0 where
  here : {c : AssetClass} → c ≢ none → IsUnder c c
  up : {c o : AssetClass} → c ≢ none → IsUnder (parent c) o → IsUnder c o

depth : AssetClass → ℕ
depth none = 0
depth unknown = 1
depth cash = 2
depth security = 2
depth equity = 3
depth stock = 4
depth etf = 4
depth mutual_fund = 4
depth fixed_income = 3
depth derivative = 3
depth option = 4
depth future = 4

depth_bounds : (c : AssetClass) → (depth c < rounds) × (c ≢ none → depth (parent c) < depth c)
unfolding depth parent
depth_bounds none = (omega arith, λ h. absurd (h refl))
depth_bounds _ = (omega arith, λ h. omega arith)

class_eq_iff : (a b : AssetClass) → (class_eq a b ≡ true) ↔ (a ≡ b)
unfolding class_eq
class_eq_iff a b =
    (λ h. to h (AssetClass-discrete a b), λ e. subst (λ c. class_eq a c ≡ true) e (self a))
  where
    to : ite (AssetClass-discrete a b) true false ≡ true → Dec (a ≡ b) → a ≡ b
    to h (yes e) = e
    to h (no n) = let k = rw (if_neg (AssetClass-discrete a b) n) at h in cc

    self : (c : AssetClass) → class_eq c c ≡ true
    self none = refl
    self _ = refl

class_eq-none : (c : AssetClass) → c ≢ none → class_eq c none ≡ false
class_eq-none c h = elim (Bool-cases (class_eq c none)) [
  | inl e ↦ absurd (h ((class_eq_iff c none).0 e))
  | inr e ↦ e
]

under_from_sound : (f : ℕ) (c o : AssetClass) → under_from f c o ≡ true → IsUnder c o
unfolding under_from
under_from_sound zero c o h = cc
under_from_sound (suc f) c o h = elim (Bool-cases (class_eq c none)) [
  | inl e ↦ (let k = rw (e, under_from) at h in cc)
  | inr e ↦
      let named : c ≢ none = λ n. distinct e n in
      elim (Bool-cases (class_eq c o)) [
        | inl g ↦ subst (IsUnder c) ((class_eq_iff c o).0 g) (IsUnder.here named)
        | inr g ↦ IsUnder.up named (under_from_sound f (parent c) o (rest e g))
      ]
]
  where
    distinct : class_eq c none ≡ false → c ≡ none → ⊥
    distinct e n = let k = (class_eq_iff c none).1 n in absurd (ground (arith, e, k))

    rest : class_eq c none ≡ false → class_eq c o ≡ false → under_from f (parent c) o ≡ true
    rest e g = ground (arith, h, e, g)

under_from_complete :
    (f : ℕ) (c o : AssetClass) → depth c < f → IsUnder c o → under_from f c o ≡ true
unfolding under_from
under_from_complete zero c o h u = absurd (omega arith)
under_from_complete (suc f) c o h (IsUnder.here n) =
    ground (arith, class_eq-none c n, (class_eq_iff c c).1 refl)
under_from_complete (suc f) c o h (IsUnder.up n u) =
    let below = (depth_bounds c).1 n in
    let ih = under_from_complete f (parent c) o (omega arith) u in
    ground (arith, class_eq-none c n, ih)

-- The loop of `under` ends within its rounds, and decides whether one class is another or lies
-- below it in the tree.
pub under_iff : (c o : AssetClass) → (under c o ≡ true) ↔ IsUnder c o
unfolding under
under_iff c o = (under_from_sound rounds c o, under_from_complete rounds c o (depth_bounds c).0)

-- Of two classes above one class, one lies below the other.
comparable : {c e o : AssetClass} → IsUnder c e → IsUnder c o → IsUnder e o ⊎ IsUnder o e
comparable (IsUnder.here n) v = inl v
comparable (IsUnder.up n u) (IsUnder.here m) = inr (IsUnder.up n u)
comparable (IsUnder.up n u) (IsUnder.up m v) = comparable u v

IsUnder-ne : {c o : AssetClass} → IsUnder c o → c ≢ none
IsUnder-ne (IsUnder.here n) = n
IsUnder-ne (IsUnder.up n u) = n

not_both : (a b : Bool) → (not a && not b) ≡ true → (a ≡ true) ⊎ (b ≡ true) → ⊥
not_both a b h k = ground (arith, h, k)

one_false : (a b : Bool) → a ≡ true → b ≡ true → (a && b) ≡ false → ⊥
one_false a b g h k = ground (arith, g, h, k)

self_under : (a b : AssetClass) → under a b ≡ true → under a a ≡ true
self_under a b h = (under_iff a a).1 (IsUnder.here (IsUnder-ne ((under_iff a b).0 h)))

both_under :
    (c e o : AssetClass)
    → under c e ≡ true
    → under c o ≡ true
    → (under e o ≡ true) ⊎ (under o e ≡ true)
both_under c e o k l = elim (comparable ((under_iff c e).0 k) ((under_iff c o).0 l)) [
  | inl u ↦ inl ((under_iff e o).1 u)
  | inr u ↦ inr ((under_iff o e).1 u)
]

-- Two classes are disjoint exactly when no class is, or lies below, both.
pub disjoint_iff :
    (e o : AssetClass)
    → (disjoint e o ≡ true) ↔ ((c : AssetClass) → (under c e && under c o) ≡ false)
unfolding disjoint
disjoint_iff e o = (apart, none_below)
  where
    apart :
        (not (under e o) && not (under o e)) ≡ true
        → (c : AssetClass) → (under c e && under c o) ≡ false
    apart h c = elim (Bool-cases (under c e)) [
      | inr k ↦ rw k refl
      | inl k ↦ elim (Bool-cases (under c o)) [
        | inr l ↦ rw (k, l) refl
        | inl l ↦ absurd (not_both (under e o) (under o e) h (both_under c e o k l))
      ]
    ]

    none_below :
        ((c : AssetClass) → (under c e && under c o) ≡ false)
        → (not (under e o) && not (under o e)) ≡ true
    none_below all = elim (Bool-cases (under e o)) [
      | inl k ↦ absurd (one_false (under e e) (under e o) (self_under e o k) k (all e))
      | inr k ↦ elim (Bool-cases (under o e)) [
        | inl l ↦ absurd (one_false (under o e) (under o o) l (self_under o e l) (all o))
        | inr l ↦ rw (k, l) refl
      ]
    ]
