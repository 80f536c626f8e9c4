-- ===== src/Base/Compare.antt =====
-- Go's cmp.Compare and cmp.Or on strings as orders: a comparison of strings, and of one field after
-- another one.
use Prim.Native.Char.{code}
use Prim.Native.Nat.{Ordering, ℕ, ◌<◌, compare as compare_ℕ}
use Prim.Native.String.{String, [], ◌∷◌, then, compare}
use Prim.Native.String.compare
use native.Mathlib.Omega.{arith, compare-lt, compare-eq, compare-gt}
use text.Mathlib.Text.{is_le}
use text.Mathlib.TextEquality.{path_by_compare}
use text.Mathlib.TextPositions.{compare_refl, compare_self}
use mathlib.Core.Path.{◌≡◌, refl, sym, ap, ◌∙◌, subst}
use mathlib.Core.Logic.{◌⊎◌, inl, inr}
use mathlib.Core.Bool.{true, false}

pub record IsOrder {ℓ} {A : Type ℓ} (cmp : A → A → Ordering) : Type ℓ where
  pub self : (a : A) → cmp a a ≡ Ordering.eq
  pub same : (a b : A) → cmp a b ≡ Ordering.eq → a ≡ b
  pub turn : (a b : A) → cmp a b ≡ Ordering.gt → cmp b a ≡ Ordering.lt
  pub trans : (a b c : A) → cmp a b ≡ Ordering.lt → cmp b c ≡ Ordering.lt → cmp a c ≡ Ordering.lt

abbrev pub Cases : Ordering → Type 0
Cases o = (o ≡ Ordering.lt) ⊎ ((o ≡ Ordering.eq) ⊎ (o ≡ Ordering.gt))

pub Ordering-Cases : (o : Ordering) → Cases o
Ordering-Cases Ordering.lt = inl refl
Ordering-Cases Ordering.eq = inr (inl refl)
Ordering-Cases Ordering.gt = inr (inr refl)

compare_ℕ_of_lt : (m n : ℕ) → m < n → compare_ℕ m n ≡ Ordering.lt
compare_ℕ_of_lt m n h = elim (Ordering-Cases (compare_ℕ m n)) [
  | inl e ↦ e
  | inr (inl e) ↦ absurd (omega (arith, h, compare-eq m n e))
  | inr (inr e) ↦ absurd (omega (arith, h, compare-gt m n e))
]

ℕ-IsOrder : IsOrder compare_ℕ
ℕ-IsOrder = record {
  self = compare_self;
  same = compare-eq;
  turn = λ a b e. compare_ℕ_of_lt b a (compare-gt a b e);
  trans = λ a b c e f. compare_ℕ_of_lt a c (omega (arith, compare-lt a b e, compare-lt b c f));
}

-- One comparison and, where it finds no difference, another one.
then-lt :
    (o p : Ordering)
    → then o p ≡ Ordering.lt
    → (o ≡ Ordering.lt) ⊎ ((o ≡ Ordering.eq) × (p ≡ Ordering.lt))
then-lt Ordering.lt p h = inl refl
then-lt Ordering.eq p h = inr (refl, h)
then-lt Ordering.gt p h = absurd (gt_lt h)
  where
    gt_lt : Ordering.gt ≡ Ordering.lt → ⊥
    gt_lt e = cc e

then-eq : (o p : Ordering) → then o p ≡ Ordering.eq → (o ≡ Ordering.eq) × (p ≡ Ordering.eq)
then-eq Ordering.lt p h = absurd (lt_eq h)
  where
    lt_eq : Ordering.lt ≡ Ordering.eq → ⊥
    lt_eq e = cc e
then-eq Ordering.eq p h = (refl, h)
then-eq Ordering.gt p h = absurd (gt_eq h)
  where
    gt_eq : Ordering.gt ≡ Ordering.eq → ⊥
    gt_eq e = cc e

then-gt :
    (o p : Ordering)
    → then o p ≡ Ordering.gt
    → (o ≡ Ordering.gt) ⊎ ((o ≡ Ordering.eq) × (p ≡ Ordering.gt))
then-gt Ordering.lt p h = absurd (lt_gt h)
  where
    lt_gt : Ordering.lt ≡ Ordering.gt → ⊥
    lt_gt e = cc e
then-gt Ordering.eq p h = inr (refl, h)
then-gt Ordering.gt p h = inl refl

module _ {ℓ} {B : Type ℓ} (cmp : B → B → Ordering) (order : IsOrder cmp) where
  then_self : (x : B) (p : Ordering) → p ≡ Ordering.eq → then (cmp x x) p ≡ Ordering.eq
  then_self x p h = rw (order.self x) h

  then_turn :
      (x y : B) (p q : Ordering)
      → (x ≡ y → p ≡ Ordering.gt → q ≡ Ordering.lt)
      → then (cmp x y) p ≡ Ordering.gt
      → then (cmp y x) q ≡ Ordering.lt
  then_turn x y p q h e = elim (then-gt (cmp x y) p e) [
    | inl g ↦ rw (order.turn x y g) refl
    | inr (g, k) ↦ rw (turned (order.same x y g)) (h (order.same x y g) k)
  ]
    where
      turned : x ≡ y → cmp y x ≡ Ordering.eq
      turned e = ap (cmp y) e ∙ order.self y

  then_trans :
      (x y z : B) (p q r : Ordering)
      → (x ≡ y → y ≡ z → p ≡ Ordering.lt → q ≡ Ordering.lt → r ≡ Ordering.lt)
      → then (cmp x y) p ≡ Ordering.lt
      → then (cmp y z) q ≡ Ordering.lt
      → then (cmp x z) r ≡ Ordering.lt
  then_trans x y z p q r h d e = elim (then-lt (cmp x y) p d) [
    | inl a ↦ elim (then-lt (cmp y z) q e) [
      | inl b ↦ rw (order.trans x y z a b) refl
      | inr (b, k) ↦ rw (sym (ap (cmp x) (order.same y z b)) ∙ a) refl
    ]
    | inr (a, i) ↦ elim (then-lt (cmp y z) q e) [
      | inl b ↦ rw (ap (λ w. cmp w z) (order.same x y a) ∙ b) refl
      | inr (b, k) ↦
          let u = order.same x y a in
          let v = order.same y z b in rw (ap (λ w. cmp w z) (u ∙ v) ∙ order.self z) (h u v i k)
    ]
  ]

-- The order of strings.
compare_turn : (s t : String) → compare s t ≡ Ordering.gt → compare t s ≡ Ordering.lt
compare_turn [] [] e = absurd (eq_gt (sym compare.nil-nil ∙ e))
  where
    eq_gt : Ordering.eq ≡ Ordering.gt → ⊥
    eq_gt e = cc e
compare_turn [] (d ∷ t) e = absurd (lt_gt (sym (compare.nil-cons d t) ∙ e))
  where
    lt_gt : Ordering.lt ≡ Ordering.gt → ⊥
    lt_gt e = cc e
compare_turn (c ∷ s) [] e = compare.nil-cons c s
compare_turn (c ∷ s) (d ∷ t) e =
    compare.cons-cons d c t s
    ∙ then_turn compare_ℕ ℕ-IsOrder (code c) (code d) (compare s t) (compare t s)
        (λ u. compare_turn s t) (sym (compare.cons-cons c d s t) ∙ e)

not_below_nil : (s : String) → compare s [] ≡ Ordering.lt → ⊥
not_below_nil [] e = eq_lt (sym compare.nil-nil ∙ e)
  where
    eq_lt : Ordering.eq ≡ Ordering.lt → ⊥
    eq_lt e = cc e
not_below_nil (c ∷ s) e = gt_lt (sym (compare.cons-nil c s) ∙ e)
  where
    gt_lt : Ordering.gt ≡ Ordering.lt → ⊥
    gt_lt e = cc e

compare_trans :
    (s t u : String)
    → compare s t ≡ Ordering.lt
    → compare t u ≡ Ordering.lt
    → compare s u ≡ Ordering.lt
compare_trans s [] u h e = absurd (not_below_nil s h)
compare_trans s (d ∷ t) [] h e = absurd (not_below_nil (d ∷ t) e)
compare_trans [] (d ∷ t) (b ∷ u) h e = compare.nil-cons b u
compare_trans (c ∷ s) (d ∷ t) (b ∷ u) h e =
    compare.cons-cons c b s u
    ∙ then_trans compare_ℕ ℕ-IsOrder (code c) (code d) (code b) (compare s t) (compare t u)
        (compare s u) (λ x y. compare_trans s t u) (sym (compare.cons-cons c d s t) ∙ h)
        (sym (compare.cons-cons d b t u) ∙ e)

pub String-IsOrder : IsOrder compare
String-IsOrder = record {
  self = compare_refl;
  same = path_by_compare;
  turn = compare_turn;
  trans = compare_trans;
}

-- One field after another.
pub then-IsOrder {ℓ κ} :
    {A B : Type ℓ} {C : Type κ} (cmp : A → A → Ordering) (dmp : B → B → Ordering) (f : C → A)
    (g : C → B)
    → IsOrder cmp
    → IsOrder dmp
    → ((a b : C) → f a ≡ f b → g a ≡ g b → a ≡ b)
    → IsOrder (λ a b. then (cmp (f a) (f b)) (dmp (g a) (g b)))
then-IsOrder cmp dmp f g o p inj = record {
  self = λ a. then_self cmp o (f a) (dmp (g a) (g a)) (p.self (g a));
  same = λ a b e.
      let (h, k) = then-eq (cmp (f a) (f b)) (dmp (g a) (g b)) e in
      inj a b (o.same (f a) (f b) h) (p.same (g a) (g b) k);
  turn = λ a b.
      then_turn cmp o (f a) (f b) (dmp (g a) (g b)) (dmp (g b) (g a)) (λ u. p.turn (g a) (g b));
  trans = λ a b c.
      then_trans cmp o (f a) (f b) (f c) (dmp (g a) (g b)) (dmp (g b) (g c)) (dmp (g a) (g c))
        (λ u v. p.trans (g a) (g b) (g c));
}

-- The test that an element may stand before another.
module _ {ℓ} {A : Type ℓ} (cmp : A → A → Ordering) (order : IsOrder cmp) where
  le_cases : (o : Ordering) → is_le o ≡ true → (o ≡ Ordering.lt) ⊎ (o ≡ Ordering.eq)
  le_cases Ordering.lt e = inl refl
  le_cases Ordering.eq e = inr refl
  le_cases Ordering.gt e = absurd (false_true e)
    where
      false_true : false ≡ true → ⊥
      false_true e = cc e

  gt_of_not_le : (o : Ordering) → is_le o ≡ false → o ≡ Ordering.gt
  gt_of_not_le Ordering.gt e = refl
  gt_of_not_le Ordering.lt e = absurd (true_false e)
    where
      true_false : true ≡ false → ⊥
      true_false e = cc e
  gt_of_not_le Ordering.eq e = absurd (true_false e)
    where
      true_false : true ≡ false → ⊥
      true_false e = cc e

  pub le_total : (a b : A) → is_le (cmp a b) ≡ false → is_le (cmp b a) ≡ true
  le_total a b e = ap is_le (order.turn a b (gt_of_not_le (cmp a b) e))

  pub le_trans :
      (a b c : A) → is_le (cmp a b) ≡ true → is_le (cmp b c) ≡ true → is_le (cmp a c) ≡ true
  le_trans a b c h k = elim (le_cases (cmp a b) h) [
    | inl e ↦ elim (le_cases (cmp b c) k) [
      | inl f ↦ ap is_le (order.trans a b c e f)
      | inr f ↦ subst (λ z. is_le (cmp a z) ≡ true) (order.same b c f) h
    ]
    | inr e ↦ subst (λ z. is_le (cmp z c) ≡ true) (sym (order.same a b e)) k
  ]

  pub le_antisym : (a b : A) → is_le (cmp a b) ≡ true → is_le (cmp b a) ≡ true → a ≡ b
  le_antisym a b h k = elim (le_cases (cmp a b) h) [
    | inr e ↦ order.same a b e
    | inl e ↦ elim (le_cases (cmp b a) k) [
      | inr f ↦ sym (order.same b a f)
      | inl f ↦ absurd (lt_eq (sym (order.trans a b a e f) ∙ order.self a))
    ]
  ]
    where
      lt_eq : Ordering.lt ≡ Ordering.eq → ⊥
      lt_eq e = cc e
