-- ===== src/Identity/Resolve/Claims/Forest.antt =====
-- The forest of the parents: what `root` leaves of it.
use stonks.Base.{
  ℕ, zero, suc, ◌+◌, ◌≤◌, ◌<◌, true, false, ◌≡◌, ◌≢◌, refl, sym, ap, ◌∙◌, subst, arith, ◌==◌,
  ==_iff, Bool-cases, inl, inr,
}
use stonks.Identity.Group.{Parent, put, find_from}
use stonks.Identity.Group.Roots.{put-here, put-other, not_same}
use stonks.Identity.Resolve.Claims.{root}

-- The root of each index below `n`, and a height that rises from a child to its parent, up to a bound.
pub record IsForest (n : ℕ) (p : Parent) (top height : ℕ → ℕ) (bound : ℕ) : Type 0 where
  pub inside : (k : ℕ) → k < n → p k < n
  pub top_inside : (k : ℕ) → k < n → top k < n
  pub label : (k : ℕ) → k < n → top (p k) ≡ top k
  pub fixed : (k : ℕ) → k < n → p k ≡ k → top k ≡ k
  pub is_root : (k : ℕ) → k < n → p (top k) ≡ top k
  pub rises : (k : ℕ) → k < n → p k ≢ k → height k < height (p k)
  pub bounded : (k : ℕ) → height k ≤ bound

pub same_apart : (n m : ℕ) → (n == m) ≡ false → n ≡ m → ⊥
same_apart n m h e = ground (arith, h, e)

-- What holds of the value that is put, and of every other cell, holds of every cell.
pub put_each :
    (p : Parent) (i v : ℕ) (Q : ℕ → ℕ → Type 0)
    → Q i v
    → ((k : ℕ) → (k == i) ≡ false → Q k (p k))
    → (k : ℕ) → Q k (put p i v k)
put_each p i v Q here other k = elim (Bool-cases (k == i)) [
  | inl e ↦
      let same = (==_iff k i).0 e in
      subst (λ x. Q x (put p i v x)) (sym same) (subst (Q i) (sym (put-here p i v)) here)
  | inr e ↦ subst (Q k) (sym (put-other p i v k e)) (other k e)
]

module _ (n : ℕ) (p : Parent) (top height : ℕ → ℕ) (bound : ℕ)
    (f : IsForest n p top height bound) where
  not_below : (k : ℕ) → k < n → height k ≤ height (p k)
  not_below k below = elim (Bool-cases (p k == k)) [
    | inl e ↦ subst (λ x. height k ≤ height x) (sym ((==_iff (p k) k).0 e)) (omega arith)
    | inr e ↦ weaken _ _ (f.rises k below (not_same (p k) k e))
  ]
    where
      weaken : (a b : ℕ) → a < b → a ≤ b
      weaken a b h = omega (arith, h)

  module _ (i : ℕ) (below : i < n) (inner : p i ≢ i) where
    climbs : height i < height (p (p i))
    climbs = omega (arith, f.rises i below inner, not_below (p i) (f.inside i below))

    circle : p (p i) ≡ i → ⊥
    circle e = irrefl (height i) (subst (λ x. height i < height x) e climbs)
      where
        irrefl : (n : ℕ) → n < n → ⊥
        irrefl n h = absurd (omega (arith, h))

    -- Halving the path at `i` keeps the forest.
    halved : IsForest n (put p i (p (p i))) top height bound
    halved = record {
      inside =
          put_each p i (p (p i)) (λ k x. k < n → x < n) (λ g. f.inside (p i) (f.inside i g))
            (λ k e. f.inside k);
      top_inside = f.top_inside;
      label =
          put_each p i (p (p i)) (λ k x. k < n → top x ≡ top k)
            (λ g. f.label (p i) (f.inside i g) ∙ f.label i g) (λ k e. f.label k);
      fixed =
          put_each p i (p (p i)) (λ k x. k < n → x ≡ k → top k ≡ k) (λ g e. absurd (circle e))
            (λ k e. f.fixed k);
      is_root = λ k g.
          put_each p i (p (p i)) (λ m x. p m ≡ m → x ≡ m) (λ e. absurd (inner e)) (λ m e h. h)
            (top k) (f.is_root k g);
      rises =
          put_each p i (p (p i)) (λ k x. k < n → x ≢ k → height k < height x) (λ g e. climbs)
            (λ k e. f.rises k);
      bounded = f.bounded;
    }

-- `root` ends within its rounds at the root of the index, and keeps the forest.
pub root-IsForest :
    (fuel n : ℕ) (p : Parent) (top height : ℕ → ℕ) (bound i : ℕ)
    → IsForest n p top height bound
    → i < n
    → bound < fuel + height i
    → IsForest n (root fuel p i).0 top height bound × ((root fuel p i).1 ≡ top i)
unfolding root find_from
root-IsForest zero n p top height bound i f below h = absurd (omega (arith, h, f.bounded i))
root-IsForest (suc fuel) n p top height bound i f below h = elim (Bool-cases (p i == i)) [
  | inl e ↦ rw (e, root, find_from) (f, sym (f.fixed i below ((==_iff (p i) i).0 e)))
  | inr e ↦
      let inner = not_same (p i) i e in
      let f' = halved n p top height bound f i below inner in
      let up = f.inside i below in
      let ih =
        root-IsForest fuel n (put p i (p (p i))) top height bound (p (p i)) f' (f.inside (p i) up)
          (omega (arith, h, climbs n p top height bound f i below inner)) in
      rw (e, root, find_from) (ih.0, ih.1 ∙ f.label (p i) up ∙ f.label i below)
]

pub IsForest-mono :
    {n : ℕ} {p : Parent} {top height : ℕ → ℕ} (b c : ℕ)
    → b ≤ c
    → IsForest n p top height b
    → IsForest n p top height c
IsForest-mono b c h f = record {
  inside = f.inside;
  top_inside = f.top_inside;
  label = f.label;
  fixed = f.fixed;
  is_root = f.is_root;
  rises = f.rises;
  bounded = λ k. omega (arith, h, f.bounded k);
}

-- A cell that is written with its own index is a tree of its own.
pub IsForest-suc :
    {n : ℕ} {p : Parent} {top height : ℕ → ℕ} {bound : ℕ}
    → top n ≡ n
    → IsForest n p top height bound
    → IsForest (suc n) (put p n n) top height bound
IsForest-suc {n} {p} {top} {height} {bound} own f = record {
  inside =
      put_each p n n (λ k x. k < suc n → x < suc n) (λ g. g)
        (λ k e g. rises_in k (p k) (f.inside k (lower k e g)));
  top_inside = λ k g. elim (Bool-cases (k == n)) [
    | inl e ↦ subst (λ x. top x < suc n) (sym ((==_iff k n).0 e)) (omega (arith, own))
    | inr e ↦ rises_in k (top k) (f.top_inside k (lower k e g))
  ];
  label =
      put_each p n n (λ k x. k < suc n → top x ≡ top k) (λ g. refl)
        (λ k e g. f.label k (lower k e g));
  fixed =
      put_each p n n (λ k x. k < suc n → x ≡ k → top k ≡ k) (λ g e. own)
        (λ k e g. f.fixed k (lower k e g));
  is_root = λ k g.
      put_each p n n (λ m x. ((m == n) ≡ false → p m ≡ m) → x ≡ m) (λ h. refl) (λ m e h. h e)
        (top k)
        (λ e. elim (Bool-cases (k == n)) [
          | inl h ↦ absurd (top_own k h e)
          | inr h ↦ f.is_root k (lower k h g)
        ]);
  rises =
      put_each p n n (λ k x. k < suc n → x ≢ k → height k < height x) (λ g e. absurd (e refl))
        (λ k e g. f.rises k (lower k e g));
  bounded = f.bounded;
}
  where
    lower : (k : ℕ) → (k == n) ≡ false → k < suc n → k < n
    lower k e g = ground (arith, e, g)

    rises_in : (k x : ℕ) → x < n → x < suc n
    rises_in k x h = omega (arith, h)

    top_own : (k : ℕ) → (k == n) ≡ true → (top k == n) ≡ false → ⊥
    top_own k h e = same_apart (top k) n e (ap top ((==_iff k n).0 h) ∙ own)
