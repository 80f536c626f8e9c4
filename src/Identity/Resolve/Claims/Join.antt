-- ===== src/Identity/Resolve/Claims/Join.antt =====
-- The forest of the parents once `union` has joined two trees.
use stonks.Base.{
  ℕ, suc, ◌≤◌, ◌<◌, max, Bool, false, ◌≡◌, ◌≢◌, refl, sym, ap, subst, arith, ◌==◌, ==_iff,
  Bool-cases, inl, inr, if◌then◌else◌,
}
use stonks.Identity.Group.{Parent, put}
use stonks.Identity.Resolve.Claims.{root, union}
use stonks.Identity.Resolve.Claims.Forest.{IsForest, put_each, same_apart, root-IsForest}

-- The roots and the heights once the root `rb` hangs under the root `ra`.
abbrev pub joined_top : (ℕ → ℕ) → ℕ → ℕ → ℕ → ℕ
joined_top top ra rb k = if top k == rb then ra else top k

abbrev pub joined_height : (ℕ → ℕ) → ℕ → ℕ → ℕ → ℕ
joined_height height ra rb k = if k == ra then max (height k) (suc (height rb)) else height k

one_top :
    (ra rb ta tb : ℕ)
    → ta ≡ ra
    → tb ≡ rb
    → (ra == rb) ≡ false
    → (if ta == rb then ra else ta) ≡ (if tb == rb then ra else tb)
one_top ra rb ta tb ea eb apart = ground (arith, ea, eb, apart)

other_top : (ra rb t k : ℕ) → t ≡ k → (k == rb) ≡ false → (if t == rb then ra else t) ≡ k
other_top ra rb t k e n = ground (arith, e, n)

top_in : (ra rb t n : ℕ) → ra < n → t < n → (if t == rb then ra else t) < n
top_in ra rb t n h g = ground (arith, h, g)

top_apart : (ra rb t : ℕ) → (ra == rb) ≡ false → ((if t == rb then ra else t) == rb) ≡ false
top_apart ra rb t apart = ground (arith, apart)

rises_to :
    (ra rb ha hb : ℕ)
    → (ra == rb) ≡ false
    → (if rb == ra then max hb (suc hb) else hb) < (if ra == ra then max ha (suc hb) else ha)
rises_to ra rb ha hb apart = ground (arith, apart)

rises_on :
    (ra k q hk hq hb : ℕ)
    → (k == ra) ≡ false
    → hk < hq
    → (if k == ra then max hk (suc hb) else hk) < (if q == ra then max hq (suc hb) else hq)
rises_on ra k q hk hq hb n h = ground (arith, n, h)

bounded_by :
    (ra k hk hb bound : ℕ)
    → hk ≤ bound
    → hb ≤ bound
    → (if k == ra then max hk (suc hb) else hk) ≤ suc bound
bounded_by ra k hk hb bound h g = ground (arith, h, g)

module _ (n : ℕ) (p : Parent) (top height : ℕ → ℕ) (bound ra rb : ℕ)
    (f : IsForest n p top height bound) (ha : ra < n) (hb : rb < n) (a : p ra ≡ ra) (b : p rb ≡ rb)
    (apart : (ra == rb) ≡ false) where
  not_top : (k : ℕ) → p k ≢ k → (k == ra) ≡ false
  not_top k m = elim (Bool-cases (k == ra)) [
    | inl e ↦ absurd (m (subst (λ x. p x ≡ x) (sym ((==_iff k ra).0 e)) a))
    | inr e ↦ e
  ]

  tops : (k : ℕ) → k < n → p (joined_top top ra rb k) ≡ joined_top top ra rb k
  tops k below = elim (Bool-cases (top k == rb)) [
    | inl e ↦ rw e a
    | inr e ↦ rw e (f.is_root k below)
  ]

  pub hung :
      IsForest n (put p rb ra) (joined_top top ra rb) (joined_height height ra rb) (suc bound)
  hung = record {
    inside = put_each p rb ra (λ k x. k < n → x < n) (λ g. ha) (λ k e. f.inside k);
    top_inside = λ k g. top_in ra rb (top k) n ha (f.top_inside k g);
    label =
        put_each p rb ra (λ k x. k < n → joined_top top ra rb x ≡ joined_top top ra rb k)
          (λ g. one_top ra rb (top ra) (top rb) (f.fixed ra ha a) (f.fixed rb hb b) apart)
          (λ k e g. ap (λ t. if t == rb then ra else t) (f.label k g));
    fixed =
        put_each p rb ra (λ k x. k < n → x ≡ k → joined_top top ra rb k ≡ k)
          (λ g e. absurd (same_apart ra rb apart e))
          (λ k e g h. other_top ra rb (top k) k (f.fixed k g h) e);
    is_root = λ k g.
        put_each p rb ra (λ m x. (m == rb) ≡ false → p m ≡ m → x ≡ m)
          (λ e h. absurd (same_apart rb rb e refl)) (λ m e d h. h) (joined_top top ra rb k)
          (top_apart ra rb (top k) apart) (tops k g);
    rises =
        put_each p rb ra
          (λ k x. k < n → x ≢ k → joined_height height ra rb k < joined_height height ra rb x)
          (λ g e. rises_to ra rb (height ra) (height rb) apart)
          (λ k e g m.
            rises_on ra k (p k) (height k) (height (p k)) (height rb) (not_top k m)
              (f.rises k g m));
    bounded = λ k. bounded_by ra k (height k) (height rb) bound (f.bounded k) (f.bounded rb);
  }

-- What `union` leaves of the roots: those of the root of `b` become the root of `a`.
abbrev pub merged_top : (ℕ → ℕ) → ℕ → ℕ → ℕ → ℕ
merged_top top a b k = if top a == top b then top k else joined_top top (top a) (top b) k

-- `union` keeps the forest, and gives the indexes of two trees one root.
pub union-IsForest :
    (fuel n : ℕ) (p : Parent) (top height : ℕ → ℕ) (bound a b : ℕ)
    → IsForest n p top height bound
    → bound < fuel
    → a < n
    → b < n
    → (height' : ℕ → ℕ) × IsForest n (union fuel p a b) (merged_top top a b) height' (suc bound)
unfolding union
union-IsForest fuel n p top height bound a b f h ha hb =
    let (fa, ea) = root-IsForest fuel n p top height bound a f ha (omega (arith, h)) in
    let (fb, eb) =
      root-IsForest fuel n (root fuel p a).0 top height bound b fa hb (omega (arith, h)) in
    let q = (root fuel (root fuel p a).0 b).0 in
    let rb = (root fuel (root fuel p a).0 b).1 in
    subst (λ r. Result (if r == rb then q else put q rb r)) (sym ea)
      (subst (λ r. Result (if top a == r then q else put q r (top a))) (sym eb) (merged q fb))
  where
    Result : Parent → Type 0
    Result q = (height' : ℕ → ℕ) × IsForest n q (merged_top top a b) height' (suc bound)

    Both : Parent → Bool → Type 0
    Both q same =
        (height' : ℕ → ℕ) × IsForest n (if same then q else put q (top b) (top a))
          (λ k. if same then top k else joined_top top (top a) (top b) k) height' (suc bound)

    merged :
        (q : Parent)
        → IsForest n q top height bound
        → Result (if top a == top b then q else put q (top b) (top a))
    merged q g = elim (Bool-cases (top a == top b)) [
      | inl e ↦ subst (Both q) (sym e) (
        height,
        record {
          inside = g.inside;
          top_inside = g.top_inside;
          label = g.label;
          fixed = g.fixed;
          is_root = g.is_root;
          rises = g.rises;
          bounded = λ k. weaken _ _ (g.bounded k);
        },
      )
      | inr e ↦ subst (Both q) (sym e) (
        joined_height height (top a) (top b),
        hung n q top height bound (top a) (top b) g (g.top_inside a ha) (g.top_inside b hb)
            (g.is_root a ha) (g.is_root b hb) e,
      )
    ]
      where
        weaken : (l m : ℕ) → l ≤ m → l ≤ suc m
        weaken l m h = omega (arith, h)
