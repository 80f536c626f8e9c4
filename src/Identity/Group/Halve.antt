-- ===== src/Identity/Group/Halve.antt =====
-- `find`: the halving of a path, and the root that it returns.
use stonks.Base.{
  ℕ, zero, suc, ◌≤◌, ◌<◌, false, ◌≡◌, ◌≢◌, sym, ◌∙◌, subst, arith, ◌==◌, ==_iff, Bool-cases, inl,
  inr,
}
use stonks.Identity.Group.{Parent, put, find_from, find}
use stonks.Identity.Group.Roots.{
  IsDown, Root, put-here, put-other, put-IsDown, Root-unique, not_same, Root-exists,
}

module _ (p : Parent) (k : ℕ) (down : IsDown p) (inner : p k ≢ k) where
  abbrev halved : Parent
  halved = put p k (p (p k))

  halved-below : halved k ≢ k
  halved-below e =
      above k (p k) (p (p k)) (down k) inner (down (p k)) (sym (put-here p k (p (p k))) ∙ e)
    where
      above : (k x y : ℕ) → x ≤ k → x ≢ k → y ≤ x → y ≡ k → ⊥
      above k x y i n j e = absurd (n (omega (arith, i, j, e)))

  at_k : {r : ℕ} → Root halved (p (p k)) r → Root halved k r
  at_k {r} u = Root.up halved-below (subst (λ y. Root halved y r) (sym (put-here p k (p (p k)))) u)

  elsewhere : {x r : ℕ} → (x == k) ≡ false → p x ≢ x → Root halved (p x) r → Root halved x r
  elsewhere {x} {r} other n u =
      let e = put-other p k (p (p k)) x other in
      Root.up (λ g. n (sym e ∙ g)) (subst (λ y. Root halved y r) (sym e) u)

  -- Halving the path at `k` leaves every root.
  pub halve : {x r : ℕ} → Root p x r → Root halved x r
  halve {x} (Root.root e) = elim (Bool-cases (x == k)) [
    | inl same ↦ absurd (inner (subst (λ y. p y ≡ y) ((==_iff x k).0 same) e))
    | inr other ↦ Root.root (put-other p k (p (p k)) x other ∙ e)
  ]
  halve {x} {r} (Root.up n (Root.root e)) =
      let ih = halve (Root.root e) in
      elim (Bool-cases (x == k)) [
        | inl same ↦
            let at = (==_iff x k).0 same in
            subst (λ y. Root halved y r) (sym at)
              (at_k
                (subst (λ y. Root halved (p (p y)) r) at (subst (λ y. Root halved y r) (sym e) ih)))
        | inr other ↦ elsewhere other n ih
      ]
  halve {x} {r} (Root.up n (Root.up m u)) =
      let ih = halve (Root.up m u) in
      let ih' = halve u in
      elim (Bool-cases (x == k)) [
        | inl same ↦
            let at = (==_iff x k).0 same in
            subst (λ y. Root halved y r) (sym at)
              (at_k (subst (λ y. Root halved (p (p y)) r) at ih'))
        | inr other ↦ elsewhere other n ih
      ]

  halved-IsDown : IsDown halved
  halved-IsDown = put-IsDown p k (p (p k)) (two_down k (p k) (p (p k)) (down k) (down (p k))) down
    where
      two_down : (a b c : ℕ) → b ≤ a → c ≤ b → c ≤ a
      two_down a b c h g = omega (arith, h, g)

  -- The root of `k` is that of the parent of its parent, after the halving.
  halved-Root : {r : ℕ} → Root halved (p (p k)) r → Root p k r
  halved-Root {r} u =
      let (s, v, b) = Root-exists p k down in subst (Root p k) (Root-unique (halve v) (at_k u)) v

-- What `find` leaves: the root of `k`, and every root as it was.
abbrev pub IsFound : Parent → ℕ → Parent × ℕ → Type 0
IsFound p k found =
    Root p k found.1 × (found.1 ≤ k) × IsDown found.0 × ((x r : ℕ) → Root p x r → Root found.0 x r)

find_from-IsFound : (f : ℕ) (p : Parent) (k : ℕ) → IsDown p → k < f → IsFound p k (find_from f p k)
unfolding find_from
find_from-IsFound zero p k d h = absurd (omega arith)
find_from-IsFound (suc f) p k d h = elim (Bool-cases (p k == k)) [
  | inl e ↦ rw (e, find_from) (Root.root ((==_iff (p k) k).0 e), omega arith, d, λ x r u. u)
  | inr e ↦
      let inner = not_same (p k) k e in
      let ih =
        find_from-IsFound f (put p k (p (p k))) (p (p k)) (halved-IsDown p k d inner)
          (lower k (p k) (p (p k)) f (d k) inner (d (p k)) h) in
      rw (e, find_from)
        (
          halved-Root p k d inner ih.0,
          lowered k (p k) (p (p k)) _ (d k) (d (p k)) ih.1,
          ih.2,
          λ x r u. ih.3 x r (halve p k d inner u),
        )
]
  where
    lower : (k x y f : ℕ) → x ≤ k → x ≢ k → y ≤ x → k < suc f → y < f
    lower k x y f i n j h = omega (arith, i, n, j, h)

    lowered : (k x y r : ℕ) → x ≤ k → y ≤ x → r ≤ y → r ≤ k
    lowered k x y r i j h = omega (arith, i, j, h)

-- Where no parent is above its child, the loop of `find` ends within its rounds, at the root of the
-- key, which is no larger than the key; it leaves no parent above its child, and every root as it
-- was.
pub find-IsFound : (p : Parent) (k : ℕ) → IsDown p → IsFound p k (find p k)
unfolding find
find-IsFound p k d = find_from-IsFound (suc k) p k d (omega arith)
