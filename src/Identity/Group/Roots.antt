-- ===== src/Identity/Group/Roots.antt =====
-- The root of a key.
use stonks.Base.{
  ℕ, zero, suc, ◌≤◌, ◌<◌, false, ◌≡◌, ◌≢◌, refl, arith, ◌==◌, ==_iff, Bool-cases, inl, inr,
}
use stonks.Identity.Group.{Parent, put}

-- No parent is above its child.
abbrev pub IsDown : Parent → Type 0
IsDown p = (k : ℕ) → p k ≤ k

-- The root of `k` is `r`.
pub data Root (p : Parent) : ℕ → ℕ → Type 0 where
  root : {k : ℕ} → p k ≡ k → Root p k k
  up : {k r : ℕ} → p k ≢ k → Root p (p k) r → Root p k r

pub put-here : (p : Parent) (k v : ℕ) → put p k v k ≡ v
unfolding put
put-here p k v = rw ((==_iff k k).1 refl) refl

pub put-other : (p : Parent) (k v x : ℕ) → (x == k) ≡ false → put p k v x ≡ p x
unfolding put
put-other p k v x h = rw h refl

pub put-IsDown : (p : Parent) (k v : ℕ) → v ≤ k → IsDown p → IsDown (put p k v)
unfolding put
put-IsDown p k v h d x = ground (arith, h, d x)

pub Root-unique : {p : Parent} {k r s : ℕ} → Root p k r → Root p k s → r ≡ s
Root-unique (Root.root e) (Root.root g) = refl
Root-unique (Root.root e) (Root.up n u) = absurd (n e)
Root-unique (Root.up n u) (Root.root e) = absurd (n e)
Root-unique (Root.up n u) (Root.up m v) = Root-unique u v

pub not_same : (k l : ℕ) → (k == l) ≡ false → k ≢ l
not_same k l h e = ground (arith, h, e)

-- Every key has a root, at or below it.
exists_from : (f : ℕ) (p : Parent) (k : ℕ) → IsDown p → k < f → (r : ℕ) × Root p k r × (r ≤ k)
exists_from zero p k d h = absurd (omega arith)
exists_from (suc f) p k d h = elim (Bool-cases (p k == k)) [
  | inl e ↦ (k, Root.root ((==_iff (p k) k).0 e), omega arith)
  | inr e ↦
      let n = not_same (p k) k e in
      let (r, u, b) = exists_from f p (p k) d (below f k (p k) (d k) n h) in
      (r, Root.up n u, omega (arith, b, d k))
]
  where
    below : (f k x : ℕ) → x ≤ k → x ≢ k → k < suc f → x < f
    below f k x i n j = omega (arith, i, n, j)

pub Root-exists : (p : Parent) (k : ℕ) → IsDown p → (r : ℕ) × Root p k r × (r ≤ k)
Root-exists p k d = exists_from (suc k) p k d (omega arith)

pub Root-fixed : {p : Parent} {k r : ℕ} → Root p k r → p r ≡ r
Root-fixed (Root.root e) = e
Root-fixed (Root.up n u) = Root-fixed u
