-- ===== src/Identity/Group/Union.antt =====
-- The roots after `union`.
use stonks.Base.{
  ℕ, ◌≤◌, ◌<◌, true, false, ◌≡◌, sym, ◌∙◌, subst, arith, ltb, ◌==◌, ==_iff, Bool-cases, inl, inr,
  if◌then◌else◌, min,
}
use stonks.Identity.Group.{Parent, put, find, hang, union}
use stonks.Identity.Group.Roots.{
  IsDown, Root, put-here, put-other, put-IsDown, Root-fixed, Root-unique,
}
use stonks.Identity.Group.Halve.{find-IsFound}

-- The root of a key whose root was `s`, once the roots `ra` and `rb` are one.
abbrev pub merged : ℕ → ℕ → ℕ → ℕ
merged ra rb s = if s == ra then min ra rb else if s == rb then min ra rb else s

abbrev moved : ℕ → ℕ → ℕ → ℕ
moved hi lo s = if s == hi then lo else s

not_lower : (a c : ℕ) → a < c → a ≡ c → ⊥
not_lower a c h e = absurd (omega (arith, h, e))

-- A root that hangs under a lower one.
hang_under :
    (p : Parent) (hi lo : ℕ)
    → p lo ≡ lo
    → lo < hi
    → {x s : ℕ} → Root p x s
    → p hi ≡ hi
    → Root (put p hi lo) x (moved hi lo s)
hang_under p hi lo l b {x} (Root.root e) h = elim (Bool-cases (x == hi)) [
  | inl same ↦
      let at = (==_iff x hi).0 same in rw same (subst (λ y. Root (put p hi lo) y lo) (sym at) top)
  | inr other ↦ rw other (Root.root (put-other p hi lo x other ∙ e))
]
  where
    lo_root : Root (put p hi lo) lo lo
    lo_root = Root.root (put-other p hi lo lo (apart lo hi b) ∙ l)
      where
        apart : (a c : ℕ) → a < c → (a == c) ≡ false
        apart a c h = ground (arith, h)

    top : Root (put p hi lo) hi lo
    top =
        Root.up (λ e. not_lower lo hi b (sym (put-here p hi lo) ∙ e))
          (subst (λ y. Root (put p hi lo) y lo) (sym (put-here p hi lo)) lo_root)
hang_under p hi lo l b {x} {s} (Root.up n u) h = elim (Bool-cases (x == hi)) [
  | inl same ↦ absurd (n (subst (λ y. p y ≡ y) (sym ((==_iff x hi).0 same)) h))
  | inr other ↦
      let e = put-other p hi lo x other in
      Root.up (λ g. n (sym e ∙ g))
        (subst (λ y. Root (put p hi lo) y (moved hi lo s)) (sym e) (hang_under p hi lo l b u h))
]

merged_self : (r s : ℕ) → merged r r s ≡ s
merged_self r s = ground arith

merged-above : (ra rb s : ℕ) → rb < ra → merged ra rb s ≡ moved ra rb s
merged-above ra rb s h = ground (arith, h)

merged-below :
    (ra rb s : ℕ) → (ra == rb) ≡ false → ltb rb ra ≡ false → merged ra rb s ≡ moved rb ra s
merged-below ra rb s h g = ground (arith, h, g)

above : (ra rb : ℕ) → ltb rb ra ≡ true → rb < ra
above ra rb h = ground (arith, h)

below : (ra rb : ℕ) → (ra == rb) ≡ false → ltb rb ra ≡ false → ra < rb
below ra rb h g = ground (arith, h, g)

module _ (p : Parent) (ra rb : ℕ) (fixed_a : p ra ≡ ra) (fixed_b : p rb ≡ rb) where
  hang-Root : {x s : ℕ} → Root p x s → Root (hang p ra rb) x (merged ra rb s)
  unfolding hang
  hang-Root {x} {s} u = elim (Bool-cases (ra == rb)) [
    | inl e ↦
        let same : ra ≡ rb = (==_iff ra rb).0 e in
        rw (e, hang)
          (subst (Root p x) (sym (subst (λ r. merged ra r s ≡ s) same (merged_self ra s))) u)
    | inr e ↦ elim (Bool-cases (ltb rb ra)) [
      | inl g ↦
          rw (e, g, hang)
            (subst (Root (put p ra rb) x) (sym (merged-above ra rb s (above ra rb g)))
              (hang_under p ra rb fixed_b (above ra rb g) u fixed_a))
      | inr g ↦
          rw (e, g, hang)
            (subst (Root (put p rb ra) x) (sym (merged-below ra rb s e g))
              (hang_under p rb ra fixed_a (below ra rb e g) u fixed_b))
    ]
  ]

  hang-IsDown : IsDown p → IsDown (hang p ra rb)
  unfolding hang
  hang-IsDown d = elim (Bool-cases (ra == rb)) [
    | inl e ↦ rw (e, hang) d
    | inr e ↦ elim (Bool-cases (ltb rb ra)) [
      | inl g ↦ rw (e, g, hang) (put-IsDown p ra rb (weaken rb ra (above ra rb g)) d)
      | inr g ↦ rw (e, g, hang) (put-IsDown p rb ra (weaken ra rb (below ra rb e g)) d)
    ]
  ]
    where
      weaken : (a c : ℕ) → a < c → a ≤ c
      weaken a c h = omega (arith, h)

-- Where no parent is above its child, `union` gives the keys of two components the smaller of their
-- roots and leaves every other root, and no parent is above its child.
pub union-Root :
    (p : Parent) (a b ra rb : ℕ)
    → IsDown p
    → Root p a ra
    → Root p b rb
    → IsDown (union p a b) × ((x s : ℕ) → Root p x s → Root (union p a b) x (merged ra rb s))
unfolding union
union-Root p a b ra rb d u v =
    let fa = find-IsFound p a d in
    let fb = find-IsFound (find p a).0 b fa.2 in
    let q = (find (find p a).0 b).0 in
    let r = (find (find p a).0 b).1 in
    let kept : (x s : ℕ) → Root p x s → Root q x s = λ x s w. fb.3 x s (fa.3 x s w) in
    subst (λ m. Result (hang q m r)) (Root-unique u fa.0)
      (subst (λ m. Result (hang q ra m)) (Root-unique (fa.3 b rb v) fb.0)
        (
          hang-IsDown q ra rb (Root-fixed (kept a ra u)) (Root-fixed (kept b rb v)) fb.2,
          λ x s w.
              hang-Root q ra rb (Root-fixed (kept a ra u)) (Root-fixed (kept b rb v)) (kept x s w),
        ))
  where
    Result : Parent → Type 0
    Result q = IsDown q × ((x s : ℕ) → Root p x s → Root q x (merged ra rb s))
