-- ===== src/Identity/Resolve/Claims/Linked.antt =====
-- Which listings of an answer a chain of shared identifiers links, and the roots that a union leaves.
use stonks.Base.{
  ℕ, suc, ◌≤◌, ◌<◌, Bool, true, false, some, List, get_elem?, ◌≡◌, ap, ◌∙◌, arith, ◌==◌, inl, inr,
  ◌⊎◌, if◌then◌else◌,
}
use stonks.Types.Identifier.{Identifier}
use stonks.Market.{Listing}
use stonks.Identity.Group.{First, Parent, stated_first}
use stonks.Base.In.{In}
use stonks.Identity.Resolve.Claim.{of_listing}
use stonks.Identity.Resolve.Claims.{union}
use stonks.Identity.Resolve.Claims.Forest.{IsForest}
use stonks.Identity.Resolve.Claims.Join.{merged_top, union-IsForest}

-- The listing `i` carries an instrument grain identifier.
abbrev pub HasId : List Listing → ℕ → Identifier → Type 0
HasId ls i id =
    (c : Listing) × (get_elem? ls i ≡ some c) × In id c.identifiers × (of_listing id ≡ false)

-- Two listings share an instrument grain identifier, or a chain of listings does, or the call was
-- strict.
pub data Linked (ls : List Listing) (strict : Bool) : ℕ → ℕ → Type 0 where
  alone : {i : ℕ} → Linked ls strict i i
  shared : {i j : ℕ} {id : Identifier} → HasId ls i id → HasId ls j id → Linked ls strict i j
  strictly : {i : ℕ} {c : Listing} → strict ≡ true → get_elem? ls i ≡ some c → Linked ls strict 0 i
  chain : {i j k : ℕ} → Linked ls strict i j → Linked ls strict j k → Linked ls strict i k
  turned : {i j : ℕ} → Linked ls strict i j → Linked ls strict j i

-- The indexes from `n` on are roots, and those below have roots below.
abbrev pub Fresh : ℕ → (ℕ → ℕ) → Type 0
Fresh n top = ((k : ℕ) → n ≤ k → top k ≡ k) × ((k : ℕ) → k < n → top k < n)

abbrev pub Refines : (ℕ → ℕ) → (ℕ → ℕ) → Type 0
Refines top top' = (x y : ℕ) → top x ≡ top y → top' x ≡ top' y

-- The merged root, as a function of the root.
abbrev merge : ℕ → ℕ → ℕ → ℕ
merge ta tb t = if ta == tb then t else if t == tb then ta else t

merge-both : (ta tb : ℕ) → merge ta tb ta ≡ merge ta tb tb
merge-both ta tb = ground arith

merge-above : (ta tb t n : ℕ) → n ≤ t → tb < n → merge ta tb t ≡ t
merge-above ta tb t n h g = ground (arith, h, g)

merge-below : (ta tb t n : ℕ) → t < n → ta < n → merge ta tb t < n
merge-below ta tb t n h g = ground (arith, h, g)

-- Two roots with one merged root.
merge-cases :
    (ta tb x y : ℕ)
    → merge ta tb x ≡ merge ta tb y
    → (x ≡ y) ⊎ (((x ≡ tb) × (ta ≡ y)) ⊎ ((x ≡ ta) × (tb ≡ y)))
merge-cases ta tb x y h = ground (arith, h)

module _ (ls : List Listing) (strict : Bool) where
  -- Indexes with one root are linked.
  abbrev pub Sound : (ℕ → ℕ) → Type 0
  Sound top = (x y : ℕ) → top x ≡ top y → Linked ls strict x y

  -- What `union` leaves of the roots of linked indexes below `n`.
  abbrev pub Joins : ℕ → (ℕ → ℕ) → ℕ → ℕ → (ℕ → ℕ) → Type 0
  Joins n top a b top' = Fresh n top' × Sound top' × Refines top top' × (top' a ≡ top' b)

  pub merged_top-Joins :
      (n : ℕ) (top : ℕ → ℕ) (a b : ℕ)
      → Fresh n top
      → Sound top
      → a < n
      → b < n
      → Linked ls strict a b
      → Joins n top a b (merged_top top a b)
  merged_top-Joins n top a b fresh sound ha hb l = (
    (
      λ k h.
          merge-above (top a) (top b) (top k) n (omega (arith, fresh.0 k h, h)) (fresh.1 b hb)
          ∙ fresh.0 k h,
      λ k h. merge-below (top a) (top b) (top k) n (fresh.1 k h) (fresh.1 a ha),
    ),
    λ x y e. linked x y (merge-cases (top a) (top b) (top x) (top y) e),
    λ x y e. ap (merge (top a) (top b)) e,
    merge-both (top a) (top b),
  )
    where
      linked :
          (x y : ℕ)
          → (top x ≡ top y)
            ⊎ (((top x ≡ top b) × (top a ≡ top y)) ⊎ ((top x ≡ top a) × (top b ≡ top y)))
          → Linked ls strict x y
      linked x y (inl h) = sound x y h
      linked x y (inr (inl (h, g))) =
          Linked.chain (sound x b h) (Linked.chain (Linked.turned l) (sound a y g))
      linked x y (inr (inr (h, g))) = Linked.chain (sound x a h) (Linked.chain l (sound b y g))

  -- The owner of an identifier is a listing below `n` that carries it.
  abbrev pub Owned : ℕ → First → Type 0
  Owned n owner =
      (id : Identifier) (j : ℕ) → stated_first id owner ≡ some j → HasId ls j id × (j < n)

  -- The state of the loop, with its roots.
  abbrev pub State : ℕ → ℕ → First × Parent → (ℕ → ℕ) → Type 0
  State n bound (owner, p) top =
      (height : ℕ → ℕ) × IsForest n p top height bound × Fresh n top × Sound top × Owned n owner

  -- One union of linked listings.
  pub union-State :
      (fuel n bound : ℕ) (owner : First) (p : Parent) (top : ℕ → ℕ) (a b : ℕ)
      → State n bound (owner, p) top
      → bound < fuel
      → a < n
      → b < n
      → Linked ls strict a b
      → (top' : ℕ → ℕ) × State n (suc bound) (owner, union fuel p a b) top'
        × Refines top top'
        × (top' a ≡ top' b)
  union-State fuel n bound owner p top a b (height, f, fresh, sound, owned) h ha hb l =
      let (height', f') = union-IsForest fuel n p top height bound a b f h ha hb in
      let j = merged_top-Joins n top a b fresh sound ha hb l in
      (merged_top top a b, (height', f', j.0, j.1, owned), j.2, j.3)
