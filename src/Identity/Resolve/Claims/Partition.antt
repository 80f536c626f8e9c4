-- ===== src/Identity/Resolve/Claims/Partition.antt =====
-- The roots that `partition` returns: the listings that share an identifier have one root.
use stonks.Base.{
  some-injective, none_some, ℕ, zero, suc, ◌+◌, ◌≤◌, ◌<◌, Bool, false, some, List, [], ◌∷◌,
  get_elem?, length, ◌≡◌, ◌↔◌, refl, sym, ap, ◌∙◌, subst, arith,
}
use stonks.Types.Identifier.{Identifier}
use stonks.Market.{Listing}
use stonks.Identity.Group.{First, Parent, stated_first}
use stonks.Base.In.{All-In}
use stonks.Identity.Resolve.Claim.{of_listing}
use stonks.Identity.Resolve.Claims.{root, part_from, roots_from, unions, partition}
use stonks.Identity.Resolve.Claims.Forest.{IsForest, root-IsForest}
use stonks.Identity.Resolve.Claims.Linked.{HasId, Linked, State}
use stonks.Identity.Resolve.Claims.Parts.{Found}
use stonks.Identity.Resolve.Claims.Rounds.{Parted, part_from-Leaves}

-- The last loop returns the root of each index.
roots_from-top :
    (fuel n i : ℕ) (rest : List Listing) (p : Parent) (top height : ℕ → ℕ) (bound : ℕ)
    → IsForest n p top height bound
    → bound < fuel
    → i + length rest ≤ n
    → (k : ℕ) (r : ℕ) → get_elem? (roots_from fuel i rest p) k ≡ some r
    → r ≡ top (i + k)
unfolding roots_from
roots_from-top fuel n i [] p top height bound f h end k r e = absurd (none_some refl e)
roots_from-top fuel n i (c ∷ rest) p top height bound f h end zero r e =
    let g = root-IsForest fuel n p top height bound i f (omega (arith, end)) (omega (arith, h)) in
    sym (some-injective e) ∙ g.1 ∙ ap top (plus_zero i)
  where
    plus_zero : (m : ℕ) → m ≡ m + 0
    plus_zero m = omega arith
roots_from-top fuel n i (c ∷ rest) p top height bound f h end (suc k) r e =
    let g = root-IsForest fuel n p top height bound i f (omega (arith, end)) (omega (arith, h)) in
    roots_from-top fuel n (suc i) rest (root fuel p i).0 top height bound g.0 h (omega (arith, end))
      k r e
    ∙ ap top (plus_suc i k)
  where
    plus_suc : (m l : ℕ) → suc m + l ≡ m + suc l
    plus_suc m l = omega arith

zero_plus : (n : ℕ) → 0 + n ≡ n
zero_plus n = omega arith

roots_from-length :
    (fuel i : ℕ) (rest : List Listing) (p : Parent)
    → length (roots_from fuel i rest p) ≡ length rest
unfolding roots_from
roots_from-length fuel i [] p = refl
roots_from-length fuel i (c ∷ rest) p =
    ap suc (roots_from-length fuel (suc i) rest (root fuel p i).0)

module _ (ls : List Listing) (strict : Bool) where
  -- What the loop starts from: each index is a tree of its own.
  start : State ls strict 0 0 ([], λ k. 0) (λ k. k)
  unfolding stated_first
  start = (
    λ k. 0,
    record {
      inside = λ k h. absurd (none_below k h);
      top_inside = λ k h. h;
      label = λ k h. absurd (none_below k h);
      fixed = λ k h e. refl;
      is_root = λ k h. absurd (none_below k h);
      rises = λ k h. absurd (none_below k h);
      bounded = λ k. omega arith;
    },
    (λ k h. refl, λ k h. h),
    λ x y e. subst (Linked ls strict x) e Linked.alone,
    λ id j found. absurd (none_some refl found),
  )
    where
      none_below : (k : ℕ) → k < 0 → ⊥
      none_below k h = absurd (omega (arith, h))

  found_at :
      (owner : First) (top : ℕ → ℕ)
      → Parted ls strict 0 ls owner top
      → (x : ℕ) (id : Identifier) → HasId ls x id
      → Found owner top id x
  found_at owner top parted x id (c, at, m, e) =
      subst (Found owner top id) (zero_plus x)
        (All-In (λ d. of_listing d ≡ false → Found owner top d (0 + x)) (parted x c at).0 m e)

  one_owner :
      (owner : First) (top : ℕ → ℕ) (id : Identifier) (x y : ℕ)
      → Found owner top id x
      → Found owner top id y
      → top x ≡ top y
  one_owner owner top id x y (j, at, e) (k, at', e') = e ∙ ap top (cc (at, at')) ∙ sym e'

  -- Linked listings have one root.
  Linked-top :
      (owner : First) (top : ℕ → ℕ)
      → Parted ls strict 0 ls owner top
      → {x y : ℕ} → Linked ls strict x y
      → top x ≡ top y
  Linked-top owner top parted Linked.alone = refl
  Linked-top owner top parted (Linked.shared {i} {j} {id} hi hj) =
      one_owner owner top id i j (found_at owner top parted i id hi)
        (found_at owner top parted j id hj)
  Linked-top owner top parted (Linked.strictly {i} {c} e at) =
      (parted i c at).1 e ∙ ap top (zero_plus i)
  Linked-top owner top parted (Linked.chain l r) =
      Linked-top owner top parted l ∙ Linked-top owner top parted r
  Linked-top owner top parted (Linked.turned l) = sym (Linked-top owner top parted l)

-- `partition` gives each listing a root, and two listings the same one exactly when they are linked:
-- when they share an instrument grain identifier, when a chain of listings of the answer does, or
-- when the call was strict.
pub partition-Linked :
    (ls : List Listing) (strict : Bool) (x y r q : ℕ)
    → get_elem? (partition ls strict) x ≡ some r
    → get_elem? (partition ls strict) y ≡ some q
    → (length (partition ls strict) ≡ length ls) × ((r ≡ q) ↔ Linked ls strict x y)
unfolding partition
partition-Linked ls strict x y r q hx hy =
    let fuel = suc (unions ls) in
    let (top, (height, f, fresh, sound, owned), grows, parted) =
      part_from-Leaves ls strict fuel 0 0 ls [] (λ k. 0) (λ k. k) (start ls strict) (omega arith)
        (λ k. ap (get_elem? ls) (sym (zero_plus k))) in
    let s = part_from fuel strict 0 ls ([], λ k. 0) in
    let at =
      roots_from-top fuel (0 + length ls) 0 ls s.1 top height (0 + unions ls) f (omega arith)
        (omega arith) in
    let ex : r ≡ top x = at x r hx ∙ ap top (zero_plus x) in
    let ey : q ≡ top y = at y q hy ∙ ap top (zero_plus y) in
    (
      roots_from-length fuel 0 ls s.1,
      (λ e. sound x y (sym ex ∙ e ∙ ey), λ l. ex ∙ Linked-top ls strict s.0 top parted l ∙ sym ey),
    )
