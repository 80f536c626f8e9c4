-- ===== src/Identity/Resolve/Claims/Rounds.antt =====
-- What the loop of `partition` over the listings leaves of the roots.
use stonks.Base.{
  some-injective, none_some, refl, ℕ, zero, suc, ◌+◌, ◌<◌, Bool, true, false, some, List, [], ◌∷◌,
  get_elem?, length, ◌≡◌, sym, ap, ◌∙◌, subst, arith, All, All-mono, ==_iff, ◌==◌, ◌⊎◌, Bool-cases,
  inl, inr, clash, if◌then◌else◌,
}
use stonks.Market.{Listing}
use stonks.Identity.Group.{First, Parent, put}
use stonks.Base.In.{In-All}
use stonks.Identity.Resolve.Claim.{of_listing}
use stonks.Identity.Resolve.Claims.{union, own_all, part_from, unions}
use stonks.Identity.Resolve.Claims.Forest.{IsForest-suc}
use stonks.Identity.Resolve.Claims.Linked.{HasId, Linked, State, union-State}
use stonks.Identity.Resolve.Claims.Parts.{Found, Leaves, State-mono, State-at, own_all-Leaves}

module _ (ls : List Listing) (strict : Bool) where
  -- Each instrument grain identifier of the listings has an owner with the root of its listing, and
  -- a strict answer has one root.
  abbrev pub At : First → (ℕ → ℕ) → Listing → ℕ → Type 0
  At owner top c i =
      All (λ id. of_listing id ≡ false → Found owner top id i) c.identifiers
      × (strict ≡ true → top 0 ≡ top i)

  abbrev pub Parted : ℕ → List Listing → First → (ℕ → ℕ) → Type 0
  Parted i rest owner top =
      (k : ℕ) (c : Listing) → get_elem? rest k ≡ some c → At owner top c (i + k)

  abbrev pub suffix : ℕ → List Listing → Type 0
  suffix i rest = (k : ℕ) → get_elem? rest k ≡ get_elem? ls (i + k)

  -- The state of the loop once the listing `i` has a tree of its own.
  own_tree :
      (i bound : ℕ) (owner : First) (p : Parent) (top : ℕ → ℕ)
      → State ls strict i bound (owner, p) top
      → State ls strict (suc i) bound (owner, put p i i) top
  own_tree i bound owner p top (height, f, fresh, sound, owned) = (
    height,
    IsForest-suc (fresh.0 i (omega arith)) f,
    (λ k h. fresh.0 k (omega (arith, h)), λ k h. below k h (Bool-cases (k == i))),
    sound,
    λ id j found. ((owned id j found).0, raise j (owned id j found).1),
  )
    where
      raise : (j : ℕ) → j < i → j < suc i
      raise j h = omega (arith, h)

      below : (k : ℕ) → k < suc i → ((k == i) ≡ true) ⊎ ((k == i) ≡ false) → top k < suc i
      below k h (inl e) =
          subst (λ x. top x < suc i) (sym ((==_iff k i).0 e))
            (omega (arith, fresh.0 i (omega arith)))
      below k h (inr e) = raise (top k) (fresh.1 k (ground (arith, e, h)))

  -- The union of a strict answer.
  strict-Leaves :
      (fuel i bound : ℕ) (c : Listing) (owner : First) (p : Parent) (top : ℕ → ℕ)
      → State ls strict (suc i) bound (owner, p) top
      → bound < fuel
      → get_elem? ls i ≡ some c
      → Leaves ls strict
          (suc i)
          (suc bound)
          (owner, p)
          top
          (λ owner' top'. strict ≡ true → top' 0 ≡ top' i)
          (owner, if strict then union fuel p 0 i else p)
  strict-Leaves fuel i bound c owner p top s h at = elim (Bool-cases strict) [
    | inl e ↦
        let next =
          union-State ls strict fuel (suc i) bound owner p top 0 i s h (omega arith) (omega arith)
            (Linked.strictly e at) in
        subst Result (sym (ap (λ b. (owner, if b then union fuel p 0 i else p)) e))
          (next.0, next.1, (next.2, λ d x g. (g.0, g.1, next.2 x g.0 g.2)), λ g. next.3)
    | inr e ↦ subst Result (sym (ap (λ b. (owner, if b then union fuel p 0 i else p)) e)) (
      top,
      State-mono ls strict (suc i) bound (suc bound) (owner, p) top (omega arith) s,
      (λ x y g. g, λ d x g. g),
      λ g. absurd (clash g e),
    )
  ]
    where
      Result : First × Parent → Type 0
      Result s' =
          Leaves ls strict (suc i) (suc bound) (owner, p) top
            (λ owner' top'. strict ≡ true → top' 0 ≡ top' i) s'

  -- The listing `i`, whole.
  round-Leaves :
      (fuel i bound : ℕ) (c : Listing) (owner : First) (p : Parent) (top : ℕ → ℕ)
      → State ls strict i bound (owner, p) top
      → bound + suc (length c.identifiers) < fuel
      → get_elem? ls i ≡ some c
      → Leaves ls strict
          (suc i)
          (bound + suc (length c.identifiers))
          (owner, p)
          top
          (λ owner' top'. At owner' top' c i)
          (own_all fuel i c.identifiers
            (owner, if strict then union fuel (put p i i) 0 i else put p i i))
  round-Leaves fuel i bound c owner p top s h at =
      let (top1, s1, grows1, one) =
        strict-Leaves fuel i bound c owner (put p i i) top (own_tree i bound owner p top s)
          (omega (arith, h)) at in
      let q = if strict then union fuel (put p i i) 0 i else put p i i in
      let has =
        In-All (λ id. of_listing id ≡ false → HasId ls i id) c.identifiers
          (λ id m e. (c, at, m, e)) in
      let (top2, s2, grows2, found) =
        own_all-Leaves ls strict fuel i (suc bound) c.identifiers owner q top1 s1 (omega (arith, h))
          has in
      (
        top2,
        State-mono ls strict (suc i) (suc bound + length c.identifiers)
            (bound + suc (length c.identifiers)) _ top2 (omega arith) s2,
        (λ x y g. grows2.0 x y (grows1.0 x y g), λ d x g. grows2.1 d x (grows1.1 d x g)),
        (found, λ e. grows2.0 0 i (one e)),
      )

  Parted-cons :
      (i : ℕ) (c : Listing) (rest : List Listing) (owner : First) (top : ℕ → ℕ)
      → At owner top c i
      → Parted (suc i) rest owner top
      → Parted i (c ∷ rest) owner top
  Parted-cons i c rest owner top here there zero d e =
      subst (At owner top d) (plus_zero i) (subst (λ l. At owner top l i) (some-injective e) here)
    where
      plus_zero : (n : ℕ) → n ≡ n + 0
      plus_zero n = omega arith
  Parted-cons i c rest owner top here there (suc k) d e =
      subst (At owner top d) (plus_suc i k) (there k d e)
    where
      plus_suc : (n m : ℕ) → suc n + m ≡ n + suc m
      plus_suc n m = omega arith

  pub part_from-Leaves :
      (fuel i bound : ℕ) (rest : List Listing) (owner : First) (p : Parent) (top : ℕ → ℕ)
      → State ls strict i bound (owner, p) top
      → bound + unions rest < fuel
      → suffix i rest
      → Leaves ls strict
          (i + length rest)
          (bound + unions rest)
          (owner, p)
          top
          (Parted i rest)
          (part_from fuel strict i rest (owner, p))
  unfolding part_from unions
  part_from-Leaves fuel i bound [] owner p top s h at = (
    top,
    State-at ls strict i (i + 0) bound (bound + 0) (owner, p) top (omega arith) (omega arith) s,
    (λ x y g. g, λ d x g. g),
    λ k c e. absurd (none_some refl e),
  )
  part_from-Leaves fuel i bound (c ∷ rest) owner p top s h at =
      let (top1, s1, grows1, here) =
        round-Leaves fuel i bound c owner p top s (omega (arith, h))
          (subst (λ n. get_elem? ls n ≡ some c) (plus_zero i) (sym (at 0))) in
      let s' =
        own_all fuel i c.identifiers
          (owner, if strict then union fuel (put p i i) 0 i else put p i i) in
      let (top2, s2, grows2, there) =
        part_from-Leaves fuel (suc i) (bound + suc (length c.identifiers)) rest s'.0 s'.1 top1 s1
          (omega (arith, h)) (λ k. at (suc k) ∙ ap (get_elem? ls) (omega arith)) in
      (
        top2,
        State-at ls strict (suc i + length rest) (i + length (c ∷ rest))
            (bound + suc (length c.identifiers) + unions rest) (bound + unions (c ∷ rest))
            (part_from fuel strict (suc i) rest s') top2 (plus_suc i (length rest)) (omega arith)
            s2,
        (λ x y g. grows2.0 x y (grows1.0 x y g), λ d x g. grows2.1 d x (grows1.1 d x g)),
        Parted-cons i c rest _ top2
            (
              All-mono (λ id g e. grows2.1 id i (g e)) c.identifiers here.0,
              λ e. grows2.0 0 i (here.1 e),
            )
            there,
      )
    where
      plus_zero : (n : ℕ) → n + 0 ≡ n
      plus_zero n = omega arith

      plus_suc : (n m : ℕ) → suc n + m ≡ n + suc m
      plus_suc n m = omega arith
