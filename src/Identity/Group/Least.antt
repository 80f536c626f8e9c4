-- ===== src/Identity/Group/Least.antt =====
-- The group that `of` gives each key.
use stonks.Base.{
  map, some-injective, ℕ, ◌≤◌, Bool, true, some, List, [], ◌∷◌, ◌≡◌, ◌⊎◌, refl, sym, ap, ◌∙◌, subst,
  arith, All, All-mono, Bool-cases, Option-cases, inl, inr, ◌==◌, ==_iff, if◌then◌else◌, min,
}
use stonks.Types.Identifier.{Identifier, joining}
use stonks.Identity.Group.{
  Parent, StatedKey, First, put, union, start, no_parent, stated_first, identifier_eq, join,
  join_key, join_keys, roots, of, find,
}
use stonks.Identity.Group.Roots.{IsDown, Root, Root-unique, Root-exists, put-here}
use stonks.Identity.Group.Union.{merged, union-Root}
use stonks.Identity.Group.Joined.{Same, identifier_eq_iff, union-joins}
use stonks.Base.In.{In}
use stonks.Identity.Group.Components.{Linked, start-IsDown, joined, Linked-Same, roots-Root}

min_cases : (a b : ℕ) → (min a b ≡ a) ⊎ (min a b ≡ b)
min_cases a b = ground arith

module _ (keys : List StatedKey) where
  -- The root of every key is linked to it.
  abbrev RootsLinked : Parent → Type 0
  RootsLinked p = (k : StatedKey) → In k keys → (r : ℕ) → Root p k.id r → Linked keys k.id r

  -- A key states the identifier, and has the id.
  abbrev States : Identifier → ℕ → Type 0
  States i x = (k : StatedKey) × In k keys × In i k.identifiers × (x ≡ k.id)

  Linked-min : (m a b : ℕ) → Linked keys m a → Linked keys m b → Linked keys m (min a b)
  Linked-min m a b u v = elim (min_cases a b) [
    | inl e ↦ subst (Linked keys m) (sym e) u
    | inr e ↦ subst (Linked keys m) (sym e) v
  ]

  Linked-merged :
      (m s ra rb : ℕ) → Linked keys m s → Linked keys ra rb → Linked keys m (merged ra rb s)
  Linked-merged m s ra rb u v = elim (Bool-cases (s == ra)) [
    | inl e ↦
        let w : Linked keys m ra = subst (Linked keys m) ((==_iff s ra).0 e) u in
        rw e (Linked-min m ra rb w (Linked.chain w v))
    | inr e ↦ elim (Bool-cases (s == rb)) [
      | inl g ↦
          let w : Linked keys m rb = subst (Linked keys m) ((==_iff s rb).0 g) u in
          rw (e, g) (Linked-min m ra rb (Linked.chain w (Linked.turned v)) w)
      | inr g ↦ rw (e, g) u
    ]
  ]

  union-RootsLinked :
      (p : Parent) (k l : StatedKey)
      → IsDown p
      → In k keys
      → In l keys
      → Linked keys k.id l.id
      → RootsLinked p
      → RootsLinked (union p k.id l.id)
  union-RootsLinked p k l d mk ml w h m mm r u =
      let (ra, ua, ba) = Root-exists p k.id d in
      let (rb, ub, bb) = Root-exists p l.id d in
      let (s, us, bs) = Root-exists p m.id d in
      let joins = union-Root p k.id l.id ra rb d ua ub in
      subst (Linked keys m.id) (Root-unique (joins.1 m.id s us) u) (
        Linked-merged m.id s ra rb (h m mm s us)
          (Linked.chain (Linked.turned (h k mk ra ua)) (Linked.chain w (h l ml rb ub))))

  stated_first-States :
      (i : Identifier) (first : First) (held : ℕ)
      → All (λ e. States e.0 e.1) first
      → stated_first i first ≡ some held
      → States i held
  unfolding stated_first
  stated_first-States i [] held s h = cc
  stated_first-States i ((j, id) ∷ first) held s h = elim (Bool-cases (identifier_eq i j)) [
    | inl e ↦
        (let k = rw (e, stated_first) at h in
          subst (States i) (some-injective k)
            (subst (λ x. States x id) (sym ((identifier_eq_iff i j).0 e)) s.0))
    | inr e ↦ stated_first-States i first held s.1 (rw (e, stated_first) at h)
  ]

  -- What the loops keep.
  abbrev IsSound : First × Parent → Type 0
  IsSound s = IsDown s.1 × RootsLinked s.1 × All (λ e. States e.0 e.1) s.0

  join-IsSound :
      (k : StatedKey) (i : Identifier) (s : First × Parent)
      → In k keys
      → In i k.identifiers
      → joining i ≡ true
      → IsSound s
      → IsSound (join i k.id s)
  unfolding join
  join-IsSound k i (first, p) mk mi g s = elim (Option-cases (stated_first i first)) [
    | inl e ↦ rw (e, join) (s.0, s.1, ((k, mk, mi, refl), s.2))
    | inr (held, e) ↦
        let (l, ml, mj, same) = stated_first-States i first held s.2 e in
        let linked : Linked keys l.id k.id = Linked.shared ml mk mj mi g in
        rw (e, join)
          (subst (λ x. IsSound (first, union p x k.id)) (sym same)
            ((union-joins p l.id k.id s.0).1, union-RootsLinked p l k s.0 ml mk linked s.1, s.2))
  ]

  join_key-IsSound :
      (k : StatedKey) (is : List Identifier) (s : First × Parent)
      → In k keys
      → ((i : Identifier) → In i is → In i k.identifiers)
      → IsSound s
      → IsSound (join_key k.id is s)
  unfolding join_key
  join_key-IsSound k [] s mk m h = h
  join_key-IsSound k (i ∷ is) s mk m h = elim (Bool-cases (joining i)) [
    | inl e ↦ subst IsSound (sym (ap step e)) (
        join_key-IsSound k is (join i k.id s) mk (λ j n. m j (In.there n))
          (join-IsSound k i s mk (m i In.here) e h))
    | inr e ↦
        subst IsSound (sym (ap step e)) (join_key-IsSound k is s mk (λ j n. m j (In.there n)) h)
  ]
    where
      step : Bool → First × Parent
      step b = join_key k.id is (if b then join i k.id s else s)

  join_keys-IsSound :
      (ks : List StatedKey) (s : First × Parent)
      → ((k : StatedKey) → In k ks → In k keys)
      → IsSound s
      → IsSound (join_keys ks s)
  unfolding join_keys
  join_keys-IsSound [] s m h = h
  join_keys-IsSound (k ∷ ks) s m h =
      join_keys-IsSound ks (join_key k.id k.identifiers s) (λ l n. m l (In.there n))
        (join_key-IsSound k k.identifiers s (m k In.here) (λ i n. n) h)

  -- Before the loops, every key is its own parent.
  start_keeps : (ks : List StatedKey) (p : Parent) (x : ℕ) → p x ≡ x → start ks p x ≡ x
  unfolding start put
  start_keeps [] p x h = h
  start_keeps (k ∷ ks) p x h = start_keeps ks (put p k.id k.id) x own
    where
      own : put p k.id k.id x ≡ x
      own = ground (arith, h)

  start-own : (ks : List StatedKey) (p : Parent) (k : StatedKey) → In k ks → start ks p k.id ≡ k.id
  unfolding start
  start-own [] p k m = elim m [ ]
  start-own (l ∷ ks) p k In.here = start_keeps ks (put p k.id k.id) k.id (put-here p k.id k.id)
  start-own (l ∷ ks) p k (In.there m) = start-own ks (put p l.id l.id) k m

  joined-IsSound : IsSound (joined keys)
  joined-IsSound =
      join_keys-IsSound keys ([], start keys no_parent) (λ k m. m)
        (
          start-IsDown keys no_parent (λ x. omega arith),
          (λ k m r u.
              subst (Linked keys k.id) (Root-unique (Root.root (start-own keys no_parent k m)) u)
                Linked.alone),
          tt,
        )

  least :
      {x y r : ℕ}
      → IsDown (joined keys).1
      → Root (joined keys).1 x r
      → Same (joined keys).1 x y
      → r ≤ y
  least {x} {y} {r} d u (Same.same v w) =
      let (s, t, b) = Root-exists (joined keys).1 y d in
      at_or_below r s y (Root-unique u v ∙ Root-unique w t) b
    where
      at_or_below : (r s y : ℕ) → r ≡ s → s ≤ y → r ≤ y
      at_or_below r s y e b = omega (arith, e, b)

  roots-ids : (ks : List StatedKey) (p : Parent) → map (λ e. e.0) (roots ks p) ≡ map (λ k. k.id) ks
  unfolding roots
  roots-ids [] p = refl
  roots-ids (k ∷ ks) p = ap (λ ids. k.id ∷ ids) (roots-ids ks (find p k.id).0)

  -- The groups are those of the keys, in their order. Each key is given the id of a key
  -- that it is linked to, by a chain of keys of which each two neighbours share a joining identifier,
  -- and no key that it is linked to has a smaller id.
  pub of-least :
      (map (λ e. e.0) (of keys) ≡ map (λ k. k.id) keys)
      × All (λ e. Linked keys e.0 e.1 × ((y : ℕ) → Linked keys e.0 y → e.1 ≤ y)) (of keys)
  unfolding of
  of-least = (
    roots-ids keys (joined keys).1,
    All-mono
        (λ e f.
          let (k, m, same, u) = f in
          (
            subst (λ x. Linked keys x e.1) (sym same)
                (joined-IsSound.1 k m e.1 (subst (λ x. Root (joined keys).1 x e.1) same u)),
            λ y l. least joined-IsSound.0 u (Linked-Same keys l),
          ))
        (roots keys (joined keys).1)
        (roots-Root keys (joined keys).1 keys (joined keys).1 (λ k m. m) joined-IsSound.0
          joined-IsSound.0 (λ x r u. u)),
  )
