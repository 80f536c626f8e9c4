-- ===== src/Identity/Group/Components.antt =====
-- The components of keys under shared joining identifiers, and the last loop of `of`.
use stonks.Base.{ℕ, ◌≤◌, true, Option, some, List, [], ◌∷◌, ◌≡◌, refl, subst, arith, All}
use stonks.Base.In.{In, All-In}
use stonks.Types.Identifier.{Identifier, joining}
use stonks.Identity.Group.{Parent, StatedKey, First, put, find, start, no_parent, join_keys, roots}
use stonks.Identity.Group.Roots.{IsDown, Root, Root-unique, Root-exists}
use stonks.Identity.Group.Halve.{find-IsFound}
use stonks.Identity.Group.Joined.{Same, Same-flip, Found, join_keys-Found}

-- Two keys share a joining identifier, or a chain of keys does.
pub data Linked (keys : List StatedKey) : ℕ → ℕ → Type 0 where
  alone : {x : ℕ} → Linked keys x x
  shared :
      {k l : StatedKey} {i : Identifier}
      → In k keys
      → In l keys
      → In i k.identifiers
      → In i l.identifiers
      → joining i ≡ true
      → Linked keys k.id l.id
  chain : {x y z : ℕ} → Linked keys x y → Linked keys y z → Linked keys x z
  turned : {x y : ℕ} → Linked keys x y → Linked keys y x

pub start-IsDown : (ks : List StatedKey) (p : Parent) → IsDown p → IsDown (start ks p)
unfolding start put
start-IsDown [] p d = d
start-IsDown (k ∷ ks) p d = start-IsDown ks (put p k.id k.id) (λ x. set x)
  where
    set : (x : ℕ) → put p k.id k.id x ≤ x
    set x = ground (arith, d x)

Same-chain : {p : Parent} {x y z : ℕ} → Same p x y → Same p y z → Same p x z
Same-chain {p} {x} (Same.same u v) (Same.same w t) =
    Same.same (subst (Root p x) (Root-unique v w) u) t

module _ (keys : List StatedKey) where
  abbrev pub joined : First × Parent
  joined = join_keys keys ([], start keys no_parent)

  pub joined-Found :
      IsDown joined.1
      × All (λ k. All (λ i. joining i ≡ true → Found i k.id joined) k.identifiers) keys
  joined-Found =
      let all =
        join_keys-Found keys ([], start keys no_parent)
          (start-IsDown keys no_parent (λ x. omega arith)) in
      (all.0, all.1)

  one_held : {o : Option ℕ} {a b : ℕ} → o ≡ some a → o ≡ some b → a ≡ b
  one_held g h = cc (g, h)

  -- Linked keys have one root.
  pub Linked-Same : {x y : ℕ} → Linked keys x y → Same joined.1 x y
  Linked-Same {x} Linked.alone =
      let (r, u, b) = Root-exists joined.1 x joined-Found.0 in Same.same u u
  Linked-Same (Linked.shared {k} {l} {i} mk ml hk hl j) =
      let a = All-In _ (All-In _ joined-Found.1 mk) hk j in
      let b = All-In _ (All-In _ joined-Found.1 ml) hl j in
      Same-chain a.2 (Same-flip (subst (Same joined.1 l.id) (one_held b.1 a.1) b.2))
  Linked-Same (Linked.chain a b) = Same-chain (Linked-Same a) (Linked-Same b)
  Linked-Same (Linked.turned a) = Same-flip (Linked-Same a)

  -- The last loop gives each key its root.
  pub roots-Root :
      (p : Parent) (ks : List StatedKey) (q : Parent)
      → ((k : StatedKey) → In k ks → In k keys)
      → IsDown p
      → IsDown q
      → ((x r : ℕ) → Root p x r → Root q x r)
      → All (λ e. (k : StatedKey) × In k keys × (e.0 ≡ k.id) × Root p e.0 e.1) (roots ks q)
  unfolding roots
  roots-Root p [] q m d e h = tt
  roots-Root p (k ∷ ks) q m d e h =
      let f = find-IsFound q k.id e in
      let (r, u, b) = Root-exists p k.id d in
      (
        (k, m k In.here, refl, subst (Root p k.id) (Root-unique (h k.id r u) f.0) u),
        roots-Root p ks (find q k.id).0 (λ l n. m l (In.there n)) d f.2
            (λ x s v. f.3 x s (h x s v)),
      )
