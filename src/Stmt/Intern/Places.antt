-- ===== src/Stmt/Intern/Places.antt =====
-- What `intern` leaves: the key is held at its place, and every key held stays at its place.
use Prim.Native.String.{String}
use text.Mathlib.Text.{◌==◌ as str_eq}
use stonks.Base.{
  some-injective, none_some, ℕ, zero, suc, ◌+◌, Option, none, some, List, [], ◌∷◌, ◌++◌, map,
  length, get_elem?, ◌≡◌, refl, sym, ap, ◌∙◌, subst, arith, inl, inr, Bool-cases, clash,
}
use stonks.Base.In.{In}
use stonks.Base.Sorted.{Distinct, In-cons, Distinct-append}
use stonks.Identity.Group.Joined.{str_eq_iff}
use stonks.Stmt.{Key}
use stonks.Stmt.Intern.{canon, held_at, intern}

-- The keys held have encodings of their own.
abbrev pub OneCanon : List Key → Type 0
OneCanon order = Distinct (map canon order)

-- The keys held stay where they are.
abbrev pub Extends : List Key → List Key → Type 0
Extends order next = (i : ℕ) (k : Key) → get_elem? order i ≡ some k → get_elem? next i ≡ some k

-- A key of the encoding is held at the place.
abbrev pub HeldAs : List Key → ℕ → Key → Type 0
HeldAs order i k = (l : Key) × (get_elem? order i ≡ some l) × (canon l ≡ canon k)

Extends-append : (order : List Key) (k : Key) → Extends order (order ++ k ∷ [])
Extends-append [] k i l e = absurd (none_some refl e)
Extends-append (h ∷ order) k zero l e = e
Extends-append (h ∷ order) k (suc i) l e = Extends-append order k i l e

last_place : (order : List Key) (k : Key) → get_elem? (order ++ k ∷ []) (length order) ≡ some k
last_place [] k = refl
last_place (h ∷ order) k = last_place order k

held_at-some :
    (c : String) (order : List Key) (i j : ℕ)
    → held_at c i order ≡ some j
    → (m : ℕ) × (j ≡ i + m) × ((l : Key) × (get_elem? order m ≡ some l) × (canon l ≡ c))
unfolding held_at
held_at-some c [] i j e = absurd (none_some refl e)
held_at-some c (k ∷ order) i j e = elim (Bool-cases (str_eq (canon k) c)) [
  | inl f ↦ (0, here (rw f at e), (k, refl, (str_eq_iff (canon k) c).0 f))
  | inr f ↦
      let (m, g, held) = held_at-some c order (suc i) j (rw f at e) in (suc m, there m g, held)
]
  where
    here : some i ≡ some j → j ≡ i + 0
    here e = sym (some-injective e) ∙ omega arith

    there : (m : ℕ) → j ≡ suc i + m → j ≡ i + suc m
    there m g = omega (arith, g)

held_at-none :
    (c : String) (order : List Key) (i : ℕ) → held_at c i order ≡ none → In c (map canon order) → ⊥
unfolding held_at
held_at-none c [] i e m = elim m [ ]
held_at-none c (k ∷ order) i e m = elim (Bool-cases (str_eq (canon k) c)) [
  | inl f ↦ some_none (rw f at e)
  | inr f ↦ elim (In-cons m) [
    | inl g ↦ clash ((str_eq_iff (canon k) c).1 (sym g)) f
    | inr n ↦ held_at-none c order (suc i) (rw f at e) n
  ]
]
  where
    some_none : some i ≡ none → ⊥
    some_none e = absurd (cc e)

map-append :
    (order : List Key) (k : Key) → map canon (order ++ k ∷ []) ≡ map canon order ++ canon k ∷ []
map-append [] k = refl
map-append (h ∷ order) k = ap (λ cs. canon h ∷ cs) (map-append order k)

-- The keys that `intern` leaves hold the key at its place, and those held before at theirs.
pub intern-HeldAs :
    (k : Key) (order : List Key)
    → OneCanon order
    → let (next, i) = intern k order in OneCanon next × Extends order next × HeldAs next i k
unfolding intern
intern-HeldAs k order one = go (held_at (canon k) 0 order) refl
  where
    Left : List Key × ℕ → Type 0
    Left (next, i) = OneCanon next × Extends order next × HeldAs next i k

    plain : {i m : ℕ} → i ≡ 0 + m → m ≡ i
    plain g = omega (arith, g)

    go :
        (o : Option ℕ)
        → held_at (canon k) 0 order ≡ o
        → Left (elim o [ some i ↦ (order, i) | none ↦ (order ++ k ∷ [], length order) ])
    go (some i) e =
        let (m, g, held) = held_at-some (canon k) order 0 i e in
        (one, (λ j l f. f), subst (λ n. HeldAs order n k) (plain g) held)
    go none e = (
      subst Distinct (sym (map-append order k))
          (Distinct-append (map canon order) (canon k) one (held_at-none (canon k) order 0 e)),
      Extends-append order k,
      (k, last_place order k, refl),
    )
