-- ===== src/Base/Any.antt =====
-- `any` through the list functions, and the order that a stable sort leaves.
use mathlib.Core.Path.{◌≡◌, refl, ap, ◌∙◌}
use mathlib.Core.Logic.{inl, inr}
use mathlib.Core.Bool.{Bool, true, false, ◌&&◌, ◌||◌}
use mathlib.Core.List.{List, [], ◌∷◌, map}
use native.Mathlib.Omega.{arith}
use stonks.Base.Tests.{Bool-cases}
use stonks.Base.Lists.{any, any-append, flat_map, filter_b, All, All-mono}
use stonks.Base.Order.{insert_sorted, stable_sort}

module _ {ℓ} {A : Type ℓ} where
  pub any-ext : (f g : A → Bool) → ((a : A) → f a ≡ g a) → (xs : List A) → any f xs ≡ any g xs
  any-ext f g h [] = refl
  any-ext f g h (x ∷ xs) = ground (arith, h x, any-ext f g h xs)

  pub any-filter_b :
      (f p : A → Bool) (xs : List A) → any f (filter_b p xs) ≡ any (λ x. p x && f x) xs
  any-filter_b f p [] = refl
  any-filter_b f p (x ∷ xs) = ground (arith, any-filter_b f p xs)

  -- A test that has one value on the elements.
  pub any-and_of_All :
      (f g : A → Bool) (k : Bool) (xs : List A)
      → All (λ x. g x ≡ k) xs
      → any (λ x. f x && g x) xs ≡ (any f xs && k)
  any-and_of_All f g k [] h = refl
  any-and_of_All f g k (x ∷ xs) h = ground (arith, any-and_of_All f g k xs h.1)

  pub any-insert_sorted :
      (f : A → Bool) (le : A → A → Bool) (a : A) (bs : List A)
      → any f (insert_sorted le a bs) ≡ (f a || any f bs)
  unfolding insert_sorted
  any-insert_sorted f le a [] = refl
  any-insert_sorted f le a (b ∷ bs) = ground (arith, any-insert_sorted f le a bs)

  pub any-stable_sort :
      (f : A → Bool) (le : A → A → Bool) (xs : List A) → any f (stable_sort le xs) ≡ any f xs
  unfolding stable_sort
  any-stable_sort f le [] = refl
  any-stable_sort f le (x ∷ xs) =
      any-insert_sorted f le x (stable_sort le xs) ∙ ap (◌||◌ (f x)) (any-stable_sort f le xs)

  -- Each element may precede every later one.
  abbrev pub IsOrdered : (A → A → Bool) → List A → Type 0
  IsOrdered le [] = Unit
  IsOrdered le (x ∷ xs) = All (λ y. le x y ≡ true) xs × IsOrdered le xs

module _ {ℓ κ} {A : Type ℓ} {B : Type κ} where
  pub any-map : (f : B → Bool) (g : A → B) (xs : List A) → any f (map g xs) ≡ any (λ x. f (g x)) xs
  any-map f g [] = refl
  any-map f g (x ∷ xs) = ground (arith, any-map f g xs)

  pub any-flat_map :
      (f : B → Bool) (g : A → List B) (xs : List A)
      → any f (flat_map g xs) ≡ any (λ x. any f (g x)) xs
  any-flat_map f g [] = refl
  any-flat_map f g (x ∷ xs) =
      any-append f (g x) (flat_map g xs) ∙ ap (◌||◌ (any f (g x))) (any-flat_map f g xs)

module _ {ℓ} {A : Type ℓ} (le : A → A → Bool) (total : (a b : A) → le a b ≡ false → le b a ≡ true)
    (trans : (a b c : A) → le a b ≡ true → le b c ≡ true → le a c ≡ true) where
  insert-below :
      (z a : A) (bs : List A)
      → le z a ≡ true
      → All (λ y. le z y ≡ true) bs
      → All (λ y. le z y ≡ true) (insert_sorted le a bs)
  unfolding insert_sorted
  insert-below z a [] h s = (h, tt)
  insert-below z a (b ∷ bs) h s = elim (Bool-cases (le a b)) [
    | inl first ↦ rw (first, insert_sorted) (h, s)
    | inr later ↦ rw (later, insert_sorted) (s.0, insert-below z a bs h s.1)
  ]

  insert-IsOrdered : (a : A) (bs : List A) → IsOrdered le bs → IsOrdered le (insert_sorted le a bs)
  unfolding insert_sorted
  insert-IsOrdered a [] s = (tt, tt)
  insert-IsOrdered a (b ∷ bs) s = elim (Bool-cases (le a b)) [
    | inl first ↦
        rw (first, insert_sorted) ((first, All-mono (λ y h. trans a b y first h) bs s.0), s)
    | inr later ↦
        rw (later, insert_sorted)
          (insert-below b a bs (total a b later) s.0, insert-IsOrdered a bs s.1)
  ]

  pub stable_sort-IsOrdered : (xs : List A) → IsOrdered le (stable_sort le xs)
  unfolding stable_sort
  stable_sort-IsOrdered [] = tt
  stable_sort-IsOrdered (x ∷ xs) = insert-IsOrdered x (stable_sort le xs) (stable_sort-IsOrdered xs)

module _ {ℓ κ} {A : Type ℓ} (P : A → Type κ) (le : A → A → Bool) where
  All-insert_sorted : (a : A) (bs : List A) → P a → All P bs → All P (insert_sorted le a bs)
  unfolding insert_sorted
  All-insert_sorted a [] h s = (h, tt)
  All-insert_sorted a (b ∷ bs) h s = elim (Bool-cases (le a b)) [
    | inl first ↦ rw (first, insert_sorted) (h, s)
    | inr later ↦ rw (later, insert_sorted) (s.0, All-insert_sorted a bs h s.1)
  ]

  pub All-stable_sort : (xs : List A) → All P xs → All P (stable_sort le xs)
  unfolding stable_sort
  All-stable_sort [] h = tt
  All-stable_sort (x ∷ xs) h = All-insert_sorted x (stable_sort le xs) h.0 (All-stable_sort xs h.1)
