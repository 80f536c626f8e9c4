-- ===== src/Base/Sorted.antt =====
-- A sorted list without duplicates is determined by its members.
use mathlib.Core.Path.{◌≡◌, refl, sym, ap₂, ◌∙◌, subst}
use mathlib.Core.Logic.{◌⊎◌, ◌↔◌, inl, inr}
use mathlib.Core.Bool.{Bool, true}
use mathlib.Core.List.{List, [], ◌∷◌, ◌++◌}
use stonks.Base.Tests.{Bool-cases}
use stonks.Base.Lists.{All}
use stonks.Base.Order.{insert_sorted, stable_sort}
use stonks.Base.Any.{IsOrdered}
use stonks.Base.In.{In, All-In}

module _ {A : Type 0} where
  abbrev pub Distinct : List A → Type 0
  Distinct [] = Unit
  Distinct (x ∷ xs) = (In x xs → ⊥) × Distinct xs

  abbrev pub SameMembers : List A → List A → Type 0
  SameMembers xs ys = (x : A) → In x xs ↔ In x ys

  pub In-cons : {x y : A} {xs : List A} → In x (y ∷ xs) → (x ≡ y) ⊎ In x xs
  In-cons In.here = inl refl
  In-cons (In.there m) = inr m

  pub In-append : (x : A) (held : List A) (id : A) → In x (held ++ id ∷ []) → In x held ⊎ (x ≡ id)
  In-append x [] id m = elim (In-cons m) [ inl e ↦ inr e | inr n ↦ elim n [ ] ]
  In-append x (h ∷ held) id m = elim (In-cons m) [
    | inl e ↦ inl (subst (λ z. In z (h ∷ held)) (sym e) In.here)
    | inr n ↦ elim (In-append x held id n) [ inl k ↦ inl (In.there k) | inr e ↦ inr e ]
  ]

  pub append-In : (x : A) (held : List A) (id : A) → In x held ⊎ (x ≡ id) → In x (held ++ id ∷ [])
  append-In x [] id (inl m) = elim m [ ]
  append-In x [] id (inr e) = subst (λ z. In z (id ∷ [])) (sym e) In.here
  append-In x (h ∷ held) id (inl m) = elim (In-cons m) [
    | inl e ↦ subst (λ z. In z (h ∷ (held ++ id ∷ []))) (sym e) In.here
    | inr n ↦ In.there (append-In x held id (inl n))
  ]
  append-In x (h ∷ held) id (inr e) = In.there (append-In x held id (inr e))

  pub Distinct-append :
      (held : List A) (id : A) → Distinct held → (In id held → ⊥) → Distinct (held ++ id ∷ [])
  Distinct-append [] id d n = ((λ m. elim m [ ]), tt)
  Distinct-append (h ∷ held) id d n = (
    (λ m. elim (In-append h held id m) [
      | inl k ↦ d.0 k
      | inr e ↦ n (subst (λ z. In z (h ∷ held)) e In.here)
    ]),
    Distinct-append held id d.1 (λ m. n (In.there m)),
  )

  module _ (le : A → A → Bool) where
    insert-In : (a : A) (bs : List A) (x : A) → In x (insert_sorted le a bs) → (x ≡ a) ⊎ In x bs
    unfolding insert_sorted
    insert-In a [] x m = In-cons m
    insert-In a (b ∷ bs) x m = elim (Bool-cases (le a b)) [
      | inl e ↦ In-cons (rw (e, insert_sorted) at m)
      | inr e ↦ elim (In-cons (rw (e, insert_sorted) at m)) [
        | inl f ↦ inr (subst (λ z. In z (b ∷ bs)) (sym f) In.here)
        | inr n ↦ elim (insert-In a bs x n) [ inl f ↦ inl f | inr k ↦ inr (In.there k) ]
      ]
    ]

    In-insert : (a : A) (bs : List A) (x : A) → (x ≡ a) ⊎ In x bs → In x (insert_sorted le a bs)
    unfolding insert_sorted
    In-insert a [] x (inl f) = subst (λ z. In z (a ∷ [])) (sym f) In.here
    In-insert a [] x (inr m) = In.there m
    In-insert a (b ∷ bs) x h = elim (Bool-cases (le a b)) [
      | inl e ↦
          rw (e, insert_sorted)
            (elim h [ inl f ↦ subst (λ z. In z (a ∷ b ∷ bs)) (sym f) In.here | inr m ↦ In.there m ])
      | inr e ↦
          rw (e, insert_sorted)
            (elim h [
              | inl f ↦ In.there (In-insert a bs x (inl f))
              | inr m ↦ elim (In-cons m) [
                | inl f ↦ subst (λ z. In z (b ∷ insert_sorted le a bs)) (sym f) In.here
                | inr n ↦ In.there (In-insert a bs x (inr n))
              ]
            ])
    ]

    insert-Distinct :
        (a : A) (bs : List A) → (In a bs → ⊥) → Distinct bs → Distinct (insert_sorted le a bs)
    unfolding insert_sorted
    insert-Distinct a [] n d = ((λ m. n m), tt)
    insert-Distinct a (b ∷ bs) n d = elim (Bool-cases (le a b)) [
      | inl e ↦ rw (e, insert_sorted) (n, d)
      | inr e ↦
          rw (e, insert_sorted)
            (
              (λ m. elim (insert-In a bs b m) [
                | inl f ↦ n (subst (λ z. In z (b ∷ bs)) f In.here)
                | inr k ↦ d.0 k
              ]),
              insert-Distinct a bs (λ m. n (In.there m)) d.1,
            )
    ]

    pub sort-SameMembers : (xs : List A) → SameMembers (stable_sort le xs) xs
    unfolding stable_sort
    sort-SameMembers [] x = (λ m. m, λ m. m)
    sort-SameMembers (a ∷ xs) x = (
      λ m. elim (insert-In a (stable_sort le xs) x m) [
        | inl f ↦ subst (λ z. In z (a ∷ xs)) (sym f) In.here
        | inr n ↦ In.there ((sort-SameMembers xs x).0 n)
      ],
      λ m.
          In-insert a (stable_sort le xs) x
            (elim (In-cons m) [ inl f ↦ inl f | inr n ↦ inr ((sort-SameMembers xs x).1 n) ]),
    )

    pub sort-Distinct : (xs : List A) → Distinct xs → Distinct (stable_sort le xs)
    unfolding stable_sort
    sort-Distinct [] d = tt
    sort-Distinct (a ∷ xs) d =
        insert-Distinct a (stable_sort le xs) (λ m. d.0 ((sort-SameMembers xs a).0 m))
          (sort-Distinct xs d.1)

    module _ (antisym : (a b : A) → le a b ≡ true → le b a ≡ true → a ≡ b) where
      one_head :
          (x y : A) (xs ys : List A)
          → All (λ b. le x b ≡ true) xs
          → All (λ b. le y b ≡ true) ys
          → In x (y ∷ ys)
          → In y (x ∷ xs)
          → x ≡ y
      one_head x y xs ys a b m n = elim (In-cons m) [
        | inl e ↦ e
        | inr m ↦ elim (In-cons n) [
          | inl e ↦ sym e
          | inr n ↦ antisym x y (All-In _ a n) (All-In _ b m)
        ]
      ]

      tail-In :
          (x y : A) (xs ys : List A)
          → x ≡ y
          → (In x xs → ⊥)
          → ((z : A) → In z (x ∷ xs) → In z (y ∷ ys))
          → (z : A) → In z xs
          → In z ys
      tail-In x y xs ys e n to z m = elim (In-cons (to z (In.there m))) [
        | inl f ↦ absurd (n (subst (λ w. In w xs) (f ∙ sym e) m))
        | inr k ↦ k
      ]

      pub sorted_unique :
          (xs ys : List A)
          → IsOrdered le xs
          → IsOrdered le ys
          → Distinct xs
          → Distinct ys
          → SameMembers xs ys
          → xs ≡ ys
      sorted_unique [] [] a b c d h = refl
      sorted_unique [] (y ∷ ys) a b c d h = absurd (none_in ((h y).1 In.here))
        where
          none_in : In y [] → ⊥
          none_in m = elim m [ ]
      sorted_unique (x ∷ xs) [] a b c d h = absurd (none_in ((h x).0 In.here))
        where
          none_in : In x [] → ⊥
          none_in m = elim m [ ]
      sorted_unique (x ∷ xs) (y ∷ ys) a b c d h =
          let e = one_head x y xs ys a.0 b.0 ((h x).0 In.here) ((h y).1 In.here) in
          ap₂ (λ z zs. z ∷ zs) e
            (sorted_unique xs ys a.1 b.1 c.1 d.1 (λ z. (
              tail-In x y xs ys e c.0 (λ w. (h w).0) z,
              tail-In y x ys xs (sym e) d.0 (λ w. (h w).1) z,
            )))
