-- ===== src/Identity/Resolve/Gather/Every.antt =====
-- Every claim is in a gathered set.
use stonks.Base.{
  ℕ, suc, ◌≤◌, true, false, not, ◌&&◌, Option, none, some, List, [], ◌∷◌, ◌++◌, any, flat_map, ◌≡◌,
  refl, sym, ap, clash, ◌∙◌, subst, arith, Bool-cases, Option-cases, inl, inr, ◌⊎◌, ◌==◌, ==_iff,
}
use stonks.Base.In.{In}
use stonks.Identity.Resolve.Claim.{IdentityClaim, Resolution, is_some}
use stonks.Identity.Resolve.Choose.{ConsistentClaims, all_claims, rejects}
use stonks.Identity.Resolve.Gather.{
  add_run, runs_of, better_claim, best_of, join_sets, head_sets, gather_runs,
  gather_consistent_claims, same_fetch,
}

abbrev pub claims_of : List ConsistentClaims → List IdentityClaim
claims_of = flat_map all_claims

no_element : {A : Type 0} {x : A} → In x [] → ⊥
no_element m = elim m [ ]

In-left : {A : Type 0} {x : A} {xs : List A} (ys : List A) → In x xs → In x (xs ++ ys)
In-left ys In.here = In.here
In-left ys (In.there m) = In.there (In-left ys m)

In-right : {A : Type 0} {x : A} (xs : List A) {ys : List A} → In x ys → In x (xs ++ ys)
In-right [] m = m
In-right (x ∷ xs) m = In.there (In-right xs m)

In-split : {A : Type 0} {x : A} (xs ys : List A) → In x (xs ++ ys) → In x xs ⊎ In x ys
In-split [] ys m = inr m
In-split (x ∷ xs) ys In.here = inl In.here
In-split (x ∷ xs) ys (In.there m) = elim (In-split xs ys m) [
  | inl a ↦ inl (In.there a)
  | inr b ↦ inr b
]

In-last : {A : Type 0} (xs : List A) (y : A) (ys : List A) → In y ((xs ++ y ∷ []) ++ ys)
In-last [] y ys = In.here
In-last (x ∷ xs) y ys = In.there (In-last xs y ys)

In-after :
    {A : Type 0} (xs : List A) {ys zs : List A}
    → ((x : A) → In x ys → In x zs)
    → (x : A) → In x (xs ++ ys)
    → In x (xs ++ zs)
In-after xs {ys} {zs} f x m = elim (In-split xs ys m) [
  | inl h ↦ In-left zs h
  | inr t ↦ In-right xs (f x t)
]

In-claims-left :
    {c : IdentityClaim} (xs ys : List ConsistentClaims)
    → In c (claims_of xs)
    → In c (claims_of (xs ++ ys))
In-claims-left {c} [] ys m = absurd (no_element m)
In-claims-left {c} (a ∷ xs) ys m = elim (In-split (all_claims a) (claims_of xs) m) [
  | inl h ↦ In-left (claims_of (xs ++ ys)) h
  | inr t ↦ In-right (all_claims a) (In-claims-left xs ys t)
]

In-claims-right :
    {c : IdentityClaim} (xs ys : List ConsistentClaims)
    → In c (claims_of ys)
    → In c (claims_of (xs ++ ys))
In-claims-right [] ys m = m
In-claims-right (a ∷ xs) ys m = In-right (all_claims a) (In-claims-right xs ys m)

-- The claim at a place of a run whose first claim has the place `n`.
abbrev At : ℕ → ℕ → List IdentityClaim → IdentityClaim → Type 0
At n m [] c = ⊥
At n m (d ∷ run) c = ((n ≡ m) × (d ≡ c)) ⊎ At (suc n) m run c

At-above : (n m : ℕ) (run : List IdentityClaim) (c : IdentityClaim) → At n m run c → n ≤ m
At-above n m [] c h = absurd h
At-above n m (d ∷ run) c (inl (e, same)) = omega (arith, e)
At-above n m (d ∷ run) c (inr h) = omega (arith, At-above (suc n) m run c h)

At-one :
    (n m : ℕ) (run : List IdentityClaim) (c d : IdentityClaim) → At n m run c → At n m run d → c ≡ d
At-one n m [] c d h g = absurd h
At-one n m (b ∷ run) c d (inl h) (inl g) = sym h.1 ∙ g.1
At-one n m (b ∷ run) c d (inl h) (inr g) = absurd (omega (arith, h.0, At-above (suc n) m run d g))
At-one n m (b ∷ run) c d (inr h) (inl g) = absurd (omega (arith, g.0, At-above (suc n) m run c h))
At-one n m (b ∷ run) c d (inr h) (inr g) = At-one (suc n) m run c d h g

-- The member found stands at its place, or was there before.
best_of-At :
    (res : Resolution) (a : ConsistentClaims) (n m : ℕ) (run : List IdentityClaim)
    (best : Option (ℕ × IdentityClaim)) (c : IdentityClaim)
    → best_of res a n run best ≡ some (m, c)
    → (best ≡ some (m, c)) ⊎ At n m run c
unfolding best_of
best_of-At res a n m [] best c e = inl e
best_of-At res a n m (d ∷ run) best c e =
    elim (Bool-cases
      (not (is_some (rejects d (all_claims a) res.mics)) && better_claim res d best)) [
        | inl t ↦ elim (best_of-At res a (suc n) m run (some (n, d)) c (rw t at e)) [
          | inl same ↦ inr (inl (ap place same, ap claim same))
          | inr h ↦ inr (inr h)
        ]
        | inr t ↦ elim (best_of-At res a (suc n) m run best c (rw t at e)) [
          | inl same ↦ inl same
          | inr h ↦ inr (inr h)
        ]
      ]
  where
    place : Option (ℕ × IdentityClaim) → ℕ
    place none = m
    place (some (k, b)) = k

    claim : Option (ℕ × IdentityClaim) → IdentityClaim
    claim none = c
    claim (some (k, b)) = b

placed :
    (res : Resolution) (a : ConsistentClaims) (n m : ℕ) (run : List IdentityClaim)
    (c d : IdentityClaim)
    → best_of res a 0 run none ≡ some (n, d)
    → (n == m) ≡ true
    → At 0 m run c
    → d ≡ c
placed res a n m run c d e same h = elim (best_of-At res a 0 n run none d e) [
  | inl before ↦ absurd (cc before)
  | inr g ↦ At-one 0 m run d c (subst (λ k. At 0 k run d) ((==_iff n m).0 same) g) h
]

-- The sets keep their claims, and the claim of each place that has joined one is in it.
abbrev Joins : List IdentityClaim → List ConsistentClaims → List ConsistentClaims × List ℕ → Type 0
Joins run sets (joined_sets, joined) =
    ((c : IdentityClaim) → In c (claims_of sets) → In c (claims_of joined_sets))
    × ((m : ℕ) (c : IdentityClaim)
        → any (λ k. k == m) joined ≡ true
        → At 0 m run c
        → In c (claims_of joined_sets))

join_sets-Joins :
    (res : Resolution) (run : List IdentityClaim) (sets : List ConsistentClaims)
    → Joins run sets (join_sets res run sets)
unfolding join_sets
join_sets-Joins res run [] = (λ c m. m, λ m c e h. absurd (ground (arith, e)))
join_sets-Joins res run (a ∷ sets) =
    let (keeps, joins) = join_sets-Joins res run sets in
    elim (Option-cases (best_of res a 0 run none)) [
      | inl e ↦
          rw (e, join_sets)
            (In-after (all_claims a) keeps, λ m c k h. In-right (all_claims a) (joins m c k h))
      | inr ((n, d), e) ↦
          rw (e, join_sets)
            (
              λ c i. elim (In-split (all_claims a) (claims_of sets) i) [
                | inl h ↦ In-left _ (In-left (d ∷ []) h)
                | inr t ↦ In-right (all_claims a ++ d ∷ []) (keeps c t)
              ],
              λ m c k h. elim (Bool-cases (n == m)) [
                | inl same ↦
                    subst
                      (λ x. In x ((all_claims a ++ d ∷ []) ++ claims_of (join_sets res run sets).0))
                      (placed res a n m run c d e same h)
                      (In-last (all_claims a) d (claims_of (join_sets res run sets).0))
                | inr other ↦
                    In-right (all_claims a ++ d ∷ []) (joins m c (ground (arith, k, other)) h)
              ],
            )
    ]

head_sets-In :
    (joined : List ℕ) (n m : ℕ) (run : List IdentityClaim) (c : IdentityClaim)
    → any (λ k. k == m) joined ≡ false
    → At n m run c
    → In c (claims_of (head_sets joined n run))
unfolding head_sets
head_sets-In joined n m [] c e h = absurd h
head_sets-In joined n m (d ∷ run) c e (inl g) = elim (Bool-cases (any (λ k. k == n) joined)) [
  | inl j ↦ absurd (clash j (subst (λ x. any (λ k. k == x) joined ≡ false) (sym g.0) e))
  | inr j ↦
      rw (j, head_sets)
        (subst (λ x. In x (d ∷ claims_of (head_sets joined (suc n) run))) g.1 In.here)
]
head_sets-In joined n m (d ∷ run) c e (inr g) = elim (Bool-cases (any (λ k. k == n) joined)) [
  | inl j ↦ rw (j, head_sets) (head_sets-In joined (suc n) m run c e g)
  | inr j ↦ rw (j, head_sets) (In.there (head_sets-In joined (suc n) m run c e g))
]

In-cons : {A : Type 0} {x y : A} {ys : List A} → In x (y ∷ ys) → (x ≡ y) ⊎ In x ys
In-cons In.here = inl refl
In-cons (In.there m) = inr m

At-of_In :
    {c : IdentityClaim} (n : ℕ) (run : List IdentityClaim) → In c run → (m : ℕ) × At n m run c
At-of_In n [] h = elim h [ ]
At-of_In n (d ∷ run) In.here = (n, inl (refl, refl))
At-of_In n (d ∷ run) (In.there h) = let (m, g) = At-of_In (suc n) run h in (m, inr g)

-- A claim of the run is in a set that takes it as a member, or heads a new one.
run-In :
    (res : Resolution) (run : List IdentityClaim) (out : List ConsistentClaims) (c : IdentityClaim)
    → In c run
    → In c (claims_of ((join_sets res run out).0 ++ head_sets (join_sets res run out).1 0 run))
run-In res run out c h =
    let (m, at) = At-of_In 0 run h in
    let sets = (join_sets res run out).0 in
    let heads = head_sets (join_sets res run out).1 0 run in
    elim (Bool-cases (any (λ k. k == m) (join_sets res run out).1)) [
      | inl j ↦ In-claims-left sets heads ((join_sets-Joins res run out).1 m c j at)
      | inr j ↦ In-claims-right sets heads (head_sets-In (join_sets res run out).1 0 m run c j at)
    ]

abbrev Gathers : Resolution → List (List IdentityClaim) → List ConsistentClaims → Type 0
Gathers res runs out =
    ((c : IdentityClaim) → In c (claims_of out) → In c (claims_of (gather_runs res runs out)))
    × ((run : List IdentityClaim) (c : IdentityClaim)
        → In run runs
        → In c run
        → In c (claims_of (gather_runs res runs out)))

gather_runs-Gathers :
    (res : Resolution) (runs : List (List IdentityClaim)) (out : List ConsistentClaims)
    → Gathers res runs out
unfolding gather_runs
gather_runs-Gathers res [] out = (λ c h. h, λ run c h. absurd (no_element h))
gather_runs-Gathers res (run ∷ runs) out =
    let (keeps, joins) = join_sets-Joins res run out in
    let sets = (join_sets res run out).0 in
    let joined = (join_sets res run out).1 in
    let (later, gathers) = gather_runs-Gathers res runs (sets ++ head_sets joined 0 run) in
    (
      λ c h. later c (In-claims-left sets (head_sets joined 0 run) (keeps c h)),
      λ other c g h. elim (In-cons g) [
        | inl same ↦ later c (run-In res run out c (subst (In c) same h))
        | inr g' ↦ gathers other c g' h
      ],
    )

-- Some run holds the claim.
abbrev InRun : IdentityClaim → List (List IdentityClaim) → Type 0
InRun c runs = (run : List IdentityClaim) × In run runs × In c run

add_run-first : (c : IdentityClaim) (runs : List (List IdentityClaim)) → InRun c (add_run c runs)
unfolding add_run
add_run-first c [] = (c ∷ [], In.here, In.here)
add_run-first c ([] ∷ runs) = (c ∷ [], In.here, In.here)
add_run-first c ((d ∷ ds) ∷ runs) = elim (Bool-cases (same_fetch c d)) [
  | inl e ↦ rw (e, add_run) (c ∷ d ∷ ds, In.here, In.here)
  | inr e ↦ rw (e, add_run) (c ∷ [], In.here, In.here)
]

add_run-later :
    (c x : IdentityClaim) (run : List IdentityClaim) (runs : List (List IdentityClaim))
    → In run runs
    → In x run
    → InRun x (add_run c runs)
unfolding add_run
add_run-later c x run [] g h = elim g [ ]
add_run-later c x run ([] ∷ runs) g h = elim (In-cons g) [
  | inl same ↦ absurd (no_element (subst (In x) same h))
  | inr later ↦ (run, In.there later, h)
]
add_run-later c x run ((d ∷ ds) ∷ runs) g h = elim (Bool-cases (same_fetch c d)) [
  | inr e ↦ rw (e, add_run) (run, In.there g, h)
  | inl e ↦
      rw (e, add_run)
        (elim (In-cons g) [
          | inl same ↦ (c ∷ d ∷ ds, In.here, In.there (subst (In x) same h))
          | inr later ↦ (run, In.there later, h)
        ])
]

runs_of-In : (cs : List IdentityClaim) (c : IdentityClaim) → In c cs → InRun c (runs_of cs)
unfolding runs_of
runs_of-In [] c h = elim h [ ]
runs_of-In (d ∷ cs) c h = elim (In-cons h) [
  | inl same ↦
      subst (λ x. InRun x (add_run d (runs_of cs))) (sym same) (add_run-first d (runs_of cs))
  | inr later ↦ let (run, g, k) = runs_of-In cs c later in add_run-later d c run (runs_of cs) g k
]

-- Every claim that is given is in one of the sets that are gathered.
pub gather-Every :
    (res : Resolution) (cs : List IdentityClaim) (c : IdentityClaim)
    → In c cs
    → In c (claims_of (gather_consistent_claims res cs))
unfolding gather_consistent_claims
gather-Every res cs c h =
    let (run, g, k) = runs_of-In cs c h in (gather_runs-Gathers res (runs_of cs) []).1 run c g k
