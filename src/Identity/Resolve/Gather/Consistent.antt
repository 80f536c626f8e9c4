-- ===== src/Identity/Resolve/Gather/Consistent.antt =====
-- The sets of consistent claims hold claims that agree, and every claim is in one of them.
use stonks.Base.{
  ℕ, suc, Bool, true, not, ◌&&◌, Option, none, some, List, [], ◌∷◌, ◌++◌, any, ◌≡◌, refl, ap, subst,
  arith, All, All-append, Bool-cases, Option-cases, inl, inr, ◌==◌,
}
use stonks.Identity.Resolve.Claim.{IdentityClaim, Resolution, is_some}
use stonks.Identity.Resolve.Choose.{ConsistentClaims, all_claims, rejects}
use stonks.Identity.Resolve.Gather.{
  runs_of, better_claim, best_of, join_sets, head_sets, gather_runs, gather_consistent_claims,
}

-- Each claim is rejected by none of those before it.
abbrev pub AcceptedAfter : Resolution → List IdentityClaim → List IdentityClaim → Type 0
AcceptedAfter res above [] = Unit
AcceptedAfter res above (c ∷ cs) =
    (rejects c above res.mics ≡ none) × AcceptedAfter res (above ++ c ∷ []) cs

-- Each member of the set is rejected by neither the head nor the members before it.
abbrev pub IsConsistent : Resolution → ConsistentClaims → Type 0
IsConsistent res a = AcceptedAfter res (a.head ∷ []) a.rest

append_one : {A : Type 0} (xs : List A) (y : A) (ys : List A) → xs ++ y ∷ ys ≡ (xs ++ y ∷ []) ++ ys
append_one [] y ys = refl
append_one (x ∷ xs) y ys = ap (◌∷◌ x) (append_one xs y ys)

accepted_more :
    (res : Resolution) (above cs : List IdentityClaim) (c : IdentityClaim)
    → AcceptedAfter res above cs
    → rejects c (above ++ cs) res.mics ≡ none
    → AcceptedAfter res above (cs ++ c ∷ [])
accepted_more res above [] c h r =
    (subst (λ xs. rejects c xs res.mics ≡ none) (none_left above) r, tt)
  where
    none_left : (xs : List IdentityClaim) → xs ++ [] ≡ xs
    none_left [] = refl
    none_left (x ∷ xs) = ap (◌∷◌ x) (none_left xs)
accepted_more res above (d ∷ cs) c h r = (
  h.0,
  accepted_more res (above ++ d ∷ []) cs c h.1
      (subst (λ xs. rejects c xs res.mics ≡ none) (append_one above d cs) r),
)

-- The member found is not rejected by the set.
abbrev Accepted : Resolution → ConsistentClaims → Option (ℕ × IdentityClaim) → Type 0
Accepted res a none = Unit
Accepted res a (some (n, c)) = rejects c (all_claims a) res.mics ≡ none

none_of : {A : Type 0} (o : Option A) (b : Bool) → (not (is_some o) && b) ≡ true → o ≡ none
none_of none b h = refl
none_of (some x) b h = absurd (ground (arith, h))

best_of-Accepted :
    (res : Resolution) (a : ConsistentClaims) (n : ℕ) (run : List IdentityClaim)
    (best : Option (ℕ × IdentityClaim))
    → Accepted res a best
    → Accepted res a (best_of res a n run best)
unfolding best_of
best_of-Accepted res a n [] best h = h
best_of-Accepted res a n (c ∷ run) best h =
    elim (Bool-cases
      (not (is_some (rejects c (all_claims a) res.mics)) && better_claim res c best)) [
        | inl e ↦ rw (e, best_of) (best_of-Accepted res a (suc n) run (some (n, c)) (none_of _ _ e))
        | inr e ↦ rw (e, best_of) (best_of-Accepted res a (suc n) run best h)
      ]

join_sets-IsConsistent :
    (res : Resolution) (run : List IdentityClaim) (sets : List ConsistentClaims)
    → All (IsConsistent res) sets
    → All (IsConsistent res) (join_sets res run sets).0
unfolding join_sets
join_sets-IsConsistent res run [] h = tt
join_sets-IsConsistent res run (a ∷ sets) h =
    let rest = join_sets-IsConsistent res run sets h.1 in
    elim (Option-cases (best_of res a 0 run none)) [
      | inl e ↦ rw (e, join_sets) (h.0, rest)
      | inr ((n, c), e) ↦
          rw (e, join_sets)
            (
              accepted_more res (a.head ∷ []) a.rest c h.0
                  (subst (Accepted res a) e (best_of-Accepted res a 0 run none tt)),
              rest,
            )
    ]

head_sets-IsConsistent :
    (res : Resolution) (joined : List ℕ) (n : ℕ) (run : List IdentityClaim)
    → All (IsConsistent res) (head_sets joined n run)
unfolding head_sets
head_sets-IsConsistent res joined n [] = tt
head_sets-IsConsistent res joined n (c ∷ run) = elim (Bool-cases (any (λ m. m == n) joined)) [
  | inl e ↦ rw (e, head_sets) (head_sets-IsConsistent res joined (suc n) run)
  | inr e ↦ rw (e, head_sets) (tt, head_sets-IsConsistent res joined (suc n) run)
]

gather_runs-IsConsistent :
    (res : Resolution) (runs : List (List IdentityClaim)) (out : List ConsistentClaims)
    → All (IsConsistent res) out
    → All (IsConsistent res) (gather_runs res runs out)
unfolding gather_runs
gather_runs-IsConsistent res [] out h = h
gather_runs-IsConsistent res (run ∷ runs) out h = gather_runs-IsConsistent res runs _ (
    All-append (IsConsistent res) _ _ (join_sets-IsConsistent res run out h)
      (head_sets-IsConsistent res _ 0 run))

-- In each set that is gathered, no member is rejected by the head and the members before it.
pub gather-IsConsistent :
    (res : Resolution) (cs : List IdentityClaim)
    → All (IsConsistent res) (gather_consistent_claims res cs)
unfolding gather_consistent_claims
gather-IsConsistent res cs = gather_runs-IsConsistent res (runs_of cs) [] tt
