-- ===== src/Identity/Resolve/Gather.antt =====
-- The sets of consistent claims: `gatherConsistentClaims` of
-- server/internal/identity/resolve/choose.go and `confirmable` of candidate.go. The claims of one
-- datasource are the run of claims of one fetch key. That a claim has joined a set is told by its
-- place in the run, as the code tells it by its address.
pub mod Consistent
pub mod Every
use stonks.Base.{
  ℕ, suc, Bool, true, false, not, ◌&&◌, Option, none, some, List, [], ◌∷◌, ◌++◌, any, ◌==◌,
  if◌then◌else◌,
}
use stonks.Identity.Resolve.Claim.{IdentityClaim, Resolution, is_some, strongest_stable}
use stonks.Identity.Resolve.Choose.{ConsistentClaims, all_claims, made_by, rejects, ranks_before}

abbrev pub same_fetch : IdentityClaim → IdentityClaim → Bool
same_fetch c d = elim c.fetch_key [ none ↦ false | some fk ↦ made_by fk d ]

-- The runs with a claim before them.
unfoldable pub add_run : IdentityClaim → List (List IdentityClaim) → List (List IdentityClaim)
add_run c [] = (c ∷ []) ∷ []
add_run c ([] ∷ runs) = (c ∷ []) ∷ runs
add_run c ((d ∷ ds) ∷ runs) =
    if same_fetch c d then (c ∷ d ∷ ds) ∷ runs else (c ∷ []) ∷ (d ∷ ds) ∷ runs

-- The runs of claims of one fetch key.
unfoldable pub runs_of : List IdentityClaim → List (List IdentityClaim)
unfolding add_run
runs_of [] = []
runs_of (c ∷ cs) = add_run c (runs_of cs)

abbrev pub better_claim : Resolution → IdentityClaim → Option (ℕ × IdentityClaim) → Bool
better_claim res c none = true
better_claim res c (some (n, best)) = ranks_before res c best

-- The member of a set from a run whose first claim has the place `n`.
unfoldable pub best_of :
    Resolution
    → ConsistentClaims
    → ℕ
    → List IdentityClaim
    → Option (ℕ × IdentityClaim)
    → Option (ℕ × IdentityClaim)
unfolding rejects ranks_before
best_of res a n [] best = best
best_of res a n (c ∷ run) best = best_of res a (suc n) run (
    if not (is_some (rejects c (all_claims a) res.mics)) && better_claim res c best
    then some (n, c)
    else best)

-- The sets with their members from a run, and the places that have joined one.
unfoldable pub join_sets :
    Resolution → List IdentityClaim → List ConsistentClaims → List ConsistentClaims × List ℕ
unfolding best_of
join_sets res run [] = ([], [])
join_sets res run (a ∷ sets) =
    let (joined_sets, joined) = join_sets res run sets in
    elim (best_of res a 0 run none) [
      | none ↦ (a ∷ joined_sets, joined)
      | some (n, c) ↦ (record a { rest = a.rest ++ c ∷ [] } ∷ joined_sets, n ∷ joined)
    ]

-- A set of each claim that has joined none.
unfoldable pub head_sets : List ℕ → ℕ → List IdentityClaim → List ConsistentClaims
head_sets joined n [] = []
head_sets joined n (c ∷ run) =
    let rest = head_sets joined (suc n) run in
    if any (λ m. m == n) joined then rest else record { head = c; rest = [] } ∷ rest

unfoldable pub gather_runs :
    Resolution → List (List IdentityClaim) → List ConsistentClaims → List ConsistentClaims
unfolding join_sets head_sets
gather_runs res [] out = out
gather_runs res (run ∷ runs) out =
    let (sets, joined) = join_sets res run out in
    gather_runs res runs (sets ++ head_sets joined 0 run)

unfoldable pub gather_consistent_claims : Resolution → List IdentityClaim → List ConsistentClaims
unfolding runs_of gather_runs
gather_consistent_claims res cs = gather_runs res (runs_of cs) []

unfoldable pub confirmable : ConsistentClaims → Bool
unfolding strongest_stable
confirmable a = is_some (strongest_stable a.head)
