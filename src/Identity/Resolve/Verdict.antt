-- ===== src/Identity/Resolve/Verdict.antt =====
-- The verdict on the claims, and the best claim of one answer: `claimVerdict` and `bestClaim` of
-- server/internal/identity/resolve/choose.go.
pub mod Passes
pub mod Ranked
use Prim.Native.String.{String}
use text.Mathlib.Text.{◌==◌ as str_eq}
use stonks.Base.{
  ℕ, ◌+◌, Bool, true, not, ◌&&◌, Option, none, some, List, [], ◌∷◌, ◌++◌, length, any, ltb,
  if◌then◌else◌,
}
use stonks.Base.Order.{stable_sort}
use stonks.Types.Identifier.{Identifier}
use stonks.Market.{FetchKey}
use stonks.Identity.Resolve.Claim.{IdentityClaim, Resolution}
use stonks.Identity.Resolve.Choose.{
  Finding, ConsistentClaims, Alternatives, rejects, ranks_before, filter_alternatives,
}

-- A number of each datasource; a missing one is zero.
abbrev pub Counts : Type 0
Counts = String → ℕ

unfoldable pub set_count : String → ℕ → Counts → Counts
set_count source n m s = if str_eq source s then n else m s

pub record ClaimVerdict : Type 0 where
  pub winner : Option IdentityClaim
  pub confirmed : Bool
  -- The user's choice fails a check.
  pub refused : Bool
  pub attached : List IdentityClaim
  pub findings : List Finding
  pub counts : Counts
  pub not_naming : Counts
  pub offered : List ConsistentClaims

-- The survivors that are not rejected, and the findings of those that are.
unfoldable pub surviving :
    List IdentityClaim → Resolution → List IdentityClaim → List IdentityClaim × List Finding
unfolding rejects
surviving chosen res [] = ([], [])
surviving chosen res (c ∷ cs) =
    let (kept, findings) = surviving chosen res cs in
    elim (rejects c chosen res.mics) [ some f ↦ (kept, f ∷ findings) | none ↦ (c ∷ kept, findings) ]

-- The best claim of an answer, and the claims that it offers the user.
abbrev pub Best : Type 0
Best = ClaimVerdict × Option IdentityClaim × List IdentityClaim

abbrev pub front : Alternatives → List IdentityClaim → Option IdentityClaim × List IdentityClaim
front alts [] = (none, alts.offered)
front alts (best ∷ others) = (some best, alts.offered)

-- What becomes of the survivors that are not rejected.
unfoldable pub pick_best :
    Resolution
    → List IdentityClaim
    → Alternatives
    → List IdentityClaim
    → Option IdentityClaim × List IdentityClaim
unfolding ranks_before stable_sort
pick_best res chosen alts survivors =
    if alts.fallback && (not (any (λ c. true) chosen) && ltb 1 (length survivors))
    then (none, alts.offered ++ survivors)
    else front alts (stable_sort (λ a b. not (ranks_before res b a)) survivors)

unfoldable pub best_sent :
    FetchKey → Resolution → List IdentityClaim → ClaimVerdict → Identifier → Best
unfolding filter_alternatives surviving pick_best set_count
best_sent fk res chosen v sent =
    let alts = filter_alternatives fk sent res v.confirmed in
    let (kept, findings) = surviving chosen res alts.survivors in
    let counted = record v {
      counts = set_count fk.source alts.count v.counts;
      not_naming =
          if ltb 0 alts.not_naming
          then set_count fk.source (v.not_naming fk.source + alts.not_naming) v.not_naming
          else v.not_naming;
      findings = v.findings ++ alts.findings ++ findings;
    } in
    let (best, more) = pick_best res chosen alts kept in (counted, best, more)

unfoldable pub best_claim : FetchKey → Resolution → List IdentityClaim → ClaimVerdict → Best
unfolding best_sent
best_claim fk res chosen v = elim fk.sent_id [
  | none ↦ (v, none, [])
  | some sent ↦ best_sent fk res chosen v sent
]
