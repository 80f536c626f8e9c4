-- ===== src/Identity/Resolve/Verdict/Passes.antt =====
-- What the best claim of an answer has passed.
use stonks.Base.{
  Bool, true, false, not, ◌&&◌, Option, none, some, List, [], ◌∷◌, map, any, length, ltb, ◌≡◌, refl,
  All, All-append, Bool-cases, Option-cases, inl, inr,
}
use stonks.Base.Order.{stable_sort}
use stonks.Base.Any.{All-stable_sort}
use stonks.Types.Identifier.{Identifier}
use stonks.Currency.{Families}
use stonks.Market.{FetchKey}
use stonks.Identity.Resolve.Claim.{IdentityClaim, Resolution, named, against}
use stonks.Identity.Resolve.Claims.{Roots, claims}
use stonks.Identity.Resolve.Choose.{
  Alternatives, rejects, sort_claim, sort_claims, filter_alternatives,
}
use stonks.Identity.Resolve.Verdict.{
  Best, ClaimVerdict, front, surviving, pick_best, best_sent, best_claim,
}

-- A claim of the fetch key that what the key states does not contradict.
abbrev pub Agrees : Resolution → FetchKey → IdentityClaim → Type 0
Agrees res fk c = (c.fetch_key ≡ some fk) × (against c res ≡ false)

abbrev pub Passes : Resolution → FetchKey → List IdentityClaim → IdentityClaim → Type 0
Passes res fk chosen c = Agrees res fk c × (rejects c chosen res.mics ≡ none)

abbrev MadeBy : FetchKey → List IdentityClaim → Type 0
MadeBy fk = All (λ c. c.fetch_key ≡ some fk)

claims-MadeBy : (fk : FetchKey) (families : Families) → MadeBy fk (claims fk families)
unfolding claims
claims-MadeBy fk families = each _
  where
    each : (rs : Roots) → MadeBy fk (map (λ e. record { fetch_key = some fk; instr = e.1 }) rs)
    each [] = tt
    each (e ∷ rs) = (refl, each rs)

sort_claim-Agrees :
    (fk : FetchKey) (res : Resolution) (global confirmed : Bool) (c : IdentityClaim)
    (alts : Alternatives)
    → c.fetch_key ≡ some fk
    → All (Agrees res fk) alts.survivors
    → All (Agrees res fk) (sort_claim fk res global confirmed c alts).survivors
unfolding sort_claim
sort_claim-Agrees fk res global confirmed c alts e h =
    elim (Bool-cases (not global && not confirmed)) [
      | inl a ↦ rw (a, sort_claim) h
      | inr a ↦ elim (Bool-cases (global && (not (named c) && not alts.fallback))) [
        | inl b ↦ rw (a, b, sort_claim) h
        | inr b ↦ elim (Bool-cases (against c res)) [
          | inl d ↦ rw (a, b, d, sort_claim) h
          | inr d ↦ rw (a, b, d, sort_claim) (All-append (Agrees res fk) _ _ h ((e, d), tt))
        ]
      ]
    ]

sort_claims-Agrees :
    (fk : FetchKey) (res : Resolution) (global confirmed : Bool) (cs : List IdentityClaim)
    (alts : Alternatives)
    → MadeBy fk cs
    → All (Agrees res fk) alts.survivors
    → All (Agrees res fk) (sort_claims fk res global confirmed cs alts).survivors
unfolding sort_claims
sort_claims-Agrees fk res global confirmed [] alts m h = h
sort_claims-Agrees fk res global confirmed (c ∷ cs) alts m h =
    sort_claims-Agrees fk res global confirmed cs _ m.1
      (sort_claim-Agrees fk res global confirmed c alts m.0 h)

surviving-Passes :
    (fk : FetchKey) (res : Resolution) (chosen cs : List IdentityClaim)
    → All (Agrees res fk) cs
    → All (Passes res fk chosen) (surviving chosen res cs).0
unfolding surviving
surviving-Passes fk res chosen [] h = tt
surviving-Passes fk res chosen (c ∷ cs) h = elim (Option-cases (rejects c chosen res.mics)) [
  | inl e ↦ rw (e, surviving) ((h.0, e), surviving-Passes fk res chosen cs h.1)
  | inr (f, e) ↦ rw (e, surviving) (surviving-Passes fk res chosen cs h.1)
]

-- What holds of a claim where there is one.
abbrev pub Holds : (IdentityClaim → Type 0) → Option IdentityClaim → Type 0
Holds P none = Unit
Holds P (some c) = P c

first-Holds :
    (P : IdentityClaim → Type 0) (alts : Alternatives) (cs : List IdentityClaim)
    → All P cs
    → Holds P (front alts cs).0
first-Holds P alts [] h = tt
first-Holds P alts (c ∷ cs) h = h.0

pick_best-Holds :
    (P : IdentityClaim → Type 0) (res : Resolution) (chosen : List IdentityClaim)
    (alts : Alternatives) (cs : List IdentityClaim)
    → All P cs
    → Holds P (pick_best res chosen alts cs).0
unfolding pick_best
pick_best-Holds P res chosen alts cs h =
    elim (Bool-cases (alts.fallback && (not (any (λ c. true) chosen) && ltb 1 (length cs)))) [
      | inl e ↦ rw (e, pick_best) tt
      | inr e ↦ rw (e, pick_best) (first-Holds P alts (stable_sort _ cs) (All-stable_sort P _ cs h))
    ]

best_sent-Passes :
    (fk : FetchKey) (res : Resolution) (chosen : List IdentityClaim) (v : ClaimVerdict)
    (sent : Identifier)
    → Holds (Passes res fk chosen) (best_sent fk res chosen v sent).1
unfolding best_sent filter_alternatives
best_sent-Passes fk res chosen v sent =
    pick_best-Holds (Passes res fk chosen) res chosen (filter_alternatives fk sent res v.confirmed)
      _
      (surviving-Passes fk res chosen _ (
        sort_claims-Agrees fk res _ _ (claims fk res.families) _ (claims-MadeBy fk res.families)
          tt))

-- The best claim of an answer comes from its fetch key, is not contradicted by what the key states,
-- and is not rejected by the claims that are chosen above it.
pub best_claim-Passes :
    (fk : FetchKey) (res : Resolution) (chosen : List IdentityClaim) (v : ClaimVerdict)
    → Holds (Passes res fk chosen) (best_claim fk res chosen v).1
unfolding best_claim
best_claim-Passes fk res chosen v = when_sent fk.sent_id
  where
    when_sent :
        (o : Option Identifier)
        → Holds
            (Passes res fk chosen)
            (elim o as (λ o. Best) [
              | none ↦ (v, none, [])
              | some sent ↦ best_sent fk res chosen v sent
            ]).1
    when_sent none = tt
    when_sent (some sent) = best_sent-Passes fk res chosen v sent
