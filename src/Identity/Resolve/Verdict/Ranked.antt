-- ===== src/Identity/Resolve/Verdict/Ranked.antt =====
-- The rank of the best claim of an answer.
use stonks.Base.{
  subst, clash, ℕ, Bool, true, false, not, ◌&&◌, Option, none, some, List, [], ◌∷◌, any, length,
  ltb, ◌≡◌, ◌≤◌, ◌<◌, ◌⊎◌, ◌↔◌, refl, sym, arith, Bool-cases, inl, inr, if◌then◌else◌,
}
use stonks.Base.In.{In, All-In}
use stonks.Base.Sorted.{SameMembers, In-cons, sort-SameMembers}
use stonks.Base.Any.{IsOrdered, stable_sort-IsOrdered}
use stonks.Types.Identifier.{Identifier}
use stonks.Market.{FetchKey}
use stonks.Identity.Resolve.Claim.{IdentityClaim, Resolution, named, confirms}
use stonks.Identity.Resolve.Choose.{Alternatives, bool_eq, ranks_before, filter_alternatives}
use stonks.Identity.Resolve.Verdict.{ClaimVerdict, front, surviving, pick_best, best_sent}

-- The test of `rank` on what it reads of two claims.
abbrev ranks : Bool → ℕ → Bool → ℕ → Bool
ranks n c m d = if not (bool_eq n m) then n else ltb d c

ranks_irrefl : (n : Bool) (c : ℕ) → ranks n c n c ≡ false
ranks_irrefl n c = ground arith

ranks_asym : (n m : Bool) (c d : ℕ) → not (ranks n c m d) ≡ false → not (ranks m d n c) ≡ true
ranks_asym n m c d h = ground (arith, h)

ranks_trans :
    (n m k : Bool) (c d e : ℕ)
    → not (ranks m d n c) ≡ true
    → not (ranks k e m d) ≡ true
    → not (ranks k e n c) ≡ true
ranks_trans n m k c d e h g = ground (arith, h, g)

module _ (res : Resolution) where
  abbrev not_behind : IdentityClaim → IdentityClaim → Bool
  not_behind a b = not (ranks_before res b a)

  total : (a b : IdentityClaim) → not_behind a b ≡ false → not_behind b a ≡ true
  unfolding ranks_before
  total a b h = ranks_asym (named b) (named a) (confirms b res) (confirms a res) h

  trans :
      (a b c : IdentityClaim)
      → not_behind a b ≡ true
      → not_behind b c ≡ true
      → not_behind a c ≡ true
  unfolding ranks_before
  trans a b c h g =
      ranks_trans (named a) (named b) (named c) (confirms a res) (confirms b res) (confirms c res) h
        g

  -- Of the claims, one that names the identifier sent where any does, and then one that confirms no less
  -- than any other that names as it does.
  abbrev pub IsTop : List IdentityClaim → IdentityClaim → Type 0
  IsTop cs c =
      In c cs
      × ((d : IdentityClaim)
          → In d cs
          → (named d ≡ true → named c ≡ true)
            × (named d ≡ named c → confirms d res ≤ confirms c res))

  -- Several claims of an answer to a bare ticker, with none chosen above it.
  abbrev pub AreOffered : Alternatives → List IdentityClaim → List IdentityClaim → Type 0
  AreOffered alts chosen cs = (alts.fallback ≡ true) × (chosen ≡ []) × (1 < length cs)

  -- What is chosen of the claims.
  abbrev pub IsBest :
      Alternatives → List IdentityClaim → List IdentityClaim → Option IdentityClaim → Type 0
  IsBest alts chosen cs none = (cs ≡ []) ⊎ AreOffered alts chosen cs
  IsBest alts chosen cs (some c) = IsTop cs c × (AreOffered alts chosen cs → ⊥)

  ranks_top :
      (n m : Bool) (c d : ℕ) → not (ranks m d n c) ≡ true → (m ≡ true → n ≡ true) × (m ≡ n → d ≤ c)
  ranks_top n m c d h = (λ e. ground (arith, h, e), λ e. ground (arith, h, e))

  top_of :
      (c d : IdentityClaim)
      → not_behind c d ≡ true
      → (named d ≡ true → named c ≡ true) × (named d ≡ named c → confirms d res ≤ confirms c res)
  unfolding ranks_before
  top_of c d h = ranks_top (named c) (named d) (confirms c res) (confirms d res) h

  offered_iff :
      (f : Bool) (chosen : List IdentityClaim) (n : ℕ)
      → ((f && (not (any (λ c. true) chosen) && ltb 1 n)) ≡ true)
        ↔ ((f ≡ true) × (chosen ≡ []) × (1 < n))
  offered_iff f [] n =
      (λ e. (ground (arith, e), refl, ground (arith, e)), λ (a, b, c). ground (arith, a, c))
  offered_iff f (c ∷ chosen) n = (λ e. absurd (ground (arith, e)), λ (a, b, c). absurd (cons_nil b))
    where
      cons_nil : (c ∷ chosen) ≡ [] → ⊥
      cons_nil b = cc b

  not_offered :
      (alts : Alternatives) (chosen cs : List IdentityClaim)
      → (alts.fallback && (not (any (λ c. true) chosen) && ltb 1 (length cs))) ≡ false
      → AreOffered alts chosen cs
      → ⊥
  not_offered alts chosen cs e h = clash ((offered_iff alts.fallback chosen (length cs)).1 h) e

  front-IsBest :
      (alts : Alternatives) (chosen cs ds : List IdentityClaim)
      → SameMembers ds cs
      → IsOrdered not_behind ds
      → (AreOffered alts chosen cs → ⊥)
      → IsBest alts chosen cs (front alts ds).0
  front-IsBest alts chosen [] [] m s n = inl refl
  front-IsBest alts chosen (c ∷ cs) [] m s n = elim ((m c).1 In.here) [ ]
  front-IsBest alts chosen cs (d ∷ ds) m s n = (
    (
      (m d).0 In.here,
      λ x i. elim (In-cons ((m x).1 i)) [
        | inl e ↦
            subst
              (λ z.
                (named z ≡ true → named d ≡ true)
                × (named z ≡ named d → confirms z res ≤ confirms d res))
              (sym e) ((λ t. t), λ t. omega arith)
        | inr k ↦ top_of d x (All-In _ s.0 k)
      ],
    ),
    n,
  )

  pick_best-IsBest :
      (chosen : List IdentityClaim) (alts : Alternatives) (cs : List IdentityClaim)
      → IsBest alts chosen cs (pick_best res chosen alts cs).0
  unfolding pick_best
  pick_best-IsBest chosen alts cs =
      elim (Bool-cases (alts.fallback && (not (any (λ c. true) chosen) && ltb 1 (length cs)))) [
        | inl e ↦ rw (e, pick_best) (inr ((offered_iff alts.fallback chosen (length cs)).0 e))
        | inr e ↦
            rw (e, pick_best)
              (front-IsBest alts chosen cs _ (sort-SameMembers not_behind cs)
                (stable_sort-IsOrdered not_behind total trans cs) (not_offered alts chosen cs e))
      ]

  -- The best claim of an answer is one of its survivors that the claims chosen above it do not reject.
  -- It names the identifier sent where one of them does, and of those that do, or else of all, none
  -- confirms more of what the key states. There is none only where there is no such survivor, or where there
  -- are several under a bare ticker and no claim is chosen above them; and then there is none.
  pub best_sent-IsBest :
      (fk : FetchKey) (chosen : List IdentityClaim) (v : ClaimVerdict) (sent : Identifier)
      → let alts = filter_alternatives fk sent res v.confirmed in
        IsBest alts chosen
          (surviving chosen res alts.survivors).0
          (best_sent fk res chosen v sent).1
  unfolding best_sent
  best_sent-IsBest fk chosen v sent =
      pick_best-IsBest chosen (filter_alternatives fk sent res v.confirmed) _
