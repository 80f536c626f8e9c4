-- ===== src/Identity/Resolve/Claim/Strongest.antt =====
-- The identifier that names a claim most firmly.
use stonks.Base.{
  ◌≤◌, Bool, true, false, ◌&&◌, ◌||◌, Option, none, some, List, [], ◌∷◌, ◌≡◌, ◌⊎◌, refl, sym, subst,
  arith, any, All, Bool-cases, inl, inr,
}
use stonks.Types.Identifier.{Identifier, strength, stable}
use stonks.Types.Instr.{all_ids}
use stonks.Identity.Group.{identifier_eq}
use stonks.Identity.Group.Joined.{identifier_eq_iff}
use stonks.Identity.Resolve.Claim.{IdentityClaim, stronger, strongest_from, strongest_stable}

abbrev has : Identifier → List Identifier → Bool
has id = any (λ h. identifier_eq h id)

-- Of the identifiers that pass a test, none where none passes, and else one that is as strong as each.
abbrev pub IsStrongest : (Identifier → Bool) → List Identifier → Option Identifier → Type 0
IsStrongest f ids none = All (λ id. f id ≡ false) ids
IsStrongest f ids (some b) =
    (f b ≡ true)
    × (any (λ h. identifier_eq h b) ids ≡ true)
    × All (λ id. (f id ≡ false) ⊎ (strength b ≤ strength id)) ids

abbrev NotWeaker : Option Identifier → Identifier → Type 0
NotWeaker none b = Unit
NotWeaker (some c) b = strength b ≤ strength c

-- What the loop finds from the best identifier so far.
abbrev FromBest :
    (Identifier → Bool) → Option Identifier → List Identifier → Option Identifier → Type 0
FromBest f best ids none = (best ≡ none) × All (λ id. f id ≡ false) ids
FromBest f best ids (some b) =
    ((best ≡ some b) ⊎ ((f b ≡ true) × (has b ids ≡ true)))
    × All (λ id. (f id ≡ false) ⊎ (strength b ≤ strength id)) ids
    × NotWeaker best b

kept_round :
    (f : Identifier → Bool) (best : Option Identifier) (id : Identifier) (ids : List Identifier)
    (r : Option Identifier)
    → (f id && stronger id best) ≡ false
    → FromBest f best ids r
    → FromBest f best (id ∷ ids) r
kept_round f none id ids none k h = (refl, (ground (arith, k), h.1))
kept_round f (some b) id ids none k h = absurd (cc (h.0))
kept_round f none id ids (some c) k h = ground (arith, k, h)
kept_round f (some b) id ids (some c) k h = ground (arith, k, h)

left_true : (a b : Bool) → (a && b) ≡ true → a ≡ true
left_true a b h = ground (arith, h)

or_true : (a b : Bool) → a ≡ true → (a || b) ≡ true
or_true a b h = ground (arith, h)

found :
    (f : Identifier → Bool) (id : Identifier) (ids : List Identifier) (c : Identifier)
    → f id ≡ true
    → (some id ≡ some c) ⊎ ((f c ≡ true) × (has c ids ≡ true))
    → (f c ≡ true) × (has c (id ∷ ids) ≡ true)
found f id ids c k (inl e) =
    let same : id ≡ c = cc e in
    (
      subst (λ x. f x ≡ true) same k,
      or_true _ _
          (subst (λ x. identifier_eq x c ≡ true) (sym same) ((identifier_eq_iff c c).1 refl)),
    )
found f id ids c k (inr h) = (h.0, ground (arith, h.1))

taken_round :
    (f : Identifier → Bool) (best : Option Identifier) (id : Identifier) (ids : List Identifier)
    (r : Option Identifier)
    → (f id && stronger id best) ≡ true
    → FromBest f (some id) ids r
    → FromBest f best (id ∷ ids) r
taken_round f best id ids none k h = absurd (cc (h.0))
taken_round f none id ids (some c) k h =
    (inr (found f id ids c (left_true _ _ k) h.0), (inr h.2, h.1), tt)
taken_round f (some b) id ids (some c) k h =
    (inr (found f id ids c (left_true _ _ k) h.0), (inr h.2, h.1), ground (arith, k, h.2))

strongest_from-FromBest :
    (f : Identifier → Bool) (best : Option Identifier) (ids : List Identifier)
    → FromBest f best ids (strongest_from f best ids)
unfolding strongest_from
strongest_from-FromBest f none [] = (refl, tt)
strongest_from-FromBest f (some b) [] = (inl refl, tt, omega arith)
strongest_from-FromBest f best (id ∷ ids) = elim (Bool-cases (f id && stronger id best)) [
  | inl k ↦
      rw (k, strongest_from)
        (taken_round f best id ids _ k (strongest_from-FromBest f (some id) ids))
  | inr k ↦
      rw (k, strongest_from) (kept_round f best id ids _ k (strongest_from-FromBest f best ids))
]

from_none :
    (f : Identifier → Bool) (ids : List Identifier) (r : Option Identifier)
    → FromBest f none ids r
    → IsStrongest f ids r
from_none f ids none h = h.1
from_none f ids (some b) (inl e, h, w) = absurd (cc e)
from_none f ids (some b) (inr e, h, w) = (e.0, e.1, h)

-- The strongest stable identifier of a claim is none where the claim carries no stable identifier,
-- and otherwise a stable identifier of the claim that names it as firmly as each other stable one.
pub strongest_stable-IsStrongest :
    (c : IdentityClaim) → IsStrongest stable (all_ids c.instr) (strongest_stable c)
unfolding strongest_stable
strongest_stable-IsStrongest c =
    from_none stable _ _ (strongest_from-FromBest stable none (all_ids c.instr))
