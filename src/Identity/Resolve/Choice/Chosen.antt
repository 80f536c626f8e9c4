-- ===== src/Identity/Resolve/Choice/Chosen.antt =====
-- What is chosen without a choice of the user.
use stonks.Base.{false, Option, none, some, List, [], ◌∷◌, ◌++◌, ◌≡◌, refl, sym, ap, ◌∙◌, subst}
use stonks.Types.Identifier.{Identifier}
use stonks.Market.{FetchKey}
use stonks.Identity.Resolve.Claim.{IdentityClaim, Resolution}
use stonks.Identity.Resolve.Verdict.{Best, ClaimVerdict, best_sent, best_claim}
use stonks.Identity.Resolve.Verdict.Passes.{Passes, Holds, best_claim-Passes}
use stonks.Identity.Resolve.Choice.{
  Choosing, or_first, attach, attach_found, attach_best, choose_key, choose_keys, to_list,
  start_choice, refused_by, choose,
}

-- The claims chosen from the answers in precedence order, at most one of each answer: each comes
-- from its answer, agrees with what the key states, and is not rejected by the claims before it.
pub data Chosen (res : Resolution)
    : List IdentityClaim → List FetchKey → List IdentityClaim → Type 0 where
  done : {above : List IdentityClaim} → Chosen res above [] []
  skip :
      {above cs : List IdentityClaim} {fk : FetchKey} {fks : List FetchKey}
      → Chosen res above fks cs
      → Chosen res above (fk ∷ fks) cs
  take :
      {above cs : List IdentityClaim} {fk : FetchKey} {fks : List FetchKey} {c : IdentityClaim}
      → Passes res fk above c
      → Chosen res (above ++ c ∷ []) fks cs
      → Chosen res above (fk ∷ fks) (c ∷ cs)

abbrev pub first_of : List IdentityClaim → Option IdentityClaim
first_of [] = none
first_of (c ∷ cs) = some c

append_one : {A : Type 0} (xs : List A) (y : A) (ys : List A) → (xs ++ y ∷ []) ++ ys ≡ xs ++ y ∷ ys
append_one [] y ys = refl
append_one (x ∷ xs) y ys = ap (◌∷◌ x) (append_one xs y ys)

append_none : {A : Type 0} (xs : List A) → xs ++ [] ≡ xs
append_none [] = refl
append_none (x ∷ xs) = ap (◌∷◌ x) (append_none xs)

first_of-append :
    (xs : List IdentityClaim) (c : IdentityClaim)
    → first_of (xs ++ c ∷ []) ≡ or_first (first_of xs) c
first_of-append [] c = refl
first_of-append (x ∷ xs) c = refl

-- The winner is the first of the chosen claims.
abbrev Wins : Choosing → Type 0
Wins s = s.verdict.winner ≡ first_of s.chosen

best_claim-keeps :
    (fk : FetchKey) (res : Resolution) (chosen : List IdentityClaim) (v : ClaimVerdict)
    → let v' = (best_claim fk res chosen v).0 in (v'.winner ≡ v.winner) × (v'.attached ≡ v.attached)
unfolding best_claim best_sent
best_claim-keeps fk res chosen v = when_sent fk.sent_id
  where
    when_sent :
        (o : Option Identifier)
        → let v' =
            (elim o as (λ o. Best) [
              | none ↦ (v, none, [])
              | some sent ↦ best_sent fk res chosen v sent
            ]).0 in
          (v'.winner ≡ v.winner) × (v'.attached ≡ v.attached)
    when_sent none = (refl, refl)
    when_sent (some sent) = (refl, refl)

-- What the answers from `fks` on add to the chosen claims.
abbrev Adds : Resolution → List FetchKey → Choosing → Choosing → Type 0
Adds res fks s t =
    (cs : List IdentityClaim) × (t.chosen ≡ s.chosen ++ cs)
    × (t.verdict.attached ≡ s.verdict.attached ++ cs)
    × (t.verdict.winner ≡ first_of t.chosen)
    × Chosen res s.chosen fks cs

-- One answer adds one claim or none.
Adds-one :
    (res : Resolution) (fk : FetchKey) (fks : List FetchKey) (s : Choosing)
    (best : Option IdentityClaim)
    → Holds (Passes res fk s.chosen) best
    → s.verdict.winner ≡ first_of s.chosen
    → ((s' : Choosing) → Wins s' → Adds res fks s' (choose_keys res none fks s'))
    → Adds res (fk ∷ fks) s (choose_keys res none fks (attach_found false best s))
unfolding attach_found attach
Adds-one res fk fks s none h w rest =
    let (cs, chosen, attached, winner, steps) = rest s w in
    (cs, chosen, attached, winner, Chosen.skip steps)
Adds-one res fk fks s (some c) h w rest =
    let (cs, chosen, attached, winner, steps) =
      rest (attach_found false (some c) s)
        (ap (λ o. or_first o c) w ∙ sym (first_of-append s.chosen c)) in
    (
      c ∷ cs,
      chosen ∙ append_one s.chosen c cs,
      attached ∙ append_one s.verdict.attached c cs,
      winner,
      Chosen.take h steps,
    )

module _ (res : Resolution) where
  choose_keys-Adds :
      (fks : List FetchKey) (s : Choosing) → Wins s → Adds res fks s (choose_keys res none fks s)
  unfolding choose_keys choose_key attach_best attach
  choose_keys-Adds [] s w =
      ([], sym (append_none s.chosen), sym (append_none s.verdict.attached), w, Chosen.done)
  choose_keys-Adds (fk ∷ fks) s w =
      let (kept, same) = best_claim-keeps fk res s.chosen s.verdict in
      let one =
        Adds-one res fk fks _ _ (best_claim-Passes fk res s.chosen s.verdict) (kept ∙ w)
          (choose_keys-Adds fks) in
      (one.0, one.1, one.2 ∙ ap (λ above. above ++ one.0) same, one.3, one.4)

  -- Without a choice of the user, the attached claims are chosen from the answers in precedence order,
  -- at most one of each answer, and each agrees with what the key states and is not rejected by the
  -- database's claim and the claims before it. The winner is the database's claim, and where there is
  -- none, the first of the attached claims.
  pub choose-Chosen :
      (known : Option IdentityClaim)
      → let v = choose res known none in
        Chosen res (to_list known) res.fetch_keys v.attached
        × (v.winner ≡ first_of (to_list known ++ v.attached))
  unfolding choose refused_by start_choice
  choose-Chosen known =
      let (cs, chosen, attached, winner, steps) =
        choose_keys-Adds res.fetch_keys (start_choice known none) (starts known) in
      (
        subst (Chosen res (to_list known) res.fetch_keys) (sym attached) steps,
        winner ∙ ap first_of (chosen ∙ ap (λ below. to_list known ++ below) (sym attached)),
      )
    where
      starts : (known : Option IdentityClaim) → known ≡ first_of (to_list known)
      starts none = refl
      starts (some c) = refl
