-- ===== src/Stmt/Work/Outcomes.antt =====
-- The outcomes that resolve of server/internal/stmt/stmt.go takes onto the keys.
use Prim.Native.String.{String, ◌++◌ as ◌<>◌}
use stonks.Base.{
  Bool, true, false, Bool-cases, All, ◌⊎◌, inl, inr, ◌==◌, ==_iff, clash, if◌then◌else◌,
  some-injective, none_some, ℕ, zero, suc, Option, none, some, List, [], ◌∷◌, get_elem?, ◌≡◌, refl,
  subst, ◌>>=◌,
}
use stonks.Stmt.Work.{
  ResolutionKey, KeyRow, KeyState, by_key, join_reasons, resolved, associated, outcome_of,
  take_outcomes,
}

-- The last record of the key with the id.
abbrev pub IsLastOf : ℕ → ResolutionKey → List ResolutionKey → Type 0
IsLastOf id rk [] = ⊥
IsLastOf id rk (l ∷ ls) =
    IsLastOf id rk ls ⊎ ((rk ≡ l) × (l.stated_key ≡ id) × All (λ m. m.stated_key ≡ id → ⊥) ls)

-- The reasons, with "; " between each two.
abbrev pub IsJoined : List String → String → Type 0
IsJoined [] t = t ≡ ""
IsJoined (r ∷ []) t = t ≡ r
IsJoined (r ∷ s ∷ rs) t = (u : String) × IsJoined (s ∷ rs) u × (t ≡ r <> ("; " <> u))

join_reasons-IsJoined : (rs : List String) → IsJoined rs (join_reasons rs)
unfolding join_reasons
join_reasons-IsJoined [] = refl
join_reasons-IsJoined (r ∷ []) = refl
join_reasons-IsJoined (r ∷ s ∷ rs) = (join_reasons (s ∷ rs), join_reasons-IsJoined (s ∷ rs), refl)

-- A key that had an instrument keeps no outcome and no reason, any other one those of its last record.
abbrev pub IsOutcome : List ResolutionKey → KeyRow → KeyState → Type 0
IsOutcome out k s =
    (s.id ≡ k.id)
    × (((k.has_instr ≡ true) × (s.outcome ≡ none) × (s.reason ≡ ""))
        ⊎ ((k.has_instr ≡ false)
            × ((rk : ResolutionKey) × IsLastOf k.id rk out
                × (s.outcome ≡ some rk.outcome)
                × IsJoined rk.reasons s.reason)))

-- Each key has its outcome.
abbrev pub OutcomesOf : List ResolutionKey → List KeyRow → List KeyState → Type 0
OutcomesOf out [] [] = Unit
OutcomesOf out (k ∷ ks) (s ∷ ss) = IsOutcome out k s × OutcomesOf out ks ss
OutcomesOf out _ _ = ⊥

-- What the search for a record finds.
abbrev Recorded : ℕ → List ResolutionKey → Option ResolutionKey → Type 0
Recorded id out none = All (λ m. m.stated_key ≡ id → ⊥) out
Recorded id out (some rk) = IsLastOf id rk out

by_key-Recorded : (out : List ResolutionKey) (id : ℕ) → Recorded id out (by_key out id)
unfolding by_key
by_key-Recorded [] id = tt
by_key-Recorded (l ∷ ls) id = go (by_key ls id) (by_key-Recorded ls id)
  where
    go :
        (o : Option ResolutionKey)
        → Recorded id ls o
        → Recorded id (l ∷ ls) (elim o [
          | some later ↦ some later
          | none ↦ if l.stated_key == id then some l else none
        ])
    go (some rk) h = inl h
    go none h = elim (Bool-cases (l.stated_key == id)) [
      | inl e ↦ rw e (inr (refl, (==_iff l.stated_key id).0 e, h))
      | inr e ↦ rw e ((λ f. clash ((==_iff l.stated_key id).1 f) e), h)
    ]

outcome_of-IsOutcome :
    (out : List ResolutionKey) (k : KeyRow) (s : KeyState)
    → outcome_of out k ≡ some s
    → IsOutcome out k s
unfolding outcome_of
outcome_of-IsOutcome out k s e = go k.has_instr (by_key out k.id) refl (by_key-Recorded out k.id) e
  where
    go :
        (b : Bool) (o : Option ResolutionKey)
        → k.has_instr ≡ b
        → Recorded k.id out o
        → (if b
            then some (associated k)
            else elim o [ none ↦ none | some rk ↦ some (resolved k rk) ])
          ≡ some s
        → IsOutcome out k s
    go true o i h f = subst (IsOutcome out k) (some-injective f) (refl, inl (i, refl, refl))
    go false none i h f = absurd (none_some refl f)
    go false (some rk) i h f =
        subst (IsOutcome out k) (some-injective f)
          (refl, inr (i, (rk, h, refl, join_reasons-IsJoined rk.reasons)))

pub take_outcomes-OutcomesOf :
    (out : List ResolutionKey) (ks : List KeyRow) (ss : List KeyState)
    → take_outcomes out ks ≡ some ss
    → OutcomesOf out ks ss
unfolding take_outcomes
take_outcomes-OutcomesOf out [] ss e = subst (OutcomesOf out []) (one e) tt
  where
    one : Path (Option (List KeyState)) (some []) (some ss) → [] ≡ ss
    one e = cc e
take_outcomes-OutcomesOf out (k ∷ ks) ss e =
    go (outcome_of out k) (take_outcomes out ks) refl (take_outcomes-OutcomesOf out ks) e
  where
    no_ss : Path (Option (List KeyState)) none (some ss) → ⊥
    no_ss e = absurd (cc e)

    one : {rs : List KeyState} → Path (Option (List KeyState)) (some rs) (some ss) → rs ≡ ss
    one e = cc e

    go :
        (o : Option KeyState) (r : Option (List KeyState))
        → outcome_of out k ≡ o
        → ((rs : List KeyState) → r ≡ some rs → OutcomesOf out ks rs)
        → (do s ← o; rest ← r; some (s ∷ rest)) ≡ some ss
        → OutcomesOf out (k ∷ ks) ss
    go none r f h e = absurd (no_ss e)
    go (some s) none f h e = absurd (no_ss e)
    go (some s) (some rs) f h e =
        subst (OutcomesOf out (k ∷ ks)) (one e) (outcome_of-IsOutcome out k s f, h rs refl)

-- Each place of a key has its outcome.
pub OutcomesOf-place :
    (out : List ResolutionKey) (ks : List KeyRow) (ss : List KeyState) (i : ℕ) (k : KeyRow)
    → OutcomesOf out ks ss
    → get_elem? ks i ≡ some k
    → (s : KeyState) × (get_elem? ss i ≡ some s) × IsOutcome out k s
OutcomesOf-place out (k ∷ ks) (s ∷ ss) zero l h e =
    (s, refl, subst (λ z. IsOutcome out z s) (some-injective e) h.0)
OutcomesOf-place out (k ∷ ks) (s ∷ ss) (suc i) l h e = OutcomesOf-place out ks ss i l h.1 e
OutcomesOf-place out [] [] i l h e = absurd (none_some refl e)
OutcomesOf-place out [] (s ∷ ss) i l h e = absurd h
OutcomesOf-place out (k ∷ ks) [] i l h e = absurd h
