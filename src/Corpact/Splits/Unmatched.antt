-- ===== src/Corpact/Splits/Unmatched.antt =====
-- Which stated splits raise a finding.
use stonks.Base.{
  ℕ, Bool, true, false, not, ◌&&◌, ◌||◌, none, some, List, [], ◌∷◌, ◌++◌, ◌≡◌, ◌↔◌, refl, sym, ap,
  ◌∙◌, arith, ltb, leb, any, All, All-append, clash, Bool-cases, inl, inr,
}
use stonks.Base.Any.{any-filter_b, any-ext}
use stonks.Types.Time.{Time}
use stonks.Types.Ratio.{Decimals, Ratio, ratio_equal}
use stonks.Corpact.{Act, restates, is_undecided}
use stonks.Corpact.Splits.{
  SplitGroup, UnmatchedSplit, window, days, near, first_lacking, unmatched_by, unmatched_splits,
}

module _ {D : Type 0} (dec : Decimals D) (cal : ℕ → List (Act D)) where
  -- The action falls within the window of a day, and no decision leaves the quantity as it is.
  abbrev pub counts : Time → Act D → Bool
  counts day e = leb (days e.ex_date day) window && (is_undecided e.decision || restates e)

  -- An action that counts has the ratio.
  abbrev pub has_ratio : SplitGroup D → Ratio D → Bool
  has_ratio g r = any (λ e. counts g.day e && ratio_equal dec e.ratio r) (cal g.instr)

  abbrev pub has_any : SplitGroup D → Bool
  has_any g = any (counts g.day) (cal g.instr)

  -- Each ratio of the group has an action, and a group without a ratio has any action.
  abbrev pub IsMatched : SplitGroup D → Type 0
  IsMatched g = (g.ratios ≡ [] → has_any g ≡ true) × All (λ r. has_ratio g r ≡ true) g.ratios

  -- The ratio that has no action, or the lack of any.
  abbrev pub IsLacking : UnmatchedSplit D → Type 0
  IsLacking u = elim u.ratio as (λ o. Type 0) [
    | none ↦ (u.group.ratios ≡ []) × (has_any u.group ≡ false)
    | some r ↦ has_ratio u.group r ≡ false
  ]

  any-near :
      (f : Act D → Bool) (day : Time) (acts : List (Act D))
      → any f (near day acts) ≡ any (λ e. counts day e && f e) acts
  unfolding near
  any-near f day acts =
      any-filter_b f
        (λ e.
          not (
            ltb window (days e.ex_date day) || (not (is_undecided e.decision) && not (restates e))))
        acts
      ∙ any-ext _ _
          (λ e.
            ap (λ b. b && f e) (kept (days e.ex_date day) (is_undecided e.decision) (restates e)))
          acts
    where
      kept :
          (n : ℕ) (u r : Bool) → not (ltb window n || (not u && not r)) ≡ (leb n window && (u || r))
      kept n u r = ground arith

  lacking_nil :
      (g : SplitGroup D) (rs : List (Ratio D))
      → (first_lacking dec g (near g.day (cal g.instr)) rs ≡ [])
        ↔ All (λ r. has_ratio g r ≡ true) rs
  unfolding first_lacking
  lacking_nil g [] = (λ e. tt, λ h. refl)
  lacking_nil g (r ∷ rs) =
      let same = any-near (λ e. ratio_equal dec e.ratio r) g.day (cal g.instr) in
      let ih = lacking_nil g rs in
      elim (Bool-cases (has_ratio g r)) [
        | inl k ↦ rw (same ∙ k, first_lacking) (λ e. (k, ih.0 e), λ h. ih.1 h.1)
        | inr k ↦ rw (same ∙ k, first_lacking) (λ e. cc, λ h. absurd (clash h.0 k))
      ]

  has_any-near : (g : SplitGroup D) → any (λ e. true) (near g.day (cal g.instr)) ≡ has_any g
  has_any-near g =
      any-near (λ e. true) g.day (cal g.instr) ∙ any-ext _ _ (λ e. ground arith) (cal g.instr)

  unmatched_by-eq-nil_iff :
      (g : SplitGroup D) (rs : List (Ratio D))
      → (unmatched_by dec g (near g.day (cal g.instr)) rs ≡ [])
        ↔ ((rs ≡ [] → has_any g ≡ true) × All (λ r. has_ratio g r ≡ true) rs)
  unfolding unmatched_by
  unmatched_by-eq-nil_iff g (r ∷ rs) =
      let same = lacking_nil g (r ∷ rs) in (λ e. (λ n. cc, same.0 e), λ h. same.1 h.1)
  unmatched_by-eq-nil_iff g [] = found (near g.day (cal g.instr)) (has_any-near g)
    where
      found :
          (acts : List (Act D))
          → any (λ e. true) acts ≡ has_any g
          → (unmatched_by dec g acts [] ≡ [])
            ↔ ((◌≡◌ {A = List (Ratio D)} [] [] → has_any g ≡ true) × Unit {0})
      found [] h = (λ e. cc, λ k. absurd (clash (k.0 refl) (sym h)))
      found (e ∷ es) h = (λ n. (λ m. sym h, tt), λ k. refl)

  append_nil {ℓ} : {A : Type ℓ} (xs ys : List A) → (xs ++ ys ≡ []) ↔ ((xs ≡ []) × (ys ≡ []))
  append_nil [] ys = (λ e. (refl, e), λ h. h.1)
  append_nil (x ∷ xs) ys = (λ e. cc, λ h. cc)

  -- No split is unmatched exactly where each group has an action for each ratio that it states, or
  -- any action where it states none, among the actions that count near its day.
  pub unmatched_splits-eq-nil_iff :
      (gs : List (SplitGroup D)) → (unmatched_splits dec gs cal ≡ []) ↔ All IsMatched gs
  unfolding unmatched_splits
  unmatched_splits-eq-nil_iff [] = (λ e. tt, λ h. refl)
  unmatched_splits-eq-nil_iff (g ∷ gs) =
      let one = unmatched_by-eq-nil_iff g g.ratios in
      let ih = unmatched_splits-eq-nil_iff gs in
      let both =
        append_nil (unmatched_by dec g (near g.day (cal g.instr)) g.ratios)
          (unmatched_splits dec gs cal) in
      (λ e. (one.0 (both.0 e).0, ih.0 (both.0 e).1), λ h. both.1 (one.1 h.0, ih.1 h.1))

  first_lacking-IsLacking :
      (g : SplitGroup D) (rs : List (Ratio D))
      → All IsLacking (first_lacking dec g (near g.day (cal g.instr)) rs)
  unfolding first_lacking
  first_lacking-IsLacking g [] = tt
  first_lacking-IsLacking g (r ∷ rs) =
      let same = any-near (λ e. ratio_equal dec e.ratio r) g.day (cal g.instr) in
      elim (Bool-cases (has_ratio g r)) [
        | inl k ↦ rw (same ∙ k, first_lacking) (first_lacking-IsLacking g rs)
        | inr k ↦ rw (same ∙ k, first_lacking) (k, tt)
      ]

  unmatched_by-IsLacking :
      (g : SplitGroup D) (rs : List (Ratio D))
      → g.ratios ≡ rs
      → All IsLacking (unmatched_by dec g (near g.day (cal g.instr)) rs)
  unfolding unmatched_by
  unmatched_by-IsLacking g (r ∷ rs) e = first_lacking-IsLacking g (r ∷ rs)
  unmatched_by-IsLacking g [] e = found (near g.day (cal g.instr)) (has_any-near g)
    where
      found :
          (acts : List (Act D))
          → any (λ e. true) acts ≡ has_any g
          → All IsLacking (unmatched_by dec g acts [])
      found [] h = ((e, sym h), tt)
      found (x ∷ xs) h = tt

  -- Every split that is reported lacks what the report says: an action of its ratio, or any action
  -- where the group states no ratio.
  pub unmatched_splits-IsLacking :
      (gs : List (SplitGroup D)) → All IsLacking (unmatched_splits dec gs cal)
  unfolding unmatched_splits
  unmatched_splits-IsLacking [] = tt
  unmatched_splits-IsLacking (g ∷ gs) =
      All-append IsLacking (unmatched_by dec g (near g.day (cal g.instr)) g.ratios) _
        (unmatched_by-IsLacking g g.ratios refl) (unmatched_splits-IsLacking gs)
