-- ===== src/Identity/Coverage/Alerts/Nothing.antt =====
-- What is counted of a ticker that names nothing.
use stonks.Base.{
  ◌<◌, Bool, not, List, [], ◌∷◌, ◌≡◌, refl, ◌∙◌, arith, Bool-cases, inl, inr, if◌then◌else◌,
}
use stonks.Types.Time.{Time}
use stonks.Types.Period.{Period}
use stonks.Identity.Coverage.{TxnDay, count_days}
use stonks.Identity.Coverage.Counts.{HasTxns}
use stonks.Identity.Coverage.Alerts.{Unnamed, is_settled, unnamed_days}

abbrev pub unsettled : List Period → Time → Bool
unsettled settled t = not (is_settled settled t)

module _ {D : Type 0} where
  -- The first day of the list that is not settled.
  unfoldable pub first_unsettled : List Period → List (TxnDay D) → Time
  first_unsettled settled [] = 0
  first_unsettled settled (d ∷ ds) =
      if unsettled settled d.as_at then d.as_at else first_unsettled settled ds

  counted :
      (settled : List Period) (ds : List (TxnDay D)) (s : Unnamed)
      → let r = unnamed_days settled ds s in
        (r.txns, r.keys) ≡ count_days (unsettled settled) ds (s.txns, s.keys)
  unfolding unnamed_days count_days
  counted settled [] s = refl
  counted settled (d ∷ ds) s = elim (Bool-cases (is_settled settled d.as_at)) [
    | inl e ↦ rw (e, unnamed_days, count_days) (counted settled ds s)
    | inr e ↦ rw (e, unnamed_days, count_days) (counted settled ds _)
  ]

  first_kept :
      (settled : List Period) (ds : List (TxnDay D)) (s : Unnamed)
      → 0 < s.txns
      → (unnamed_days settled ds s).first ≡ s.first
  unfolding unnamed_days
  first_kept settled [] s h = refl
  first_kept settled (d ∷ ds) s h = elim (Bool-cases (is_settled settled d.as_at)) [
    | inl e ↦ rw (e, unnamed_days) (first_kept settled ds s h)
    | inr e ↦ rw (e, unnamed_days) (first_kept settled ds _ (omega arith) ∙ ground arith)
  ]

  first_found :
      (settled : List Period) (ds : List (TxnDay D)) (s : Unnamed)
      → HasTxns ds
      → s.txns ≡ 0
      → s.first ≡ 0
      → (unnamed_days settled ds s).first ≡ first_unsettled settled ds
  unfolding unnamed_days first_unsettled
  first_found settled [] s h z f = f
  first_found settled (d ∷ ds) s h z f = elim (Bool-cases (is_settled settled d.as_at)) [
    | inl e ↦ rw (e, unnamed_days, first_unsettled) (first_found settled ds s h.1 z f)
    | inr e ↦
        rw (e, unnamed_days, first_unsettled)
          (first_kept settled ds _ (omega (arith, h.0)) ∙ ground (arith, z))
  ]
