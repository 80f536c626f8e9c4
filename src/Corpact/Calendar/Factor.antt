-- ===== src/Corpact/Calendar/Factor.antt =====
-- The factor of a calendar over days that follow one another.
use native.Mathlib.Nat.{mul_comm, mul_assoc}
use stonks.Base.{
  ℕ, ◌*◌, ◌≤◌, Bool, true, false, ◌&&◌, ◌||◌, List, [], ◌∷◌, ◌≡◌, refl, sym, ap, ap₂, ◌∙◌, arith,
  ltb, if◌then◌else◌, Bool-cases, inl, inr,
}
use stonks.Types.Time.{Time, day, day_mono}
use stonks.Types.Period
use stonks.Types.Period.{Period, contains}
use stonks.Types.Ratio.{Decimals}
use stonks.Corpact.{Act, restates}
use stonks.Corpact.Calendar.{Calendar, Rat, times, quo, need, factor_from, factor}

mul_shuffle : (a b p q : ℕ) → (a * b) * (p * q) ≡ (a * p) * (b * q)
mul_shuffle a b p q =
    cc
      (mul_assoc a b (p * q), mul_assoc b p q, mul_comm b p, mul_assoc p b q, mul_assoc a p (b * q))

times_assoc : (x y z : Rat) → times (times x y) z ≡ times x (times y z)
times_assoc (a, b) (c, d) (e, f) = ap₂ (λ (m n : ℕ). (m, n)) (mul_assoc a c e) (mul_assoc b d f)

times_shuffle : (x y z w : Rat) → times (times x y) (times z w) ≡ times (times x z) (times y w)
times_shuffle (a, b) (c, d) (e, f) (g, h) =
    ap₂ (λ (m n : ℕ). (m, n)) (mul_shuffle a c e g) (mul_shuffle b d f h)

times_one : (f : Rat) → times f (1, 1) ≡ f
times_one (a, b) = ap₂ (λ (m n : ℕ). (m, n)) (omega arith) (omega arith)

one_times : (f : Rat) → times (1, 1) f ≡ f
one_times (a, b) = ap₂ (λ (m n : ℕ). (m, n)) (omega arith) (omega arith)

contains-empty : (p : Period) (x : Time) → p.before ≤ p.from → contains p x ≡ false
unfolding contains
contains-empty p x h = ground (arith, h)

need-joined :
    (as_at mid today x : Time)
    → day as_at ≤ day mid
    → day mid ≤ day today
    → (contains (need as_at today) x ≡ (contains (need as_at mid) x || contains (need mid today) x))
      × ((contains (need as_at mid) x && contains (need mid today) x) ≡ false)
unfolding contains need
need-joined as_at mid today x i j = ground (arith, i, j)

module _ {D : Type 0} (dec : Decimals D) where
  abbrev product : Period → List (Act D) → Rat
  product p es = factor_from dec p (1, 1) es

  factor_from-times :
      (p : Period) (f : Rat) (es : List (Act D))
      → factor_from dec p f es ≡ times f (factor_from dec p (1, 1) es)
  unfolding factor_from
  factor_from-times p f [] = sym (times_one f)
  factor_from-times p f (e ∷ es) =
      let r = quo (dec.rat e.ratio.to) (dec.rat e.ratio.from) in
      elim (Bool-cases (restates e && contains p e.ex_date)) [
        | inr k ↦ rw (k, factor_from) (factor_from-times p f es)
        | inl k ↦
            rw (k, factor_from)
              (factor_from-times p (times f r) es
                ∙ times_assoc f r _
                ∙ ap (times f) (
                    ap (λ x. times x (product p es)) (sym (one_times r))
                    ∙ sym (factor_from-times p (times (1, 1) r) es)))
      ]

  abbrev step : Period → Act D → Rat
  step p e =
      if restates e && contains p e.ex_date
      then quo (dec.rat e.ratio.to) (dec.rat e.ratio.from)
      else (1, 1)

  product-cons :
      (p : Period) (e : Act D) (es : List (Act D))
      → product p (e ∷ es) ≡ times (step p e) (product p es)
  unfolding factor_from
  product-cons p e es =
      let r = quo (dec.rat e.ratio.to) (dec.rat e.ratio.from) in
      elim (Bool-cases (restates e && contains p e.ex_date)) [
        | inr k ↦ rw (k, factor_from) (sym (one_times (product p es)))
        | inl k ↦
            rw (k, factor_from)
              (factor_from-times p (times (1, 1) r) es
                ∙ ap (λ x. times x (product p es)) (one_times r))
      ]

  -- Two periods that follow one another, and the period that they make up.
  abbrev IsSplit : Period → Period → Period → Type 0
  IsSplit p q r =
      (x : Time)
      → (contains r x ≡ (contains p x || contains q x)) × ((contains p x && contains q x) ≡ false)

  step-split : (p q r : Period) (e : Act D) → IsSplit p q r → step r e ≡ times (step p e) (step q e)
  step-split p q r e s =
      split (restates e) (contains p e.ex_date) (contains q e.ex_date) (contains r e.ex_date)
        (s e.ex_date)
    where
      x : Rat
      x = quo (dec.rat e.ratio.to) (dec.rat e.ratio.from)

      split :
          (k a b c : Bool)
          → (c ≡ (a || b)) × ((a && b) ≡ false)
          → (if k && c then x else (1, 1))
            ≡ times (if k && a then x else (1, 1)) (if k && b then x else (1, 1))
      split false a b c h = refl
      split true true true c h = cc
      split true true false c h = rw (h.0) (sym (times_one x))
      split true false true c h = rw (h.0) (sym (one_times x))
      split true false false c h = rw (h.0) refl

  product-split :
      (p q r : Period) (es : List (Act D))
      → IsSplit p q r
      → product r es ≡ times (product p es) (product q es)
  unfolding factor_from
  product-split p q r [] s = refl
  product-split p q r (e ∷ es) s =
      product-cons r e es
      ∙ ap₂ times (step-split p q r e s) (product-split p q r es s)
      ∙ times_shuffle (step p e) (step q e) (product p es) (product q es)
      ∙ ap₂ times (sym (product-cons p e es)) (sym (product-cons q e es))

  product-empty : (p : Period) (es : List (Act D)) → p.before ≤ p.from → product p es ≡ (1, 1)
  unfolding factor_from
  product-empty p [] h = refl
  product-empty p (e ∷ es) h =
      product-cons p e es
      ∙ ap₂ times (step-empty (restates e) (outside e.ex_date)) (product-empty p es h)
    where
      outside : (x : Time) → contains p x ≡ false
      outside x = contains-empty p x h

      step-empty : (k : Bool) → contains p e.ex_date ≡ false → step p e ≡ (1, 1)
      step-empty k g =
          rw (g) (elim (Bool-cases (restates e)) [ inl j ↦ rw (j) refl | inr j ↦ rw (j) refl ])

  factor-product :
      (c : Calendar D) (as_at today : Time)
      → (factor dec c as_at today).0 ≡ product (need as_at today) c.acts
  unfolding factor
  factor-product c as_at today =
      elim (Bool-cases (ltb (need as_at today).from (need as_at today).before)) [
        | inl k ↦ rw (k, factor) refl
        | inr k ↦ rw (k, factor) (sym (product-empty (need as_at today) c.acts (ground (arith, k))))
      ]

  -- Where `mid` lies from `as_at` to `today`, the factor from `as_at` to `today` is the factor from
  -- `as_at` to `mid`, times the factor from `mid` to `today`.
  pub factor-times :
      (c : Calendar D) (as_at mid today : Time)
      → as_at ≤ mid
      → mid ≤ today
      → (factor dec c as_at today).0 ≡ times (factor dec c as_at mid).0 (factor dec c mid today).0
  factor-times c as_at mid today h k =
      factor-product c as_at today
      ∙ product-split (need as_at mid) (need mid today) (need as_at today) c.acts
          (λ x. need-split (day_mono as_at mid h) (day_mono mid today k) x)
      ∙ ap₂ times (sym (factor-product c as_at mid)) (sym (factor-product c mid today))
    where
      need-split :
          day as_at ≤ day mid
          → day mid ≤ day today
          → IsSplit (need as_at mid) (need mid today) (need as_at today)
      need-split i j x = need-joined as_at mid today x i j
