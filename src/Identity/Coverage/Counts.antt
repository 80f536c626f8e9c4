-- ===== src/Identity/Coverage/Counts.antt =====
-- The keys that a gap counts.
use stonks.Base.{
  ℕ, suc, ◌≤◌, Bool, true, false, ◌&&◌, ◌||◌, List, [], ◌∷◌, map, length, ltb, ◌≡◌, refl, ◌∙◌, ap,
  arith, any, All, Bool-cases, inl, inr, ◌==◌,
}
use stonks.Types.Time.{Time, next, day}
use stonks.Types.Period.{Period, contains}
use stonks.TickerValidity.Facts.{Id128}
use stonks.TickerValidity.Segments.{Interval}
use stonks.Identity.Coverage.{TxnDay, Gap, put_key, count_days, gap_of, gaps}

-- A list without repeats.
abbrev pub NoRepeats : List Id128 → Type 0
NoRepeats [] = Unit
NoRepeats (k ∷ ks) = (any (λ j. j == k) ks ≡ false) × NoRepeats ks

-- As many keys pass a test as `n` says.
abbrev pub Counts : (Id128 → Bool) → ℕ → Type 0
Counts f n =
    (ks : List Id128) × NoRepeats ks × ((k : Id128) → any (λ j. j == k) ks ≡ f k) × (n ≡ length ks)

round_in : (a b c : Bool) → ((a || b) || c) ≡ (a || ((b && true) || c))
round_in a b c = ground arith

round_out : (a b c : Bool) → (a || c) ≡ (a || ((b && false) || c))
round_out a b c = ground arith

absorbed : (a b : Bool) → (b ≡ true → a ≡ true) → a ≡ (a || b)
absorbed a b h = ground (arith, h)

swapped : (a b : Bool) → (b || a) ≡ (a || b)
swapped a b = ground arith

same_key :
    (k j : Id128) (ks : List Id128)
    → any (λ i. i == k) ks ≡ true
    → (k == j) ≡ true
    → any (λ i. i == j) ks ≡ true
same_key k j [] h e = absurd (ground (arith, h))
same_key k j (i ∷ ks) h e = ground (arith, same_key k j ks)

put_key-length : (k : Id128) (ks : List Id128) → length (put_key k ks) ≤ suc (length ks)
unfolding put_key
put_key-length k ks = ground arith

put_key-set : (k : Id128) (ks : List Id128) → NoRepeats ks → NoRepeats (put_key k ks)
unfolding put_key
put_key-set k ks h = ground (arith, h)

put_key-any :
    (k j : Id128) (ks : List Id128)
    → any (λ i. i == j) (put_key k ks) ≡ (any (λ i. i == j) ks || k == j)
unfolding put_key
put_key-any k j ks = elim (Bool-cases (any (λ i. i == k) ks)) [
  | inl e ↦ rw (e, put_key) (absorbed _ (k == j) (same_key k j ks e))
  | inr e ↦ rw (e, put_key) (swapped (any (λ i. i == j) ks) (k == j))
]

module _ {D : Type 0} where
  -- The key has a transaction on a day that passes the test.
  abbrev pub trades_in : (Time → Bool) → List (TxnDay D) → Id128 → Bool
  trades_in f ds k = any (λ d. d.key == k && f d.as_at) ds

  count_days-set :
      (f : Time → Bool) (ds : List (TxnDay D)) (n : ℕ) (ks : List Id128)
      → NoRepeats ks
      → NoRepeats (count_days f ds (n, ks)).1
  unfolding count_days
  count_days-set f [] n ks h = h
  count_days-set f (d ∷ ds) n ks h = elim (Bool-cases (f d.as_at)) [
    | inl e ↦ rw (e, count_days) (count_days-set f ds _ _ (put_key-set d.key ks h))
    | inr e ↦ rw (e, count_days) (count_days-set f ds n ks h)
  ]

  count_days-any :
      (f : Time → Bool) (ds : List (TxnDay D)) (n : ℕ) (ks : List Id128) (k : Id128)
      → any (λ j. j == k) (count_days f ds (n, ks)).1 ≡ (any (λ j. j == k) ks || trades_in f ds k)
  unfolding count_days
  count_days-any f [] n ks k = ground arith
  count_days-any f (d ∷ ds) n ks k = elim (Bool-cases (f d.as_at)) [
    | inl e ↦
        rw (e, count_days)
          (count_days-any f ds _ _ k
            ∙ ap (λ x. x || trades_in f ds k) (put_key-any d.key k ks)
            ∙ round_in _ (d.key == k) _)
    | inr e ↦ rw (e, count_days) (count_days-any f ds n ks k ∙ round_out _ (d.key == k) _)
  ]

  pub count_days-Counts :
      (f : Time → Bool) (ds : List (TxnDay D))
      → Counts (trades_in f ds) (length (count_days f ds (0, [])).1)
  count_days-Counts f ds = (
    (count_days f ds (0, [])).1,
    count_days-set f ds 0 [] tt,
    λ k. count_days-any f ds 0 [] k,
    refl,
  )

  -- Each day of the list has a transaction.
  abbrev pub HasTxns : List (TxnDay D) → Type 0
  HasTxns = All (λ d. 1 ≤ d.txns)

  count_days-bounds :
      (f : Time → Bool) (ds : List (TxnDay D)) (n : ℕ) (ks : List Id128)
      → HasTxns ds
      → length ks ≤ n
      → length (count_days f ds (n, ks)).1 ≤ (count_days f ds (n, ks)).0
  unfolding count_days put_key
  count_days-bounds f [] n ks h k = k
  count_days-bounds f (d ∷ ds) n ks h k = elim (Bool-cases (f d.as_at)) [
    | inl e ↦
        rw (e, count_days)
          (count_days-bounds f ds _ _ h.1 (omega (arith, k, h.0, put_key-length d.key ks)))
    | inr e ↦ rw (e, count_days) (count_days-bounds f ds n ks h.1 k)
  ]

  abbrev pub IsCounted : List (TxnDay D) → Gap → Type 0
  IsCounted ds g = Counts (trades_in (contains g.period) ds) g.keys × (g.keys ≤ g.txns)

  gap_of-IsCounted :
      (ds : List (TxnDay D)) (ps : List Period)
      → HasTxns ds
      → All (IsCounted ds) (map (gap_of ds) ps)
  unfolding gap_of
  gap_of-IsCounted ds [] h = tt
  gap_of-IsCounted ds (p ∷ ps) h = (
    (count_days-Counts (contains p) ds, count_days-bounds (contains p) ds 0 [] h (omega arith)),
    gap_of-IsCounted ds ps h,
  )

  -- Where each day has a transaction, each gap counts as many keys as have a transaction in it, and
  -- no more keys than transactions.
  pub gaps-IsCounted :
      (ivs : List Interval) (settled : List Period) (ds : List (TxnDay D)) (today : Time)
      → HasTxns ds
      → All (IsCounted ds) (gaps ivs settled ds today)
  unfolding gaps
  gaps-IsCounted ivs settled [] today h = tt
  gaps-IsCounted ivs settled (d ∷ ds) today h = elim (Bool-cases (ltb d.as_at (next (day today)))) [
    | inl e ↦ rw (e, gaps) (gap_of-IsCounted (d ∷ ds) _ h)
    | inr e ↦ rw (e, gaps) tt
  ]
