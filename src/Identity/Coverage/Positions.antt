-- ===== src/Identity/Coverage/Positions.antt =====
-- The positions of the keys, as one entry of each key, and the holdings as their periods.
use stonks.Base.{
  ℕ, suc, ◌+◌, Bool, false, none, some, List, [], ◌∷◌, ◌++◌, map, length, ◌≡◌, refl, sym, ap, ap₂,
  ◌∙◌, arith, All, All-mono, Bool-cases, Option-cases, inl, inr, ◌==◌, if◌then◌else◌,
}
use stonks.Types.Time.{Time, next, day}
use stonks.Types.Period.{Period}
use stonks.TickerValidity.Facts.{Id128}
use stonks.Identity.Coverage.{
  TxnDay, index_of, set_before, Holdings, add_sum, hold_day, hold_days, hold_open, holdings,
}

-- What one key has traded: the day of its first transaction, the end of its last one, and the sum
-- of its quantities.
pub record Position (D : Type 0) : Type 0 where
  pub key : Id128
  pub span : Period
  pub sum : D

abbrev pub spans : {D : Type 0} → List (Position D) → List Period
spans = map (λ r. r.span)

-- Where the loop keeps the period of each key, from the index `n` on.
abbrev opened : {D : Type 0} → ℕ → List (Position D) → List (Id128 × ℕ)
opened n [] = []
opened n (r ∷ rs) = (r.key, n) ∷ opened (suc n) rs

set_before-append :
    (t u : Time) (x : Time) (ps : List Period)
    → set_before (length ps) t (ps ++ record { from = x; before = u } ∷ [])
      ≡ ps ++ record { from = x; before = t } ∷ []
unfolding set_before
set_before-append t u x [] = refl
set_before-append t u x (p ∷ ps) = ap (◌∷◌ p) (set_before-append t u x ps)

module _ {D : Type 0} (nothing : D) (plus : D → D → D) where
  abbrev first_trade : TxnDay D → Position D
  first_trade d = record {
    key = d.key;
    span = record { from = d.as_at; before = next d.as_at };
    sum = plus nothing d.quantity;
  }

  abbrev next_trade : TxnDay D → Position D → Position D
  next_trade d r = record {
    key = r.key;
    span = record { from = r.span.from; before = next d.as_at };
    sum = plus r.sum d.quantity;
  }

  -- A transaction moves the position of its key, and opens one where there is none.
  unfoldable pub trade : TxnDay D → List (Position D) → List (Position D)
  trade d [] = first_trade d ∷ []
  trade d (r ∷ rs) = if r.key == d.key then next_trade d r ∷ rs else r ∷ trade d rs

  unfoldable pub trade_all : List (TxnDay D) → List (Position D) → List (Position D)
  unfolding trade
  trade_all [] rs = rs
  trade_all (d ∷ ds) rs = trade_all ds (trade d rs)

  -- The quantity of a key.
  unfoldable sum_of : Id128 → List (Position D) → D
  sum_of k [] = nothing
  sum_of k (r ∷ rs) = if r.key == k then r.sum else sum_of k rs

  sum_of-trade :
      (d : TxnDay D) (rs : List (Position D)) (k : Id128)
      → sum_of k (trade d rs) ≡ add_sum plus d.key d.quantity (λ j. sum_of j rs) k
  unfolding sum_of trade add_sum
  sum_of-trade d [] k = ground arith
  sum_of-trade d (r ∷ rs) k = ground (arith, sum_of-trade d rs k)

  -- The keys of a list of positions differ.
  abbrev Differ : List (Position D) → Type 0
  Differ [] = Unit
  Differ (r ∷ rs) = All (λ q. (r.key == q.key) ≡ false) rs × Differ rs

  differ-trade :
      (d : TxnDay D) (k : Id128) (rs : List (Position D))
      → (k == d.key) ≡ false
      → All (λ q. (k == q.key) ≡ false) rs
      → All (λ q. (k == q.key) ≡ false) (trade d rs)
  unfolding trade
  differ-trade d k [] e h = (e, tt)
  differ-trade d k (r ∷ rs) e h = ground (arith, differ-trade d k rs e h.1)

  trade-Differ : (d : TxnDay D) (rs : List (Position D)) → Differ rs → Differ (trade d rs)
  unfolding trade
  trade-Differ d [] h = (tt, tt)
  trade-Differ d (r ∷ rs) h = elim (Bool-cases (r.key == d.key)) [
    | inl e ↦ rw (e, trade) h
    | inr e ↦ rw (e, trade) (differ-trade d r.key rs e h.0, trade-Differ d rs h.1)
  ]

  -- A key with a place has its position there, and the move of its transaction is at that place.
  trade_known :
      (d : TxnDay D) (n i : ℕ) (rs : List (Position D))
      → index_of d.key (opened n rs) ≡ some i
      → (j : ℕ) × (i ≡ n + j)
        × (set_before j (next d.as_at) (spans rs) ≡ spans (trade d rs))
        × ((m : ℕ) → opened m rs ≡ opened m (trade d rs))
  unfolding index_of trade set_before
  trade_known d n i [] e = cc
  trade_known d n i (r ∷ rs) e = elim (Bool-cases (r.key == d.key)) [
    | inl h ↦ rw (h, trade) (0, ground (arith, e, h), refl, λ m. refl)
    | inr h ↦
        let (j, at, moved, kept) = trade_known d (suc n) i rs (rw h at e) in
        rw (h, trade)
          (suc j, omega (arith, at), ap (◌∷◌ r.span) moved, λ m. ap (◌∷◌ (r.key, m)) (kept (suc m)))
  ]

  trade_new :
      (d : TxnDay D) (n : ℕ) (rs : List (Position D))
      → index_of d.key (opened n rs) ≡ none
      → (spans (trade d rs) ≡ spans rs ++ record { from = d.as_at; before = next d.as_at } ∷ [])
        × (opened n (trade d rs) ≡ opened n rs ++ (d.key, n + length rs) ∷ [])
  unfolding index_of trade
  trade_new d n [] e = (refl, ground arith)
  trade_new d n (r ∷ rs) e = elim (Bool-cases (r.key == d.key)) [
    | inl h ↦ absurd (ground (arith, e, h))
    | inr h ↦
        let (moved, kept) = trade_new d (suc n) rs (rw h at e) in
        rw (h, trade)
          (
            ap (◌∷◌ r.span) moved,
            ap (◌∷◌ (r.key, n))
                (kept ∙ ap (λ m. opened (suc n) rs ++ (d.key, m) ∷ []) (omega arith)),
          )
  ]

  -- The state of the loop, read off the positions.
  abbrev Reads : List (Position D) → Holdings D → Type 0
  Reads rs s =
      (s.out ≡ spans rs) × (s.places ≡ opened 0 rs) × ((k : Id128) → s.sums k ≡ sum_of k rs)

  Reads-none : Reads [] (record { out = []; places = []; sums = λ k. nothing })
  unfolding sum_of
  Reads-none = (refl, refl, λ k. refl)

  length-spans : (rs : List (Position D)) → length (spans rs) ≡ length rs
  length-spans [] = refl
  length-spans (r ∷ rs) = ap suc (length-spans rs)

  sums-trade :
      (d : TxnDay D) (rs : List (Position D)) (s : Holdings D)
      → ((k : Id128) → s.sums k ≡ sum_of k rs)
      → (k : Id128) → add_sum plus d.key d.quantity s.sums k ≡ sum_of k (trade d rs)
  unfolding add_sum
  sums-trade d rs s h k = rw (sum_of-trade d rs k, h k) refl

  hold_day-Reads :
      (d : TxnDay D) (rs : List (Position D)) (s : Holdings D)
      → Reads rs s
      → Reads (trade d rs) (hold_day plus d s)
  unfolding hold_day
  hold_day-Reads d rs s h = elim (Option-cases (index_of d.key s.places)) [
    | inl e ↦
        let (moved, kept) = trade_new d 0 rs (rw h.1 at e) in
        rw (e, hold_day)
          (
            rw (h.0, moved) (set_before-append (next d.as_at) 0 d.as_at (spans rs)),
            ap₂ (λ ps m. ps ++ (d.key, m) ∷ []) h.1 (ap length h.0 ∙ length-spans rs ∙ omega arith)
                ∙ sym kept,
            sums-trade d rs s h.2,
          )
    | inr (i, e) ↦
        let (j, at, moved, kept) = trade_known d 0 i rs (rw h.1 at e) in
        rw (e, hold_day)
          (
            ap₂ (λ m. set_before m (next d.as_at)) (at ∙ omega arith) h.0 ∙ moved,
            h.1 ∙ kept 0,
            sums-trade d rs s h.2,
          )
  ]

  hold_days-Reads :
      (ds : List (TxnDay D)) (rs : List (Position D)) (s : Holdings D)
      → Reads rs s
      → Reads (trade_all ds rs) (hold_days plus ds s)
  unfolding hold_days trade_all
  hold_days-Reads [] rs s h = h
  hold_days-Reads (d ∷ ds) rs s h =
      hold_days-Reads ds (trade d rs) (hold_day plus d s) (hold_day-Reads d rs s h)

  trade_all-Differ :
      (ds : List (TxnDay D)) (rs : List (Position D)) → Differ rs → Differ (trade_all ds rs)
  unfolding trade_all
  trade_all-Differ [] rs h = h
  trade_all-Differ (d ∷ ds) rs h = trade_all-Differ ds (trade d rs) (trade-Differ d rs h)

  sum_of_later :
      (r : Position D) (rs qs : List (Position D))
      → All (λ q. (r.key == q.key) ≡ false) qs
      → All (λ q. sum_of q.key rs ≡ q.sum) qs
      → All (λ q. sum_of q.key (r ∷ rs) ≡ q.sum) qs
  unfolding sum_of
  sum_of_later r rs [] h k = tt
  sum_of_later r rs (q ∷ qs) h k = (ground (arith, h.0, k.0), sum_of_later r rs qs h.1 k.1)

  sum_of_own : (rs : List (Position D)) → Differ rs → All (λ r. sum_of r.key rs ≡ r.sum) rs
  unfolding sum_of
  sum_of_own [] h = tt
  sum_of_own (r ∷ rs) h = (ground arith, sum_of_later r rs rs h.0 (sum_of_own rs h.1))

module _ {D : Type 0} (is_zero : D → Bool) where
  abbrev through : Time → Position D → Period
  through today r = record { from = r.span.from; before = next (day today) }

  -- A position that is not closed is held through today.
  abbrev pub held_to : Time → Position D → Period
  held_to today r = if is_zero r.sum then r.span else through today r

  hold_open_later :
      (sums : Id128 → D) (today : Time) (n : ℕ) (rs : List (Position D)) (p : Period)
      (ps : List Period)
      → hold_open is_zero sums today (opened (suc n) rs) (p ∷ ps)
        ≡ p ∷ hold_open is_zero sums today (opened n rs) ps
  unfolding hold_open set_before
  hold_open_later sums today n [] p ps = refl
  hold_open_later sums today n (r ∷ rs) p ps = elim (Bool-cases (is_zero (sums r.key))) [
    | inl e ↦ rw (e, hold_open) (hold_open_later sums today (suc n) rs p ps)
    | inr e ↦ rw (e, hold_open) (hold_open_later sums today (suc n) rs p _)
  ]

  hold_open-held_to :
      (sums : Id128 → D) (today : Time) (rs : List (Position D))
      → All (λ r. sums r.key ≡ r.sum) rs
      → hold_open is_zero sums today (opened 0 rs) (spans rs) ≡ map (held_to today) rs
  unfolding hold_open set_before
  hold_open-held_to sums today [] h = refl
  hold_open-held_to sums today (r ∷ rs) h = elim (Bool-cases (is_zero r.sum)) [
    | inl e ↦
        rw (h.0, e, hold_open)
          (hold_open_later sums today 0 rs r.span (spans rs)
            ∙ ap (◌∷◌ r.span) (hold_open-held_to sums today rs h.1))
    | inr e ↦
        rw (h.0, e, hold_open)
          (hold_open_later sums today 0 rs (through today r) (spans rs)
            ∙ ap (◌∷◌ (through today r)) (hold_open-held_to sums today rs h.1))
  ]

module _ {D : Type 0} (nothing : D) (plus : D → D → D) (is_zero : D → Bool) where
  -- The periods of `holdings` are those of the positions that the transactions leave, one of each
  -- key, in order of their first transaction: from the day of its first transaction, through today
  -- where its quantities sum to something, and else through its last transaction.
  pub holdings-positions :
      (ds : List (TxnDay D)) (today : Time)
      → holdings nothing plus is_zero ds today
        ≡ map (held_to is_zero today) (trade_all nothing plus ds [])
  unfolding holdings
  holdings-positions ds today =
      let rs = trade_all nothing plus ds [] in
      let s = hold_days plus ds (record { out = []; places = []; sums = λ k. nothing }) in
      let reads : Reads nothing plus rs s =
        hold_days-Reads nothing plus ds [] _ (Reads-none nothing plus) in
      let own : All (λ r. s.sums r.key ≡ r.sum) rs =
        All-mono (λ r e. reads.2 r.key ∙ e) rs
          (sum_of_own nothing plus rs (trade_all-Differ nothing plus ds [] tt)) in
      ap₂ (hold_open is_zero s.sums today) reads.1 reads.0
      ∙ hold_open-held_to is_zero s.sums today rs own
