-- ===== src/Identity/Coverage.antt =====
-- The gaps of a ticker's transactions and the positions of its keys:
-- server/internal/identity/coverage/coverage.go. A quantity is a parameter, with the addition and
-- the test for zero of its package.
pub mod Counts
pub mod Sums
pub mod Positions
pub mod Alerts
pub mod Held
use stonks.Base.{
  ℕ, zero, suc, ◌+◌, Bool, Option, none, some, List, [], ◌∷◌, ◌++◌, map, length, any, ltb, ◌==◌,
  if◌then◌else◌,
}
use stonks.Types.Time.{Time, next, day}
use stonks.Types.Period
use stonks.Types.Period.{Period, contains}
use stonks.TickerValidity.Facts.{Id128}
use stonks.TickerValidity.Segments.{Interval}
use stonks.TickerValidity.Intervals.{confirmed_parts}

-- The transactions of one key on one as-at day.
pub record TxnDay (D : Type 0) : Type 0 where
  pub key : Id128
  pub as_at : Time
  pub txns : ℕ
  pub quantity : D

pub record Gap : Type 0 where
  pub period : Period
  pub keys : ℕ
  pub txns : ℕ

-- keys[k] = true, on the keys of a map to true.
unfoldable pub put_key : Id128 → List Id128 → List Id128
put_key k keys = if any (λ j. j == k) keys then keys else k ∷ keys

module _ {D : Type 0} where
  -- The transactions and the keys of the days that pass a test, as the loops of gaps and
  -- namesNothing count them.
  unfoldable pub count_days : (Time → Bool) → List (TxnDay D) → ℕ × List Id128 → ℕ × List Id128
  unfolding put_key
  count_days f [] s = s
  count_days f (d ∷ ds) (n, keys) =
      count_days f ds (if f d.as_at then (n + d.txns, put_key d.key keys) else (n, keys))

  unfoldable pub gap_of : List (TxnDay D) → Period → Gap
  unfolding count_days
  gap_of ds p =
      let (n, keys) = count_days (contains p) ds (0, []) in
      record { period = p; keys = length keys; txns = n }

  -- From the first transaction up to and including today.
  unfoldable pub txn_period : TxnDay D → Time → Period
  unfolding day
  txn_period d today = record { from = d.as_at; before = next (day today) }

  unfoldable pub gaps : List Interval → List Period → List (TxnDay D) → Time → List Gap
  unfolding txn_period gap_of confirmed_parts Period.gaps
  gaps ivs settled [] today = []
  gaps ivs settled (d ∷ ds) today =
      let period = txn_period d today in
      if ltb period.from period.before
      then map (gap_of (d ∷ ds)) (Period.gaps (settled ++ confirmed_parts ivs period) period)
      else []

-- The place of a key in `out`.
unfoldable pub index_of : Id128 → List (Id128 × ℕ) → Option ℕ
index_of k [] = none
index_of k ((j, i) ∷ places) = if j == k then some i else index_of k places

-- out[i].Before = t
unfoldable pub set_before : ℕ → Time → List Period → List Period
set_before i t [] = []
set_before zero t (p ∷ ps) = record p { before = t } ∷ ps
set_before (suc i) t (p ∷ ps) = p ∷ set_before i t ps

-- `places` is the map that the code calls open. A missing key of `sums` has the zero quantity.
pub record Holdings (D : Type 0) : Type 0 where
  pub out : List Period
  pub places : List (Id128 × ℕ)
  pub sums : Id128 → D

module _ {D : Type 0} (plus : D → D → D) where
  unfoldable pub add_sum : Id128 → D → (Id128 → D) → Id128 → D
  add_sum k q sums j = if k == j then plus (sums j) q else sums j

  -- One round of the loop over the days.
  unfoldable pub hold_day : TxnDay D → Holdings D → Holdings D
  unfolding index_of set_before add_sum
  hold_day d s = elim (index_of d.key s.places) [
    | some i ↦ record {
      out = set_before i (next d.as_at) s.out;
      places = s.places;
      sums = add_sum d.key d.quantity s.sums;
    }
    | none ↦ record {
      out =
          set_before (length s.out) (next d.as_at)
            (s.out ++ record { from = d.as_at; before = 0 } ∷ []);
      places = s.places ++ (d.key, length s.out) ∷ [];
      sums = add_sum d.key d.quantity s.sums;
    }
  ]

  unfoldable pub hold_days : List (TxnDay D) → Holdings D → Holdings D
  unfolding hold_day
  hold_days [] s = s
  hold_days (d ∷ ds) s = hold_days ds (hold_day d s)

module _ {D : Type 0} (is_zero : D → Bool) where
  -- The loop over the open keys, in order of their first transaction.
  unfoldable pub hold_open : (Id128 → D) → Time → List (Id128 × ℕ) → List Period → List Period
  unfolding set_before day
  hold_open sums today [] out = out
  hold_open sums today ((k, i) ∷ places) out =
      hold_open sums today places
        (if is_zero (sums k) then out else set_before i (next (day today)) out)

module _ {D : Type 0} (nothing : D) (plus : D → D → D) (is_zero : D → Bool) where
  unfoldable pub holdings : List (TxnDay D) → Time → List Period
  unfolding hold_days hold_open
  holdings ds today =
      let s = hold_days plus ds (record { out = []; places = []; sums = λ k. nothing }) in
      hold_open is_zero s.sums today s.places s.out
