-- ===== src/TickerValidity/Current/Rounds.antt =====
-- The loop of `current` against the reach of the strictly newer answers.
use mathlib.Core.List.{append-nil, append_assoc, map-append}
use stonks.Base.{
  Bool, true, false, not, List, [], ◌∷◌, ◌++◌, map, ◌≡◌, refl, sym, ap, ◌∙◌, inl, inr, arith, All,
  All-mono, All-append, ap₂, filter_b, Bool-cases,
}
use stonks.Base.Any.{IsOrdered, stable_sort-IsOrdered}
use stonks.TickerValidity.Facts.{Source, Assertion, newer}
use stonks.TickerValidity.Current.{
  Taken, Placed, left_by, none_taken, take_all, rounds, start_rounds, by_newest,
}

abbrev pub newer_than : Placed → Placed → Bool
newer_than p q = newer q.assertion.source p.assertion.source

abbrev pub placed_assertion : Placed → Assertion
placed_assertion p = p.assertion

-- What the answers of `ps` that are newer than `p` take, after `taken`.
abbrev pub taken_before : Taken → List Placed → Placed → Taken
taken_before taken ps p = take_all (map placed_assertion (filter_b (newer_than p) ps)) taken

-- No later element is newer.
abbrev pub IsByNewest : List Placed → Type 0
IsByNewest = IsOrdered (λ p q. not (newer_than p q))

newer_trans :
    (a b c : Source) → not (newer b a) ≡ true → not (newer c b) ≡ true → not (newer c a) ≡ true
unfolding newer
newer_trans a b c h k = ground arith

newer_asymm : (a b : Source) → not (newer b a) ≡ false → not (newer a b) ≡ true
unfolding newer
newer_asymm a b h = ground arith

pub by_newest-IsByNewest : (ps : List Placed) → IsByNewest (by_newest ps)
unfolding by_newest
by_newest-IsByNewest ps =
    stable_sort-IsOrdered _ (λ p q h. newer_asymm p.assertion.source q.assertion.source h)
      (λ p q r h k. newer_trans p.assertion.source q.assertion.source r.assertion.source h k) ps

take_all-append :
    (xs ys : List Assertion) (taken : Taken)
    → take_all (xs ++ ys) taken ≡ take_all ys (take_all xs taken)
unfolding take_all
take_all-append [] ys taken = refl
take_all-append (x ∷ xs) ys taken = take_all-append xs ys _

filter-none :
    {A : Type 0} (f : A → Bool) (xs : List A) → All (λ x. f x ≡ false) xs → filter_b f xs ≡ []
filter-none f [] h = refl
filter-none f (x ∷ xs) h = rw h.0 (filter-none f xs h.1)

filter-All :
    {A : Type 0} (f : A → Bool) (xs : List A) → All (λ x. f x ≡ true) xs → filter_b f xs ≡ xs
filter-All f [] h = refl
filter-All f (x ∷ xs) h = rw h.0 (ap (◌∷◌ x) (filter-All f xs h.1))

filter-append :
    {A : Type 0} (f : A → Bool) (xs ys : List A)
    → filter_b f (xs ++ ys) ≡ filter_b f xs ++ filter_b f ys
filter-append f [] ys = refl
filter-append f (x ∷ xs) ys = ground (arith, filter-append f xs ys)

map-ext_of_All :
    {A B : Type 0} (f g : A → B) (xs : List A) → All (λ x. f x ≡ g x) xs → map f xs ≡ map g xs
map-ext_of_All f g [] h = refl
map-ext_of_All f g (x ∷ xs) h = cc (h.0, map-ext_of_All f g xs h.1)

-- The elements of a batch are as new as its head.
abbrev IsBatch : Placed → List Placed → Type 0
IsBatch head = All (λ b. (newer_than head b ≡ false) × (newer_than b head ≡ false))

-- As new as one another.
abbrev AsNew : Placed → Placed → Type 0
AsNew head b = (newer_than head b ≡ false) × (newer_than b head ≡ false)

not-newer_of_AsNew :
    (head b q : Placed) → AsNew head b → newer_than head q ≡ false → newer_than b q ≡ false
unfolding newer
not-newer_of_AsNew head b q h k = ground arith

newer_of_AsNew :
    (head b p r : Placed)
    → AsNew head b
    → newer_than p head ≡ true
    → not (newer_than p r) ≡ true
    → newer_than r b ≡ true
unfolding newer
newer_of_AsNew head b p r h k l = ground arith

module _ (taken : Taken) (head : Placed) (batch : List Placed) (same : IsBatch head batch) where
  batch-left :
      (rest : List Placed)
      → All (λ q. newer_than head q ≡ false) rest
      → All (λ b. left_by taken b ≡ left_by (taken_before taken (batch ++ rest) b) b) batch
  unfolding take_all
  batch-left rest older = All-mono (λ b h. at b h) batch same
    where
      at :
          (b : Placed)
          → AsNew head b
          → left_by taken b ≡ left_by (taken_before taken (batch ++ rest) b) b
      at b h =
          let in_batch =
            filter-none (newer_than b) batch
              (All-mono (λ q g. not-newer_of_AsNew head b q h g.0) batch same) in
          let in_rest =
            filter-none (newer_than b) rest
              (All-mono (λ q g. not-newer_of_AsNew head b q h g) rest older) in
          rw (filter-append (newer_than b) batch rest, in_batch, in_rest) refl

  rest-left :
      (p : Placed) (rest : List Placed)
      → newer_than p head ≡ true
      → All (λ r. not (newer_than p r) ≡ true) rest
      → All
          (λ r.
            left_by (taken_before (take_all (map placed_assertion batch) taken) rest r) r
            ≡ left_by (taken_before taken (batch ++ rest) r) r)
          rest
  rest-left p rest k sorted = All-mono (λ r h. at r h) rest sorted
    where
      at :
          (r : Placed)
          → not (newer_than p r) ≡ true
          → left_by (taken_before (take_all (map placed_assertion batch) taken) rest r) r
            ≡ left_by (taken_before taken (batch ++ rest) r) r
      at r h =
          let in_batch =
            filter-All (newer_than r) batch
              (All-mono (λ b g. newer_of_AsNew head b p r g k h) batch same) in
          rw
            (
              filter-append (newer_than r) batch rest,
              in_batch,
              map-append placed_assertion batch (filter_b (newer_than r) rest),
              take_all-append (map placed_assertion batch)
                  (map placed_assertion (filter_b (newer_than r) rest)) taken,
            )
            refl

newer_irrefl : (p : Placed) → newer_than p p ≡ false
unfolding newer
newer_irrefl p = ground arith

not-eq : {b : Bool} → not b ≡ true → b ≡ false
not-eq {b} h = ground arith

rounds-lem :
    (taken : Taken) (head : Placed) (batch rest : List Placed)
    → IsBatch head batch
    → All (λ q. newer_than head q ≡ false) rest
    → IsByNewest rest
    → rounds taken head batch rest
      ≡ map (λ p. left_by (taken_before taken (batch ++ rest) p) p) (batch ++ rest)
unfolding rounds
rounds-lem taken head batch [] same older s =
    map-ext_of_All _ _ batch (batch-left taken head batch same [] tt)
    ∙ ap (map (λ p. left_by (taken_before taken (batch ++ []) p) p)) (sym (append-nil batch))
rounds-lem taken head batch (p ∷ ps) same older s = elim (Bool-cases (newer_than p head)) [
  | inl k ↦
      rw (k, rounds)
        (ap₂ ◌++◌ (map-ext_of_All _ _ batch (batch-left taken head batch same (p ∷ ps) older)) (
            rounds-lem (take_all (map placed_assertion batch) taken) p (p ∷ []) ps
              ((newer_irrefl p, newer_irrefl p), tt) (All-mono (λ r h. not-eq h) ps s.0) s.1
            ∙ map-ext_of_All _ _ (p ∷ ps)
                (rest-left taken head batch same p (p ∷ ps) k (ap not (newer_irrefl p), s.0)))
          ∙ sym
              (map-append (λ q. left_by (taken_before taken (batch ++ p ∷ ps) q) q) batch (p ∷ ps)))
  | inr k ↦
      rw (k, rounds)
        (rounds-lem taken head (batch ++ p ∷ []) ps
            (All-append _ batch (p ∷ []) same ((older.0, k), tt)) older.1 s.1
          ∙ ap (λ qs. map (λ q. left_by (taken_before taken qs q) q) qs)
              (append_assoc batch (p ∷ []) ps))
]

-- Each answer, newest first, is left what the strictly newer answers do not take.
pub start_rounds-lem :
    (ps : List Placed)
    → IsByNewest ps
    → start_rounds ps ≡ map (λ p. left_by (taken_before none_taken ps p) p) ps
unfolding start_rounds
start_rounds-lem [] s = refl
start_rounds-lem (p ∷ ps) s =
    rounds-lem none_taken p (p ∷ []) ps ((newer_irrefl p, newer_irrefl p), tt)
      (All-mono (λ r h. not-eq h) ps s.0) s.1
