-- ===== src/Corpact/Covered/Groups.antt =====
-- The groups of the stated splits.
use stonks.Base.{
  ℕ, Bool, true, false, ◌&&◌, ◌||◌, Option, none, some, List, [], ◌∷◌, ◌≡◌, refl, sym, ap, ◌∙◌,
  arith, any, ◌==◌, Bool-cases, Option-cases, inl, inr,
}
use stonks.Types.Time.{Time}
use stonks.Types.Period.{contains}
use stonks.Types.Ratio.{Decimals, Ratio}
use stonks.Corpact.Splits.{SplitGroup}
use stonks.Corpact.Covered.{
  Cover, StatedSplit, add_ratio, ratio_of, cover_of, group_row, group_rows,
}

abbrev pub is_at : {D : Type 0} → ℕ → Time → SplitGroup D → Bool
is_at k d g = g.key == k && g.day == d

-- A cover of the split's instrument holds its date.
abbrev pub is_covered : {D : Type 0} → List Cover → StatedSplit D → Bool
is_covered covers row =
    any (λ c. c.instr == row.instr && contains c.period row.effective_date) covers

cover_of-none :
    {D : Type 0} (cs : List Cover) (row : StatedSplit D)
    → cover_of cs row ≡ none
    → is_covered cs row ≡ false
unfolding cover_of
cover_of-none [] row h = refl
cover_of-none (c ∷ cs) row h =
    elim (Bool-cases (c.instr == row.instr && contains c.period row.effective_date)) [
      | inl e ↦ (let k = rw (e, cover_of) at h in cc)
      | inr e ↦ rw e (cover_of-none cs row (rw (e, cover_of) at h))
    ]

cover_of-some :
    {D : Type 0} (cs : List Cover) (row : StatedSplit D) (c : Cover)
    → cover_of cs row ≡ some c
    → is_covered cs row ≡ true
unfolding cover_of
cover_of-some [] row c h = cc
cover_of-some (b ∷ cs) row c h =
    elim (Bool-cases (b.instr == row.instr && contains b.period row.effective_date)) [
      | inl e ↦ rw e refl
      | inr e ↦ rw e (cover_of-some cs row c (rw (e, cover_of) at h))
    ]

one_more : (p r : Bool) → (p || r) ≡ ((p || r) || p)
one_more p r = ground arith

or_assoc : (p q r : Bool) → (p || (q || r)) ≡ ((p || q) || r)
or_assoc p q r = ground arith

or_swap : (p q r : Bool) → ((p || q) || r) ≡ (p || ((q && true) || r))
or_swap p q r = ground arith

at_end : (p : Bool) → (p || false) ≡ p
at_end p = ground arith

same_place : (a b c e k d : ℕ) → (a == c && b == e) ≡ true → (a == k && b == d) ≡ (c == k && e == d)
same_place a b c e k d h = ground (arith, h)

not_covered : (p q r : Bool) → (p || r) ≡ (p || ((q && false) || r))
not_covered p q r = ground arith

module _ {D : Type 0} (dec : Decimals D) (k : ℕ) (d : Time) where
  is_at-add_ratio :
      (o : Option (Ratio D)) (g : SplitGroup D) → is_at k d (add_ratio dec o g) ≡ is_at k d g
  unfolding add_ratio
  is_at-add_ratio none g = refl
  is_at-add_ratio (some r) g = refl

  abbrev of_row : StatedSplit D → Bool
  of_row row = row.key == k && row.effective_date == d

  group_row-any :
      (c : Cover) (row : StatedSplit D) (gs : List (SplitGroup D))
      → any (is_at k d) (group_row dec c row gs) ≡ (any (is_at k d) gs || of_row row)
  unfolding group_row
  group_row-any c row [] =
      ap (λ b. b || false) (is_at-add_ratio (ratio_of row) _) ∙ at_end (of_row row)
  group_row-any c row (g ∷ gs) =
      elim (Bool-cases (g.key == row.key && g.day == row.effective_date)) [
        | inl e ↦
            rw (e, group_row)
              (ap (λ b. b || any (is_at k d) gs) (is_at-add_ratio (ratio_of row) g)
                ∙ one_more (is_at k d g) (any (is_at k d) gs)
                ∙ ap (λ b. (is_at k d g || any (is_at k d) gs) || b)
                    (same_place g.key g.day row.key row.effective_date k d e))
        | inr e ↦
            rw (e, group_row)
              (ap (λ b. is_at k d g || b) (group_row-any c row gs)
                ∙ or_assoc (is_at k d g) (any (is_at k d) gs) (of_row row))
      ]

  -- A group has a key and a day exactly where a covered split states them, from the groups that
  -- there are.
  group_rows-any :
      (covers : List Cover) (rows : List (StatedSplit D)) (groups : List (SplitGroup D))
      → any (is_at k d) (group_rows dec covers rows groups)
        ≡ (any (is_at k d) groups || any (λ r. of_row r && is_covered covers r) rows)
  unfolding group_rows
  group_rows-any covers [] groups = sym (at_end (any (is_at k d) groups))
  group_rows-any covers (row ∷ rows) groups = elim (Option-cases (cover_of covers row)) [
    | inl e ↦
        rw (e, group_rows, cover_of-none covers row e)
          (group_rows-any covers rows groups ∙ not_covered (any (is_at k d) groups) (of_row row) _)
    | inr (c, e) ↦
        rw (e, group_rows, cover_of-some covers row c e)
          (group_rows-any covers rows (group_row dec c row groups)
            ∙ ap (λ b. b || any (λ r. of_row r && is_covered covers r) rows)
                (group_row-any c row groups)
            ∙ or_swap (any (is_at k d) groups) (of_row row) _)
  ]

-- No two groups have one key and one day.
abbrev pub IsDistinct : {D : Type 0} → List (SplitGroup D) → Type 0
IsDistinct [] = Unit
IsDistinct (g ∷ gs) = (any (is_at g.key g.day) gs ≡ false) × IsDistinct gs

neither : (a b : Bool) → a ≡ false → b ≡ false → (a || b) ≡ false
neither a b g h = ground (arith, g, h)

flip : (a b c e : ℕ) → (a == c && b == e) ≡ false → (c == a && e == b) ≡ false
flip a b c e h = ground (arith, h)

module _ {D : Type 0} (dec : Decimals D) where
  group_row-IsDistinct :
      (c : Cover) (row : StatedSplit D) (gs : List (SplitGroup D))
      → IsDistinct gs
      → IsDistinct (group_row dec c row gs)
  unfolding group_row add_ratio
  group_row-IsDistinct c row [] s = (refl, tt)
  group_row-IsDistinct c row (g ∷ gs) s =
      elim (Bool-cases (g.key == row.key && g.day == row.effective_date)) [
        | inl e ↦ rw (e, group_row) (kept (ratio_of row), s.1)
        | inr e ↦
            rw (e, group_row)
              (
                group_row-any dec g.key g.day c row gs
                    ∙ neither (any (is_at g.key g.day) gs) _ s.0
                        (flip g.key g.day row.key row.effective_date e),
                group_row-IsDistinct c row gs s.1,
              )
      ]
    where
      kept :
          (o : Option (Ratio D))
          → any (is_at (add_ratio dec o g).key (add_ratio dec o g).day) gs ≡ false
      kept none = s.0
      kept (some r) = s.0

  group_rows-IsDistinct :
      (covers : List Cover) (rows : List (StatedSplit D)) (groups : List (SplitGroup D))
      → IsDistinct groups
      → IsDistinct (group_rows dec covers rows groups)
  unfolding group_rows
  group_rows-IsDistinct covers [] groups s = s
  group_rows-IsDistinct covers (row ∷ rows) groups s = elim (Option-cases (cover_of covers row)) [
    | inl e ↦ rw (e, group_rows) (group_rows-IsDistinct covers rows groups s)
    | inr (c, e) ↦
        rw (e, group_rows)
          (group_rows-IsDistinct covers rows _ (group_row-IsDistinct c row groups s))
  ]

  -- The stated splits that a cover holds are grouped by key and day: a group stands for each key and
  -- day that such a split states, and for no other, and no two groups stand for the same.
  pub group_rows-groups :
      (covers : List Cover) (rows : List (StatedSplit D))
      → IsDistinct (group_rows dec covers rows [])
        × ((k : ℕ) (d : Time)
            → any (is_at k d) (group_rows dec covers rows [])
              ≡ any (λ r. (r.key == k && r.effective_date == d) && is_covered covers r) rows)
  group_rows-groups covers rows =
      (group_rows-IsDistinct covers rows [] tt, λ k d. group_rows-any dec k d covers rows [])
