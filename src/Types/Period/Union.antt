-- ===== src/Types/Period/Union.antt =====
-- The days and the order of the union of periods.
use stonks.Base.{◌||◌, List, [], ◌∷◌, ◌≡◌, refl, ◌≤◌, ◌<◌, arith, All, any, ◌∙◌}
use stonks.Types.Time.{Time}
use stonks.Types.Period.{
  Period, contains, extend, union_from, union_sorted, sort_by_from, union, any_contains,
}
use stonks.Types.Period.Sort.{StartsFrom, IsSorted, sort_by_from-IsSorted, any-sort_by_from}

-- Each period starts after the day that ends any period before it, and no earlier than it starts.
abbrev pub IsApart : List Period → Type 0
IsApart [] = Unit
IsApart (p ∷ ps) = All (λ q. (p.from ≤ q.from) × (p.before < q.from)) ps × IsApart ps

any_contains-union_from :
    (last : Period) (ps : List Period) (d : Time)
    → IsSorted (last ∷ ps)
    → any_contains (union_from last ps) d ≡ (contains last d || any_contains ps d)
unfolding any_contains union_from contains
any_contains-union_from last [] d s = refl
any_contains-union_from last (p ∷ ps) d s = ground (
  arith,
  any_contains-union_from p ps d s.1,
  any_contains-union_from (extend last p) ps d (s.0.1, s.1.1),
)

union_from-starts :
    (a b : Time) (last : Period) (ps : List Period)
    → StartsFrom last.from ps
    → IsSorted ps
    → a ≤ last.from
    → b < last.from
    → All (λ q. (a ≤ q.from) × (b < q.from)) (union_from last ps)
unfolding union_from
union_from-starts a b last [] s t h k = ((h, k), tt)
union_from-starts a b last (p ∷ ps) s t h k =
    ground
      (arith, union_from-starts a b p ps t.0 t.1, union_from-starts a b (extend last p) ps s.1 t.1)

union_from-IsApart :
    (last : Period) (ps : List Period) → IsSorted (last ∷ ps) → IsApart (union_from last ps)
unfolding union_from
union_from-IsApart last [] s = (tt, tt)
union_from-IsApart last (p ∷ ps) s = ground (
  arith,
  union_from-IsApart p ps s.1,
  union_from-IsApart (extend last p) ps (s.0.1, s.1.1),
  union_from-starts last.from last.before p ps s.1.0 s.1.1,
)

-- The union of periods holds exactly the days that one of them holds.
pub any_contains-union :
    (ps : List Period) (d : Time) → any_contains (union ps) d ≡ any_contains ps d
unfolding union union_sorted any_contains
any_contains-union ps d =
    sorted (sort_by_from ps) (sort_by_from-IsSorted ps) ∙ any-sort_by_from (λ p. contains p d) ps
  where
    sorted :
        (qs : List Period)
        → IsSorted qs
        → any_contains (union_sorted qs) d ≡ any (λ p. contains p d) qs
    sorted [] s = refl
    sorted (q ∷ qs) s = any_contains-union_from q qs d s

-- The periods of a union are in order, each starting after the day that ends any before it.
pub union-IsApart : (ps : List Period) → IsApart (union ps)
unfolding union union_sorted
union-IsApart ps = sorted (sort_by_from ps) (sort_by_from-IsSorted ps)
  where
    sorted : (qs : List Period) → IsSorted qs → IsApart (union_sorted qs)
    sorted [] s = tt
    sorted (q ∷ qs) s = union_from-IsApart q qs s
