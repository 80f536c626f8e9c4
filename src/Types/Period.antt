-- ===== src/Types/Period.antt =====
-- server/internal/types/period.go: half open ranges of days, their intersection, union and gaps.
-- slices.SortFunc is a stable insertion sort on the first day.
pub mod Clip
pub mod Sort
pub mod Union
pub mod Gaps
use stonks.Base.{ℕ, Bool, true, false, ◌&&◌, List, [], ◌∷◌, ltb, leb, not, any, if◌then◌else◌}
use stonks.Types.Time.{Time, next, day}

pub record Period : Type 0 where
  pub from : Time
  pub before : Time

unfoldable pub contains : Period → Time → Bool
contains p d = not (ltb d p.from) && ltb d p.before

later_from : Period → Period → Period
later_from p q = record p { from = if ltb p.from q.from then q.from else p.from }

earlier_before : Period → Period → Period
earlier_before p q = record p { before = if ltb q.before p.before then q.before else p.before }

unfoldable pub clip : Period → Period → Period × Bool
unfolding later_from earlier_before
clip p q = let r = earlier_before (later_from p q) q in (r, ltb r.from r.before)

-- The insertion of a period before the first one that starts later.
insert_by_from : Period → List Period → List Period
insert_by_from p [] = p ∷ []
insert_by_from p (q ∷ qs) = if leb p.from q.from then p ∷ q ∷ qs else q ∷ insert_by_from p qs

unfoldable pub sort_by_from : List Period → List Period
unfolding insert_by_from
sort_by_from [] = []
sort_by_from (p ∷ ps) = insert_by_from p (sort_by_from ps)

extend : Period → Period → Period
extend last p = record last { before = if ltb last.before p.before then p.before else last.before }

-- The loop of Union: `last` is the last period of `out`, and the result is what follows the
-- periods before it.
unfoldable pub union_from : Period → List Period → List Period
unfolding extend
union_from last [] = last ∷ []
union_from last (p ∷ ps) = elim (ltb last.before p.from) [
  | true ↦ last ∷ union_from p ps
  | false ↦ union_from (extend last p) ps
]

unfoldable pub union_sorted : List Period → List Period
unfolding union_from
union_sorted [] = []
union_sorted (p ∷ ps) = union_from p ps

unfoldable pub union : List Period → List Period
unfolding sort_by_from union_sorted
union ps = union_sorted (sort_by_from ps)

unfoldable pub any_contains : List Period → Time → Bool
any_contains ps d = any (λ p. contains p d) ps

-- The loop of Gaps: `d` is the first day that is not yet accounted for.
unfoldable pub gaps_from : Time → Period → List Period → List Period
gaps_from d p [] = if ltb d p.before then record { from = d; before = p.before } ∷ [] else []
gaps_from d p (c ∷ cs) =
    let (c', held) = clip c p in
    let skipped = gaps_from d p cs in
    let rest = gaps_from c'.before p cs in
    if held
    then if ltb d c'.from then record { from = d; before = c'.from } ∷ rest else rest
    else skipped

unfoldable pub gaps : List Period → Period → List Period
unfolding union gaps_from
gaps covered p = gaps_from p.from p (union covered)

-- The period that holds only the day of `t`.
unfoldable pub one_day : Time → Period
unfolding day
one_day t = record { from = day t; before = next (day t) }
