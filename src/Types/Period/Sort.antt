-- ===== src/Types/Period/Sort.antt =====
-- The sort at the start of Union: ascending first days, with the same periods.
use stonks.Base.{Bool, ◌||◌, List, [], ◌∷◌, ◌≡◌, refl, ◌≤◌, arith, All, All-mono, any}
use stonks.Types.Time.{Time}
use stonks.Types.Period.{Period, sort_by_from, insert_by_from}

abbrev pub StartsFrom : Time → List Period → Type 0
StartsFrom b = All (λ q. b ≤ q.from)

abbrev pub IsSorted : List Period → Type 0
IsSorted [] = Unit
IsSorted (p ∷ ps) = StartsFrom p.from ps × IsSorted ps

pub StartsFrom-mono : (a b : Time) (ps : List Period) → a ≤ b → StartsFrom b ps → StartsFrom a ps
StartsFrom-mono a b ps h = All-mono (λ q g. omega arith) ps

insert-StartsFrom :
    (b : Time) (p : Period) (qs : List Period)
    → b ≤ p.from
    → StartsFrom b qs
    → StartsFrom b (insert_by_from p qs)
unfolding insert_by_from
insert-StartsFrom b p [] h s = (h, tt)
insert-StartsFrom b p (q ∷ qs) h s = ground (arith, insert-StartsFrom b p qs h s.1)

insert-IsSorted : (p : Period) (qs : List Period) → IsSorted qs → IsSorted (insert_by_from p qs)
unfolding insert_by_from
insert-IsSorted p [] s = (tt, tt)
insert-IsSorted p (q ∷ qs) s = ground (
  arith,
  insert-IsSorted p qs s.1,
  insert-StartsFrom q.from p qs,
  StartsFrom-mono p.from q.from qs,
)

pub sort_by_from-IsSorted : (ps : List Period) → IsSorted (sort_by_from ps)
unfolding sort_by_from
sort_by_from-IsSorted [] = tt
sort_by_from-IsSorted (p ∷ ps) = insert-IsSorted p (sort_by_from ps) (sort_by_from-IsSorted ps)

any-insert :
    (f : Period → Bool) (p : Period) (qs : List Period)
    → any f (insert_by_from p qs) ≡ (f p || any f qs)
unfolding insert_by_from
any-insert f p [] = refl
any-insert f p (q ∷ qs) = ground (arith, any-insert f p qs)

pub any-sort_by_from : (f : Period → Bool) (ps : List Period) → any f (sort_by_from ps) ≡ any f ps
unfolding sort_by_from
any-sort_by_from f [] = refl
any-sort_by_from f (p ∷ ps) =
    ground (arith, any-insert f p (sort_by_from ps), any-sort_by_from f ps)
