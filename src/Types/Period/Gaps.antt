-- ===== src/Types/Period/Gaps.antt =====
-- The days and the order of the gaps of a period.
use stonks.Base.{
  Bool, true, false, ◌&&◌, ◌||◌, not, List, [], ◌∷◌, ◌≡◌, refl, ◌≤◌, ◌<◌, max, arith, All, All-mono,
  All-const, ltb, Bool-cases, inl, inr, ◌∙◌, ◌↔◌, min, suc, dec_lt, if◌then◌else◌,
}
use stonks.Types.Time.{Time}
use stonks.Types.Period.{Period, contains, clip, union, any_contains, gaps_from, gaps}
use stonks.Types.Period.Clip.{clip_bounds}
use stonks.Types.Period.Union.{IsApart, any_contains-union, union-IsApart}

-- None of the periods holds a day before `b`.
clip-le-max : (c p q : Period) → c.before < q.from → (clip c p).0.before ≤ max p.from q.from
clip-le-max c p q h = omega (arith, clip_bounds c p)

none_before :
    (b d : Time) (cs : List Period) → All (λ q. b < q.from) cs → d ≤ b → any_contains cs d ≡ false
unfolding any_contains contains
none_before b d [] s h = refl
none_before b d (c ∷ cs) s h = ground (arith, none_before b d cs s.1 h)

-- What follows the last covered period.
last_piece :
    (d t : Time) (p : Period)
    → p.from ≤ d
    → ((not (ltb t d) && ltb t p.before) || false) ≡ (not (ltb t d) && (contains p t && true))
unfolding contains
last_piece d t p h = ground arith

-- One round at a covered period that shares no day with `p`.
empty_round :
    (d t : Time) (c p : Period) (late : Bool)
    → ltb (max c.from p.from) (min c.before p.before) ≡ false
    → (not (ltb t d) && (contains p t && not late))
      ≡ (not (ltb t d) && (contains p t && not (contains c t || late)))
unfolding contains
empty_round d t c p late h = ground arith

-- One round of the loop at a covered period whose clip is `[f, b)`: `late` says whether a later
-- covered period holds `t`, and `rest` whether a later gap does.
held_round :
    (d f b t : Time) (c p : Period) (late rest : Bool)
    → f ≡ max c.from p.from
    → b ≡ min c.before p.before
    → f < b
    → d ≤ f
    → p.from ≤ d
    → (t ≤ c.before → late ≡ false)
    → rest ≡ (not (ltb t b) && (contains p t && not late))
    → ((not (ltb t d) && ltb t f) || rest)
      ≡ (not (ltb t d) && (contains p t && not (contains c t || late)))
unfolding contains
held_round d f b t c p late rest ef eb fb df pd early er = elim (dec_lt t f) [
  | yes before ↦ ground (arith, early (omega arith))
  | no after ↦ elim (dec_lt t b) [
    | yes inside ↦ ground (arith, early (omega arith))
    | no past ↦ ground arith
  ]
]

-- The gap that the loop appends holds the days from `d` up to `f`.
any_contains-piece :
    (d f t : Time) (xs : List Period)
    → any_contains (if ltb d f then record { from = d; before = f } ∷ xs else xs) t
      ≡ ((not (ltb t d) && ltb t f) || any_contains xs t)
unfolding any_contains contains
any_contains-piece d f t xs = ground arith

-- The days from `d` on that `p` holds and none of `cs` does.
pub any_contains-gaps_from :
    (d : Time) (p : Period) (cs : List Period) (t : Time)
    → IsApart cs
    → All (λ q. d ≤ max p.from q.from) cs
    → p.from ≤ d
    → any_contains (gaps_from d p cs) t
      ≡ (not (ltb t d) && (contains p t && not (any_contains cs t)))
unfolding any_contains gaps_from
any_contains-gaps_from d p [] t s m h = any_contains-piece d p.before t [] ∙ last_piece d t p h
any_contains-gaps_from d p (c ∷ cs) t s m h = elim (Bool-cases (clip c p).1) [
  | inl held ↦
      rw (held, gaps_from)
        (any_contains-piece d (clip c p).0.from t _
          ∙ held_round d _ _ t c p (any_contains cs t) _ (clip_bounds c p).0 (clip_bounds c p).1
              (ground (arith, clip_bounds c p)) (omega (arith, clip_bounds c p, m.0)) h
              (none_before c.before t cs (All-mono (λ q g. g.1) cs s.0))
              (any_contains-gaps_from (clip c p).0.before p cs t s.1
                (All-mono (λ q g. clip-le-max c p q g.1) cs s.0) (ground (arith, clip_bounds c p))))
  | inr empty ↦
      rw (empty, gaps_from)
        (any_contains-gaps_from d p cs t s.1 m.1 h
          ∙ empty_round d t c p (any_contains cs t) (ground (arith, clip_bounds c p)))
]

-- The gaps of `p` hold exactly the days of `p` that no covered period holds.
pub any_contains-gaps :
    (covered : List Period) (p : Period) (t : Time)
    → any_contains (gaps covered p) t ≡ (contains p t && not (any_contains covered t))
unfolding gaps contains
any_contains-gaps covered p t =
    any_contains-gaps_from p.from p (union covered) t (union-IsApart covered)
      (All-const (λ q. omega arith) (union covered)) (omega arith)
    ∙ rw (any_contains-union covered t) (ground arith)

-- The loop's result: nonempty periods inside `p`, each after a day that the earlier ones leave out.
abbrev pub IsInside : Time → Period → List Period → Type 0
IsInside b p =
    All (λ q. (b ≤ q.from) × (p.from ≤ q.from) × (q.from < q.before) × (q.before ≤ p.before))

gaps_from-IsInside :
    (b d : Time) (p : Period) (cs : List Period)
    → IsApart cs
    → All (λ q. d ≤ max p.from q.from) cs
    → p.from ≤ d
    → b ≤ d
    → IsInside b p (gaps_from d p cs)
unfolding gaps_from
gaps_from-IsInside b d p [] s m h k = ground arith
gaps_from-IsInside b d p (c ∷ cs) s m h k = elim (Bool-cases (clip c p).1) [
  | inl held ↦
      rw (held, gaps_from)
        (ground (
          arith,
          clip_bounds c p,
          m.0,
          gaps_from-IsInside b (clip c p).0.before p cs s.1
              (All-mono (λ q g. clip-le-max c p q g.1) cs s.0),
        ))
  | inr empty ↦ rw (empty, gaps_from) (gaps_from-IsInside b d p cs s.1 m.1 h k)
]

piece-IsApart :
    (d f : Time) (xs : List Period)
    → All (λ q. f < q.from) xs
    → IsApart xs
    → IsApart (if ltb d f then record { from = d; before = f } ∷ xs else xs)
piece-IsApart d f xs h s = elim (Bool-cases (ltb d f)) [
  | inl gap ↦ rw gap (All-mono (λ q g. (ground arith, g)) xs h, s)
  | inr none ↦ rw none s
]

gaps_from-IsApart :
    (d : Time) (p : Period) (cs : List Period)
    → IsApart cs
    → All (λ q. d ≤ max p.from q.from) cs
    → p.from ≤ d
    → IsApart (gaps_from d p cs)
unfolding gaps_from
gaps_from-IsApart d p [] s m h = ground arith
gaps_from-IsApart d p (c ∷ cs) s m h = elim (Bool-cases (clip c p).1) [
  | inl held ↦
      let clipped = All-mono (λ q g. clip-le-max c p q g.1) cs s.0 in
      rw (held, gaps_from)
        (piece-IsApart d (clip c p).0.from (gaps_from (clip c p).0.before p cs)
          (All-mono (λ q g. g.0) _
            (gaps_from-IsInside (suc (clip c p).0.from) (clip c p).0.before p cs s.1 clipped
              (ground (arith, clip_bounds c p)) (ground (arith, clip_bounds c p))))
          (gaps_from-IsApart (clip c p).0.before p cs s.1 clipped
            (ground (arith, clip_bounds c p))))
  | inr empty ↦ rw (empty, gaps_from) (gaps_from-IsApart d p cs s.1 m.1 h)
]

-- The gaps of `p` are nonempty periods inside `p`, in order, each starting after the day that the
-- one before it ends with: no two of them overlap or meet.
pub gaps-IsApart :
    (covered : List Period) (p : Period)
    → IsApart (gaps covered p)
      × All (λ q. (p.from ≤ q.from) × (q.from < q.before) × (q.before ≤ p.before)) (gaps covered p)
unfolding gaps
gaps-IsApart covered p = (
  gaps_from-IsApart p.from p (union covered) (union-IsApart covered) after_start (omega arith),
  All-mono (λ q g. (g.1, g.2, g.3)) _
      (gaps_from-IsInside p.from p.from p (union covered) (union-IsApart covered) after_start
        (omega arith) (omega arith)),
)
  where
    after_start : All (λ (q : Period). p.from ≤ max p.from q.from) (union covered)
    after_start = All-const (λ q. omega arith) (union covered)

-- Nothing is left of `p` exactly when every moment of it lies in a covered period.
pub gaps-eq-nil_iff :
    (covered : List Period) (p : Period)
    → (gaps covered p ≡ []) ↔ ((t : Time) → contains p t ≡ true → any_contains covered t ≡ true)
unfolding any_contains contains
gaps-eq-nil_iff covered p = (covers, none_left)
  where
    covers : gaps covered p ≡ [] → (t : Time) → contains p t ≡ true → any_contains covered t ≡ true
    covers e t h =
        let none_here = rw e at (any_contains-gaps covered p t) in ground (arith, none_here)

    none_left :
        ((t : Time) → contains p t ≡ true → any_contains covered t ≡ true) → gaps covered p ≡ []
    none_left all = only_nil (gaps covered p) refl
      where
        only_nil : (gs : List Period) → gaps covered p ≡ gs → gaps covered p ≡ []
        only_nil [] e = e
        only_nil (g ∷ gs) e =
            let inside = rw e at ((gaps-IsApart covered p).1) in
            let held = rw e at (any_contains-gaps covered p g.from) in
            absurd (ground (arith, inside.0, held, all g.from))
