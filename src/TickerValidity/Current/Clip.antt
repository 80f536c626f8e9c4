-- ===== src/TickerValidity/Current/Clip.antt =====
-- The pieces that `clip` leaves of an assertion.
use stonks.Base.{
  suc, Bool, true, false, not, ◌&&◌, ◌||◌, List, [], ◌∷◌, ◌++◌, ◌≡◌, refl, ◌∙◌, ◌≤◌, ◌<◌, inl, inr,
  ltb, leb, Bool-cases, if◌then◌else◌, any, any-append, All, All-mono, All-append, arith,
}
use stonks.Types.Time.{Time}
use stonks.Types.Period.{Period, contains, any_contains}
use stonks.Types.Period.Union.{IsApart}
use stonks.TickerValidity.Facts.{Assertion}
use stonks.TickerValidity.Current.{piece, clip_from, clip}

-- One of the assertions holds the day `t`.
abbrev pub holds : List Assertion → Time → Bool
holds xs t = any (λ x. contains x.period t) xs

holds-piece :
    (a : Assertion) (from before t : Time)
    → holds (piece a from before) t ≡ (not (ltb t from) && ltb t before)
unfolding piece contains
holds-piece a from before t = ground arith

none_before :
    (b t : Time) (ts : List Period) → All (λ q. b ≤ q.from) ts → t < b → any_contains ts t ≡ false
unfolding any_contains contains
none_before b t [] s h = refl
none_before b t (c ∷ cs) s h = ground (arith, none_before b t cs s.1 h)

-- One round that cuts the days of `c` out of those from `from` on.
cut_round :
    (a : Assertion) (c : Period) (from t : Time) (late rest : Bool)
    → leb c.before from ≡ false
    → leb a.period.before c.from ≡ false
    → (t ≤ c.before → late ≡ false)
    → (t < c.from → late ≡ false)
    → rest ≡ (not (ltb t c.before) && (ltb t a.period.before && not late))
    → ((not (ltb t from) && ltb t c.from) || rest)
      ≡ (not (ltb t from) && (ltb t a.period.before && not (contains c t || late)))
unfolding contains
cut_round a c from t late rest h k early early' er = ground (arith, early, early')

-- One round at a period that ends by `from`.
over_round :
    (a : Assertion) (c : Period) (from t : Time) (late : Bool)
    → leb c.before from ≡ true
    → (not (ltb t from) && (ltb t a.period.before && not late))
      ≡ (not (ltb t from) && (ltb t a.period.before && not (contains c t || late)))
unfolding contains
over_round a c from t late h = ground arith

-- The round at a period that starts after the assertion's last day.
past_round :
    (a : Assertion) (c : Period) (from t : Time) (late : Bool)
    → leb a.period.before c.from ≡ true
    → (t < c.from → late ≡ false)
    → (not (ltb t from) && ltb t a.period.before)
      ≡ (not (ltb t from) && (ltb t a.period.before && not (contains c t || late)))
unfolding contains
past_round a c from t late h early = ground (arith, early)

any-piece :
    (a : Assertion) (from f t : Time) (xs : List Assertion)
    → holds (if ltb from f then piece a from f ++ xs else xs) t
      ≡ ((not (ltb t from) && ltb t f) || holds xs t)
any-piece a from f t xs =
    ground
      (arith, any-append (λ x. contains x.period t) (piece a from f) xs, holds-piece a from f t)

holds-clip_from :
    (a : Assertion) (from : Time) (ts : List Period) (t : Time)
    → IsApart ts
    → holds (clip_from a from ts) t
      ≡ (not (ltb t from) && (ltb t a.period.before && not (any_contains ts t)))
unfolding clip_from any_contains
holds-clip_from a from [] t s = holds-piece a from a.period.before t ∙ ground arith
holds-clip_from a from (c ∷ cs) t s = elim (Bool-cases (leb c.before from)) [
  | inl over ↦
      rw (over, clip_from)
        (holds-clip_from a from cs t s.1 ∙ over_round a c from t (any_contains cs t) over)
  | inr left ↦ elim (Bool-cases (leb a.period.before c.from)) [
    | inl past ↦
        rw (left, past, clip_from)
          (holds-piece a from a.period.before t
            ∙ past_round a c from t (any_contains cs t) past
                (none_before c.from t cs (All-mono (λ q g. g.0) cs s.0)))
    | inr within ↦
        rw (left, within, clip_from)
          (any-piece a from c.from t _
            ∙ cut_round a c from t (any_contains cs t) _ left within
                (λ g. none_before (suc c.before) t cs (All-mono (λ q e. e.1) cs s.0) (omega arith))
                (none_before c.from t cs (All-mono (λ q g. g.0) cs s.0))
                (holds-clip_from a c.before cs t s.1))
  ]
]

-- The pieces that `clip` leaves hold exactly the days of the assertion outside the taken periods,
-- which are in order with a day between them.
pub holds-clip :
    (a : Assertion) (taken : List Period) (t : Time)
    → IsApart taken
    → holds (clip a taken) t ≡ (contains a.period t && not (any_contains taken t))
unfolding clip contains
holds-clip a taken t s = holds-clip_from a a.period.from taken t s ∙ ground arith

-- A piece names what the assertion names, and states an edge only on a bound of the assertion.
abbrev pub IsPieceOf : Assertion → Assertion → Type 0
IsPieceOf a x =
    (x.instr ≡ a.instr)
    × (x.source ≡ a.source)
    × (x.edge_from ≡ true → (a.edge_from ≡ true) × (x.period.from ≡ a.period.from))
    × (x.edge_before ≡ true → (a.edge_before ≡ true) × (x.period.before ≡ a.period.before))
    × (x.period.from < x.period.before)

piece-IsPieceOf : (a : Assertion) (from before : Time) → All (IsPieceOf a) (piece a from before)
unfolding piece
piece-IsPieceOf a from before = elim (Bool-cases (ltb from before)) [
  | inl days ↦
      rw (days, piece) ((refl, refl, λ e. ground arith, λ e. ground arith, ground arith), tt)
  | inr none ↦ rw (none, piece) tt
]

clip_from-IsPieceOf :
    (a : Assertion) (from : Time) (ts : List Period) → All (IsPieceOf a) (clip_from a from ts)
unfolding clip_from
clip_from-IsPieceOf a from [] = piece-IsPieceOf a from a.period.before
clip_from-IsPieceOf a from (c ∷ cs) = ground (
  arith,
  clip_from-IsPieceOf a from cs,
  clip_from-IsPieceOf a c.before cs,
  piece-IsPieceOf a from a.period.before,
  All-append (IsPieceOf a) (piece a from c.from) (clip_from a c.before cs)
      (piece-IsPieceOf a from c.from) (clip_from-IsPieceOf a c.before cs),
)

-- Every piece that `clip` leaves is nonempty, names what the assertion names, from its source, and
-- keeps an edge only where the assertion states one, on that bound of the assertion.
pub clip-IsPieceOf : (a : Assertion) (taken : List Period) → All (IsPieceOf a) (clip a taken)
unfolding clip
clip-IsPieceOf a taken = clip_from-IsPieceOf a a.period.from taken
