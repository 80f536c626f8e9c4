-- ===== src/TickerValidity/Segments/Join.antt =====
-- The order of joined intervals, and what they say of each day.
use stonks.Base.{
  Bool, true, ◌&&◌, ◌||◌, Option, none, some, List, [], ◌∷◌, ◌≡◌, refl, sym, ap, ◌∙◌, arith, ltb,
  leb, ◌==◌, All, any, Bool-cases, inl, inr,
}
use stonks.Types.Time.{Time}
use stonks.TickerValidity.Facts.{Id128}
use stonks.TickerValidity.Segments.{Interval, Validity, joins, join_from, join, validity_eq, meet}
use stonks.TickerValidity.Segments.Order.{InOrder, EndsBy, HasDay}

-- Interval.Contains, by its bounds.
abbrev pub from_test : Option Time → Time → Bool
from_test none d = true
from_test (some a) d = leb a d

abbrev pub before_test : Option Time → Time → Bool
before_test none d = true
before_test (some b) d = ltb d b

-- The interval says that the ticker names `i` on the day, with the validity.
abbrev pub says : Id128 → Validity → Time → Interval → Bool
says i v d iv =
    (from_test iv.from d && before_test iv.before d) && (iv.instr == i && validity_eq iv.validity v)

InOrder-joined :
    (last iv : Interval)
    → joins last iv ≡ true
    → HasDay last.from last.before
    → EndsBy last.before iv.from
    → HasDay iv.from iv.before
    → HasDay last.from iv.before
unfolding joins
InOrder-joined last iv j h k l = go last.from last.before iv.from iv.before h k l
  where
    go : (a b c d : Option Time) → HasDay a b → EndsBy b c → HasDay c d → HasDay a d
    go none b c d h k l = tt
    go (some a) none c d h k l = absurd k
    go (some a) (some b) none d h k l = absurd k
    go (some a) (some b) (some c) none h k l = tt
    go (some a) (some b) (some c) (some d) h k l = omega arith

join_from-EndsBy :
    (b : Option Time) (last : Interval) (ivs : List Interval)
    → EndsBy b last.from
    → All (λ jv. EndsBy b jv.from) ivs
    → All (λ jv. EndsBy b jv.from) (join_from last ivs)
unfolding join_from
join_from-EndsBy b last [] h s = (h, tt)
join_from-EndsBy b last (iv ∷ ivs) h s = elim (Bool-cases (joins last iv)) [
  | inl e ↦ rw (e, join_from) (join_from-EndsBy b (record last { before = iv.before }) ivs h s.1)
  | inr e ↦ rw (e, join_from) (h, join_from-EndsBy b iv ivs s.0 s.1)
]

join_from-InOrder :
    (last : Interval) (ivs : List Interval) → InOrder (last ∷ ivs) → InOrder (join_from last ivs)
unfolding join_from
join_from-InOrder last [] s = s
join_from-InOrder last (iv ∷ ivs) s = elim (Bool-cases (joins last iv)) [
  | inl e ↦
      rw (e, join_from)
        (join_from-InOrder (record last { before = iv.before }) ivs
          (InOrder-joined last iv e s.0 s.1.0 s.2.0, s.2.1, s.2.2))
  | inr e ↦
      rw (e, join_from)
        (s.0, join_from-EndsBy last.before iv ivs s.1.0 s.1.1, join_from-InOrder iv ivs s.2)
]

pub join-InOrder : (ivs : List Interval) → InOrder ivs → InOrder (join ivs)
unfolding join
join-InOrder [] s = tt
join-InOrder (iv ∷ ivs) s = join_from-InOrder iv ivs s

validity_eq_trans : (u v w : Validity) → validity_eq u v ≡ true → validity_eq v w ≡ validity_eq u w
unfolding validity_eq
validity_eq_trans u v w h = ground arith

days-joined :
    (a b c d : Option Time) (t : Time)
    → meet b c ≡ true
    → HasDay a b
    → HasDay c d
    → (from_test a t && before_test d t)
      ≡ ((from_test a t && before_test b t) || (from_test c t && before_test d t))
days-joined a none c d t m h k = cc
days-joined a (some b) none d t m h k = cc
days-joined none (some b) (some c) none t m h k = ground arith
days-joined none (some b) (some c) (some d) t m h k = ground arith
days-joined (some a) (some b) (some c) none t m h k = ground arith
days-joined (some a) (some b) (some c) (some d) t m h k = ground arith

and-or : (a b c : Bool) → ((a || b) && c) ≡ ((a && c) || (b && c))
and-or a b c = ground arith

-- A joined interval says what its two parts say.
says-joined :
    (i : Id128) (v : Validity) (d : Time) (last iv : Interval)
    → joins last iv ≡ true
    → HasDay last.from last.before
    → HasDay iv.from iv.before
    → says i v d (record last { before = iv.before }) ≡ (says i v d last || says i v d iv)
unfolding joins
says-joined i v d last iv j h k =
    let valid : validity_eq last.validity iv.validity ≡ true = ground arith in
    let named : last.instr ≡ iv.instr = ground arith in
    let met : meet last.before iv.from ≡ true = ground arith in
    let kind : (iv.instr == i && validity_eq iv.validity v)
        ≡ (last.instr == i && validity_eq last.validity v) =
      cc (validity_eq_trans last.validity iv.validity v valid, named) in
    ap (λ b. b && (last.instr == i && validity_eq last.validity v))
      (days-joined last.from last.before iv.from iv.before d met h k)
    ∙ and-or _ _ (last.instr == i && validity_eq last.validity v)
    ∙ ap (λ b. says i v d last || ((from_test iv.from d && before_test iv.before d) && b))
        (sym kind)

or_assoc : (a b c : Bool) → ((a || b) || c) ≡ (a || (b || c))
or_assoc a b c = ground arith

join_from-says :
    (i : Id128) (v : Validity) (d : Time) (last : Interval) (ivs : List Interval)
    → InOrder (last ∷ ivs)
    → any (says i v d) (join_from last ivs) ≡ (says i v d last || any (says i v d) ivs)
unfolding join_from
join_from-says i v d last [] s = refl
join_from-says i v d last (iv ∷ ivs) s = elim (Bool-cases (joins last iv)) [
  | inl e ↦
      rw (e, join_from)
        (join_from-says i v d (record last { before = iv.before }) ivs
            (InOrder-joined last iv e s.0 s.1.0 s.2.0, s.2.1, s.2.2)
          ∙ ap (λ b. b || any (says i v d) ivs) (says-joined i v d last iv e s.0 s.2.0)
          ∙ or_assoc (says i v d last) (says i v d iv) (any (says i v d) ivs))
  | inr e ↦ rw (e, join_from) (ap (◌||◌ (says i v d last)) (join_from-says i v d iv ivs s.2))
]

-- Where the intervals are nonempty and in order, the joined intervals name on each day the
-- instruments that the intervals name, with the same validity.
pub join-says :
    (i : Id128) (v : Validity) (d : Time) (ivs : List Interval)
    → InOrder ivs
    → any (says i v d) (join ivs) ≡ any (says i v d) ivs
unfolding join
join-says i v d [] s = refl
join-says i v d (iv ∷ ivs) s = join_from-says i v d iv ivs s
