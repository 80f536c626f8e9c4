-- ===== src/TickerValidity/Winners/Better.antt =====
-- The order of `better`, and the loop over the assertions of a day.
use stonks.Base.{
  true, false, Option, none, some, List, [], ◌∷◌, ◌≡◌, refl, subst, arith, All, All-mono, any,
  Bool-cases, inl, inr,
}
use stonks.Types.Time.{Time}
use stonks.Types.Period.{contains}
use stonks.TickerValidity.Facts.{Id128, Source, Assertion, outranks, better, lower_instr}
use stonks.TickerValidity.Winners.{Ranked, day_of, best_from, best_of}

outranks_trans : (a b c : Source) → outranks a b ≡ true → outranks b c ≡ true → outranks a c ≡ true
unfolding outranks
outranks_trans a b c h k = ground arith

outranks_asymm : (a b : Source) → outranks a b ≡ true → outranks b a ≡ false
unfolding outranks
outranks_asymm a b h = ground arith

-- Of two sources neither of which outranks the other, a third outranks both or neither.
outranks_tie :
    (a b c : Source)
    → outranks a b ≡ false
    → outranks b a ≡ false
    → (outranks a c ≡ outranks b c) × (outranks c a ≡ outranks c b)
unfolding outranks
outranks_tie a b c h k = (ground arith, ground arith)

lower_trans :
    (a b c : Option Id128)
    → lower_instr a b ≡ true
    → lower_instr b c ≡ true
    → lower_instr a c ≡ true
unfolding lower_instr
lower_trans (some a) (some b) (some c) h k = ground arith
lower_trans (some a) none none h k = cc
lower_trans (some a) none (some c) h k = cc
lower_trans (some a) (some b) none h k = refl
lower_trans none b c h k = ground arith

lower_asymm : (a b : Option Id128) → lower_instr a b ≡ true → lower_instr b a ≡ false
unfolding lower_instr
lower_asymm a b h = ground arith

-- `better` is transitive.
pub better_trans : (a b c : Assertion) → better a b ≡ true → better b c ≡ true → better a c ≡ true
unfolding better
better_trans a b c h k = ground (
  arith,
  outranks_trans a.source b.source c.source,
  outranks_asymm a.source b.source,
  outranks_tie a.source b.source c.source,
  outranks_tie b.source c.source a.source,
  outranks_asymm b.source c.source,
  lower_trans a.instr b.instr c.instr,
)

pub better_asymm : (a b : Assertion) → better a b ≡ true → better b a ≡ false
unfolding better
better_asymm a b h = ground (arith, outranks_asymm a.source b.source, lower_asymm a.instr b.instr)

pub better_irrefl : (a : Assertion) → better a a ≡ false
better_irrefl a = ground (arith, better_asymm a a)

-- None of the assertions beats `m`.
abbrev pub Unbeaten : Assertion → List Ranked → Type 0
Unbeaten m = All (λ r. better r.assertion m ≡ false)

replace-Unbeaten :
    (m n : Assertion) (rs : List Ranked) → better n m ≡ true → Unbeaten m rs → Unbeaten n rs
replace-Unbeaten m n rs h = All-mono (λ r g. ground (arith, better_trans r.assertion n m)) rs

-- What the loop returns: nothing seen beats it.
abbrev IsBest : List Ranked → Ranked → List Ranked → Ranked → Type 0
IsBest seen b rs m =
    Unbeaten m.assertion seen × Unbeaten m.assertion rs × (better b.assertion m.assertion ≡ false)

best_from-IsBest :
    (b : Ranked) (seen rs : List Ranked)
    → Unbeaten b.assertion seen
    → IsBest seen b rs (best_from b rs)
unfolding best_from
best_from-IsBest b seen [] h = (h, tt, better_irrefl b.assertion)
best_from-IsBest b seen (r ∷ rs) h = elim (Bool-cases (better r.assertion b.assertion)) [
  | inl beats ↦
      let m = best_from-IsBest r (b ∷ seen) rs (
        better_asymm r.assertion b.assertion beats,
        replace-Unbeaten b.assertion r.assertion seen beats h,
      ) in
      let e : best_from r rs ≡ best_from b (r ∷ rs) = rw (beats, best_from) refl in
      subst (IsBest seen b (r ∷ rs)) e (m.0.1, (m.2, m.1), m.0.0)
  | inr stays ↦
      let m = best_from-IsBest b (r ∷ seen) rs (stays, h) in
      let e : best_from b rs ≡ best_from b (r ∷ rs) = rw (stays, best_from) refl in
      subst (IsBest seen b (r ∷ rs)) e (m.0.1, (m.0.0, m.1), m.2)
]

-- What holds of every assertion holds of the best.
best_from-All :
    (P : Ranked → Type 0) (b : Ranked) (rs : List Ranked) → P b → All P rs → P (best_from b rs)
unfolding best_from
best_from-All P b [] h hs = h
best_from-All P b (r ∷ rs) h hs = elim (Bool-cases (better r.assertion b.assertion)) [
  | inl beats ↦ rw (beats, best_from) (best_from-All P r rs hs.0 hs.1)
  | inr stays ↦ rw (stays, best_from) (best_from-All P b rs h hs.1)
]

pub best_of-All :
    (P : Ranked → Type 0) (rs : List Ranked) (b : Ranked) → best_of rs ≡ some b → All P rs → P b
unfolding best_of
best_of-All P [] b e h = cc
best_of-All P (r ∷ rs) b e h =
    let e' : best_from r rs ≡ b = cc in subst P e' (best_from-All P r rs h.0 h.1)

pub best_of-Unbeaten :
    (rs : List Ranked) (b : Ranked) → best_of rs ≡ some b → Unbeaten b.assertion rs
unfolding best_of
best_of-Unbeaten [] b e = cc
best_of-Unbeaten (r ∷ rs) b e =
    let m = best_from-IsBest r [] rs tt in
    let e' : best_from r rs ≡ b = cc in
    subst (λ (x : Ranked). Unbeaten x.assertion (r ∷ rs)) e' (m.2, m.1)

pub best_of-none : (rs : List Ranked) → best_of rs ≡ none → rs ≡ []
unfolding best_of
best_of-none [] e = refl
best_of-none (r ∷ rs) e = cc

-- The assertions of a day are those that hold it.
pub day_of-All :
    (P : Ranked → Type 0) (d : Time) (rs : List Ranked)
    → All P rs
    → All (λ r. (contains r.assertion.period d ≡ true) × P r) (day_of d rs)
unfolding day_of
day_of-All P d [] h = tt
day_of-All P d (r ∷ rs) h = elim (Bool-cases (contains r.assertion.period d)) [
  | inl e ↦ rw (e, day_of) ((e, h.0), day_of-All P d rs h.1)
  | inr e ↦ rw (e, day_of) (day_of-All P d rs h.1)
]

-- What holds of the assertions of a day holds of each assertion that holds the day.
pub All-day_of :
    (P : Ranked → Type 0) (d : Time) (rs : List Ranked)
    → All P (day_of d rs)
    → All (λ r. contains r.assertion.period d ≡ true → P r) rs
unfolding day_of
All-day_of P d [] h = tt
All-day_of P d (r ∷ rs) h = elim (Bool-cases (contains r.assertion.period d)) [
  | inl e ↦ (let k = rw (e, day_of) at h in (λ g. k.0, All-day_of P d rs k.1))
  | inr e ↦ (let k = rw (e, day_of) at h in (λ g. cc, All-day_of P d rs k))
]

pub day_of-nil :
    (d : Time) (rs : List Ranked)
    → day_of d rs ≡ []
    → any (λ r. contains r.assertion.period d) rs ≡ false
unfolding day_of
day_of-nil d [] e = refl
day_of-nil d (r ∷ rs) e = elim (Bool-cases (contains r.assertion.period d)) [
  | inl h ↦ (let k = rw (h, day_of) at e in absurd (cons-ne-nil k))
  | inr h ↦ (let k = rw (h, day_of) at e in rw h (day_of-nil d rs k))
]
  where
    cons-ne-nil : {x : Ranked} {xs : List Ranked} → (x ∷ xs) ≡ [] → ⊥
    cons-ne-nil k = cc
