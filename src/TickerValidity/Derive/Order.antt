-- ===== src/TickerValidity/Derive/Order.antt =====
-- The order of the intervals that `derive` returns.
use stonks.Base.{
  Bool, true, not, ◌&&◌, Option, none, some, List, [], ◌∷◌, ◌≡◌, sym, ◌∙◌, arith, ◌==◌, All,
  All-mono, All-const, All-append, any, map, ◌⊎◌, ◌≤◌,
}
use stonks.Base.Compact.{IsIncreasing, has, sorted-IsIncreasing, has-sorted}
use stonks.Base.Any.{any-map, any-filter_b}
use stonks.Types.Time.{Time}
use stonks.Types.Period.{Period, union}
use stonks.TickerValidity.Facts.{Facts, Assertion, Edge}
use stonks.TickerValidity.Winners
use stonks.TickerValidity.Winners.{Winner, is_cut}
use stonks.TickerValidity.Winners.Wins
use stonks.TickerValidity.Segments.{Interval, Inferred, segment, spans}
use stonks.TickerValidity.Segments.Reach.{FromOn}
use stonks.TickerValidity.Segments.Order.{
  InOrder, IsWithin, segment_from-Order, InOrder-append, IsWithin-widen, LowLe-of_FromOn,
  LowLe-refl,
}
use stonks.TickerValidity.Segments.Join.{join-InOrder}
use stonks.TickerValidity.Derive.{
  split_at, both, segments_from, cuts, cutting, overruled, periods, derive,
}
use stonks.TickerValidity.Current.{current}
use stonks.TickerValidity.Derive.Split.{
  Unspanned, spans-Within, split_at-Within, split_at-rest, winners-Within, WinnersWithin,
}

segment-Order :
    (lo : Option Time) (ws : List Winner) (hi : Option Time) (cover : List Period)
    → WinnersWithin lo ws hi
    → InOrder (segment (spans ws) lo hi cover).0
      × All (IsWithin lo hi) (segment (spans ws) lo hi cover).0
unfolding segment
segment-Order lo ws hi cover h =
    segment_from-Order true lo (spans ws) hi cover (spans-Within lo ws hi h)

-- The cuts from `lo` on: in order, and none spanned by a winner.
abbrev pub CutsWithin : Option Time → List Time → List Winner → Type 0
CutsWithin lo [] ws = Unit
CutsWithin lo (b ∷ bs) ws = FromOn lo b × Unspanned b ws × CutsWithin (some b) bs ws

pub CutsWithin-rest :
    (lo : Option Time) (end : Time) (bs : List Time) (ws : List Winner)
    → Winners.Wins.InOrder ws
    → Unspanned end ws
    → CutsWithin lo bs ws
    → CutsWithin lo bs (split_at end ws).1
CutsWithin-rest lo end [] ws s u c = tt
CutsWithin-rest lo end (b ∷ bs) ws s u c = (
  c.0,
  (split_at-rest (λ w. (b ≤ w.from) ⊎ (w.before ≤ b)) end ws s c.1 u).1,
  CutsWithin-rest (some b) end bs ws s u c.2,
)

both-Order :
    (lo : Option Time) (b : Time) (x y : List Interval × List Inferred)
    → FromOn lo b
    → InOrder x.0 × All (IsWithin lo (some b)) x.0
    → InOrder y.0 × All (IsWithin (some b) none) y.0
    → InOrder (both x y).0 × All (IsWithin lo none) (both x y).0
unfolding both
both-Order lo b x y k here later = (
  InOrder-append b lo none x.0 y.0 here.0 here.1 later.0 later.1,
  All-append _ x.0 y.0
      (All-mono (λ iv g. IsWithin-widen lo lo (some b) none iv (LowLe-refl lo) tt g) x.0 here.1)
      (All-mono
        (λ iv g.
          IsWithin-widen (some b) lo none none iv (LowLe-of_FromOn lo b b k (omega arith)) tt g)
        y.0 later.1),
)

pub segments_from-Order :
    (lo : Option Time) (bs : List Time) (ws : List Winner) (cover : List Period)
    → Winners.Wins.InOrder ws
    → All (λ w. FromOn lo w.from) ws
    → CutsWithin lo bs ws
    → InOrder (segments_from lo bs ws cover).0
      × All (IsWithin lo none) (segments_from lo bs ws cover).0
unfolding segments_from
segments_from-Order lo [] ws cover s f c = segment-Order lo ws none cover (winners-Within lo ws s f)
segments_from-Order lo (b ∷ bs) ws cover s f c =
    let rest = split_at-rest (λ w. FromOn lo w.from) b ws s f c.1 in
    let here =
      segment-Order lo (split_at b ws).0 (some b) cover (split_at-Within lo b ws s f c.1) in
    let later =
      segments_from-Order (some b) bs (split_at b ws).1 cover rest.0 rest.2
        (CutsWithin-rest (some b) b bs ws s c.1 c.2) in
    both-Order lo b (segment (spans (split_at b ws).0) lo (some b) cover)
      (segments_from (some b) bs (split_at b ws).1 cover) c.0 here later

pub cuts-CutsWithin :
    (es : List Edge) (bs : List Time) (ws : List Winner) (lo : Option Time)
    → IsIncreasing bs
    → All (FromOn lo) bs
    → All (λ b. is_cut es b ≡ true) bs
    → ((c : Time) → is_cut es c ≡ true → Unspanned c ws)
    → CutsWithin lo bs ws
cuts-CutsWithin es [] ws lo inc f k u = tt
cuts-CutsWithin es (b ∷ bs) ws lo inc f k u = (
  f.0,
  u b k.0,
  cuts-CutsWithin es bs ws (some b) inc.1 (All-mono (λ x g. omega arith) bs inc.0) k.1 u,
)

All-has :
    (bs all : List Time)
    → ((x : Time) → has x bs ≡ true → has x all ≡ true)
    → All (λ b. has b all ≡ true) bs
All-has [] all f = tt
All-has (b ∷ bs) all f = (f b (ground arith), All-has bs all (λ x h. f x (ground arith)))

any-and→any :
    {A : Type 0} (p q : A → Bool) (xs : List A) → any (λ x. p x && q x) xs ≡ true → any q xs ≡ true
any-and→any p q [] h = h
any-and→any p q (x ∷ xs) h = ground (arith, any-and→any p q xs)

cuts-is_cut :
    (es : List Edge) (as' : List Assertion) → All (λ b. is_cut es b ≡ true) (cuts (cutting es as'))
unfolding cuts cutting
cuts-is_cut es as' =
    All-mono (λ b h. stated b (sym (has-sorted b (map at (cutting es as'))) ∙ h))
      (cuts (cutting es as')) (All-has (cuts (cutting es as')) (cuts (cutting es as')) (λ x h. h))
  where
    at : Edge → Time
    at e = e.at

    stated : (b : Time) → has b (map at (cutting es as')) ≡ true → is_cut es b ≡ true
    stated b h =
        any-and→any (λ e. not (overruled e as')) (λ e. e.at == b) es
          (sym (any-filter_b (λ e. e.at == b) (λ e. not (overruled e as')) es)
            ∙ sym (any-map (λ x. x == b) at (cutting es as'))
            ∙ h)

cuts-IsIncreasing : (es : List Edge) → IsIncreasing (cuts es)
unfolding cuts
cuts-IsIncreasing es = sorted-IsIncreasing (map (λ e. e.at) es)

-- The intervals of the segments, before they are joined.
abbrev pub segmented : Facts → List Interval
segmented f =
    let (assertions, es) = current f.assertions in
    (segments_from none (cuts (cutting es assertions)) (Winners.winners assertions es).0
      (union (periods f.coverage))).0

-- The cuts of a ticker lie between its winners.
pub winners-CutsWithin :
    (f : Facts)
    → let (assertions, es) = current f.assertions in
      CutsWithin none (cuts (cutting es assertions)) (Winners.winners assertions es).0
winners-CutsWithin f =
    let es = (current f.assertions).1 in
    let assertions = (current f.assertions).0 in
    let bounds = cuts (cutting es assertions) in
    cuts-CutsWithin es bounds (Winners.winners assertions es).0 none
      (cuts-IsIncreasing (cutting es assertions)) (All-const (λ b. tt) bounds)
      (cuts-is_cut es assertions) (Winners.Wins.winners-cut assertions es)

pub segmented-InOrder : (f : Facts) → InOrder (segmented f)
segmented-InOrder f =
    let es = (current f.assertions).1 in
    let assertions = (current f.assertions).0 in
    let ws = (Winners.winners assertions es).0 in
    (segments_from-Order none (cuts (cutting es assertions)) ws (union (periods f.coverage))
      (Winners.Wins.winners-InOrder assertions es) (All-const (λ w. tt) ws)
      (winners-CutsWithin f)).0

-- The intervals that `derive` returns are nonempty and in order, each after the one before it, so
-- that no day lies in two of them.
pub derive-InOrder : (f : Facts) → InOrder (derive f).intervals
unfolding derive
derive-InOrder f = join-InOrder (segmented f) (segmented-InOrder f)
