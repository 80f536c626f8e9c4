-- ===== src/Types/Period/Clip.antt =====
-- Clip is the intersection of two periods, and OneDay is the set of a day's moments.
use stonks.Base.{false, ◌&&◌, ◌≡◌, max, min, ltb, arith}
use stonks.Types.Time.{Time}
use stonks.Types.Period.{Period, contains, clip}

-- The clip of two periods holds exactly the days that both hold.
pub contains-clip :
    (p q : Period) (d : Time) → contains (clip p q).0 d ≡ (contains p d && contains q d)
unfolding contains clip
contains-clip p q d = ground arith

pub clip-empty :
    (p q : Period) (d : Time) → (clip p q).1 ≡ false → (contains p d && contains q d) ≡ false
unfolding contains clip
clip-empty p q d h = ground arith

pub clip_bounds :
    (p q : Period)
    → ((clip p q).0.from ≡ max p.from q.from)
      × ((clip p q).0.before ≡ min p.before q.before)
      × ((clip p q).1 ≡ ltb (max p.from q.from) (min p.before q.before))
unfolding clip
clip_bounds p q = (ground arith, ground arith, ground arith)
