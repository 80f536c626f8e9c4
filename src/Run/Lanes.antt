-- ===== src/Run/Lanes.antt =====
-- The order of the runs of one lane.
use stonks.Base.{
  none_some, ℕ, suc, Bool, true, false, ◌&&◌, none, some, ◌≡◌, ◌<◌, ◌↔◌, refl, sym, ap, ◌∙◌, subst,
  arith, Bool-cases, inl, inr, ◌⊎◌, clash, ◌==◌, ==_iff,
}
use stonks.Identity.Group.Joined.{str_eq_iff}
use stonks.Run.{LaneKey, lane_eq, Phase, Runner, set_at, set_lane, move, is_done}

pub lane_eq_iff : (k l : LaneKey) → (lane_eq k l ≡ true) ↔ (k ≡ l)
lane_eq_iff k l = (to, from)
  where
    both : (a b : Bool) → (a && b) ≡ true → (a ≡ true) × (b ≡ true)
    both a b h = ground (arith, h)

    of_both : (a b : Bool) → a ≡ true → b ≡ true → (a && b) ≡ true
    of_both a b h g = ground (arith, h, g)

    to : lane_eq k l ≡ true → k ≡ l
    to h =
        let (u, s) = both _ _ h in
        let eu = (==_iff k.user l.user).0 u in
        let es = (str_eq_iff k.lane l.lane).0 s in λ i. record { user = eu i; lane = es i }

    from : k ≡ l → lane_eq k l ≡ true
    from e =
        of_both _ _ ((==_iff k.user l.user).1 (ap (λ (m : LaneKey). m.user) e))
          ((str_eq_iff k.lane l.lane).1 (ap (λ (m : LaneKey). m.lane) e))

-- Every earlier run of the user and the lane of the run `j` has stopped: its channel is closed.
abbrev pub EarlierDone : Runner → ℕ → Type 0
EarlierDone r j = (i : ℕ) → i < j → r.key i ≡ r.key j → is_done (r.phase i) ≡ true

-- No run of the lane is started after `i`, up to `n`.
abbrev pub NoneAfter : Runner → LaneKey → ℕ → ℕ → Type 0
NoneAfter r k i n = (m : ℕ) → i < m → m < n → r.key m ≡ k → ⊥

abbrev pub is_waiting : Phase → Bool
is_waiting Phase.waiting = true
is_waiting _ = false

abbrev pub is_executing : Phase → Bool
is_executing Phase.executing = true
is_executing _ = false

-- Where the links of the lanes stand.
pub record Linked (r : Runner) : Type 0 where
  pub link :
      (j i : ℕ)
      → j < r.count
      → r.prev j ≡ some i
      → (i < j) × (r.key i ≡ r.key j) × NoneAfter r (r.key j) i j
  pub last :
      (k : LaneKey) (i : ℕ)
      → r.lanes k ≡ some i
      → (i < r.count) × (r.key i ≡ k) × NoneAfter r k i r.count

-- What is done.
pub record Ordered (r : Runner) : Type 0 where
  pub unlinked : (j : ℕ) → j < r.count → r.prev j ≡ none → EarlierDone r j
  pub emptied :
      r.cancelled ≡ false
      → (k : LaneKey) → r.lanes k ≡ none
      → (i : ℕ) → i < r.count
      → r.key i ≡ k
      → is_done (r.phase i) ≡ true
  pub past :
      r.cancelled ≡ false → (j : ℕ) → j < r.count → is_waiting (r.phase j) ≡ false → EarlierDone r j
  pub works : (j : ℕ) → j < r.count → is_executing (r.phase j) ≡ true → EarlierDone r j

abbrev pub IsInOrder : Runner → Type 0
IsInOrder r = Linked r × Ordered r

-- What holds of the value that is set, and of every other one, holds of every one.
at_each {ℓ} :
    {A : Type ℓ} (f : ℕ → A) (i : ℕ) (v : A) (Q : ℕ → A → Type 0)
    → Q i v
    → ((k : ℕ) → (k == i) ≡ false → Q k (f k))
    → (k : ℕ) → Q k (set_at f i v k)
at_each f i v Q here other k = elim (Bool-cases (k == i)) [
  | inl e ↦ rw e (subst (λ x. Q x v) (sym ((==_iff k i).0 e)) here)
  | inr e ↦ rw e (other k e)
]

-- A goroutine moves on, and what is done stays done.
pub moved :
    (r : Runner) (i : ℕ) (p : Phase)
    → IsInOrder r
    → (is_done (r.phase i) ≡ true → is_done p ≡ true)
    → (r.cancelled ≡ false → is_waiting p ≡ false → EarlierDone r i)
    → (is_executing p ≡ true → EarlierDone r i)
    → IsInOrder (move i p r)
moved r i p (linked, ordered) stays past works = (
  record { link = linked.link; last = linked.last },
  record {
    unlinked = λ j h e. keep j (ordered.unlinked j h e);
    emptied = λ c k e m h g. still m (ordered.emptied c k e m h g);
    past = λ c.
        at_each r.phase i p (λ j q. j < r.count → is_waiting q ≡ false → EarlierDone (move i p r) j)
          (λ h e. keep i (past c e)) (λ j n h e. keep j (ordered.past c j h e));
    works =
        at_each r.phase i p
          (λ j q. j < r.count → is_executing q ≡ true → EarlierDone (move i p r) j)
          (λ h e. keep i (works e)) (λ j n h e. keep j (ordered.works j h e));
  },
)
  where
    still : (m : ℕ) → is_done (r.phase m) ≡ true → is_done (set_at r.phase i p m) ≡ true
    still =
        at_each r.phase i p (λ m q. is_done (r.phase m) ≡ true → is_done q ≡ true) stays
          (λ m n h. h)

    keep : (j : ℕ) → EarlierDone r j → EarlierDone (move i p r) j
    keep j h m l e = still m (h m l e)

pub set_here {ℓ} : {A : Type ℓ} (f : ℕ → A) (i : ℕ) (v : A) → set_at f i v i ≡ v
set_here f i v = rw ((==_iff i i).1 refl) refl

pub set_below {ℓ} : {A : Type ℓ} (f : ℕ → A) (n : ℕ) (v : A) (k : ℕ) → k < n → set_at f n v k ≡ f k
set_below f n v k h = rw (apart k n h) refl
  where
    apart : (k n : ℕ) → k < n → (k == n) ≡ false
    apart k n h = ground (arith, h)

pub last_or_below : (j n : ℕ) → j < suc n → (j ≡ n) ⊎ (j < n)
last_or_below j n h = elim (Bool-cases (j == n)) [
  | inl e ↦ inl ((==_iff j n).0 e)
  | inr e ↦ inr (ground (arith, h, e))
]

pub not_lane : (k l : LaneKey) → lane_eq k l ≡ false → k ≡ l → ⊥
not_lane k l n e = clash ((lane_eq_iff k l).1 e) n

-- The last run of a lane leaves the lane.
pub emptied_lane :
    (r : Runner) (i : ℕ)
    → IsInOrder r
    → i < r.count
    → r.lanes (r.key i) ≡ some i
    → is_done (r.phase i) ≡ true
    → IsInOrder (record r { lanes = set_lane r.lanes (r.key i) none })
unfolding is_done
emptied_lane r i (linked, ordered) h at stopped = (
  record {
    link = linked.link;
    last = λ k j e. elim (Bool-cases (lane_eq k (r.key i))) [
      | inl g ↦ absurd (none_some (rw g refl) e)
      | inr g ↦ linked.last k j (rw g at e)
    ];
  },
  record {
    unlinked = ordered.unlinked;
    emptied = λ c k e m b g. elim (Bool-cases (lane_eq k (r.key i))) [
      | inl l ↦ ended c m b (g ∙ (lane_eq_iff k (r.key i)).0 l)
      | inr l ↦ ordered.emptied c k (rw l at e) m b g
    ];
    past = ordered.past;
    works = ordered.works;
  },
)
  where
    not_waiting : (p : Phase) → is_done p ≡ true → is_waiting p ≡ false
    not_waiting Phase.waiting e = absurd (clash e refl)
    not_waiting _ e = refl

    order : (m i : ℕ) → (m ≡ i) ⊎ ((m < i) ⊎ (i < m))
    order m i = ground arith

    ended :
        r.cancelled ≡ false → (m : ℕ) → m < r.count → r.key m ≡ r.key i → is_done (r.phase m) ≡ true
    ended c m b g = elim (order m i) [
      | inl e ↦ subst (λ x. is_done (r.phase x) ≡ true) (sym e) stopped
      | inr (inl e) ↦ ordered.past c i h (not_waiting (r.phase i) stopped) m e g
      | inr (inr e) ↦ absurd ((linked.last (r.key i) i at).2 m e b g)
    ]
