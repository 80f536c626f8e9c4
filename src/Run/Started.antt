-- ===== src/Run/Started.antt =====
-- A run that is started keeps the order of the lanes.
use stonks.Base.{
  some-injective, none_some, ℕ, suc, true, false, Option, none, some, ◌≡◌, ◌<◌, refl, sym, ap, ◌∙◌,
  subst, arith, Bool-cases, inl, inr, clash,
}
use stonks.Run.{LaneKey, lane_eq, Phase, Ready, Runner, set_at, set_lane, start, is_done}
use stonks.Run.Lanes.{
  lane_eq_iff, not_lane, last_or_below, set_here, set_below, Linked, Ordered, EarlierDone,
  NoneAfter, is_waiting, is_executing, IsInOrder,
}

-- A run that is started waits for the last one of its lane.
module _ (l : LaneKey) (r : Runner) (c : r.cancelled ≡ false) (linked : Linked r)
    (ordered : Ordered r) where
  abbrev n : ℕ
  n = r.count

  abbrev keys : ℕ → LaneKey
  keys = set_at r.key n l

  abbrev prevs : ℕ → Option ℕ
  prevs = set_at r.prev n (r.lanes l)

  abbrev phases : ℕ → Phase
  phases = set_at r.phase n Phase.waiting

  abbrev began : Runner
  began = record {
    cancelled = false;
    lanes = set_lane r.lanes l (some n);
    count = suc n;
    key = keys;
    prev = prevs;
    phase = phases;
    ready = set_at r.ready n Ready.empty;
    row = set_at r.row n none;
  }

  key_below : (m : ℕ) → m < n → keys m ≡ r.key m
  key_below m h = set_below r.key n l m h

  key_new : keys n ≡ l
  key_new = set_here r.key n l

  trans : (i j k : ℕ) → i < j → j < k → i < k
  trans i j k h g = omega (arith, h, g)

  still : (m : ℕ) → m < n → is_done (r.phase m) ≡ true → is_done (phases m) ≡ true
  still m h d = ap is_done (set_below r.phase n Phase.waiting m h) ∙ d

  early : (j : ℕ) → j < n → EarlierDone r j → EarlierDone began j
  early j h d m g e =
      let b = trans m j n g h in still m b (d m g (sym (key_below m b) ∙ e ∙ key_below j h))

  abbrev IsLink : ℕ → ℕ → Type 0
  IsLink j i = (i < j) × (keys i ≡ keys j) × NoneAfter began (keys j) i j

  IsLink-new : (i : ℕ) → r.lanes l ≡ some i → IsLink n i
  IsLink-new i e =
      let (b, k, after) = linked.last l i e in
      (
        b,
        key_below i b ∙ k ∙ sym key_new,
        λ m h g f. after m h g (sym (key_below m g) ∙ f ∙ key_new),
      )

  IsLink-below : (j i : ℕ) → j < n → r.prev j ≡ some i → IsLink j i
  IsLink-below j i h e =
      let (b, k, after) = linked.link j i h e in
      (
        b,
        key_below i (trans i j n b h) ∙ k ∙ sym (key_below j h),
        λ m g f q. after m g f (sym (key_below m (trans m j n f h)) ∙ q ∙ key_below j h),
      )

  last_new :
      (k : LaneKey) → lane_eq k l ≡ true → (n < suc n) × (keys n ≡ k) × NoneAfter began k n (suc n)
  last_new k g = (omega arith, key_new ∙ sym ((lane_eq_iff k l).0 g), λ m h b e. between m h b)
    where
      between : (m : ℕ) → n < m → m < suc n → ⊥
      between m h b = absurd (omega (arith, h, b))

  last_below :
      (k : LaneKey) (i : ℕ)
      → lane_eq k l ≡ false
      → r.lanes k ≡ some i
      → (i < suc n) × (keys i ≡ k) × NoneAfter began k i (suc n)
  last_below k i g e =
      let (b, f, after) = linked.last k i e in
      (
        omega (arith, b),
        key_below i b ∙ f,
        λ m h d q. elim (last_or_below m n d) [
          | inl w ↦ not_lane k l g (sym q ∙ ap keys w ∙ key_new)
          | inr w ↦ after m h w (sym (key_below m w) ∙ q)
        ],
      )

  unlinked_new : r.lanes l ≡ none → EarlierDone began n
  unlinked_new e m h f = still m h (ordered.emptied c l e m h (sym (key_below m h) ∙ f ∙ key_new))

  emptied_below :
      (k : LaneKey)
      → lane_eq k l ≡ false
      → r.lanes k ≡ none
      → (m : ℕ) → m < suc n
      → keys m ≡ k
      → is_done (phases m) ≡ true
  emptied_below k g e m b f = elim (last_or_below m n b) [
    | inl w ↦ absurd (not_lane k l g (sym f ∙ ap keys w ∙ key_new))
    | inr w ↦ still m w (ordered.emptied c k e m w (sym (key_below m w) ∙ f))
  ]

  new_is_waiting : (j : ℕ) → j ≡ n → phases j ≡ Phase.waiting
  new_is_waiting j g = ap phases g ∙ set_here r.phase n Phase.waiting

  began-Linked : Linked began
  began-Linked = record {
    link = λ j i h e. elim (last_or_below j n h) [
      | inl g ↦
          subst (λ x. IsLink x i) (sym g)
            (IsLink-new i (sym (set_here r.prev n (r.lanes l)) ∙ ap prevs (sym g) ∙ e))
      | inr g ↦ IsLink-below j i g (sym (set_below r.prev n (r.lanes l) j g) ∙ e)
    ];
    last = λ k i e. elim (Bool-cases (lane_eq k l)) [
      | inl g ↦
          subst (λ x. (x < suc n) × (keys x ≡ k) × NoneAfter began k x (suc n))
            (some-injective (rw g at e)) (last_new k g)
      | inr g ↦ last_below k i g (rw g at e)
    ];
  }

  began-Ordered : Ordered began
  began-Ordered = record {
    unlinked = λ j h e. elim (last_or_below j n h) [
      | inl g ↦
          subst (EarlierDone began) (sym g)
            (unlinked_new (sym (set_here r.prev n (r.lanes l)) ∙ ap prevs (sym g) ∙ e))
      | inr g ↦ early j g (ordered.unlinked j g (sym (set_below r.prev n (r.lanes l) j g) ∙ e))
    ];
    emptied = λ x k e. elim (Bool-cases (lane_eq k l)) [
      | inl g ↦ absurd (none_some (rw g at e) refl)
      | inr g ↦ emptied_below k g (rw g at e)
    ];
    past = λ x j h e. elim (last_or_below j n h) [
      | inl g ↦ absurd (clash (ap is_waiting (new_is_waiting j g)) e)
      | inr g ↦
          early j g
            (ordered.past c j g (sym (ap is_waiting (set_below r.phase n Phase.waiting j g)) ∙ e))
    ];
    works = λ j h e. elim (last_or_below j n h) [
      | inl g ↦ absurd (clash e (ap is_executing (new_is_waiting j g)))
      | inr g ↦
          early j g
            (ordered.works j g (sym (ap is_executing (set_below r.phase n Phase.waiting j g)) ∙ e))
    ];
  }

pub start-IsInOrder : (l : LaneKey) (r s : Runner) → start l r ≡ some s → IsInOrder r → IsInOrder s
unfolding start
start-IsInOrder l r s e (linked, ordered) = elim (Bool-cases r.cancelled) [
  | inl c ↦ absurd (no_runner (rw c at e))
  | inr c ↦
      subst IsInOrder (some-injective (rw c at e))
        (began-Linked l r c linked ordered, began-Ordered l r c linked ordered)
]
  where
    no_runner : none ≡ some s → ⊥
    no_runner e = absurd (cc e)
