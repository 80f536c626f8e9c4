-- ===== src/Run/Order.antt =====
-- The runs of one lane execute in the order in which they are started.
use stonks.Base.{
  none_some, ℕ, Bool, true, false, Option, none, some, ◌≡◌, ◌<◌, refl, sym, ap, ◌∙◌, subst, arith,
  Bool-cases, inl, inr, ◌⊎◌, clash, ◌==◌, ==_iff, if◌then◌else◌,
}
use stonks.Run.{
  Phase, Ready, RunState, Runner, fresh, set_at, set_lane, move, free_lane, is_done, Passed, is_own,
  set_row, Step, Reached,
}
use stonks.Run.Lanes.{
  EarlierDone, is_waiting, is_executing, IsInOrder, moved, emptied_lane, set_here,
}
use stonks.Run.Started.{start-IsInOrder}

-- The channels `ready` and the rows are not read.
other_fields :
    (r : Runner) (ready : ℕ → Ready) (row : ℕ → Option RunState)
    → IsInOrder r
    → IsInOrder (record r { ready = ready; row = row })
other_fields r ready row (linked, ordered) = (
  record { link = linked.link; last = linked.last },
  record {
    unlinked = ordered.unlinked;
    emptied = ordered.emptied;
    past = ordered.past;
    works = ordered.works;
  },
)

fresh-IsInOrder : IsInOrder fresh
fresh-IsInOrder = (
  record { link = λ j i h. absurd (none_below j h); last = λ k i e. absurd (none_some refl e) },
  record {
    unlinked = λ j h. absurd (none_below j h);
    emptied = λ c k e i h. absurd (none_below i h);
    past = λ c j h. absurd (none_below j h);
    works = λ j h. absurd (none_below j h);
  },
)
  where
    none_below : (k : ℕ) → k < 0 → ⊥
    none_below k h = absurd (omega (arith, h))

module _ (r : Runner) (i : ℕ) (h : i < r.count) (inv : IsInOrder r) where
  -- A goroutine that is past the select on `prev` moves on.
  onward :
      (p : Phase)
      → is_waiting (r.phase i) ≡ false
      → is_done (r.phase i) ≡ false
      → (is_executing p ≡ true → r.cancelled ≡ false)
      → IsInOrder (move i p r)
  onward p w d x =
      moved r i p inv (λ e. absurd (clash e d)) (λ c e. inv.1.past c i h w)
        (λ e. inv.1.past (x e) i h w)

  cancels :
      (p : Phase)
      → is_executing p ≡ false
      → is_done (r.phase i) ≡ false
      → r.cancelled ≡ true
      → IsInOrder (move i p r)
  cancels p x d c =
      moved r i p inv (λ e. absurd (clash e d)) (λ n e. absurd (clash c n))
        (λ e. absurd (clash e x))

  passes : r.phase i ≡ Phase.waiting → Passed r (r.prev i) → IsInOrder (move i Phase.taking r)
  unfolding is_done
  passes at p =
      moved r i Phase.taking inv (λ e. absurd (clash e (ap is_done at))) (λ c e. earlier c)
        (λ e. absurd (clash e refl))
    where
      not_waiting : (p : Phase) → is_done p ≡ true → is_waiting p ≡ false
      not_waiting Phase.waiting e = absurd (clash e refl)
      not_waiting _ e = refl

      order : (m k : ℕ) → (m ≡ k) ⊎ ((m < k) ⊎ (k < m))
      order m k = ground arith

      trans : (k i n : ℕ) → k < i → i < n → k < n
      trans k i n a b = omega (arith, a, b)

      linked : r.cancelled ≡ false → (o : Option ℕ) → r.prev i ≡ o → Passed r o → EarlierDone r i
      linked c none e p = inv.1.unlinked i h e
      linked c (some k) e p = λ m g f. elim (order m k) [
        | inl q ↦ subst (λ x. is_done (r.phase x) ≡ true) (sym q) p
        | inr (inl q) ↦
            inv.1.past c k (trans k i r.count (inv.0.link i k h e).0 h) (not_waiting (r.phase k) p)
              m q (f ∙ sym (inv.0.link i k h e).1)
        | inr (inr q) ↦ absurd ((inv.0.link i k h e).2 m q g f)
      ]

      earlier : r.cancelled ≡ false → EarlierDone r i
      earlier c = linked c (r.prev i) refl p

  frees : r.phase i ≡ Phase.done → IsInOrder (free_lane i r)
  unfolding free_lane is_done
  frees at = go (r.lanes (r.key i)) refl
    where
      gone : IsInOrder (move i Phase.gone r)
      gone =
          moved r i Phase.gone inv (λ e. refl) (λ c e. inv.1.past c i h (ap is_waiting at))
            (λ e. absurd (clash e refl))

      Freed : Bool → Type 0
      Freed own = IsInOrder (record r {
        phase = set_at r.phase i Phase.gone;
        lanes = if own then set_lane r.lanes (r.key i) none else r.lanes;
      })

      go : (o : Option ℕ) → r.lanes (r.key i) ≡ o → Freed (is_own o i)
      go none e = gone
      go (some j) e = elim (Bool-cases (j == i)) [
        | inl g ↦ subst Freed (sym g) (
            emptied_lane (move i Phase.gone r) i gone h (e ∙ ap (λ x. some x) ((==_iff j i).0 g))
              (ap is_done (set_here r.phase i Phase.gone)))
        | inr g ↦ subst Freed (sym g) gone
      ]

-- Each step keeps the order of the lanes.
step-IsInOrder : {r s : Runner} → Step r s → IsInOrder r → IsInOrder s
unfolding is_done
step-IsInOrder {r} {s} (Step.started l e) inv = start-IsInOrder l r s e inv
step-IsInOrder {r} (Step.created {i} bad h e) inv =
    other_fields r (set_at r.ready i (Ready.sent bad)) (set_at r.row i (some RunState.pending)) inv
step-IsInOrder {r} (Step.not_created {i} h e) inv =
    other_fields r (set_at r.ready i Ready.shut) r.row inv
step-IsInOrder {r} Step.closed (linked, ordered) = (
  record { link = linked.link; last = linked.last },
  record {
    unlinked = ordered.unlinked;
    emptied = λ c. absurd (clash refl c);
    past = λ c. absurd (clash refl c);
    works = ordered.works;
  },
)
step-IsInOrder {r} (Step.passed {i} h at p) inv = passes r i h inv at p
step-IsInOrder {r} (Step.dropped {i} h at c) inv =
    cancels r i h inv Phase.leaving refl (ap is_done at) c
step-IsInOrder {r} (Step.unready {i} h at e) inv =
    onward r i h inv Phase.leaving (ap is_waiting at) (ap is_done at) (λ x. absurd (clash x refl))
step-IsInOrder {r} (Step.stopped {i} h at c) inv =
    cancels r i h inv Phase.leaving refl (ap is_done at) c
step-IsInOrder {r} (Step.taken {i} h at e c) inv =
    onward r i h inv Phase.executing (ap is_waiting at) (ap is_done at) (λ x. c)
step-IsInOrder {r} (Step.begun {i} h at e) inv =
    other_fields r r.ready (set_at r.row i (some RunState.running)) inv
step-IsInOrder {r} (Step.succeeded {i} h at e f) inv =
    onward (set_row i RunState.completed r) i h
      (other_fields r r.ready (set_at r.row i (some RunState.completed)) inv) Phase.leaving
      (ap is_waiting at) (ap is_done at) (λ x. absurd (clash x refl))
step-IsInOrder {r} (Step.failing {i} h at e c) inv =
    onward (set_row i RunState.failed r) i h
      (other_fields r r.ready (set_at r.row i (some RunState.failed)) inv) Phase.leaving
      (ap is_waiting at) (ap is_done at) (λ x. absurd (clash x refl))
step-IsInOrder {r} (Step.left {i} h at) inv =
    onward r i h inv Phase.leaving (ap is_waiting at) (ap is_done at) (λ x. absurd (clash x refl))
step-IsInOrder {r} (Step.finished {i} h at) inv =
    onward r i h inv Phase.done (ap is_waiting at) (ap is_done at) (λ x. absurd (clash x refl))
step-IsInOrder {r} (Step.freed {i} h at) inv = frees r i h inv at

reached-IsInOrder : {r : Runner} → Reached r → IsInOrder r
reached-IsInOrder Reached.new = fresh-IsInOrder
reached-IsInOrder (Reached.next h s) = step-IsInOrder s (reached-IsInOrder h)

-- In a reached runner, while a run executes, every run of its user and lane that was started earlier has stopped,
-- whatever the interleaving of the goroutines, and also once the runner is closing.
pub reached-EarlierDone :
    (r : Runner) (j : ℕ) → Reached r → j < r.count → r.phase j ≡ Phase.executing → EarlierDone r j
reached-EarlierDone r j h b e = (reached-IsInOrder h).1.works j b (ap is_executing e)

-- In a reached runner, a run that waits can go on once every earlier run of its user and lane has
-- stopped: the channel that it waits for is closed.
pub reached-Passed :
    (r : Runner) (j : ℕ)
    → Reached r
    → j < r.count
    → r.phase j ≡ Phase.waiting
    → EarlierDone r j
    → Passed r (r.prev j) × Step r (move j Phase.taking r)
reached-Passed r j h b w e = (go (r.prev j) refl, Step.passed b w (go (r.prev j) refl))
  where
    go : (o : Option ℕ) → r.prev j ≡ o → Passed r o
    go none at = tt
    go (some i) at = let l = (reached-IsInOrder h).0.link j i b at in e i l.0 l.1
