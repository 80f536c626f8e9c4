-- ===== src/Examples/Runs.antt =====
-- The theorems of the lanes at an example: two runs of one lane, of which the second one executes.
use stonks.Base.{ℕ, true, ◌≡◌, subst, ◌<◌, suc, none, refl, arith, some, false}
use stonks.Run.{
  LaneKey, Phase, Runner, start, move, hand_off, fresh, is_done, Passed, Step, Reached, Ready,
  set_at, set_lane,
}
use stonks.Run.Lanes.{EarlierDone}
use stonks.Run.Order.{reached-EarlierDone, reached-Passed}

abbrev lane : LaneKey
lane = record { user = 7; lane = "resolve" }

-- The runner once a run of the lane is started.
abbrev started_in : Runner → Runner
started_in r = record {
  cancelled = false;
  lanes = set_lane r.lanes lane (some r.count);
  count = suc r.count;
  key = set_at r.key r.count lane;
  prev = set_at r.prev r.count (r.lanes lane);
  phase = set_at r.phase r.count Phase.waiting;
  ready = set_at r.ready r.count Ready.empty;
  row = set_at r.row r.count none;
}

abbrev two_started : Runner
two_started = started_in (started_in fresh)

two_started-Reached : Reached two_started
unfolding start
two_started-Reached =
    Reached.next (Reached.next Reached.new (Step.started lane refl)) (Step.started lane refl)

-- The first run is handed off, executes and stops.
abbrev first_sent : Runner
first_sent = hand_off 0 false two_started

first_sent-Reached : Reached first_sent
unfolding is_done
first_sent-Reached =
    Reached.next two_started-Reached
      (Step.created {r = two_started} {i = 0} false (omega arith) refl)

abbrev first_taking : Runner
first_taking = move 0 Phase.taking first_sent

first_taking-Reached : Reached first_taking
unfolding is_done
first_taking-Reached =
    Reached.next first_sent-Reached (Step.passed {r = first_sent} {i = 0} (omega arith) refl tt)

abbrev first_executes : Runner
first_executes = move 0 Phase.executing first_taking

first_executes-Reached : Reached first_executes
unfolding is_done
first_executes-Reached =
    Reached.next first_taking-Reached
      (Step.taken {r = first_taking} {i = 0} {bad = false} (omega arith) refl refl refl)

abbrev first_leaving : Runner
first_leaving = move 0 Phase.leaving first_executes

first_leaving-Reached : Reached first_leaving
unfolding is_done
first_leaving-Reached =
    Reached.next first_executes-Reached (Step.left {r = first_executes} {i = 0} (omega arith) refl)

abbrev first_done : Runner
first_done = move 0 Phase.done first_leaving

first_done-Reached : Reached first_done
unfolding is_done
first_done-Reached =
    Reached.next first_leaving-Reached
      (Step.finished {r = first_leaving} {i = 0} (omega arith) refl)

-- The second one executes.
abbrev second_sent : Runner
second_sent = hand_off 1 false first_done

second_sent-Reached : Reached second_sent
unfolding is_done
second_sent-Reached =
    Reached.next first_done-Reached (Step.created {r = first_done} {i = 1} false (omega arith) refl)

abbrev second_taking : Runner
second_taking = move 1 Phase.taking second_sent

second_taking-Reached : Reached second_taking
unfolding is_done
second_taking-Reached =
    Reached.next second_sent-Reached (Step.passed {r = second_sent} {i = 1} (omega arith) refl refl)

abbrev second_executes : Runner
second_executes = move 1 Phase.executing second_taking

second_executes-Reached : Reached second_executes
unfolding is_done
second_executes-Reached =
    Reached.next second_taking-Reached
      (Step.taken {r = second_taking} {i = 1} {bad = false} (omega arith) refl refl refl)

reached-EarlierDone_example : EarlierDone second_executes 1
reached-EarlierDone_example =
    reached-EarlierDone second_executes 1 second_executes-Reached (omega arith) refl

-- The first run has stopped, and the second one is handed off.
second_sent-EarlierDone : EarlierDone second_sent 1
unfolding is_done
second_sent-EarlierDone i h e =
    subst (λ k. is_done (second_sent.phase k) ≡ true) (zero_below i h) refl
  where
    zero_below : (i : ℕ) → i < 1 → 0 ≡ i
    zero_below i h = omega (arith, h)

reached-Passed_example :
    Passed second_sent (some 0) × Step second_sent (move 1 Phase.taking second_sent)
reached-Passed_example =
    reached-Passed second_sent 1 second_sent-Reached (omega arith) refl second_sent-EarlierDone
