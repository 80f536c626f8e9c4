-- ===== src/Examples/Tickers.antt =====
-- The theorems of the ticker validity at the example ticker.
use stonks.Base.{
  ◌≡◌, true, false, Bool, not, ◌&&◌, refl, arith, any, All, some, none, Option, [], ◌∷◌,
}
use stonks.Types.Period.{contains, union, any_contains}
use stonks.TickerValidity.Facts.{Id128, Source, Assertion, Edge, same, better, source_eq, outranks}
use stonks.TickerValidity.Facts
use stonks.TickerValidity.Current.{current, rounds}
use stonks.TickerValidity.Current.Later.{reached_later, current-reached_later}
use stonks.TickerValidity.Winners.{
  winners, sweep, counted, by_first_day, boundaries, day_of, best_from, best_of,
}
use stonks.TickerValidity.Winners.Best.{on_day}
use stonks.TickerValidity.Winners.Winning.{counts_in}
use stonks.TickerValidity.Winners.Wins.{winners-on_day, winners-best}
use stonks.TickerValidity.Segments.{confirmed, join}
use stonks.TickerValidity.Segments.Join.{says, join-says}
use stonks.TickerValidity.Segments.Order.{InOrder}
use stonks.TickerValidity.Derive.{derive}
use stonks.TickerValidity.Derive.Confirmed.{wins, derive-confirmed}
use stonks.TickerValidity.Derive.Order.{derive-InOrder}
use stonks.TickerValidity.Intervals.{confirmed_on, first_unconfirmed}
use stonks.TickerValidity.Intervals
use stonks.TickerValidity.Intervals.Gaps.{any_contains-gaps_confirmed}
use stonks.Examples.{
  on, days, assertion, first_answer, second_answer, other_answer, stated, ticker_facts, change,
  known,
}

ticker-wins : any (wins 1 (on 15)) (derive ticker_facts).winners ≡ true
unfolding derive current rounds winners sweep day_of best_from best_of same better contains
    boundaries counted by_first_day union source_eq Facts.group outranks
ticker-wins = refl

derive-confirmed_example : any (says 1 confirmed (on 15)) (derive ticker_facts).intervals ≡ true
derive-confirmed_example = derive-confirmed 1 (on 15) ticker_facts ticker-wins

derive-InOrder_example : InOrder (derive ticker_facts).intervals
derive-InOrder_example = derive-InOrder ticker_facts

winners-best_example :
    All
      (λ w.
        on_day w (on 25) ≡ true
        → (w.instr ≡ w.assertion.instr)
          × (contains w.assertion.period (on 25) ≡ true)
          × (any
                (λ a. counts_in stated a && (contains a.period (on 25) && better a w.assertion))
                stated
              ≡ false))
      (winners stated (change ∷ [])).0
winners-best_example = winners-best stated (change ∷ []) (on 25)

winners-on_day_example :
    any (λ w. on_day w (on 25)) (winners stated (change ∷ [])).0
    ≡ any (λ a. counts_in stated a && contains a.period (on 25)) stated
winners-on_day_example = winners-on_day stated (change ∷ []) (on 25)

abbrev of_eodhd : Option Id128 → Source → Bool
of_eodhd i s = source_eq s second_answer

current-reached_later_example :
    any (λ x. contains x.period (on 45) && of_eodhd x.instr x.source) (current stated).0
    ≡ any
        (λ a.
          (contains a.period (on 45) && not (reached_later stated a (on 45)))
          && of_eodhd a.instr a.source)
        stated
current-reached_later_example = current-reached_later of_eodhd (on 45) stated

abbrev eodhd_says : Assertion
eodhd_says = assertion first_answer (some 1) (days 10 50)

join-says_example :
    any (says 1 confirmed (on 22)) (join known) ≡ any (says 1 confirmed (on 22)) known
join-says_example = join-says 1 confirmed (on 22) known (ground arith)

attested-better :
    better
      (assertion first_answer (some 1) (days 10 50))
      (assertion other_answer (some 3) (days 20 30))
    ≡ true
unfolding better outranks
attested-better = refl

other-better :
    better (assertion other_answer (some 3) (days 20 30)) (assertion other_answer none (days 20 30))
    ≡ true
unfolding better outranks
other-better = refl

any_contains-gaps_confirmed_example :
    any_contains (Intervals.gaps known (days 15 40)) (on 35)
    ≡ (contains (days 15 40) (on 35) && not (confirmed_on known (on 35)))
any_contains-gaps_confirmed_example =
    any_contains-gaps_confirmed known (days 15 40) (on 35) (ground arith)
