-- ===== src/Examples/CorpActs.antt =====
-- The theorems of the calendar and of the stated splits at examples. The decimals are whole numbers.
use Prim.Native.String.{String}
use stonks.Base.{
  ℕ, ◌*◌, true, false, ◌&&◌, some, List, [], ◌∷◌, ◌≡◌, refl, arith, any, All, ltb, ◌==◌,
}
use stonks.Types.Time.{Time, day}
use stonks.Types.Period.{contains, any_contains, gaps, union, clip}
use stonks.Types.Ratio.{Decimals}
use stonks.Corpact.{Act, undecided, split, unknown}
use stonks.Corpact.Calendar.{Calendar, times, factor}
use stonks.Corpact.Calendar.Factor.{factor-times}
use stonks.Corpact.Splits.{SplitGroup, unmatched_splits}
use stonks.Corpact.Splits.Unmatched.{IsLacking, unmatched_splits-IsLacking}
use stonks.Types.MarketTicker.{MarketTicker, ByTicker, lookup}
use stonks.Types.Identifier.{Identifier, isin, broker_id}
use stonks.TickerValidity.Segments.{Interval}
use stonks.TickerValidity.Intervals
use stonks.Corpact.Stored.{Answer, market_is, or_else}
use stonks.Corpact.Stored.{within, unknown_days}
use stonks.Corpact.Stored.Within.{AtMidnight, known as covers_known, within-days}
use stonks.Types.MarketTicker.{ticker_eq}
use stonks.Corpact.Calendar.Build.{build}
use stonks.Corpact.Calendar.Build.Coverage.{build-coverage, build-unknown}
use stonks.Corpact.Covered.{Cover, StatedSplit}
use stonks.Examples.{on, days, known}

abbrev whole : Decimals ℕ
whole = record {
  mul = λ a b. a * b;
  equal = λ a b. a == b;
  greater = λ a b. ltb b a;
  less = λ a b. ltb a b;
  rat = λ a. (a, 1);
}

abbrev two_for_one : Act ℕ
two_for_one = record {
  id = 1;
  ex_date = on 20;
  ratio = record { from = 1; to = 2 };
  word = "split";
  handled = true;
  decision = undecided;
}

abbrev three_for_one : Act ℕ
three_for_one = record {
  id = 2;
  ex_date = on 40;
  ratio = record { from = 1; to = 3 };
  word = "CA";
  handled = false;
  decision = split;
}

abbrev calendar : Calendar ℕ
calendar = record {
  market = "US";
  datasource = "eodhd";
  acts = two_for_one ∷ three_for_one ∷ [];
  coverage = days 10 50 ∷ [];
}

factor_test : factor whole calendar (on 15) (on 45) ≡ ((6, 1), true)
unfolding factor gaps union clip
factor_test = refl

factor-times_example :
    (factor whole calendar (on 15) (on 45)).0
    ≡ times (factor whole calendar (on 15) (on 30)).0 (factor whole calendar (on 30) (on 45)).0
factor-times_example =
    factor-times whole calendar (on 15) (on 30) (on 45) (omega arith) (omega arith)

midnight : day (on 10) ≡ on 10
unfolding day
midnight = refl

midnight_40 : day (on 40) ≡ on 40
unfolding day
midnight_40 = refl

midnight_20 : day (on 20) ≡ on 20
unfolding day
midnight_20 = refl

abbrev group : SplitGroup ℕ
group = record {
  key = 7;
  day = on 18;
  instr = 1;
  ratios = record { from = 5; to = 10 } ∷ [];
  run = 9;
}

abbrev acts_of : ℕ → List (Act ℕ)
acts_of i = two_for_one ∷ three_for_one ∷ []

unmatched_splits-IsLacking_example :
    All (IsLacking whole acts_of) (unmatched_splits whole (group ∷ []) acts_of)
unmatched_splits-IsLacking_example = unmatched_splits-IsLacking whole acts_of (group ∷ [])

abbrev acme : MarketTicker
acme = record { market = "US"; value = "ACME" }

abbrev validity : ByTicker (List Interval)
validity = (acme, known) ∷ []

abbrev markets : List (ℕ × String)
markets = (1, "US") ∷ []

abbrev answers : ByTicker (Answer ℕ)
answers =
    (
      acme,
      record {
        datasource = "eodhd";
        acts = two_for_one ∷ three_for_one ∷ [];
        coverage = days 10 50 ∷ [];
      },
    )
    ∷ []

build-coverage_example :
    any
      (λ b. b.instr == 1 && any_contains b.calendar.coverage (on 25))
      (build whole markets validity answers [])
    ≡ any
        (λ e.
          any
            (λ iv.
              market_is markets iv.instr e.0.market
              && (iv.instr == 1
                  && (Intervals.contains iv (on 25) && any_contains e.1.coverage (on 25))))
            (or_else [] (lookup e.0 validity)))
        answers
build-coverage_example = build-coverage whole markets validity answers 1 (on 25)

build-unknown_example :
    any
      (λ b. b.instr == 1 && any (λ d. d == on 40) b.unknown)
      (build whole markets validity answers [])
    ≡ any
        (λ e.
          any
            (λ iv.
              market_is markets iv.instr e.0.market
              && (iv.instr == 1
                  && any
                      (λ u. Intervals.contains iv u.ex_date && (unknown u && u.ex_date == on 40))
                      e.1.acts))
            (or_else [] (lookup e.0 validity)))
        answers
build-unknown_example = build-unknown whole markets validity answers 1 (on 40)

abbrev cover : Cover
cover = record { instr = 1; period = days 10 30; run = 9 }

abbrev stated_split : StatedSplit ℕ
stated_split = record {
  key = 7;
  effective_date = on 18;
  ratio_from = some 5;
  ratio_to = some 10;
  instr = 1;
}

abbrev by_isin : Identifier
by_isin = record { type = isin; domain = ""; value = "US0378331005" }

abbrev by_broker : Identifier
by_broker = record { type = broker_id; domain = "ibkr"; value = "265598" }

abbrev one_unknown : ByTicker (Answer ℕ)
one_unknown =
    (
      acme,
      record {
        datasource = "eodhd";
        acts = record two_for_one { ex_date = on 40; handled = false } ∷ [];
        coverage = days 10 50 ∷ [];
      },
    )
    ∷ []

one_unknown_midnight : AtMidnight (days 0 60) acme (on 25) (record {
  datasource = "eodhd";
  acts = record two_for_one { ex_date = on 40; handled = false } ∷ [];
  coverage = days 10 50 ∷ [];
})
unfolding unknown_days
one_unknown_midnight = ((midnight, tt), (midnight_40, tt))

within-days_example :
    any
      (λ e. ticker_eq acme e.0 && any_contains e.1.coverage (on 25))
      (within (days 0 60) one_unknown)
    ≡ any
        (λ e.
          ticker_eq acme e.0
          && (covers_known (days 0 60) acme (on 25) e.1 && contains (days 0 60) (on 25)))
        one_unknown
within-days_example = within-days (days 0 60) acme (on 25) one_unknown (one_unknown_midnight, tt)
