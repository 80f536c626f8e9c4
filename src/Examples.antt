-- ===== src/Examples.antt =====
-- The ticker of the examples: a source named "eodhd" says that the ticker names instrument 1 in its
-- first answer, and instrument 2 from day 40 in a later one; "massive" says that it names
-- instrument 3 over days on which "eodhd" names instrument 1.
pub mod Periods
pub mod Tickers
pub mod Groups
pub mod Merging
pub mod Resolve
pub mod Runs
pub mod Statements
pub mod CorpActs
pub mod Coverage
use stonks.Base.{ℕ, ◌*◌, true, false, Option, none, some, List, [], ◌∷◌}
use stonks.Types.Time.{Time, day_length}
use stonks.Types.Period.{Period}
use stonks.TickerValidity.Facts.{
  Id128, Source, Assertion, Edge, AssertionCoverage, Facts, other, event_source, zero_period,
}
use stonks.TickerValidity.Segments.{Interval, confirmed, provisional}

abbrev pub on : ℕ → Time
on n = n * day_length

abbrev pub days : ℕ → ℕ → Period
days n m = record { from = on n; before = on m }

abbrev pub first_answer : Source
first_answer = record {
  datasource = "eodhd";
  precedence = 1;
  answer = 100;
  answered = on 50;
  asked = zero_period;
  standing = other;
}

abbrev pub second_answer : Source
second_answer = record {
  datasource = "eodhd";
  precedence = 1;
  answer = 101;
  answered = on 60;
  asked = days 40 61;
  standing = other;
}

abbrev pub other_answer : Source
other_answer = record {
  datasource = "massive";
  precedence = 2;
  answer = 102;
  answered = on 55;
  asked = zero_period;
  standing = other;
}

abbrev pub assertion : Source → Option Id128 → Period → Assertion
assertion s i p = record {
  period = p;
  instr = i;
  edge_from = false;
  edge_before = false;
  source = s;
}

abbrev pub stated : List Assertion
stated =
    assertion first_answer (some 1) (days 10 50)
    ∷ assertion second_answer (some 2) (days 40 60)
    ∷ assertion other_answer (some 3) (days 20 30)
    ∷ []

abbrev pub ticker_facts : Facts
ticker_facts = record {
  assertions = stated;
  coverage = record { period = days 5 70; source = first_answer } ∷ [];
}

abbrev pub change : Edge
change = record { at = on 35; assertion = assertion first_answer (some 1) (days 10 50) }

abbrev pub known : List Interval
known =
    record { from = some (on 10); before = some (on 20); instr = 1; validity = confirmed }
    ∷ record { from = some (on 20); before = some (on 30); instr = 1; validity = confirmed }
    ∷ record { from = some (on 30); before = none; instr = 1; validity = provisional }
    ∷ []
