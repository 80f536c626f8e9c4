-- ===== src/TickerValidity/Facts.antt =====
-- The facts of one ticker, server/internal/identity/tickervalidity/tickervalidity.go. An
-- identifier (uuid) is the number that its bytes spell, so bytes.Compare and the comparison of two
-- printed identifiers are the order of the numbers. A precedence is counted from the least int32.
use Prim.Native.String.{String}
use text.Mathlib.Text.{◌==◌ as str_eq}
use stonks.Base.{
  ℕ, Bool, true, false, not, ◌&&◌, Option, none, some, List, ltb, ◌==◌, if◌then◌else◌,
}
use stonks.Types.Time.{Time}
use stonks.Types.Period.{Period}

abbrev pub Id128 : Type 0
Id128 = ℕ

-- Ascending: an identifier attestation ranks first.
pub data Standing : Type 0 where
  other event_source attested : Standing

abbrev pub rank : Standing → ℕ
rank other = 0
rank event_source = 1
rank attested = 2

pub record Source : Type 0 where
  pub datasource : String
  pub precedence : ℕ
  pub answer : Id128
  pub answered : Time
  pub asked : Period
  pub standing : Standing

-- An administrator's attestation.
abbrev pub is_attested : Source → Bool
is_attested s = rank s.standing == 2

-- The zero value of the fields that a grouped source leaves out.
abbrev pub zero_period : Period
zero_period = record { from = 0; before = 0 }

unfoldable pub group : Source → Source
group s =
    if is_attested s
    then record {
      datasource = "";
      precedence = 0;
      answer = 0;
      answered = 0;
      asked = zero_period;
      standing = attested;
    }
    else record s { answer = 0; answered = 0; asked = zero_period }

-- Go's == on two sources.
unfoldable pub source_eq : Source → Source → Bool
source_eq s o =
    str_eq s.datasource o.datasource
    && (s.precedence == o.precedence
        && (s.answer == o.answer
            && (s.answered == o.answered
                && ((s.asked.from == o.asked.from && s.asked.before == o.asked.before)
                    && rank s.standing == rank o.standing))))

unfoldable pub newer : Source → Source → Bool
newer s o =
    if not (s.answered == o.answered) then ltb o.answered s.answered else ltb o.answer s.answer

unfoldable pub outranks : Source → Source → Bool
outranks s o =
    if not (rank s.standing == rank o.standing)
    then ltb (rank o.standing) (rank s.standing)
    else ltb s.precedence o.precedence

pub record Assertion : Type 0 where
  pub period : Period
  pub instr : Option Id128
  pub edge_from : Bool
  pub edge_before : Bool
  pub source : Source

pub record Edge : Type 0 where
  pub at : Time
  pub assertion : Assertion

pub record AssertionCoverage : Type 0 where
  pub period : Period
  pub source : Source

pub record Facts : Type 0 where
  pub assertions : List Assertion
  pub coverage : List AssertionCoverage

unfoldable pub same : Option Id128 → Option Id128 → Bool
same none none = true
same none (some b) = false
same (some a) none = false
same (some a) (some b) = a == b

-- A positive assertion before a negative one, then the lower instrument.
unfoldable pub lower_instr : Option Id128 → Option Id128 → Bool
lower_instr none none = false
lower_instr none (some b) = false
lower_instr (some a) none = true
lower_instr (some a) (some b) = ltb a b

unfoldable pub better : Assertion → Assertion → Bool
unfolding lower_instr
better a b =
    if outranks a.source b.source
    then true
    else if outranks b.source a.source
    then false
    else lower_instr a.instr b.instr
