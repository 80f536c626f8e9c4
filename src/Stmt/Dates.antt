-- ===== src/Stmt/Dates.antt =====
-- parseDate of server/internal/stmt/validate.go: time.ParseInLocation of a date 2006-01-02, which is
-- four, two and two digits. The moments count from the midnight of the first day of the year 0.
use Prim.Native.Char.{Char, code}
use Prim.Native.String.{String, [], ◌∷◌}
use stonks.Base.{
  ℕ, zero, suc, ◌+◌, ◌-◌, ◌*◌, ◌/◌, ◌%◌, Bool, true, false, not, ◌&&◌, ◌||◌, Option, none, some,
  leb, ◌==◌, ◌>>=◌, if◌then◌else◌,
}
use stonks.Types.Time.{Time, day_length}

abbrev is_digit : Char → Bool
is_digit c = leb b'0' (code c) && leb (code c) b'9'

-- Exactly `n` digits, and the rest of the text.
unfoldable pub digits : ℕ → ℕ → String → Option (ℕ × String)
digits zero acc s = some (acc, s)
digits (suc n) acc [] = none
digits (suc n) acc (c ∷ s) = if is_digit c then digits n (acc * 10 + (code c - b'0')) s else none

abbrev dash : String → Option String
dash [] = none
dash (c ∷ s) = if code c == b'-' then some s else none

abbrev is_end : String → Bool
is_end [] = true
is_end (c ∷ s) = false

abbrev is_leap : ℕ → Bool
is_leap y = y % 4 == 0 && (not (y % 100 == 0) || y % 400 == 0)

-- The days of a month, and the days of a year before a month.
unfoldable pub days_in : ℕ → ℕ → ℕ
days_in y m =
    if m == 2
    then (if is_leap y then 29 else 28)
    else if m == 4 || (m == 6 || (m == 9 || m == 11))
    then 30
    else 31

unfoldable pub days_before : ℕ → ℕ → ℕ
unfolding days_in
days_before y zero = 0
days_before y (suc m) = if m == 0 then 0 else days_before y m + days_in y m

unfoldable pub date : ℕ → ℕ → ℕ → Time
unfolding days_before
date y m d =
    (365 * y + ((y + 3) / 4 + (y + 399) / 400 - (y + 99) / 100) + days_before y m + (d - 1))
    * day_length

-- The month and the day are in range.
unfoldable pub checked_date : ℕ → ℕ → ℕ → String → Option Time
unfolding date
checked_date y m d rest =
    if is_end rest && (leb 1 m && (leb m 12 && (leb 1 d && leb d (days_in y m))))
    then some (date y m d)
    else none

unfoldable pub parse_date : String → Option Time
unfolding digits checked_date
parse_date s = do
  y ← digits 4 0 s
  s2 ← dash y.1
  m ← digits 2 0 s2
  s3 ← dash m.1
  d ← digits 2 0 s3
  checked_date y.0 m.0 d.0 d.1
