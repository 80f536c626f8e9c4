-- ===== src/Types/Time.antt =====
-- Moments and UTC days, as server/internal/types/period.go uses Go's time.Time. A moment is a
-- count of nanoseconds since a UTC midnight that lies before every moment the server meets, and a
-- UTC day is 24 hours. `Time.Before`, `After`, `Equal` and `Compare` are the order of the counts.
use stonks.Base.{ℕ, ◌+◌, ◌-◌, ◌*◌, ◌/◌, ◌≤◌, ◌<◌, arith}

abbrev pub Time : Type 0
Time = ℕ

abbrev pub day_length : ℕ
day_length = 86_400_000_000_000

-- time.AddDate(0, 0, 1)
abbrev pub next : Time → Time
next d = d + day_length

-- time.AddDate(0, 0, -1)
abbrev pub prev : Time → Time
prev d = d - day_length

unfoldable pub day : Time → Time
day t = t / day_length * day_length

pub day_bounds : (t : Time) → (day t ≤ t) × (t < next (day t))
unfolding day
day_bounds t = (omega arith, omega arith)

pub day_mono : (s t : Time) → s ≤ t → day s ≤ day t
unfolding day
day_mono s t h = omega arith
