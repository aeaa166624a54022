-- ===== src/Cron/Calendar.antt =====
-- The calendar of Go's `time` package in UTC, as cron/spec.go uses it. An instant is counted in whole
-- seconds since the zero time, 1 January of year 1, which was a Monday. Months are counted from the
-- January of year 1 as number 0, so that a month and a year are one number.
pub mod Months
use cronflux.Common.{
  ℕ, zero, suc, ◌+◌, ◌-◌, ◌*◌, ◌/◌, ◌%◌, Bool, true, false, not, ◌&&◌, ◌||◌, ltb, ◌==◌,
  if◌then◌else◌,
}

-- The seconds of a day.
abbrev pub day_length : ℕ
day_length = 86400

unfoldable pub is_leap : ℕ → Bool
is_leap y = y % 4 == 0 && (not (y % 100 == 0) || y % 400 == 0)

-- The length of month `m`, from 0 for January.
unfoldable pub days_in_month : ℕ → ℕ → ℕ
unfolding is_leap
days_in_month y m =
    if m == 1
    then (if is_leap y then 29 else 28)
    else if (m == 3 || m == 5) || (m == 8 || m == 10)
    then 30
    else 31

-- The days of the year `y` before its month `m`.
unfoldable pub days_before_month : ℕ → ℕ → ℕ
unfolding days_in_month
days_before_month y zero = 0
days_before_month y (suc m) = days_before_month y m + days_in_month y m

-- The days before the year that comes `p` years after year 1.
unfoldable pub days_before_year : ℕ → ℕ
days_before_year p = p * 365 + p / 4 - p / 100 + p / 400

-- The year of a month, and the month in its year, as Go numbers them.
abbrev pub year_of : ℕ → ℕ
year_of k = k / 12 + 1

abbrev pub month_of : ℕ → ℕ
month_of k = k % 12 + 1

-- The day, counted from the zero time, on which month `k` begins.
unfoldable pub first_day : ℕ → ℕ
first_day k = days_before_year (k / 12) + days_before_month (year_of k) (k % 12)

-- The month of a day, searched from month `k` on.
unfoldable pub month_from : ℕ → ℕ → ℕ → ℕ
month_from zero k n = k
month_from (suc fuel) k n = elim (ltb n (first_day (suc k))) [
  | true ↦ k
  | false ↦ month_from fuel (suc k) n
]

-- No year is longer than 366 days, so that the search begins no later than it should; no month is
-- without a day, so that a round for each day is enough.
unfoldable pub month_index : ℕ → ℕ
unfolding month_from
month_index n = month_from (suc n) (n / 366 * 12) n

-- `t.Year()`, `t.Month()`, `t.Day()`, `t.Weekday()`, `t.Hour()`, `t.Minute()` and `t.Second()`.
unfoldable pub year : ℕ → ℕ
unfolding month_index
year t = year_of (month_index (t / day_length))

unfoldable pub month : ℕ → ℕ
unfolding month_index
month t = month_of (month_index (t / day_length))

unfoldable pub day : ℕ → ℕ
unfolding month_index
day t = let n = t / day_length in n - first_day (month_index n) + 1

abbrev pub weekday : ℕ → ℕ
weekday t = (t / day_length + 1) % 7

abbrev pub hour : ℕ → ℕ
hour t = t / 3600 % 24

abbrev pub minute : ℕ → ℕ
minute t = t / 60 % 60

abbrev pub second_of : ℕ → ℕ
second_of t = t % 60

-- `time.Date` at midnight of the first of the month of `t`, and of its day.
unfoldable pub month_floor : ℕ → ℕ
unfolding month_index
month_floor t = first_day (month_index (t / day_length)) * day_length

abbrev pub day_floor : ℕ → ℕ
day_floor t = t / day_length * day_length

-- `t.AddDate(0, 1, 0)`: the same day of the next month, or as many days after its beginning.
unfoldable pub add_month : ℕ → ℕ
unfolding month_index
add_month t =
    let n = t / day_length in
    let k = month_index n in (first_day (suc k) + (n - first_day k)) * day_length + t % day_length
