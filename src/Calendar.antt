-- ===== src/Calendar.antt =====
-- Moments of the calendar: the parts of Python's `datetime` and `calendar` that
-- app/application/billing/subscription_period.py and app/services/payment_service.py use, and
-- `normalize_utc` of app/application/analytics/send_analytics.py. A moment is a wall-clock
-- reading in the Gregorian calendar. A stored value is naive (SQLite) or aware with a fixed UTC
-- offset (PostgreSQL); aware values compare by the instant that they name. Python's last year,
-- 9999, is not enforced.
pub mod Laws
use broadcaster.Prelude.{
  ℕ, zero, suc, ◌+◌, ◌-◌, ◌*◌, ◌/◌, ◌%◌, ◌≤◌, ◌<◌, Bool, true, false, not, ◌&&◌, ◌||◌, Option, none,
  some, ltb, leb, ◌==◌, if◌then◌else◌,
}
use broadcaster.Prelude.Int.{ℤ, pos, negsuc, pos_part, neg_part}

-- `micros` are the microseconds since midnight.
pub record Moment : Type 0 where
  pub year : ℕ
  pub month : ℕ
  pub day : ℕ
  pub micros : ℕ

abbrev pub micros_per_day : ℕ
micros_per_day = 86400000000

-- `calendar.isleap`
unfoldable pub is_leap : ℕ → Bool
is_leap y = (y % 4 == 0) && (not (y % 100 == 0) || (y % 400 == 0))

-- April, June, September and November.
abbrev pub has_thirty_days : ℕ → Bool
has_thirty_days m = ((m == 4) || (m == 6)) || ((m == 9) || (m == 11))

-- The table `calendar.mdays`, from 1 on.
unfoldable pub mdays : ℕ → ℕ
mdays m = if m == 2 then 28 else if has_thirty_days m then 30 else 31

-- `calendar.monthrange(year, month)[1]`
unfoldable pub days_in_month : ℕ → ℕ → ℕ
unfolding mdays
days_in_month y m = mdays m + (if (m == 2) && is_leap y then 1 else 0)

unfoldable pub days_before_month : ℕ → ℕ → ℕ
days_before_month y zero = 0
days_before_month y (suc zero) = 0
days_before_month y (suc (suc m)) = days_before_month y (suc m) + days_in_month y (suc m)

unfoldable pub days_before_year : ℕ → ℕ
days_before_year zero = 0
days_before_year (suc y) = days_before_year y + (if is_leap y then 366 else 365)

-- The number of a moment's day.
unfoldable pub day_number : Moment → ℕ
day_number m = days_before_year m.year + days_before_month m.year m.month + m.day

-- The microseconds of a wall-clock reading, counted from one fixed day.
unfoldable pub instant : Moment → ℕ
instant m = day_number m * micros_per_day + m.micros

-- A calendar date with a time of day.
pub record IsMoment (m : Moment) : Type 0 where
  pub month_in : (1 ≤ m.month) × (m.month ≤ 12)
  pub day_in : (1 ≤ m.day) × (m.day ≤ days_in_month m.year m.month)
  pub micros_in : m.micros < micros_per_day

-- An aware `datetime`: its instant is the wall clock less the offset, in microseconds.
pub record Aware : Type 0 where
  pub wall : Moment
  pub offset : ℤ

-- A value as the database driver hands it over.
pub data Stored : Type 0 where
  naive : Moment → Stored
  aware : Aware → Stored

-- A naive value is UTC; an aware one is returned as it is.
unfoldable pub normalize_utc : Stored → Aware
normalize_utc (naive m) = record { wall = m; offset = pos 0 }
normalize_utc (aware a) = a

-- Two counts whose difference is that of the instants of `a` and `b`.
abbrev pub reading : Aware → Aware → ℕ
reading a b = instant a.wall + neg_part a.offset + pos_part b.offset

abbrev pub Before : Aware → Aware → Type 0
Before a b = reading a b < reading b a

-- `a < b` and `a <= b` on aware values
abbrev pub is_before : Aware → Aware → Bool
is_before a b = ltb (reading a b) (reading b a)

abbrev pub is_at_most : Aware → Aware → Bool
is_at_most a b = leb (reading a b) (reading b a)

-- `(a - b).days`: the difference rounded down to whole days.
unfoldable pub days_between : Aware → Aware → ℤ
days_between a b =
    if leb (reading b a) (reading a b)
    then pos ((reading a b - reading b a) / micros_per_day)
    else negsuc ((reading b a - reading a b - 1) / micros_per_day)

-- The date after a date, at the same time of day.
unfoldable pub next_day : Moment → Moment
next_day m =
    if ltb m.day (days_in_month m.year m.month)
    then record m { day = m.day + 1 }
    else if m.month == 12
    then record m { year = m.year + 1; month = 1; day = 1 }
    else record m { month = m.month + 1; day = 1 }

-- `value + timedelta(days=n)`: the wall clock moves, and the offset stays.
unfoldable pub add_days : ℕ → Moment → Moment
add_days zero m = m
add_days (suc n) m = add_days n (next_day m)
