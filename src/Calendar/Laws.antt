-- ===== src/Calendar/Laws.antt =====
-- The calendar's laws: a month starts where the one before ends, also at the turn of the year.
use native.Mathlib.Numerals.{add-one}
use broadcaster.Prelude.{
  ℕ, refl, zero, suc, if◌then◌else◌, ◌+◌, ◌≤◌, ◌≡◌, Bool-cases, inl, inr, ltb, ◌==◌, arith,
}
use broadcaster.Calendar.{
  Moment, IsMoment, is_leap, days_in_month, days_before_month, days_before_year, day_number,
  next_day, add_days,
}

pub days_in_month_bounds : (y m : ℕ) → (28 ≤ days_in_month y m) × (days_in_month y m ≤ 31)
unfolding days_in_month is_leap
days_in_month_bounds y m = ground arith

pub days_before_month-suc :
    (y m : ℕ) → 1 ≤ m → days_before_month y (m + 1) ≡ days_before_month y m + days_in_month y m
unfolding days_before_month
days_before_month-suc y zero h = absurd (omega arith)
days_before_month-suc y (suc m) h = rw (add-one (suc m))

year_end : (y : ℕ) → days_before_month y 12 + 31 ≡ (if is_leap y then 366 else 365)
unfolding days_before_month days_in_month
year_end y = ground arith

-- December ends where the next year starts.
pub days_before_year-suc :
    (y : ℕ) → days_before_year (y + 1) ≡ days_before_year y + days_before_month y 12 + 31
unfolding days_before_year
days_before_year-suc y = rw (add-one y) (omega (arith, year_end y))

next_day-IsMoment : (m : Moment) → IsMoment m → IsMoment (next_day m)
unfolding next_day
next_day-IsMoment m v = record {
  month_in = ground arith;
  day_in =
      ground
        (arith, days_in_month_bounds (m.year + 1) 1, days_in_month_bounds m.year (m.month + 1));
  micros_in = ground arith;
}

december : (y m : ℕ) → m ≡ 12 → days_in_month y m ≡ 31
unfolding days_in_month is_leap
december y m h = ground arith

day_number-next_day : (m : Moment) → IsMoment m → day_number (next_day m) ≡ day_number m + 1
unfolding next_day day_number days_before_month
day_number-next_day m v = elim (Bool-cases (ltb m.day (days_in_month m.year m.month))) [
  | inl within ↦ rw within (omega arith)
  | inr last ↦ rw last (elim (Bool-cases (m.month == 12)) [
    | inr inside ↦ rw inside (ground (arith, days_before_month-suc m.year m.month))
    | inl turn ↦ rw turn (turn_of_year m (ground arith) (ground (arith, december m.year m.month)))
  ])
]
  where
    turn_of_year :
        (m : Moment)
        → m.month ≡ 12
        → m.day ≡ 31
        → days_before_year (m.year + 1) + 0 + 1
          ≡ days_before_year m.year + days_before_month m.year m.month + m.day + 1
    turn_of_year m twelve last = rw (twelve, last) (omega (arith, days_before_year-suc m.year))

pub next_day_lem :
    (m : Moment) → IsMoment m → IsMoment (next_day m) × (day_number (next_day m) ≡ day_number m + 1)
next_day_lem m v = (next_day-IsMoment m v, day_number-next_day m v)

pub add_days_lem :
    (n : ℕ) (m : Moment)
    → IsMoment m
    → IsMoment (add_days n m) × (day_number (add_days n m) ≡ day_number m + n)
unfolding add_days
add_days_lem zero m v = (v, omega arith)
add_days_lem (suc n) m v =
    let one = next_day_lem m v in
    let rest = add_days_lem n (next_day m) one.0 in (rest.0, omega (arith, one.1, rest.1))

pub micros-add_days : (n : ℕ) (m : Moment) → (add_days n m).micros ≡ m.micros
unfolding add_days next_day
micros-add_days zero m = refl
micros-add_days (suc n) m = ground (arith, micros-add_days n (next_day m))
