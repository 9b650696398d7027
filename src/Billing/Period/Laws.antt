-- ===== src/Billing/Period/Laws.antt =====
-- What the term promises: a month is 28 to 31 days, a payment never burns the days that are
-- left, and the gate follows the term.
use broadcaster.Prelude.{
  ℕ, ◌+◌, ◌*◌, ◌≤◌, ◌≡◌, refl, ◌⊎◌, inl, inr, true, Option, none, some, arith, Bool-cases, leb→le,
  leb-false, lt→ltb,
}
use broadcaster.Calendar.{
  Moment, IsMoment, days_before_month, days_before_year, day_number, instant, micros_per_day,
  days_in_month, Aware, Stored, aware, normalize_utc, reading, is_at_most,
}
use broadcaster.Calendar.Laws.{days_in_month_bounds, days_before_month-suc, days_before_year-suc}
use broadcaster.Billing.Period.{month_after, add_one_month, subscription_is_live, next_expiry}

january : (y : ℕ) → days_before_month y 1 ≡ 0
unfolding days_before_month
january y = refl

december : (y : ℕ) → days_in_month y 12 ≡ 31
unfolding days_in_month
december y = refl

-- The month after a moment begins where the moment's month ends.
month_start :
    (m : Moment)
    → IsMoment m
    → days_before_year (month_after m).year
        + days_before_month (month_after m).year (month_after m).month
      ≡ days_before_year m.year + days_before_month m.year m.month + days_in_month m.year m.month
unfolding month_after
month_start m v = ground (
  arith,
  january (m.year + 1),
  december m.year,
  days_before_month-suc m.year m.month v.month_in.0,
  days_before_year-suc m.year,
)

-- A month on, a calendar date is again a calendar date, 28 to 31 days later.
pub month_after_bounds :
    (m : Moment)
    → IsMoment m
    → IsMoment (month_after m)
      × (day_number m + 28 ≤ day_number (month_after m))
      × (day_number (month_after m) ≤ day_number m + 31)
unfolding month_after day_number
month_after_bounds m v = (
  record { month_in = ground arith; day_in = omega (arith, there); micros_in = v.micros_in },
  omega (arith, here, there, start),
  omega (arith, here, there, start),
)
  where
    here : (28 ≤ days_in_month m.year m.month) × (days_in_month m.year m.month ≤ 31)
    here = days_in_month_bounds m.year m.month

    there :
        (28 ≤ days_in_month (month_after m).year (month_after m).month)
        × (days_in_month (month_after m).year (month_after m).month ≤ 31)
    there = days_in_month_bounds (month_after m).year (month_after m).month

    start :
        days_before_year (month_after m).year
          + days_before_month (month_after m).year (month_after m).month
        ≡ days_before_year m.year + days_before_month m.year m.month + days_in_month m.year m.month
    start = month_start m v

-- `b` names an instant at least `d` days after that of `a`.
abbrev pub DaysAfter : ℕ → Aware → Aware → Type 0
DaysAfter d a b = reading a b + d * micros_per_day ≤ reading b a

-- A stored value holds a calendar date with a time of day.
abbrev pub IsValue : Stored → Type 0
IsValue s = IsMoment (normalize_utc s).wall

-- The term, where there is one, is such a value.
abbrev pub IsTerm : Option Stored → Type 0
IsTerm none = Unit
IsTerm (some s) = IsValue s

-- A month on is at least 28 days on, whatever the offset, and at most 31.
pub add_one_month_bounds :
    (a : Aware)
    → IsMoment a.wall
    → DaysAfter 28 a (add_one_month a)
      × (reading (add_one_month a) a ≤ reading a (add_one_month a) + 31 * micros_per_day)
unfolding add_one_month instant
add_one_month_bounds a v = omega (arith, month_after_bounds a.wall v)

-- `b` names an instant at most `d` days after that of `a`.
abbrev pub WithinDays : ℕ → Aware → Aware → Type 0
WithinDays d a b = reading b a ≤ reading a b + d * micros_per_day

-- A payment on top of a term, both calendar moments: the new term ends at least 28 days after the
-- old one and after today, and no later than 31 days after one of the two.
pub next_expiry_bounds :
    (current now : Stored)
    → IsValue current
    → IsValue now
    → DaysAfter 28 (normalize_utc current) (next_expiry (some current) now)
      × DaysAfter 28 (normalize_utc now) (next_expiry (some current) now)
      × (WithinDays 31 (normalize_utc now) (next_expiry (some current) now)
          ⊎ WithinDays 31 (normalize_utc current) (next_expiry (some current) now))
unfolding next_expiry
next_expiry_bounds current now vc vn =
    elim (Bool-cases (is_at_most (normalize_utc current) (normalize_utc now))) [
      | inl past ↦ rw past (
          let bound = add_one_month_bounds (normalize_utc now) vn in
          let order = leb→le _ _ past in (omega (arith, bound, order), bound.0, inl bound.1))
      | inr ahead ↦ rw ahead (
          let bound = add_one_month_bounds (normalize_utc current) vc in
          let order = leb-false _ _ ahead in (bound.0, omega (arith, bound, order), inr bound.1))
    ]

-- A payment opens access: for calendar moments the new term is live, also for a payer whose term
-- had run out or who never had one.
pub subscription_is_live-next_expiry :
    (current : Option Stored) (now : Stored)
    → IsTerm current
    → IsValue now
    → subscription_is_live (some (aware (next_expiry current now))) now ≡ true
unfolding subscription_is_live next_expiry normalize_utc
subscription_is_live-next_expiry none now vc vn =
    lt→ltb _ _ (omega (arith, add_one_month_bounds (normalize_utc now) vn))
subscription_is_live-next_expiry (some current) now vc vn =
    lt→ltb _ _ (omega (arith, next_expiry_bounds current now vc vn))
