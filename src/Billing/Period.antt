-- ===== src/Billing/Period.antt =====
-- The term of a subscription (app/application/billing/subscription_period.py). Every value passes
-- through `normalize_utc` before it is compared, so a naive value never meets an aware one.
pub mod Laws
pub mod Access
use broadcaster.Prelude.{
  ℕ, ◌+◌, ◌%◌, Bool, true, false, Option, none, some, ◌==◌, not, if◌then◌else◌,
}
use Prim.Native.Nat.{min}
use broadcaster.Prelude.Int.{ℤ}
use broadcaster.Calendar.{
  Moment, days_in_month, Aware, Stored, normalize_utc, is_before, is_at_most, days_between,
}
use broadcaster.Billing.Models.{Subscription}

-- One calendar month on, the day clamped to the length of the month reached.
unfoldable pub month_after : Moment → Moment
month_after value =
    let year = value.year + (if value.month == 12 then 1 else 0) in
    let month = value.month % 12 + 1 in
    record value { year = year; month = month; day = min value.day (days_in_month year month) }

-- `value.replace(year=…, month=…, day=…)` keeps the time of day and the offset.
unfoldable pub add_one_month : Aware → Aware
unfolding month_after
add_one_month value = record value { wall = month_after value.wall }

unfoldable pub subscription_is_live : Option Stored → Stored → Bool
subscription_is_live none now = false
subscription_is_live (some expires_at) now =
    is_before (normalize_utc now) (normalize_utc expires_at)

unfoldable pub access_is_open : Option Subscription → Stored → Bool
unfolding subscription_is_live
access_is_open none now = false
access_is_open (some s) now =
    if not s.is_active
    then false
    else if s.has_free_access
    then true
    else subscription_is_live (some s.expires_at) now

unfoldable pub days_left : Option Stored → Stored → Option ℤ
days_left none now = none
days_left (some expires_at) now = some (days_between (normalize_utc expires_at) (normalize_utc now))

-- The later of the current term and today.
unfoldable pub countdown_base : Option Stored → Stored → Aware
countdown_base none now = normalize_utc now
countdown_base (some current) now =
    if is_at_most (normalize_utc current) (normalize_utc now)
    then normalize_utc now
    else normalize_utc current

unfoldable pub next_expiry : Option Stored → Stored → Aware
unfolding countdown_base add_one_month
next_expiry current now = add_one_month (countdown_base current now)
