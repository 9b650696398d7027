-- ===== src/Billing/Period/Access.antt =====
-- The gate and the countdown that the screens and the scheduler read.
use broadcaster.Prelude.{
  ℕ, suc, ◌-◌, ◌*◌, ◌≤◌, ◌<◌, ◌≡◌, true, false, Option, none, some, ◌/◌, arith,
}
use broadcaster.Prelude.Int.{pos, negsuc}
use broadcaster.Calendar.{Stored, normalize_utc, reading, Before, days_between, micros_per_day}
use broadcaster.Billing.Models.{Subscription}
use broadcaster.Billing.Period.{subscription_is_live, access_is_open, days_left}

-- Time alone never opens access: what is open at a later moment is open before it.
pub access_is_open_earlier :
    (s : Option Subscription) (now later : Stored)
    → ¬ Before (normalize_utc later) (normalize_utc now)
    → access_is_open s later ≡ true
    → access_is_open s now ≡ true
unfolding access_is_open
access_is_open_earlier none now later order open_later = open_later
access_is_open_earlier (some s) now later order open_later = ground arith

-- The time left of a term, in microseconds.
abbrev pub remainder : Stored → Stored → ℕ
remainder e now =
    reading (normalize_utc e) (normalize_utc now) - reading (normalize_utc now) (normalize_utc e)

-- The number of days is never negative on a live term, it is the whole days that are left (zero
-- on the last day), and a negative number means that the term is over.
pub days_left_lem :
    (e now : Stored)
    → (subscription_is_live (some e) now ≡ true
        → (k : ℕ) × (days_left (some e) now ≡ some (pos k))
          × (k * micros_per_day ≤ remainder e now)
          × (remainder e now < suc k * micros_per_day))
      × ((k : ℕ)
          → days_left (some e) now ≡ some (negsuc k)
          → subscription_is_live (some e) now ≡ false)
unfolding days_left days_between subscription_is_live
days_left_lem e now = (
  λ live. (remainder e now / micros_per_day, ground arith, omega arith, omega arith),
  λ k negative. ground arith,
)
