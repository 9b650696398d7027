-- ===== src/Billing/Access.antt =====
-- Who may send (app/services/subscription_service.py), the trial that a registration opens, and
-- the verdicts kept in Redis (app/services/billing_cache.py). An entry of the cache expires by
-- itself: `expire_verdict` is that event. A Redis that is down, or that refuses, is passed over,
-- on each access by itself.
pub mod Laws
pub mod Repeat
use broadcaster.Prelude.{ℕ, Bool, true, false, Option, none, some, if◌then◌else◌, ◌==◌}
use broadcaster.Calendar.{Stored, Aware, aware, normalize_utc, add_days}
use broadcaster.Billing.Period.{access_is_open}
use broadcaster.Billing.Store.{
  Store, Outcome, ok, err, integrity_error, Verdict, allowed, access_closed, latest_active,
  insert_subscription,
}

-- `TRIAL_DAYS` of app/constants.py
abbrev pub trial_days : ℕ
trial_days = 5

-- `datetime.now(timezone.utc) + timedelta(days=TRIAL_DAYS)`
unfoldable pub trial_end : Stored → Aware
trial_end now =
    let today = normalize_utc now in record today { wall = add_days trial_days today.wall }

-- After a refused insert: an active row excuses it, and otherwise the refusal is raised.
abbrev pub excuse_trial : Option Store → ℕ → Store → Outcome Unit × Store
excuse_trial (some s') user_id s = (ok tt, s')
excuse_trial none user_id s = elim (latest_active user_id s.subscriptions) [
  | none ↦ (err integrity_error, s)
  | some existing ↦ (ok tt, s)
]

unfoldable pub start_trial : ℕ → Stored → Store → Outcome Unit × Store
start_trial user_id now s =
    excuse_trial (insert_subscription user_id (aware (trial_end now)) s) user_id s

unfoldable pub check_access : ℕ → Stored → Store → Verdict
check_access user_id now s =
    if access_is_open (latest_active user_id s.subscriptions) now then allowed else access_closed

-- The verdict computed from the tables, and its write to Redis.
abbrev pub refresh_verdict : Bool → ℕ → Stored → Store → Verdict × Store
refresh_verdict write_up user_id now s =
    let verdict = check_access user_id now s in
    (
      verdict,
      if write_up
          then record s { cache = λ u. if u == user_id then some verdict else s.cache u }
          else s,
    )

-- What Redis returns for a user: nothing, where it is down.
abbrev pub read_verdict : Bool → ℕ → Store → Option Verdict
read_verdict read_up user_id s = if read_up then s.cache user_id else none

abbrev pub cached_or_fresh : Option Verdict → Bool → ℕ → Stored → Store → Verdict × Store
cached_or_fresh (some verdict) write_up user_id now s = (verdict, s)
cached_or_fresh none write_up user_id now s = refresh_verdict write_up user_id now s

-- The actions of the callers; only a send is gated.
pub data Action : Type 0 where
  send other_action : Action

unfoldable pub check_access_cached : Bool → Bool → Action → ℕ → Stored → Store → Verdict × Store
check_access_cached read_up write_up Action.other_action user_id now s = (allowed, s)
check_access_cached read_up write_up Action.send user_id now s =
    cached_or_fresh (read_verdict read_up user_id s) write_up user_id now s

-- The end of an entry's time to live.
unfoldable pub expire_verdict : ℕ → Store → Store
expire_verdict user_id s = record s { cache = λ u. if u == user_id then none else s.cache u }
