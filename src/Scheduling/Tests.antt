-- ===== src/Scheduling/Tests.antt =====
-- Runs of the scheduling code, in a zone three hours ahead of UTC.
use mathlib.Core.Path.{subst}
use mathlib.Core.Option.{some-injective}
use broadcaster.Prelude.{
  find, select, ℕ, ◌+◌, ◌-◌, ◌*◌, ◌≤◌, ◌≡◌, refl, Bool, true, false, ◌&&◌, inl, inr, ◌⊎◌, Option,
  none, some, List, [], ◌∷◌, arith, All, if◌then◌else◌,
}
use broadcaster.Prelude.Int.{ℤ, pos}
use broadcaster.Scheduling.NextRun.{
  ok, raised, value_error, Raised, Zone, split_colon, parse_time, parse_times, weekday, has_day,
  slots, candidates, earliest, next_wall, compute_next_run_at,
}
use broadcaster.Scheduling.NextRun.Candidates.{elem, IsRun}
use broadcaster.Scheduling.NextRun.First.{KeepsOrder, compute_next_run_at_first}
use broadcaster.Scheduling.Rules.{
  in_class, text, whole, is_valid_day_of_week, is_valid_time_of_day, next_run_or_none,
}
use broadcaster.Scheduling.Rules.Runnable.{IsInt, next_run_or_none-some}
use broadcaster.Scheduling.Collect.{
  ad_of, account_of, group_of, Ad, Account, AdStatus, AccountType, AccountStatus, Group, Schedule,
  Base, World, DispatchTask, collect_due_schedules, collect, checked, group_tasks,
  user_send_verdict, build_dispatch_task,
}
use broadcaster.Scheduling.Send.{Desk, Order, Messenger, message, send_message_once}
use broadcaster.Scheduling.Send.Laws.{Leaves, send_message_once-Leaves}
use broadcaster.Scheduling.Send.Marks.{Concludes, send_message_once-Concludes}
use broadcaster.Scheduling.Collect.Once.{
  NoneDue, collect_due_schedules-once, collect_due_schedules-raised,
}

-- ASCII digits, and `int` of two of them, with a newline after them or without.
abbrev is_digit : ℕ → Bool
is_digit c = in_class 48 57 c

abbrev int_of_pair : ℕ → ℕ → Option ℤ
int_of_pair a b = if is_digit a && is_digit b then some (pos (10 * (a - 48) + (b - 48))) else none

abbrev int : List ℕ → Option ℤ
int (a ∷ b ∷ []) = int_of_pair a b
int (a ∷ b ∷ c ∷ []) = if in_class 10 10 c then int_of_pair a b else none
int _ = none

int-IsInt : IsInt is_digit (λ c. c - 48) int
int-IsInt = record {
  digit_value = λ c h. ground arith;
  ascii_digit = λ k h. (ground arith, omega arith);
  not_colon = refl;
  two_digits = λ a b ha hb. rw (ha, hb) refl;
  trailing_newline = λ a b ha hb. refl;
}

abbrev pub moscow : Zone
moscow = record { from_utc = λ t. t + 10800000000; to_utc = λ w. w - 10800000000 }

moscow-KeepsOrder : (now : ℕ) → KeepsOrder now moscow
moscow-KeepsOrder now w h = omega (arith, h)

-- "09:00"
abbrev pub nine : List ℕ
nine = 48 ∷ 57 ∷ 58 ∷ 48 ∷ 48 ∷ []

abbrev nine_o_clock : ℕ
nine_o_clock = 32400000000

nine_parses : parse_times int (nine ∷ []) ≡ ok (nine_o_clock ∷ [])
unfolding parse_times parse_time split_colon
nine_parses = refl

-- Tuesday noon, day 2 of the calendar; the schedule runs on Mondays, the next of them day 8.
abbrev pub now : ℕ
now = 2 * 86400000000 + 43200000000

pub world_order : (name : List ℕ) (z : Zone) → some moscow ≡ some z → KeepsOrder now z
world_order name z e = subst (KeepsOrder now) (some-injective moscow z e) (moscow-KeepsOrder now)

abbrev monday_nine : ℕ
monday_nine = 8 * 86400000000 + 32400000000

monday-IsRun : IsRun (pos 0 ∷ []) (nine_o_clock ∷ []) (moscow.from_utc now) monday_nine
unfolding has_day weekday elem
monday-IsRun = (refl, refl, omega arith)

compute_next_run_at_first_example :
    (m : ℕ) × (compute_next_run_at int (pos 0 ∷ []) (nine ∷ []) (some moscow) now
      ≡ ok (some (moscow.to_utc m)))
    × IsRun (pos 0 ∷ []) (nine_o_clock ∷ []) (moscow.from_utc now) m
    × ((v : ℕ) → IsRun (pos 0 ∷ []) (nine_o_clock ∷ []) (moscow.from_utc now) v → m ≤ v)
compute_next_run_at_first_example =
    compute_next_run_at_first int (pos 0 ∷ []) (nine ∷ []) (nine_o_clock ∷ []) moscow now
      nine_parses monday_nine monday-IsRun

next_monday :
    compute_next_run_at int (pos 0 ∷ []) (nine ∷ []) (some moscow) now
    ≡ ok (some (monday_nine - 10800000000))
unfolding compute_next_run_at parse_times parse_time split_colon next_wall candidates has_day
    weekday earliest slots select
next_monday = refl

monday_valid : All (λ d. is_valid_day_of_week (whole d) ≡ true) (pos 0 ∷ [])
unfolding is_valid_day_of_week
monday_valid = (refl, tt)

nine_valid : All (λ t. is_valid_time_of_day is_digit (text t) ≡ true) (nine ∷ [])
unfolding is_valid_time_of_day
nine_valid = (refl, tt)

next_run_or_none-some_example :
    (next : ℕ) × (next_run_or_none int (pos 0 ∷ []) (nine ∷ []) (some moscow) now ≡ some next)
next_run_or_none-some_example =
    next_run_or_none-some is_digit (λ c. c - 48) int int-IsInt (pos 0 ∷ []) (nine ∷ []) moscow now
      monday_valid nine_valid refl refl

abbrev pub schedule : ℕ → ℕ → List ℕ → Schedule
schedule id ad_id time = record {
  id = id;
  ad_id = ad_id;
  account_id = some 1;
  group_ids = 1 ∷ 2 ∷ 3 ∷ [];
  days_of_week = pos 0 ∷ [];
  times_of_day = time ∷ [];
  timezone = [];
  is_active = true;
  next_run_at = some 5;
}

abbrev pub ad_of_user : ℕ → AdStatus → Ad
ad_of_user id status = record {
  id = id;
  user_id = 7;
  title = "sale";
  body = "text";
  images = some [];
  status = status;
}

abbrev pub group : ℕ → Bool → Group
group id on = record {
  id = id;
  user_id = 7;
  account_id = 1;
  group_external_id = "g";
  name = "group";
  is_active = on;
  last_error = none;
  error_at = none;
}

-- Two schedules of one user, of a published ad and of a draft; group 2 is off and group 3 is gone.
abbrev pub tables : List ℕ → Base
tables time = record {
  ads = ad_of_user 1 AdStatus.published ∷ ad_of_user 2 AdStatus.draft ∷ [];
  accounts =
      record { id = 1; user_id = 7; type' = AccountType.wa; status = AccountStatus.active } ∷ [];
  groups = group 1 true ∷ group 2 false ∷ [];
  users = record { id = 7; is_blocked = false } ∷ [];
  schedules = schedule 1 1 nine ∷ schedule 2 2 time ∷ [];
}

abbrev pub world : World
world = record {
  check_limit = λ u. true;
  s3_public_url = [];
  int = int;
  zones = λ name. some moscow;
}

abbrev pub sent : List DispatchTask
sent =
    build_dispatch_task [] (ad_of_user 1 AdStatus.published) (group 1 true)
      (record { id = 1; user_id = 7; type' = AccountType.wa; status = AccountStatus.active })
      (some 1)
    ∷ []

pub tick : (collect_due_schedules world (tables nine) now).0 ≡ ok sent
unfolding collect_due_schedules collect checked group_tasks user_send_verdict compute_next_run_at
    parse_times parse_time split_colon next_wall candidates has_day weekday earliest slots select
    find
tick = refl

collect_due_schedules-once_example :
    NoneDue now (collect_due_schedules world (tables nine) now).1.schedules
    × (collect_due_schedules world (collect_due_schedules world (tables nine) now).1 now
        ≡ (ok [], (collect_due_schedules world (tables nine) now).1))
collect_due_schedules-once_example =
    collect_due_schedules-once world now world_order (tables nine) sent tick

-- An empty text among the times.
unreadable : compute_next_run_at int (pos 0 ∷ []) ([] ∷ []) (some moscow) now ≡ raised value_error
unfolding compute_next_run_at parse_times parse_time split_colon
unreadable = refl

collect_due_schedules-raised_example :
    (f : Raised) × (collect_due_schedules world (tables []) now ≡ (raised f, tables []))
collect_due_schedules-raised_example =
    collect_due_schedules-raised world (tables []) now (schedule 2 2 []) value_error
      (inr (inl refl)) refl unreadable

abbrev desk : Desk
desk = record { tables = tables nine; logs = []; calls = [] }

-- A messenger whose sends fail for good.
abbrev refusing : Messenger
refusing m = record { is_ok = false; error = some (48 ∷ []); no_retry = true }

abbrev order : Order
order = record { ad_id = 1; group_id = 1; account_id = 1; schedule_id = some 1; task_id = none }

abbrev reach : Account → List ℕ ⊎ Messenger
reach account = inr refusing

send_message_once-Leaves_example :
    Leaves reach [] order desk (send_message_once reach [] order now desk)
send_message_once-Leaves_example = send_message_once-Leaves reach [] order now desk

abbrev pub account_1 : Account
account_1 = record { id = 1; user_id = 7; type' = AccountType.wa; status = AccountStatus.active }

pub ad_1 : ad_of 1 (tables nine) ≡ some (ad_of_user 1 AdStatus.published)
unfolding find
ad_1 = refl

pub group_1 : group_of 1 (tables nine) ≡ some (group 1 true)
unfolding find
group_1 = refl

pub has_account_1 : account_of (some 1) (tables nine) ≡ some account_1
unfolding find
has_account_1 = refl

send_message_once-Concludes_example :
    Concludes
      (refusing (message [] (ad_of_user 1 AdStatus.published) (group 1 true)))
      (group 1 true)
      1
      now
      (tables nine)
      (send_message_once reach [] order now desk)
send_message_once-Concludes_example =
    send_message_once-Concludes reach [] order now desk (ad_of_user 1 AdStatus.published)
      (group 1 true) account_1 refusing ad_1 group_1 has_account_1 refl refl refl
