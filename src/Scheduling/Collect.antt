-- ===== src/Scheduling/Collect.antt =====
-- One tick of the scheduler (app/application/scheduling/use_cases.py, `collect_due_schedules` and
-- what it calls). The verdict on a user's access is asked of the caller's `check_limit`, an
-- argument here as there; the database of zones and `int` are arguments as in Scheduling/NextRun.
pub mod Direct
pub mod Tasks
pub mod Once
use broadcaster.Prelude.{
  ℕ, ◌+◌, String, Bool, true, false, ◌&&◌, ◌||◌, not, Option, none, some, List, [], ◌∷◌, ◌++◌, map,
  find, leb, ◌==◌, if◌then◌else◌,
}
use broadcaster.Prelude.Int.{ℤ}
use broadcaster.Scheduling.NextRun.{Result, ok, raised, Raised, Zone, compute_next_run_at}
use broadcaster.Scheduling.Rules.{is_empty}

-- `ads.status`; `other_status` is any text but the two that the program names, and NULL.
pub data AdStatus : Type 0 where
  draft published : AdStatus
  other_status : Option String → AdStatus

-- `messenger_accounts.type`
pub data AccountType : Type 0 where
  tg_user wa max : AccountType
  other_type : String → AccountType

-- `messenger_accounts.status`; `other_account_status` is any text but those.
pub data AccountStatus : Type 0 where
  active syncing sync_failed : AccountStatus
  other_account_status : String → AccountStatus

pub record Ad : Type 0 where
  pub id : ℕ
  pub user_id : ℕ
  pub title : String
  pub body : String
  pub images : Option (List (List ℕ))
  pub status : AdStatus

pub record Account : Type 0 where
  pub id : ℕ
  pub user_id : ℕ
  pub type' : AccountType
  pub status : AccountStatus

pub record Group : Type 0 where
  pub id : ℕ
  pub user_id : ℕ
  pub account_id : ℕ
  pub group_external_id : String
  pub name : String
  pub is_active : Bool
  pub last_error : Option (List ℕ)
  pub error_at : Option ℕ

pub record User : Type 0 where
  pub id : ℕ
  pub is_blocked : Bool

-- `next_run_at` is a UTC moment.
pub record Schedule : Type 0 where
  pub id : ℕ
  pub ad_id : ℕ
  pub account_id : Option ℕ
  pub group_ids : List ℕ
  pub days_of_week : List ℤ
  pub times_of_day : List (List ℕ)
  pub timezone : List ℕ
  pub is_active : Bool
  pub next_run_at : Option ℕ

pub record DispatchTask : Type 0 where
  pub type' : AccountType
  pub ad_id : ℕ
  pub group_id : ℕ
  pub account_id : ℕ
  pub schedule_id : Option ℕ
  pub user_id : Option ℕ
  pub ad_text : Option String
  pub ad_title : Option String
  pub ad_images : Option (List (List ℕ))
  pub group_external_id : Option String
  pub group_name : Option String

-- `effective_ad_status`: whatever is not published is a draft.
abbrev pub effective_ad_status : Ad → AdStatus
effective_ad_status ad = elim ad.status [
  | AdStatus.published ↦ AdStatus.published
  | _ ↦ AdStatus.draft
]

abbrev pub is_draft : AdStatus → Bool
is_draft AdStatus.draft = true
is_draft _ = false

abbrev pub is_connected : AccountStatus → Bool
is_connected AccountStatus.active = true
is_connected _ = false

-- `account.type in ("wa", "max")`
abbrev pub is_queued : AccountType → Bool
is_queued AccountType.wa = true
is_queued AccountType.max = true
is_queued _ = false

-- `s3_public_url.rstrip("/")`
unfoldable pub rstrip_slash : List ℕ → List ℕ
rstrip_slash [] = []
rstrip_slash (c ∷ cs) =
    let rest = rstrip_slash cs in if (c == 47) && is_empty rest then [] else c ∷ rest

-- `get_image_url` of app/services/s3.py
unfoldable pub get_image_url : List ℕ → List ℕ → List ℕ
get_image_url s3_public_url key =
    if is_empty key then [] else rstrip_slash s3_public_url ++ 47 ∷ key

-- The addresses of the keys; an absent list stays absent.
abbrev pub image_urls : List ℕ → Option (List (List ℕ)) → Option (List (List ℕ))
image_urls s3_public_url none = none
image_urls s3_public_url (some keys) = some (map (get_image_url s3_public_url) keys)

-- `ad.images` as a test.
abbrev pub has_no_images : Option (List (List ℕ)) → Bool
has_no_images none = true
has_no_images (some keys) = is_empty keys

-- `build_dispatch_task`: the queues of wa and max carry all that their workers need.
unfoldable pub build_dispatch_task : List ℕ → Ad → Group → Account → Option ℕ → DispatchTask
build_dispatch_task s3_public_url ad group account schedule_id =
    let queued = is_queued account.type' in
    record {
      type' = account.type';
      ad_id = ad.id;
      group_id = group.id;
      account_id = account.id;
      schedule_id = schedule_id;
      user_id = if queued then some ad.user_id else none;
      ad_text = if queued then some ad.body else none;
      ad_title = if queued then some ad.title else none;
      ad_images = if queued then image_urls s3_public_url ad.images else none;
      group_external_id = if queued then some group.group_external_id else none;
      group_name = if queued then some group.name else none;
    }

pub record Base : Type 0 where
  pub ads : List Ad
  pub accounts : List Account
  pub groups : List Group
  pub users : List User
  pub schedules : List Schedule

-- `session.get` and `joinedload`
abbrev pub ad_of : ℕ → Base → Option Ad
ad_of i b = find (λ (x : Ad). x.id == i) b.ads

abbrev pub account_of : Option ℕ → Base → Option Account
account_of none b = none
account_of (some i) b = find (λ (x : Account). x.id == i) b.accounts

abbrev pub group_of : ℕ → Base → Option Group
group_of i b = find (λ (x : Group). x.id == i) b.groups

abbrev pub user_of : ℕ → Base → Option User
user_of i b = find (λ (x : User). x.id == i) b.users

-- `Schedule.is_active` and `Schedule.next_run_at <= now`; NULL is not due.
abbrev pub came_due : Option ℕ → ℕ → Bool
came_due none now = false
came_due (some t) now = leb t now

abbrev pub is_due : ℕ → Schedule → Bool
is_due now s = s.is_active && came_due s.next_run_at now

abbrev pub is_blocked_user : Option User → Bool
is_blocked_user none = false
is_blocked_user (some u) = u.is_blocked

-- The verdicts asked for so far, `checked_users`, the latest first.
abbrev pub Verdicts : Type 0
Verdicts = List (ℕ × Bool)

unfoldable pub checked : ℕ → Verdicts → Option Bool
checked u [] = none
checked u ((v, allowed) ∷ vs) = if v == u then some allowed else checked u vs

-- The first guard: the ad, the account, its status, and the status of the ad.
abbrev pub sendable : Option Ad → Option Account → Option (Ad × Account)
sendable (some ad) (some account) =
    if not (is_connected account.status) || is_draft (effective_ad_status ad)
    then none
    else some (ad, account)
sendable _ _ = none

-- On every branch the next moment is written, and what that raises ends the tick.
abbrev pub moved :
    Schedule
    → Result (Option ℕ)
    → Result (List DispatchTask × List Schedule)
    → List DispatchTask
    → Result (List DispatchTask × List Schedule)
moved s (raised e) rest tasks = raised e
moved s (ok next) (raised e) tasks = raised e
moved s (ok next) (ok (later, schedules)) tasks =
    ok (tasks ++ later, record s { next_run_at = next } ∷ schedules)

abbrev pub kept :
    Schedule
    → Result (List DispatchTask × List Schedule)
    → Result (List DispatchTask × List Schedule)
kept s (raised e) = raised e
kept s (ok (tasks, schedules)) = ok (tasks, s ∷ schedules)

-- The commit at the end; what is raised before it leaves the tables as they were.
abbrev pub committed :
    Base → Result (List DispatchTask × List Schedule) → Result (List DispatchTask) × Base
committed b (raised e) = (raised e, b)
committed b (ok (tasks, schedules)) = (ok tasks, record b { schedules = schedules })

-- What a tick is given from outside: the verdict on a user's access, the base of the addresses of
-- images, `int` of a text, and the database of zones.
pub record World : Type 0 where
  pub check_limit : ℕ → Bool
  pub s3_public_url : List ℕ
  pub int : List ℕ → Option ℤ
  pub zones : List ℕ → Option Zone

module _ (world : World) (b : Base) where
  -- `_user_send_verdict`: a block comes first; without a row the access decides.
  unfoldable pub user_send_verdict : ℕ → Bool
  user_send_verdict user_id =
      if is_blocked_user (user_of user_id b) then false else world.check_limit user_id

  -- The verdict with the memory of the tick.
  abbrev pub ask : Option Bool → ℕ → Verdicts → Bool × Verdicts
  ask (some allowed) user_id vs = (allowed, vs)
  ask none user_id vs =
      let allowed = user_send_verdict user_id in (allowed, (user_id, allowed) ∷ vs)

  abbrev pub task_of_group :
      Ad → Account → Schedule → Option Group → List DispatchTask → List DispatchTask
  task_of_group ad account s none rest = rest
  task_of_group ad account s (some g) rest =
      if g.is_active
      then build_dispatch_task world.s3_public_url ad g account (some s.id) ∷ rest
      else rest

  -- The loop over `schedule.group_ids`; a missing group and one that is off are passed over.
  unfoldable pub group_tasks : Ad → Account → Schedule → List ℕ → List DispatchTask
  group_tasks ad account s [] = []
  group_tasks ad account s (i ∷ ids) =
      let rest = group_tasks ad account s ids in task_of_group ad account s (group_of i b) rest

  abbrev pub allowed_tasks :
      Ad → Account → Schedule → Bool × Verdicts → List DispatchTask × Verdicts
  allowed_tasks ad account s (allowed, vs) =
      (if allowed then group_tasks ad account s s.group_ids else [], vs)

  -- The tasks of one due schedule.
  abbrev pub schedule_tasks :
      Option (Ad × Account) → Schedule → Verdicts → List DispatchTask × Verdicts
  schedule_tasks none s vs = ([], vs)
  schedule_tasks (some (ad, account)) s vs =
      allowed_tasks ad account s (ask (checked ad.user_id vs) ad.user_id vs)

  abbrev pub next_run : ℕ → Schedule → Result (Option ℕ)
  next_run now s =
      compute_next_run_at world.int s.days_of_week s.times_of_day (world.zones s.timezone) now

  -- The loop over the schedules; those that are not due are not selected, and stay.
  unfoldable pub collect : ℕ → List Schedule → Verdicts → Result (List DispatchTask × List Schedule)
  collect now [] vs = ok ([], [])
  collect now (s ∷ ss) vs =
      let (tasks, asked) =
        schedule_tasks (sendable (ad_of s.ad_id b) (account_of s.account_id b)) s vs in
      let after_due = collect now ss asked in
      let after_other = collect now ss vs in
      if is_due now s then moved s (next_run now s) after_due tasks else kept s after_other

  unfoldable pub collect_due_schedules : ℕ → Result (List DispatchTask) × Base
  collect_due_schedules now = committed b (collect now b.schedules [])
