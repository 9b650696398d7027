-- ===== src/Worker/Tests.antt =====
-- Runs of the worker's tasks: a batch for three accounts, a tick without Redis, a repeat of a failed
-- send, and a synchronisation whose worker never finishes.
use broadcaster.Prelude.{
  ℕ, ◌+◌, ◌*◌, ◌≤◌, ◌≡◌, refl, true, false, Bool, Option, none, some, List, [], ◌∷◌, map, select,
  count, arith,
}
use broadcaster.Billing.Store.{Store, allowed}
use broadcaster.Billing.Tests.{shop, today}
use broadcaster.Scheduling.Collect.{
  AccountType, AccountStatus, DispatchTask, build_dispatch_task, collect_due_schedules,
}
use broadcaster.Scheduling.Tests.{world, world_order, tables, nine, now, tick, sent}
use broadcaster.Worker.Dispatch.{
  is_member, Broker, Channel, total, dispatch_send_tasks, check_schedules, dispatched, nothing_due,
  connection_error, all_up, all_down,
}
use broadcaster.Worker.Dispatch.Buckets.{is_routed, for_wa}
use broadcaster.Worker.Dispatch.Routes.{view, route_all, dispatch_send_tasks-route_all}
use broadcaster.Worker.Dispatch.Lost.{check_schedules-lost}
use broadcaster.Worker.Retry.{StoredLog, LogStatus, Outside, retry_send}
use broadcaster.Worker.Retry.Safe.{SentOrUnsent, retry_send-SentOrUnsent}
use broadcaster.Scheduling.Rules.{is_empty}
use broadcaster.Worker.Containers.{
  Keys, Started, start_raised, running, Step, watched, popped, retire, happen,
}
use broadcaster.Worker.Containers.Covered.{retire_unwatched}
use broadcaster.Worker.Results.{Result, Parsed, object, Raw, unreadable, json, Session}
use broadcaster.Worker.Sync.{
  SyncAccount, Surroundings, working, sync_groups, max_polls, poll_interval,
}
use broadcaster.Worker.Sync.Settled.{IsSettled, sync_groups-IsSettled}

abbrev pub stamp : ℕ → ℕ × ℕ
stamp n = (100 + n, 7)

abbrev pub empty_channel : Channel
empty_channel = record { queue = λ a. []; active_accounts = [] }

abbrev pub broker : Broker
broker = record { telegram = []; wa = empty_channel; max = empty_channel; made = 0 }

abbrev task : AccountType → ℕ → ℕ → DispatchTask
task y account_id group_id = record {
  type' = y;
  ad_id = 1;
  group_id = group_id;
  account_id = account_id;
  schedule_id = some 1;
  user_id = none;
  ad_text = none;
  ad_title = none;
  ad_images = none;
  group_external_id = none;
  group_name = none;
}

-- Two tasks of one WhatsApp account with a task of another between them, and one of no known type.
abbrev batch : List DispatchTask
batch =
    task AccountType.wa 1 1
    ∷ task AccountType.wa 2 2
    ∷ task AccountType.wa 1 3
    ∷ task AccountType.tg_user 3 4
    ∷ task (AccountType.other_type "sms") 4 5
    ∷ []

dispatch_send_tasks-route_all_example :
    ((dispatch_send_tasks stamp all_up batch broker).0 ≡ total (count is_routed batch))
    × (view (dispatch_send_tasks stamp all_up batch broker).1 ≡ route_all batch (view broker))
dispatch_send_tasks-route_all_example = dispatch_send_tasks-route_all stamp batch broker

one_routed : 1 ≤ count is_routed sent
unfolding count build_dispatch_task
one_routed = omega arith

check_schedules-lost_example :
    (check_schedules stamp world now all_down (tables nine) broker
      ≡ (dispatched connection_error, broker, (collect_due_schedules world (tables nine) now).1))
    × ((later : Broker)
        → check_schedules stamp world now all_up
            (collect_due_schedules world (tables nine) now).1
            later
          ≡ (nothing_due, later, (collect_due_schedules world (tables nine) now).1))
check_schedules-lost_example =
    check_schedules-lost stamp world now world_order (tables nine) sent broker tick one_routed

abbrev pub failed_log : StoredLog
failed_log = record {
  id = 5;
  user_id = 7;
  schedule_id = none;
  ad_id = some 1;
  group_id = some 1;
  status = LogStatus.other_log_status "fail";
}

abbrev outside : Outside
outside = record {
  read_up = true;
  write_up = true;
  redis = all_up;
  stamp = stamp;
  now = today;
  s3_public_url = [];
}

-- The user of the record has a cached verdict.
abbrev pub open_shop : Store
open_shop = record shop { cache = λ u. some allowed }

retry_send-SentOrUnsent_example :
    SentOrUnsent outside 5 7
      (failed_log ∷ [])
      (tables nine)
      broker
      open_shop
      (retry_send outside 5 7 (failed_log ∷ []) (tables nine) broker open_shop)
retry_send-SentOrUnsent_example =
    retry_send-SentOrUnsent outside 5 7 (failed_log ∷ []) (tables nine) broker open_shop

abbrev syncing_account : SyncAccount
syncing_account = record {
  id = 3;
  status = AccountStatus.syncing;
  inventory = record { groups = []; last_synced_at = none; last_sync_result = none };
}

abbrev never_ready : Surroundings
never_ready = record {
  poll = λ attempt. working;
  others = λ attempt accounts. accounts;
  factory_ok = true;
  commit_ok = true;
  handler_ok = true;
  now = 9;
}

sync_groups-IsSettled_example :
    ((sync_groups 3 never_ready (syncing_account ∷ [])).1.polls ≤ max_polls)
    × ((sync_groups 3 never_ready (syncing_account ∷ [])).1.slept ≤ max_polls * poll_interval)
    × IsSettled 3 (sync_groups 3 never_ready (syncing_account ∷ [])).1.accounts
sync_groups-IsSettled_example = sync_groups-IsSettled 3 never_ready (syncing_account ∷ []) refl

-- A worker's results: a lasting failure and then a success on group 1, and one without its user.
abbrev result : Option ℕ → Option LogStatus → Bool → Result
result user_id status no_retry = record {
  user_id = user_id;
  schedule_id = some 1;
  ad_id = some 1;
  group_id = some 1;
  task_id = none;
  status = status;
  error_message = some (48 ∷ []);
  ad_title = none;
  ad_text = none;
  ad_images = none;
  group_name = none;
  no_retry = no_retry;
}

abbrev reported : List Parsed
reported =
    object (result (some 7) (some (LogStatus.other_log_status "fail")) true)
    ∷ object (result none (some LogStatus.succeeded) true)
    ∷ object (result (some 7) (some LogStatus.succeeded) false)
    ∷ []

abbrev in_redis : List Raw
in_redis = unreadable ∷ map json reported

abbrev session : Session
session = record { tables = tables nine; logs = [] }

abbrev watched_keys : Keys
watched_keys = record { channel = empty_channel; endpoint = λ a. none }

abbrev no_docker : ℕ → Started
no_docker a = start_raised

some_for_1 : is_empty (select (for_wa 1) batch) ≡ false
unfolding select
some_for_1 = refl

-- A dispatch, a run of the watch, and a worker of another account that takes a payload.
abbrev steps : List Step
steps = Step.sent 0 batch ∷ watched ∷ popped 2 ∷ []

abbrev docker : ℕ → Started
docker a = running (a ∷ [])

retire_unwatched_example :
    (is_empty ((retire 1 (happen stamp no_docker (Step.sent 0 batch) watched_keys)).channel.queue 1)
      ≡ false)
    × (is_member 1
          (retire 1
            (happen stamp no_docker (Step.sent 0 batch) watched_keys)).channel.active_accounts
        ≡ false)
retire_unwatched_example = retire_unwatched stamp no_docker 0 1 batch watched_keys refl some_for_1
