-- ===== src/Worker/Dispatch.antt =====
-- The dispatch of send tasks (app/worker/tasks.py, `dispatch_send_tasks` and `check_schedules_async`):
-- the calls of Celery's queue "telegram", whose broker is Redis (app/worker/celery_app.py), and the lists and sets of Redis that the workers of WhatsApp
-- and MAX read. A list of Redis that is not there is the empty one. A pipeline of redis-py is one
-- transaction: it is done whole, or the connection is lost and none of it is. `uuid4` and the clock
-- are given as `stamp`, the answers for the n-th payload.
pub mod Buckets
pub mod Pushes
pub mod Routes
pub mod Lost
pub mod Single
use broadcaster.Prelude.{
  ℕ, ◌+◌, String, Bool, true, false, ◌||◌, Option, List, [], ◌∷◌, ◌++◌, map, length, ◌==◌,
  if◌then◌else◌,
}
use broadcaster.Scheduling.NextRun.{Result, ok, raised, Raised}
use broadcaster.Scheduling.Collect.{AccountType, Base, DispatchTask, World, collect_due_schedules}

-- What a payload says of its task: all but the type, which the queue's name carries.
pub record Body : Type 0 where
  pub ad_id : ℕ
  pub group_id : ℕ
  pub account_id : ℕ
  pub schedule_id : Option ℕ
  pub user_id : Option ℕ
  pub ad_text : Option String
  pub ad_title : Option String
  pub ad_images : Option (List (List ℕ))
  pub group_external_id : Option String
  pub group_name : Option String

pub record Payload : Type 0 where
  pub task_id : ℕ
  pub created_at : ℕ
  pub body : Body

-- The arguments of `send_telegram_message`.
pub record TelegramCall : Type 0 where
  pub ad_id : ℕ
  pub group_id : ℕ
  pub account_id : ℕ
  pub schedule_id : Option ℕ

-- The keys of one messenger: `{wa,max}:queue:{account_id}` and `{wa,max}:active_accounts`.
pub record Channel : Type 0 where
  pub queue : ℕ → List Payload
  pub active_accounts : List ℕ

-- `made` counts the payloads made so far.
pub record Broker : Type 0 where
  pub telegram : List TelegramCall
  pub wa : Channel
  pub max : Channel
  pub made : ℕ

-- An entry of `wa_tasks_by_account` and `max_tasks_by_account`.
pub record Bucket : Type 0 where
  pub account_id : ℕ
  pub tasks : List DispatchTask

pub record Sorted : Type 0 where
  pub tg_tasks : List DispatchTask
  pub wa_tasks_by_account : List Bucket
  pub max_tasks_by_account : List Bucket
  pub unrouted : List DispatchTask

-- `buckets.setdefault(task.account_id, []).append(task)`
unfoldable pub set_default : DispatchTask → List Bucket → List Bucket
set_default task [] = record { account_id = task.account_id; tasks = task ∷ [] } ∷ []
set_default task (b ∷ bs) =
    if b.account_id == task.account_id
    then record b { tasks = b.tasks ++ task ∷ [] } ∷ bs
    else b ∷ set_default task bs

abbrev pub sort_by : AccountType → DispatchTask → Sorted → Sorted
sort_by AccountType.tg_user task s = record s { tg_tasks = s.tg_tasks ++ task ∷ [] }
sort_by AccountType.wa task s = record s {
  wa_tasks_by_account = set_default task s.wa_tasks_by_account;
}
sort_by AccountType.max task s = record s {
  max_tasks_by_account = set_default task s.max_tasks_by_account;
}
sort_by (AccountType.other_type t) task s = record s { unrouted = s.unrouted ++ task ∷ [] }

-- The loop over the tasks.
unfoldable pub sort_tasks : List DispatchTask → Sorted → Sorted
sort_tasks [] s = s
sort_tasks (task ∷ tasks) s = sort_tasks tasks (sort_by task.type' task s)

abbrev pub unsorted : Sorted
unsorted = record {
  tg_tasks = [];
  wa_tasks_by_account = [];
  max_tasks_by_account = [];
  unrouted = [];
}

abbrev pub telegram_call : DispatchTask → TelegramCall
telegram_call t = record {
  ad_id = t.ad_id;
  group_id = t.group_id;
  account_id = t.account_id;
  schedule_id = t.schedule_id;
}

abbrev pub body_of : DispatchTask → Body
body_of t = record {
  ad_id = t.ad_id;
  group_id = t.group_id;
  account_id = t.account_id;
  schedule_id = t.schedule_id;
  user_id = t.user_id;
  ad_text = t.ad_text;
  ad_title = t.ad_title;
  ad_images = t.ad_images;
  group_external_id = t.group_external_id;
  group_name = t.group_name;
}

unfoldable pub is_member : ℕ → List ℕ → Bool
is_member a [] = false
is_member a (x ∷ xs) = (x == a) || is_member a xs

-- `pipe.rpush(queue_key, payload)`
abbrev pub rpush : ℕ → Payload → Channel → Channel
rpush a p c = record c { queue = λ k. if k == a then c.queue k ++ p ∷ [] else c.queue k }

-- `pipe.sadd("…:active_accounts", account_id)`
abbrev pub sadd : ℕ → Channel → Channel
sadd a c = record c {
  active_accounts =
      if is_member a c.active_accounts then c.active_accounts else a ∷ c.active_accounts;
}

-- `sum(len(t) for t in buckets.values())`
unfoldable pub total_in : List Bucket → ℕ
total_in [] = 0
total_in (b ∷ bs) = length b.tasks + total_in bs

abbrev pub is_nothing : List Bucket → Bool
is_nothing [] = true
is_nothing (b ∷ bs) = false

-- What Redis answers: the n-th call of Celery, whose broker it is, and the pipeline of a messenger.
pub record Redis : Type 0 where
  pub tg_up : ℕ → Bool
  pub wa_up : Bool
  pub max_up : Bool

abbrev pub all_up : Redis
all_up = record { tg_up = λ n. true; wa_up = true; max_up = true }

abbrev pub all_down : Redis
all_down = record { tg_up = λ n. false; wa_up = false; max_up = false }

abbrev pub apply_async : DispatchTask → Broker → Broker
apply_async task broker = record broker { telegram = broker.telegram ++ telegram_call task ∷ [] }

-- The calls of Celery one after the other, and whether all were taken; the first that Redis does not
-- take raises.
unfoldable pub call_telegram : (ℕ → Bool) → ℕ → List DispatchTask → Broker → Bool × Broker
call_telegram tg_up n [] broker = (true, broker)
call_telegram tg_up n (task ∷ tasks) broker =
    let rest = call_telegram tg_up (n + 1) tasks (apply_async task broker) in
    if tg_up n then rest else (false, broker)

-- The number of tasks sent out, or the exception of a lost connection.
pub data Dispatched : Type 0 where
  total : ℕ → Dispatched
  connection_error : Dispatched

-- What a run of `check_schedules_async` ends with.
pub data Tick : Type 0 where
  tick_raised : Raised → Tick
  dispatched : Dispatched → Tick
  nothing_due : Tick

module _ (stamp : ℕ → ℕ × ℕ) where
  abbrev pub payload : ℕ → DispatchTask → Payload
  payload n task = record { task_id = (stamp n).0; created_at = (stamp n).1; body = body_of task }

  -- The tasks of one account: their payloads from number `n` on.
  unfoldable pub push_tasks : ℕ → ℕ → List DispatchTask → Channel → Channel
  push_tasks a n [] c = c
  push_tasks a n (task ∷ tasks) c = push_tasks a (n + 1) tasks (rpush a (payload n task) c)

  -- One pipeline.
  unfoldable pub push_buckets : ℕ → List Bucket → Channel → Channel
  push_buckets n [] c = c
  push_buckets n (b ∷ bs) c =
      push_buckets (n + length b.tasks) bs (sadd b.account_id (push_tasks b.account_id n b.tasks c))

  abbrev pub push_wa : List Bucket → Broker → Broker
  push_wa bs broker = record broker {
    wa = push_buckets broker.made bs broker.wa;
    made = broker.made + total_in bs;
  }

  abbrev pub push_max : List Bucket → Broker → Broker
  push_max bs broker = record broker {
    max = push_buckets broker.made bs broker.max;
    made = broker.made + total_in bs;
  }

  -- The three dispatches one after the other. A lost connection ends the call where it stands.
  abbrev pub dispatch_max : Bool → Sorted → Broker → Dispatched × Broker
  dispatch_max max_up s broker =
      if max_up || is_nothing s.max_tasks_by_account
      then (
        total
            (length s.tg_tasks + total_in s.wa_tasks_by_account + total_in s.max_tasks_by_account),
        push_max s.max_tasks_by_account broker,
      )
      else (connection_error, broker)

  abbrev pub dispatch_wa : Redis → Sorted → Broker → Dispatched × Broker
  dispatch_wa redis s broker =
      if redis.wa_up || is_nothing s.wa_tasks_by_account
      then dispatch_max redis.max_up s (push_wa s.wa_tasks_by_account broker)
      else (connection_error, broker)

  abbrev pub dispatch_sorted : Redis → Sorted → Bool × Broker → Dispatched × Broker
  dispatch_sorted redis s (called, broker) =
      if called then dispatch_wa redis s broker else (connection_error, broker)

  unfoldable pub dispatch_send_tasks : Redis → List DispatchTask → Broker → Dispatched × Broker
  dispatch_send_tasks redis tasks broker =
      let s = sort_tasks tasks unsorted in
      dispatch_sorted redis s (call_telegram redis.tg_up 0 s.tg_tasks broker)

  -- The dispatch of what the tick collected, where it collected anything.
  abbrev pub send_out : Redis → Result (List DispatchTask) → Broker → Tick × Broker
  send_out redis (raised e) broker = (tick_raised e, broker)
  send_out redis (ok []) broker = (nothing_due, broker)
  send_out redis (ok (task ∷ tasks)) broker =
      let sent = dispatch_send_tasks redis (task ∷ tasks) broker in (dispatched sent.0, sent.1)

  unfoldable pub check_schedules : World → ℕ → Redis → Base → Broker → Tick × Broker × Base
  check_schedules world now redis b broker =
      let due = collect_due_schedules world b now in
      let sent = send_out redis due.0 broker in (sent.0, sent.1, due.1)
