-- ===== src/Worker/Retry.antt =====
-- The repeat of a send from the history (app/worker/tasks.py, `retry_send`). Its two arguments come
-- from the broker, so every guard of the page stands here again. A session's `get` is the search for
-- a row by its key; the verdict on the user's access is the cached one of Billing/Access.
pub mod Safe
use broadcaster.Prelude.{
  ℕ, String, Bool, true, false, not, Option, none, some, List, [], ◌∷◌, find, ◌==◌, ◌⊎◌, inl, inr,
  if◌then◌else◌,
}
use broadcaster.Calendar.{Stored}
use broadcaster.Billing.Store.{Store, Verdict, allowed, access_closed}
use broadcaster.Billing.Access.{Action, check_access_cached}
use broadcaster.Scheduling.Collect.{
  Ad, Account, Group, Base, DispatchTask, effective_ad_status, is_draft, is_connected, ad_of,
  account_of, group_of, build_dispatch_task,
}
use broadcaster.Worker.Dispatch.{
  Broker, Redis, Dispatched, total, connection_error, dispatch_send_tasks,
}

-- `send_logs.status`
pub data LogStatus : Type 0 where
  succeeded : LogStatus
  other_log_status : String → LogStatus

abbrev pub is_success : LogStatus → Bool
is_success LogStatus.succeeded = true
is_success (LogStatus.other_log_status t) = false

-- A row of `send_logs`, by the columns that a repeat reads. The two keys have no foreign key.
pub record StoredLog : Type 0 where
  pub id : ℕ
  pub user_id : ℕ
  pub schedule_id : Option ℕ
  pub ad_id : Option ℕ
  pub group_id : Option ℕ
  pub status : LogStatus

abbrev pub log_of : ℕ → List StoredLog → Option StoredLog
log_of i logs = find (λ (l : StoredLog). l.id == i) logs

-- `session.get(T, key) if key else None`: neither NULL nor 0 is asked for.
abbrev pub get_if_key {ℓ} : {A : Type ℓ} → (ℕ → Option A) → Option ℕ → Option A
get_if_key get none = none
get_if_key get (some i) = if i == 0 then none else get i

abbrev pub account_of_group : Base → Option Group → Option Account
account_of_group b none = none
account_of_group b (some g) = account_of (some g.account_id) b

-- The reasons that the log of the task names.
pub data Stop : Type 0 where
  log_not_owned missing_entity account_not_active ad_is_draft group_inactive no_access : Stop

pub record Triple : Type 0 where
  pub log : StoredLog
  pub ad : Ad
  pub group : Group
  pub account : Account

-- The guards on the ad, the group and the account.
abbrev pub fit : StoredLog → Option Ad → Option Group → Option Account → Stop ⊎ Triple
fit log (some ad) (some group) (some account) =
    if not (is_connected account.status)
    then inl account_not_active
    else if is_draft (effective_ad_status ad)
    then inl ad_is_draft
    else if not group.is_active
    then inl group_inactive
    else inr (record { log = log; ad = ad; group = group; account = account })
fit log _ _ _ = inl missing_entity

abbrev pub owned : ℕ → Option StoredLog → Base → Stop ⊎ Triple
owned user_id none b = inl log_not_owned
owned user_id (some log) b =
    let group = get_if_key (λ i. group_of i b) log.group_id in
    if log.user_id == user_id
    then fit log (get_if_key (λ i. ad_of i b) log.ad_id) group (account_of_group b group)
    else inl log_not_owned

-- What a run ends with.
pub data RetryEnd : Type 0 where
  stopped : Stop → RetryEnd
  retried not_dispatched connection_lost : RetryEnd

-- What a repeat is given from outside: whether Redis answers the cache and the dispatch, the
-- numbers and moments of payloads, the moment, and the base of the addresses of images.
pub record Outside : Type 0 where
  pub read_up : Bool
  pub write_up : Bool
  pub redis : Redis
  pub stamp : ℕ → ℕ × ℕ
  pub now : Stored
  pub s3_public_url : List ℕ

module _ (o : Outside) where
  abbrev pub retry_task : Triple → DispatchTask
  retry_task t = build_dispatch_task o.s3_public_url t.ad t.group t.account t.log.schedule_id

  -- `if not dispatched`
  abbrev pub told : Dispatched → RetryEnd
  told (total n) = if n == 0 then not_dispatched else retried
  told connection_error = connection_lost

  abbrev pub send_again : Triple → Broker → RetryEnd × Broker
  send_again t broker =
      let sent = dispatch_send_tasks o.stamp o.redis (retry_task t ∷ []) broker in
      (told sent.0, sent.1)

  abbrev pub gated : Verdict → Triple → Broker → RetryEnd × Broker
  gated allowed t broker = send_again t broker
  gated access_closed t broker = (stopped no_access, broker)

  abbrev pub checked : Stop ⊎ Triple → ℕ → Broker → Store → RetryEnd × Broker × Store
  checked (inl stop) user_id broker s = (stopped stop, broker, s)
  checked (inr t) user_id broker s =
      let asked = check_access_cached o.read_up o.write_up Action.send user_id o.now s in
      let sent = gated asked.0 t broker in (sent.0, sent.1, asked.1)

  unfoldable pub retry_send :
      ℕ → ℕ → List StoredLog → Base → Broker → Store → RetryEnd × Broker × Store
  retry_send log_id user_id logs b broker s =
      checked (owned user_id (log_of log_id logs) b) user_id broker s
