-- ===== src/Worker/Sync.antt =====
-- The background synchronisation of groups (app/worker/tasks.py, `_sync_groups_async`): the worker of
-- the messenger is polled until it is done, at most forty times. Its answers come from outside, and
-- so do the changes that others make to the accounts while the task sleeps, and the failures of the
-- database: a session whose commit fails leaves the tables as they were.
pub mod Settled
use broadcaster.Prelude.{
  ℕ, zero, suc, ◌+◌, ◌*◌, ◌/◌, String, Bool, true, false, ◌&&◌, Option, none, some, List, [], ◌∷◌,
  ◌++◌, find, modify, ◌==◌, if◌then◌else◌,
}
use broadcaster.Prelude.Decimal.{codes, str}
use broadcaster.Scheduling.Collect.{AccountStatus}
use broadcaster.Accounts.Resync
use broadcaster.Accounts.Resync.{
  Fetched, items, GroupResyncResult, SyncError, apply_group_resync, record_sync_failure,
}

-- `POLL_INTERVAL`, in seconds, and `MAX_POLLS`
abbrev pub poll_interval : ℕ
poll_interval = 15

abbrev pub max_polls : ℕ
max_polls = 40

-- The states of the worker that end the task by a failure.
pub data BridgeState : Type 0 where
  failed not_found unknown : BridgeState

abbrev pub state_text : BridgeState → String
state_text failed = "failed"
state_text not_found = "not_found"
state_text unknown = "unknown"

-- `_bridge_failure_message`
abbrev pub bridge_failure_message : BridgeState → List ℕ
bridge_failure_message state =
    codes "Синхронизация не удалась: мессенджер вернул состояние «"
    ++ (codes (state_text state) ++ codes "»")

-- `_sync_timeout_message`
abbrev pub sync_timeout_message : ℕ → ℕ → List ℕ
sync_timeout_message interval polls =
    codes "Синхронизация не завершилась за "
    ++ (str (interval * polls / 60) ++ codes " мин — мессенджер не отдал список групп")

-- `UNEXPECTED_FAILURE_MESSAGE`
abbrev pub unexpected_failure_message : List ℕ
unexpected_failure_message =
    codes "Синхронизация не удалась из-за внутренней ошибки — повторите попытку"

-- An answer of `get_sync_status`; `ready` carries the groups where they are given, and any other
-- state means that the worker has not finished.
pub data Poll : Type 0 where
  ready : Option Fetched → Poll
  settled : BridgeState → Poll
  working poll_raised : Poll

-- A row of `messenger_accounts`, with what a synchronisation writes.
pub record SyncAccount : Type 0 where
  pub id : ℕ
  pub status : AccountStatus
  pub inventory : Resync.Account

abbrev pub is_syncing : AccountStatus → Bool
is_syncing AccountStatus.syncing = true
is_syncing _ = false

-- What happens outside: the answers by attempt, what others do to the table before a session is
-- opened at an attempt, whether the messenger can be built, whether the sessions can commit, and
-- the clock.
pub record Surroundings : Type 0 where
  pub poll : ℕ → Poll
  pub others : ℕ → List SyncAccount → List SyncAccount
  pub factory_ok : Bool
  pub commit_ok : Bool
  pub handler_ok : Bool
  pub now : ℕ

-- The table, how often the worker was asked, and how many seconds were slept.
pub record Progress : Type 0 where
  pub accounts : List SyncAccount
  pub polls : ℕ
  pub slept : ℕ

pub data SyncEnd : Type 0 where
  complete skipped failed_sync timed_out : SyncEnd
  rejected : SyncError → SyncEnd
  crashed : SyncEnd

abbrev pub is_account : ℕ → SyncAccount → Bool
is_account id a = a.id == id

-- The row is written only while it is syncing.
abbrev pub if_syncing : (SyncAccount → SyncAccount) → SyncAccount → SyncAccount
if_syncing f a = if is_syncing a.status then f a else a

abbrev pub note_failure : List ℕ → SyncAccount → SyncAccount
note_failure message a = record a {
  status = AccountStatus.sync_failed;
  inventory = record_sync_failure message a.inventory;
}

abbrev pub groups_or_none : Option Fetched → Fetched
groups_or_none none = items []
groups_or_none (some fetched) = fetched

abbrev pub take_groups : Fetched → ℕ → SyncAccount → SyncAccount
take_groups fetched now a = record a {
  status = AccountStatus.active;
  inventory = (apply_group_resync fetched false now a.inventory).1;
}

abbrev pub end_of_result : Option SyncError → SyncEnd
end_of_result none = complete
end_of_result (some e) = rejected e

-- What the log says of a session at `ready`.
abbrev pub end_of_ready : Fetched → ℕ → Option SyncAccount → SyncEnd
end_of_ready fetched now none = skipped
end_of_ready fetched now (some a) =
    if is_syncing a.status
    then end_of_result (apply_group_resync fetched false now a.inventory).0.error
    else skipped

module _ (account_id : ℕ) (w : Surroundings) where
  abbrev pub update : (SyncAccount → SyncAccount) → Progress → Progress
  update f s = record s { accounts = modify (is_account account_id) (if_syncing f) s.accounts }

  -- A session that changes the row: its commit, or what the commit raises.
  abbrev pub session : SyncEnd → (SyncAccount → SyncAccount) → Progress → SyncEnd × Progress
  session e f s = if w.commit_ok then (e, update f s) else (crashed, s)

  -- What others did before a session.
  abbrev pub meanwhile : ℕ → Progress → Progress
  meanwhile attempt s = record s { accounts = w.others attempt s.accounts }

  abbrev pub on_ready : Fetched → Progress → SyncEnd × Progress
  on_ready fetched s =
      session (end_of_ready fetched w.now (find (is_account account_id) s.accounts))
        (take_groups fetched w.now) s

  abbrev pub on_failure : SyncEnd → List ℕ → Progress → SyncEnd × Progress
  on_failure e message s = session e (note_failure message) s

  -- What an answer leads to; `rest` is the rest of the loop.
  abbrev pub answered : Poll → Progress → SyncEnd × Progress → SyncEnd × Progress
  answered (ready groups) s rest = on_ready (groups_or_none groups) s
  answered (settled state) s rest = on_failure failed_sync (bridge_failure_message state) s
  answered working s rest = rest
  answered poll_raised s rest = (crashed, s)

  -- The loop over the attempts that are left, and the timeout after them.
  unfoldable pub poll_loop : ℕ → ℕ → Progress → SyncEnd × Progress
  poll_loop zero attempt s =
      on_failure timed_out (sync_timeout_message poll_interval max_polls) (meanwhile attempt s)
  poll_loop (suc left) attempt s =
      let asked = meanwhile attempt (record s { polls = s.polls + 1 }) in
      answered (w.poll attempt) asked
        (poll_loop left (attempt + 1) (record asked { slept = asked.slept + poll_interval }))

  -- The handler of an exception: its own session, whose failure is swallowed; the exception goes on.
  abbrev pub handle : SyncEnd × Progress → SyncEnd × Progress
  handle (crashed, s) =
      let later = meanwhile max_polls s in
      (
        crashed,
        if w.handler_ok then update (note_failure unexpected_failure_message) later else later,
      )
  handle (e, s) = (e, s)

  unfoldable pub sync_groups : List SyncAccount → SyncEnd × Progress
  sync_groups accounts =
      let start : Progress = record { accounts = accounts; polls = 0; slept = 0 } in
      handle (if w.factory_ok then poll_loop max_polls 0 start else (crashed, start))
