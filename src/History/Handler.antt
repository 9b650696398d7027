-- ===== src/History/Handler.antt =====
-- The repeat button's handler (app/pages/history.py, `history_retry`), from its guards to the queue.
-- Who is logged in, whether the request is of the same origin, and what the broker answers come from
-- outside. A login under another's identity is refused before the handler, and has no case here.
pub mod Once
use broadcaster.Prelude.{
  ℕ, zero, suc, Bool, true, false, not, ◌&&◌, ◌||◌, Option, none, some, List, [], ◌∷◌, ◌++◌, leb,
  ◌==◌, if◌then◌else◌,
}
use broadcaster.Prelude.Int.{ℤ, pos, negsuc}
use broadcaster.Calendar.{Stored}
use broadcaster.Billing.Store.{Store, Verdict, allowed, access_closed}
use broadcaster.Billing.Access.{Action, check_access_cached}
use broadcaster.Scheduling.Collect.{
  Ad, Account, Group, Base, effective_ad_status, is_draft, is_connected, ad_of, account_of,
  group_of,
}
use broadcaster.Worker.Retry.{
  is_success, StoredLog, LogStatus, log_of, get_if_key, account_of_group,
}
use broadcaster.History.Slot.{Hold, claim_retry_slot, release_retry_slot}

-- `ID_MAX` of app/pages/identifiers.py
abbrev pub id_max : ℕ
id_max = 2147483647

-- `id_in_column`: an identifier that the column can hold; an absent one where it may be absent.
unfoldable pub id_in_column : Option ℤ → Bool → Bool
id_in_column none optional = optional
id_in_column (some (negsuc n)) optional = false
id_in_column (some (pos n)) optional = leb 1 n && leb n id_max

-- `effective_ad_status(ad) == AD_STATUS_DRAFT`
abbrev pub draft_ad : Ad → Bool
draft_ad ad = is_draft (effective_ad_status ad)

-- A row of another user is read as no row.
abbrev pub my_ad : ℕ → Option Ad → Option Ad
my_ad user none = none
my_ad user (some ad) = if ad.user_id == user then some ad else none

abbrev pub my_group : ℕ → Option Group → Option Group
my_group user none = none
my_group user (some g) = if g.user_id == user then some g else none

abbrev pub my_account : ℕ → Option Account → Option Account
my_account user none = none
my_account user (some a) = if a.user_id == user then some a else none

-- `db.get(MessengerAccount, group.account_id) if group and group.account_id else None`
abbrev pub account_if_key : Base → Option Group → Option Account
account_if_key b none = none
account_if_key b (some g) = get_if_key (λ i. account_of (some i) b) (some g.account_id)

-- The six guards on the ad, the group and the account.
abbrev pub is_whole : Option Ad → Option Group → Option Account → Bool
is_whole (some ad) (some group) (some account) =
    not (draft_ad ad) && (group.is_active && is_connected account.status)
is_whole _ _ _ = false

unfoldable pub can_repeat : ℕ → StoredLog → Base → Bool
can_repeat user log b =
    let group = my_group user (get_if_key (λ i. group_of i b) log.group_id) in
    is_whole (my_ad user (get_if_key (λ i. ad_of i b) log.ad_id)) group
      (my_account user (account_if_key b group))

-- The answers of the handler: redirects with their notice, the refusal, and an exception.
pub data Response : Type 0 where
  to_login forbidden to_history retry_busy retry_gone retry_access_closed retry_queued : Response
  operational_error other_error : Response

-- What the broker does with the task: takes it, cannot be reached, or fails in a way that leaves
-- open whether it took it.
pub data Delivery : Type 0 where
  taken not_connected unclear : Delivery

-- The process's register, the tasks `(log_id, user_id)` handed to the broker, and the billing tables.
pub record Desk : Type 0 where
  pub holds : List Hold
  pub handed : List (ℕ × ℕ)
  pub store : Store

pub record Request : Type 0 where
  pub user : Option ℕ
  pub same_origin : Bool
  pub log_id : ℤ
  pub clock : ℕ
  pub now : Stored
  pub read_up : Bool
  pub write_up : Bool
  pub delivery : Delivery

abbrev pub released : StoredLog → Desk → Desk
released log d = record d { holds = release_retry_slot log.id d.holds }

abbrev pub hand_over : ℕ → StoredLog → Desk → Desk
hand_over user log d = record d { handed = d.handed ++ (log.id, user) ∷ [] }

-- `celery.send_task`, and the `finally` that gives the hold back where nothing was queued.
abbrev pub deliver : Delivery → ℕ → StoredLog → Desk → Response × Desk
deliver taken user log d = (retry_queued, hand_over user log d)
deliver not_connected user log d = (operational_error, released log d)
deliver unclear user log d = (other_error, hand_over user log d)

abbrev pub admitted : Request → Verdict × Store → ℕ → StoredLog → Desk → Response × Desk
admitted r (allowed, s) user log d = deliver r.delivery user log (record d { store = s })
admitted r (access_closed, s) user log d =
    (retry_access_closed, released log (record d { store = s }))

-- What follows a claim that was let through.
abbrev pub claimed : Request → Base → ℕ → StoredLog → Desk → Response × Desk
claimed r b user log d =
    if can_repeat user log b
    then admitted r (check_access_cached r.read_up r.write_up Action.send user r.now d.store) user
        log d
    else (retry_gone, released log d)

abbrev pub after_claim : Request → Base → ℕ → StoredLog → Bool × List Hold → Desk → Response × Desk
after_claim r b user log (false, holds) d = (retry_busy, record d { holds = holds })
after_claim r b user log (true, holds) d = claimed r b user log (record d { holds = holds })

abbrev pub with_log : Request → Base → ℕ → Option StoredLog → Desk → Response × Desk
with_log r b user none d = (to_history, d)
with_log r b user (some log) d =
    if not (log.user_id == user) || is_success log.status
    then (to_history, d)
    else after_claim r b user log (claim_retry_slot r.clock log.id d.holds) d

-- `db.get(SendLog, log_id)`, where the identifier is one of the column.
abbrev pub asked_log : ℤ → List StoredLog → Option StoredLog
asked_log (negsuc n) logs = none
asked_log (pos n) logs = if id_in_column (some (pos n)) false then log_of n logs else none

abbrev pub logged_in : Request → List StoredLog → Base → Option ℕ → Desk → Response × Desk
logged_in r logs b none d = (to_login, d)
logged_in r logs b (some user) d =
    if r.same_origin then with_log r b user (asked_log r.log_id logs) d else (forbidden, d)

unfoldable pub history_retry : Request → List StoredLog → Base → Desk → Response × Desk
history_retry r logs b d = logged_in r logs b r.user d
