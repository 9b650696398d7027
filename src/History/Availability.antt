-- ===== src/History/Availability.antt =====
-- Which records of a page can be repeated, and why not (app/pages/history.py, `retry_availability`):
-- two queries by all the keys of the page, and a verdict for each record that did not succeed. The
-- group of a record comes with it, by the page's outer join.
pub mod Offer
use broadcaster.Prelude.{
  ℕ, Bool, true, false, not, ◌&&◌, Option, none, some, List, [], ◌∷◌, map, find, select, ◌==◌,
  if◌then◌else◌,
}
use broadcaster.Scheduling.Collect.{Ad, Account, Group, Base, is_connected}
use broadcaster.Worker.Dispatch.{is_member}
use broadcaster.Worker.Retry.{is_success, StoredLog, get_if_key}
use broadcaster.History.Handler.{draft_ad}

-- A row of the page: `select(SendLog, Group)` with an outer join.
pub record Row : Type 0 where
  pub log : StoredLog
  pub group : Option Group

pub data Reason : Type 0 where
  ad_gone ad_draft group_gone group_off account_gone account_off : Reason

abbrev pub failed_row : Row → Bool
failed_row row = not (is_success row.log.status)

-- A key that is neither NULL nor 0.
abbrev pub with_key : Option ℕ → List ℕ → List ℕ
with_key none keys = keys
with_key (some i) keys = if i == 0 then keys else i ∷ keys

-- `{log.ad_id for … if log.ad_id}`
unfoldable pub ad_ids : List Row → List ℕ
ad_ids [] = []
ad_ids (row ∷ rows) = with_key row.log.ad_id (ad_ids rows)

abbrev pub account_key : Option Group → Option ℕ
account_key none = none
account_key (some g) = some g.account_id

-- `{group.account_id for … if group and group.account_id}`
unfoldable pub account_ids : List Row → List ℕ
account_ids [] = []
account_ids (row ∷ rows) = with_key (account_key row.group) (account_ids rows)

-- The two queries: the rows of the user among the keys.
abbrev pub live_ads : ℕ → List ℕ → Base → List Ad
live_ads user keys b = select (λ (ad : Ad). is_member ad.id keys && (ad.user_id == user)) b.ads

abbrev pub live_accounts : ℕ → List ℕ → Base → List Account
live_accounts user keys b =
    select (λ (a : Account). is_member a.id keys && (a.user_id == user)) b.accounts

abbrev pub reason_of_account : Option Account → Option Reason
reason_of_account none = some account_gone
reason_of_account (some a) = if is_connected a.status then none else some account_off

abbrev pub reason_of_group : Option Group → Option Account → Option Reason
reason_of_group none account = some group_gone
reason_of_group (some g) account =
    if not g.is_active then some group_off else reason_of_account account

abbrev pub reason_of : Option Ad → Option Group → Option Account → Option Reason
reason_of none group account = some ad_gone
reason_of (some ad) group account =
    if draft_ad ad then some ad_draft else reason_of_group group account

abbrev pub found_ad : List Ad → ℕ → Option Ad
found_ad ads i = find (λ (ad : Ad). ad.id == i) ads

abbrev pub found_account : List Account → ℕ → Option Account
found_account accounts i = find (λ (a : Account). a.id == i) accounts

-- The verdict on one record of the page.
unfoldable pub verdict_of : ℕ → List Row → Base → Row → Option Reason
verdict_of user candidates b row =
    reason_of (get_if_key (found_ad (live_ads user (ad_ids candidates) b)) row.log.ad_id) row.group
      (get_if_key (found_account (live_accounts user (account_ids candidates) b))
        (account_key row.group))

unfoldable pub retry_availability : ℕ → List Row → Base → List (ℕ × Option Reason)
retry_availability user rows b =
    let candidates = select failed_row rows in
    map (λ (row : Row). (row.log.id, verdict_of user candidates b row)) candidates
