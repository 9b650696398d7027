-- ===== src/Billing/Webhook.antt =====
-- The confirmation of a payment (app/services/payment_service.py, `handle_webhook` and what it
-- calls). A delivery first reads the payment's row, and later claims it by one conditional UPDATE:
-- `fetch` and `apply` are the two halves, so that two deliveries can overlap between them. What
-- is raised rolls the transaction back. Of the log lines, those
-- that tell what a payment gave are modelled.
pub mod Claim
pub mod Overlap
pub mod Once
pub mod Term
pub mod Valid
pub mod Deliver
pub mod Repeat
use broadcaster.Prelude.{
  ℕ, String, Bool, true, false, ◌&&◌, not, Option, none, some, List, [], ◌∷◌, ◌++◌, count, find,
  modify, ◌==◌, if◌then◌else◌,
}
use broadcaster.Calendar.{Stored, aware, Aware, normalize_utc}
use broadcaster.Billing.Models.{
  Payment, PaymentStatus, Subscription, is_subscription, is_terminal, has_yookassa_id,
}
use broadcaster.Billing.Period.{subscription_is_live, next_expiry}
use broadcaster.Billing.Store.{
  Store, Outcome, ok, err, integrity_error, Verdict, LogEntry, subscription_extended,
  subscription_payment_succeeded, has_subscription_id, latest_active, insert_subscription,
}

-- The events of the provider; `other_event` is any outside `KNOWN_EVENTS`.
pub data Event : Type 0 where
  payment_succeeded payment_canceled : Event
  other_event : String → Event

-- The row that the conditional UPDATE of `_claim_payment` meets.
abbrev pub is_claimable : ℕ → Payment → Bool
is_claimable y p = has_yookassa_id y p && not (is_terminal p.status)

abbrev pub settle : PaymentStatus → Stored → Payment → Payment
settle st now p = record p { status = st; confirmed_at = some (normalize_utc now) }

-- `_claim_payment`: whether exactly one row was written, and the table after the UPDATE.
unfoldable pub claim_payment : ℕ → PaymentStatus → Stored → Store → Bool × Store
claim_payment y st now s = (
  count (is_claimable y) s.payments == 1,
  record s { payments = modify (is_claimable y) (settle st now) s.payments },
)

-- `_apply_extension`: the liveness is sampled before the date moves, and both come from the row
-- that was read.
unfoldable pub apply_extension : Subscription → Payment → Stored → Store → Store
apply_extension sub p now s =
    let period_is_live = subscription_is_live (some sub.expires_at) now in
    let expires_at = aware (next_expiry (some sub.expires_at) now) in
    record s {
      subscriptions =
          modify (has_subscription_id sub.id) (λ r. record r { expires_at = expires_at })
            s.subscriptions;
      journal =
          s.journal ++ subscription_extended p.user_id p.yookassa_payment_id period_is_live ∷ [];
    }

-- The second reading of `_extend_subscription`, after an insert that was refused.
abbrev pub recover_extension : Option Subscription → Payment → Stored → Store → Outcome Unit × Store
recover_extension none p now s = (err integrity_error, s)
recover_extension (some sub) p now s = (ok tt, apply_extension sub p now s)

abbrev pub insert_or_recover : Option Store → Payment → Stored → Store → Outcome Unit × Store
insert_or_recover (some s') p now s = (ok tt, s')
insert_or_recover none p now s = recover_extension (latest_active p.user_id s.subscriptions) p now s

-- `_extend_subscription` from its first reading on, which another transaction may have outdated.
unfoldable pub extend_from : Option Subscription → Payment → Stored → Store → Outcome Unit × Store
extend_from (some sub) p now s = (ok tt, apply_extension sub p now s)
extend_from none p now s =
    insert_or_recover (insert_subscription p.user_id (aware (next_expiry none now)) s) p now s

unfoldable pub extend_subscription : Payment → Stored → Store → Outcome Unit × Store
unfolding extend_from
extend_subscription p now s = extend_from (latest_active p.user_id s.subscriptions) p now s

-- `invalidate_access_cache`: an unavailable Redis, or one that refuses, is passed over.
unfoldable pub invalidate_access_cache : Bool → ℕ → Store → Store
invalidate_access_cache redis_up user_id s =
    if redis_up then record s { cache = λ u. if u == user_id then none else s.cache u } else s

-- `not db_payment.messages_count`
abbrev pub lacks_messages : Option ℕ → Bool
lacks_messages none = true
lacks_messages (some n) = n == 0

abbrev pub log_entry : LogEntry → Store → Store
log_entry e s = record s { journal = s.journal ++ e ∷ [] }

-- The commit, the reset of the cached verdict and the log line; an exception undoes the claim too.
abbrev pub commit_extension :
    Bool → ℕ → Payment → Store → Outcome Unit × Store → Outcome Bool × Store
commit_extension redis_up y p before (err e, s) = (err e, before)
commit_extension redis_up y p before (ok done, s) = (
  ok true,
  log_entry (subscription_payment_succeeded p.user_id y)
      (invalidate_access_cache redis_up p.user_id s),
)

-- The branch of a confirmed payment, from the claim on.
unfoldable pub apply_succeeded : ℕ → Payment → Stored → Bool → Store → Outcome Bool × Store
apply_succeeded y p now redis_up s =
    let (won, claimed) = claim_payment y PaymentStatus.succeeded now s in
    if not won
    then (ok true, s)
    else if is_subscription p.kind
    then commit_extension redis_up y p s (extend_subscription p now claimed)
    else (ok true, claimed)

-- The branch of a canceled payment.
unfoldable pub apply_canceled : ℕ → Stored → Store → Outcome Bool × Store
apply_canceled y now s =
    let (won, claimed) = claim_payment y PaymentStatus.canceled now s in
    if won then (ok true, claimed) else (ok true, s)

-- What a delivery does once it has read the row `p`, whose status was not terminal.
unfoldable pub apply : Event → ℕ → Payment → Stored → Bool → Store → Outcome Bool × Store
apply (Event.other_event _) y p now redis_up s = (ok false, s)
apply Event.payment_canceled y p now redis_up s = apply_canceled y now s
apply Event.payment_succeeded y p now redis_up s =
    if not (is_subscription p.kind) && lacks_messages p.messages_count
    then (ok false, s)
    else apply_succeeded y p now redis_up s

-- What the first half of a delivery ends with: an answer, or the row to be claimed.
pub data Fetched : Type 0 where
  answer : Bool → Fetched
  claimable : ℕ → Payment → Fetched

abbrev pub fetch_row : ℕ → Option Payment → Fetched
fetch_row y none = answer false
fetch_row y (some p) = if is_terminal p.status then answer true else claimable y p

-- The checks before the claim: the event, the identifier, the row in our base, its status.
unfoldable pub fetch : Event → Option ℕ → Store → Fetched
fetch (Event.other_event _) y s = answer false
fetch e none s = answer false
fetch e (some y) s = fetch_row y (find (has_yookassa_id y) s.payments)

abbrev pub resume : Fetched → Event → Stored → Bool → Store → Outcome Bool × Store
resume (answer b) e now redis_up s = (ok b, s)
resume (claimable y p) e now redis_up s = apply e y p now redis_up s

-- One delivery that nothing overlaps.
unfoldable pub handle_webhook : Event → Option ℕ → Stored → Bool → Store → Outcome Bool × Store
unfolding fetch apply
handle_webhook e y now redis_up s = resume (fetch e y s) e now redis_up s
