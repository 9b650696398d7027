-- ===== src/Billing/Store.antt =====
-- The state that the payment code reads and writes: the tables, the access verdicts cached in
-- Redis, and the calls made to the payment provider. An insert is refused, as the database
-- refuses it, by the foreign key and the unique indexes of app/models/payment.py and
-- app/models/subscription.py.
pub mod Laws
use broadcaster.Prelude.{
  ℕ, suc, ◌+◌, ◌≤◌, ◌<◌, String, Bool, true, false, not, ◌&&◌, ◌||◌, Option, none, some, List, [],
  ◌∷◌, ◌++◌, count, modify, All, ltb, ◌==◌, if◌then◌else◌,
}
use broadcaster.Calendar.{Stored, normalize_utc, is_before}
use broadcaster.Billing.Models.{
  Payment, Subscription, Kind, is_open_intent, has_yookassa_id, is_active_of,
}

-- The description of a purchase at the provider: `SUBSCRIPTION_DESCRIPTION`, or the text that
-- names the package.
pub data Description : Type 0 where
  access : Description
  top_up : Option String → Description

pub data Metadata : Type 0 where
  subscription_metadata : ℕ → Kind → String → Metadata
  package_metadata : ℕ → Kind → Option ℕ → String → Metadata

-- The body of `YooPayment.create`.
pub record SdkRequest : Type 0 where
  pub amount : String
  pub description : Description
  pub metadata : Metadata
  pub idempotency_key : ℕ

pub record SdkPayment : Type 0 where
  pub id : ℕ
  pub confirmation_url : String

-- The log lines that tell what a payment gave: `subscription_extended` with the liveness of the
-- term before it moved, and `subscription_payment_succeeded` after the commit.
pub data LogEntry : Type 0 where
  subscription_extended : ℕ → Option ℕ → Bool → LogEntry
  subscription_payment_succeeded : ℕ → ℕ → LogEntry

-- A cached verdict of `check_access`: allowed, or the reason of the refusal.
pub data Verdict : Type 0 where
  allowed access_closed : Verdict

pub record Store : Type 0 where
  pub users : List ℕ
  pub payments : List Payment
  pub next_payment_id : ℕ
  pub subscriptions : List Subscription
  pub next_subscription_id : ℕ
  pub cache : ℕ → Option Verdict
  pub sdk_calls : List SdkRequest
  pub journal : List LogEntry

-- What a call raises.
pub data Error : Type 0 where
  pending_intent_cap payment_creation integrity_error : Error

pub data Outcome (A : Type 0) : Type 0 where
  ok : A → Outcome A
  err : Error → Outcome A

abbrev pub has_subscription_id : ℕ → Subscription → Bool
has_subscription_id i s = s.id == i

abbrev pub has_payment_id : ℕ → Payment → Bool
has_payment_id i p = p.id == i

-- `payments.yookassa_payment_id` is UNIQUE, and NULLs are distinct.
abbrev pub taken : Option ℕ → List Payment → Bool
taken none ps = false
taken (some y) ps = ltb 0 (count (has_yookassa_id y) ps)

-- The constraints that an insert into `payments` meets.
unfoldable pub payment_refused : Payment → Store → Bool
payment_refused p s =
    (count (λ u. u == p.user_id) s.users == 0)
    || (taken p.yookassa_payment_id s.payments
        || (is_open_intent p.user_id p && ltb 0 (count (is_open_intent p.user_id) s.payments)))

-- The tables with the row appended under the next `id`.
unfoldable pub add_payment : Payment → Store → Store
add_payment p s = record s {
  payments = s.payments ++ record p { id = s.next_payment_id } ∷ [];
  next_payment_id = suc s.next_payment_id;
}

-- INSERT INTO payments; `none` is IntegrityError, and changes nothing.
unfoldable pub insert_payment : Payment → Store → Option Store
insert_payment p s = if payment_refused p s then none else some (add_payment p s)

-- A new row of `subscriptions`, active and not free of charge.
unfoldable pub add_subscription : ℕ → Stored → Store → Store
add_subscription user_id expires_at s = record s {
  subscriptions =
      s.subscriptions
      ++ record {
        id = s.next_subscription_id;
        user_id = user_id;
        expires_at = expires_at;
        is_active = true;
        has_free_access = false;
      }
        ∷ [];
  next_subscription_id = suc s.next_subscription_id;
}

-- The constraints that an insert of an active row into `subscriptions` meets.
unfoldable pub subscription_refused : ℕ → Store → Bool
subscription_refused user_id s =
    (count (λ u. u == user_id) s.users == 0) || ltb 0 (count (is_active_of user_id) s.subscriptions)

-- INSERT INTO subscriptions; `none` is IntegrityError, and changes nothing.
unfoldable pub insert_subscription : ℕ → Stored → Store → Option Store
insert_subscription user_id expires_at s =
    if subscription_refused user_id s then none else some (add_subscription user_id expires_at s)

-- Of two rows the one that ends later; the first, where they end together.
abbrev pub later_of : Subscription → Option Subscription → Subscription
later_of x none = x
later_of x (some y) =
    if is_before (normalize_utc x.expires_at) (normalize_utc y.expires_at) then y else x

-- `select(Subscription).where(user, is_active).order_by(expires_at.desc()).limit(1)`
unfoldable pub latest_active : ℕ → List Subscription → Option Subscription
latest_active u [] = none
latest_active u (x ∷ xs) =
    let rest = latest_active u xs in if is_active_of u x then some (later_of x rest) else rest

-- The constraints of the schema, as an invariant of the tables.
pub record IsValid (s : Store) : Type 0 where
  pub one_payment : (y : ℕ) → count (has_yookassa_id y) s.payments ≤ 1
  pub one_intent : (u : ℕ) → count (is_open_intent u) s.payments ≤ 1
  pub one_payment_id : (i : ℕ) → count (has_payment_id i) s.payments ≤ 1
  pub payment_ids : All (λ p. p.id < s.next_payment_id) s.payments
  pub one_active : (u : ℕ) → count (is_active_of u) s.subscriptions ≤ 1
  pub one_id : (i : ℕ) → count (has_subscription_id i) s.subscriptions ≤ 1
  pub subscription_ids : All (λ r. r.id < s.next_subscription_id) s.subscriptions
