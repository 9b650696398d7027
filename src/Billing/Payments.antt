-- ===== src/Billing/Payments.antt =====
-- The creation of a payment (app/services/payment_service.py): sweep, reserve, the call to the
-- provider, and the entry of its answer. The provider's SDK is not in the repository: it is the
-- argument `sdk`, where `none` stands for any exception that it raises. A commit keeps what was
-- written before an error, so the store comes back beside the error too.
pub mod Laws
pub mod Cap
use broadcaster.Prelude.{
  ℕ, ◌+◌, ◌-◌, ◌*◌, String, Bool, true, false, ◌&&◌, ◌||◌, not, Option, none, some, List, [], ◌∷◌,
  ◌++◌, count, modify, ltb, ◌==◌, if◌then◌else◌,
}
use broadcaster.Prelude.Int.{pos_part, neg_part}
use broadcaster.Calendar.{Stored, Aware, normalize_utc, reading, micros_per_day}
use broadcaster.Billing.Models.{
  Payment, PaymentStatus, Kind, is_open_intent, is_subscription, is_pending, has_yookassa_id,
}
use broadcaster.Billing.Store.{
  Store, Error, Outcome, ok, err, pending_intent_cap, payment_creation, integrity_error,
  Description, access, top_up, Metadata, subscription_metadata, package_metadata, SdkRequest,
  SdkPayment, taken, has_payment_id, insert_payment,
}

-- `PENDING_INTENT_TTL_HOURS`, in microseconds
abbrev pub pending_intent_ttl : ℕ
pending_intent_ttl = 24 * 3600000000

-- `born is not None and born < now - ttl`; a row without a birth time is fresh.
abbrev pub is_stale : Stored → Option Stored → Bool
is_stale now none = false
is_stale now (some born) =
    ltb (reading (normalize_utc born) (normalize_utc now) + pending_intent_ttl)
      (reading (normalize_utc now) (normalize_utc born))

-- The rows of `_stale_subscription_intents`.
abbrev pub is_stale_intent : ℕ → Stored → Payment → Bool
is_stale_intent user_id now p = is_open_intent user_id p && is_stale now p.created_at

abbrev pub set_status : PaymentStatus → Payment → Payment
set_status st p = record p { status = st }

-- `_expire_stale_intents`: the number of rows that it touched comes back.
unfoldable pub expire_stale_intents : ℕ → Stored → Store → ℕ × Store
expire_stale_intents user_id now s = (
  count (is_stale_intent user_id now) s.payments,
  record s {
    payments = modify (is_stale_intent user_id now) (set_status PaymentStatus.expired) s.payments;
  },
)

-- The arguments of `create_payment`.
pub record Purchase : Type 0 where
  pub user_id : ℕ
  pub price : String
  pub kind : Kind
  pub package_name : Option String
  pub messages_count : Option ℕ
  pub plan : Option String
  pub switch_authorized : Option Bool

-- A new row, as both places that insert one build it. `id` is given by the insert.
abbrev pub payment_row : Purchase → Option ℕ → Option Stored → Payment
payment_row b yookassa_id created_at = record {
  id = 0;
  user_id = b.user_id;
  yookassa_payment_id = yookassa_id;
  status = PaymentStatus.pending;
  amount_value = b.price;
  amount_currency = "RUB";
  kind = b.kind;
  plan = b.plan;
  switch_authorized = b.switch_authorized;
  messages_count = b.messages_count;
  package_name = b.package_name;
  created_at = created_at;
  confirmed_at = none;
}

-- The reserve holds neither count nor name, whatever the caller passed.
abbrev pub reserve_row : Purchase → Option Stored → Payment
reserve_row b created_at = record (payment_row b none created_at) {
  kind = Kind.subscription;
  messages_count = none;
  package_name = none;
}

-- `_is_open_intent_conflict`
unfoldable pub is_open_intent_conflict : ℕ → Store → Bool
is_open_intent_conflict user_id s = ltb 0 (count (is_open_intent user_id) s.payments)

-- `_reserve_subscription_intent`: the new row's `id`, or which error it raises.
unfoldable pub reserve_subscription_intent : Purchase → Stored → Store → Outcome ℕ × Store
reserve_subscription_intent b db_now s = elim (insert_payment (reserve_row b (some db_now)) s) [
  | none ↦
      (err (if is_open_intent_conflict b.user_id s then pending_intent_cap else integrity_error), s)
  | some s' ↦ (ok s.next_payment_id, s')
]

abbrev pub or_empty : Option String → String
or_empty none = ""
or_empty (some t) = t

-- The body sent to the provider.
unfoldable pub sdk_request : Purchase → ℕ → SdkRequest
sdk_request b idempotency_key = record {
  amount = b.price;
  description = if is_subscription b.kind then access else top_up b.package_name;
  metadata =
      if is_subscription b.kind
      then subscription_metadata b.user_id b.kind (or_empty b.plan)
      else package_metadata b.user_id b.kind b.messages_count (or_empty b.package_name);
  idempotency_key = idempotency_key;
}

-- What `create_payment` returns.
pub record Created : Type 0 where
  pub confirmation_url : String
  pub payment_id : ℕ

abbrev pub created : SdkPayment → Created
created paid = record { confirmation_url = paid.confirmation_url; payment_id = paid.id }

-- The failure of the provider puts out the reserve of this attempt.
unfoldable pub expire_reserve : ℕ → Store → Store
expire_reserve reserved s = record s {
  payments = modify (has_payment_id reserved) (set_status PaymentStatus.expired) s.payments;
}

abbrev pub set_yookassa_id : ℕ → Payment → Payment
set_yookassa_id y p = record p { yookassa_payment_id = some y }

-- The provider's identifier is entered into the reserve; its uniqueness is checked by the commit.
unfoldable pub enter_yookassa_id : ℕ → SdkPayment → Store → Outcome Created × Store
enter_yookassa_id reserved paid s =
    if taken (some paid.id) s.payments then (err integrity_error, s) else (
      ok (created paid),
      record s { payments = modify (has_payment_id reserved) (set_yookassa_id paid.id) s.payments },
    )

-- The package branch inserts its row after the call.
unfoldable pub insert_package : Purchase → SdkPayment → Stored → Store → Outcome Created × Store
insert_package b paid db_now s =
    elim (insert_payment (payment_row b (some paid.id) (some db_now)) s) [
      | none ↦ (err integrity_error, s)
      | some s' ↦ (ok (created paid), s')
    ]

abbrev pub record_call : SdkRequest → Store → Store
record_call r s = record s { sdk_calls = s.sdk_calls ++ r ∷ [] }

module _ (sdk : SdkRequest → Option SdkPayment) (idempotency_key : ℕ) where
  -- From the reserve on: the call, and what its answer does to the row.
  unfoldable pub call_with_reserve : Purchase → ℕ → Store → Outcome Created × Store
  call_with_reserve b reserved s =
      let r = sdk_request b idempotency_key in
      elim (sdk r) [
        | none ↦ (err payment_creation, expire_reserve reserved (record_call r s))
        | some paid ↦ enter_yookassa_id reserved paid (record_call r s)
      ]

  unfoldable pub call_then_insert : Purchase → Stored → Store → Outcome Created × Store
  call_then_insert b db_now s =
      let r = sdk_request b idempotency_key in
      elim (sdk r) [
        | none ↦ (err payment_creation, record_call r s)
        | some paid ↦ insert_package b paid db_now (record_call r s)
      ]

  abbrev pub continue_reserved : Purchase → Outcome ℕ × Store → Outcome Created × Store
  continue_reserved b (err e, s) = (err e, s)
  continue_reserved b (ok reserved, s) = call_with_reserve b reserved s

  unfoldable pub create_payment : Purchase → Stored → Stored → Store → Outcome Created × Store
  create_payment b now db_now s =
      if is_subscription b.kind
      then continue_reserved b
          (reserve_subscription_intent b db_now (expire_stale_intents b.user_id now s).1)
      else call_then_insert b db_now s
