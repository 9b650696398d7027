-- ===== src/Billing/Models.antt =====
-- The rows of app/models/payment.py and app/models/subscription.py. Identifiers, of our rows and
-- of the payment provider, are only compared, so they are numbers; sums are the provider's
-- decimal strings and are never computed with.
use broadcaster.Prelude.{ℕ, String, Bool, true, false, Option, ◌&&◌, ◌==◌, holds}
use broadcaster.Calendar.{Stored, Aware}

-- The `status` column. `other` is any text that the program has no name for.
pub data PaymentStatus : Type 0 where
  pending succeeded canceled expired : PaymentStatus
  other : String → PaymentStatus

-- The `kind` column, the object of the purchase.
pub data Kind : Type 0 where
  message_package subscription : Kind
  other_kind : String → Kind

pub record Payment : Type 0 where
  pub id : ℕ
  pub user_id : ℕ
  pub yookassa_payment_id : Option ℕ
  pub status : PaymentStatus
  pub amount_value : String
  pub amount_currency : String
  pub kind : Kind
  pub plan : Option String
  pub switch_authorized : Option Bool
  pub messages_count : Option ℕ
  pub package_name : Option String
  pub created_at : Option Stored
  pub confirmed_at : Option Aware

pub record Subscription : Type 0 where
  pub id : ℕ
  pub user_id : ℕ
  pub expires_at : Stored
  pub is_active : Bool
  pub has_free_access : Bool

-- `status in TERMINAL_STATUSES`
abbrev pub is_terminal : PaymentStatus → Bool
is_terminal PaymentStatus.succeeded = true
is_terminal PaymentStatus.canceled = true
is_terminal _ = false

abbrev pub is_pending : PaymentStatus → Bool
is_pending PaymentStatus.pending = true
is_pending _ = false

abbrev pub is_subscription : Kind → Bool
is_subscription Kind.subscription = true
is_subscription _ = false

-- The predicate of the partial unique index `uq_payments_open_subscription_intent`, for one user.
abbrev pub is_open_intent : ℕ → Payment → Bool
is_open_intent u p = (p.user_id == u) && (is_subscription p.kind && is_pending p.status)

-- The row that carries this identifier of the payment provider.
abbrev pub has_yookassa_id : ℕ → Payment → Bool
has_yookassa_id y p = holds p.yookassa_payment_id y

-- The predicate of the partial unique index `uq_subscriptions_active_user`, for one user.
abbrev pub is_active_of : ℕ → Subscription → Bool
is_active_of u s = (s.user_id == u) && s.is_active
