-- ===== src/Billing/Webhook/Valid.antt =====
-- The constraints of the schema through a delivery, from either of its halves.
use native.Mathlib.Nat.{le_trans}
use broadcaster.Prelude.{
  ℕ, ◌<◌, ◌≡◌, refl, Bool, true, false, not, ◌&&◌, inl, inr, Option, none, some, List, arith,
  count-modify-le, All-modify, Bool-cases,
}
use broadcaster.Calendar.{Stored}
use broadcaster.Billing.Models.{
  Payment, PaymentStatus, Subscription, is_terminal, is_subscription, has_yookassa_id,
  is_open_intent, is_active_of,
}
use broadcaster.Billing.Store.{
  Store, IsValid, Verdict, LogEntry, Outcome, ok, err, latest_active, insert_subscription,
  subscription_refused, has_subscription_id, has_payment_id,
}
use broadcaster.Billing.Store.Laws.{add_subscription-IsValid}
use broadcaster.Billing.Webhook.{
  Event, Fetched, answer, claimable, is_claimable, settle, claim_payment, lacks_messages,
  apply_extension, recover_extension, insert_or_recover, extend_from, extend_subscription,
  invalidate_access_cache, commit_extension, apply_succeeded, apply_canceled, apply, resume,
}

pub claim_payment-IsValid :
    (y : ℕ) (st : PaymentStatus) (now : Stored) (s : Store)
    → is_terminal st ≡ true
    → IsValid s
    → IsValid (claim_payment y st now s).1
unfolding claim_payment
claim_payment-IsValid y st now s terminal v = record {
  one_payment = λ z.
      le_trans
        (count-modify-le (has_yookassa_id z) (is_claimable y) (settle st now) s.payments
          (λ p h e. e))
        (v.one_payment z);
  one_intent = λ u.
      le_trans
        (count-modify-le (is_open_intent u) (is_claimable y) (settle st now) s.payments
          (λ p h e. ground arith))
        (v.one_intent u);
  one_payment_id = λ i.
      le_trans
        (count-modify-le (has_payment_id i) (is_claimable y) (settle st now) s.payments
          (λ p h e. e))
        (v.one_payment_id i);
  payment_ids =
      All-modify (λ p. p.id < s.next_payment_id) (is_claimable y) (settle st now) s.payments
        (λ p h. h) v.payment_ids;
  one_active = v.one_active;
  one_id = v.one_id;
  subscription_ids = v.subscription_ids;
}

pub apply_extension-IsValid :
    (sub : Subscription) (p : Payment) (now : Stored) (s : Store)
    → IsValid s
    → IsValid (apply_extension sub p now s)
unfolding apply_extension
apply_extension-IsValid sub p now s v = record {
  one_payment = v.one_payment;
  one_intent = v.one_intent;
  one_payment_id = v.one_payment_id;
  payment_ids = v.payment_ids;
  one_active = λ u.
      le_trans
        (count-modify-le (is_active_of u) (has_subscription_id sub.id) _ s.subscriptions
          (λ r h e. e))
        (v.one_active u);
  one_id = λ i.
      le_trans
        (count-modify-le (has_subscription_id i) (has_subscription_id sub.id) _ s.subscriptions
          (λ r h e. e))
        (v.one_id i);
  subscription_ids =
      All-modify (λ r. r.id < s.next_subscription_id) (has_subscription_id sub.id) _ s.subscriptions
        (λ r h. h) v.subscription_ids;
}

recover-IsValid :
    (o : Option Subscription) (p : Payment) (now : Stored) (s : Store)
    → IsValid s
    → IsValid (recover_extension o p now s).1
recover-IsValid none p now s v = v
recover-IsValid (some sub) p now s v = apply_extension-IsValid sub p now s v

-- A new term is opened only where the tables take it; a refused one falls back on the row that
-- another transaction has opened.
opened-IsValid :
    (p : Payment) (t : Stored) (now : Stored) (s : Store)
    → IsValid s
    → IsValid (insert_or_recover (insert_subscription p.user_id t s) p now s).1
unfolding insert_subscription
opened-IsValid p t now s v = elim (Bool-cases (subscription_refused p.user_id s)) [
  | inl refused ↦ rw refused (recover-IsValid (latest_active p.user_id s.subscriptions) p now s v)
  | inr free ↦ rw free (add_subscription-IsValid p.user_id t s v free)
]

extend_from-IsValid :
    (seen : Option Subscription) (p : Payment) (now : Stored) (s : Store)
    → IsValid s
    → IsValid (extend_from seen p now s).1
unfolding extend_from
extend_from-IsValid (some sub) p now s v = apply_extension-IsValid sub p now s v
extend_from-IsValid none p now s v = opened-IsValid p _ now s v

-- The constraints are on the tables alone.
same_tables-IsValid :
    (s : Store) (cache : ℕ → Option Verdict) (journal : List LogEntry)
    → IsValid s
    → IsValid (record s { cache = cache; journal = journal })
same_tables-IsValid s cache journal v = record {
  one_payment = v.one_payment;
  one_intent = v.one_intent;
  one_payment_id = v.one_payment_id;
  payment_ids = v.payment_ids;
  one_active = v.one_active;
  one_id = v.one_id;
  subscription_ids = v.subscription_ids;
}

commit-IsValid :
    (up : Bool) (y : ℕ) (p : Payment) (before : Store) (r : Outcome Unit × Store)
    → IsValid before
    → IsValid r.1
    → IsValid (commit_extension up y p before r).1
unfolding invalidate_access_cache
commit-IsValid up y p before (err e, s) vb v = vb
commit-IsValid true y p before (ok done, s) vb v = same_tables-IsValid s _ _ v
commit-IsValid false y p before (ok done, s) vb v = same_tables-IsValid s _ _ v

succeeded-IsValid :
    (y : ℕ) (p : Payment) (now : Stored) (up : Bool) (s : Store)
    → IsValid s
    → IsValid (apply_succeeded y p now up s).1
unfolding apply_succeeded extend_subscription
succeeded-IsValid y p now up s v =
    let settled = claim_payment-IsValid y PaymentStatus.succeeded now s refl v in
    elim (Bool-cases (claim_payment y PaymentStatus.succeeded now s).0) [
      | inr lost ↦ rw lost v
      | inl won ↦ rw won (elim (Bool-cases (is_subscription p.kind)) [
        | inl sub ↦ rw sub (commit-IsValid up y p s _ v (extend_from-IsValid _ p now _ settled))
        | inr package_kind ↦ rw package_kind settled
      ])
    ]

canceled-IsValid :
    (y : ℕ) (now : Stored) (s : Store) → IsValid s → IsValid (apply_canceled y now s).1
unfolding apply_canceled
canceled-IsValid y now s v = elim (Bool-cases (claim_payment y PaymentStatus.canceled now s).0) [
  | inr lost ↦ rw lost v
  | inl won ↦ rw won (claim_payment-IsValid y PaymentStatus.canceled now s refl v)
]

-- The second half of a delivery keeps the constraints of the schema, however old its reading is.
pub resume-IsValid :
    (f : Fetched) (e : Event) (now : Stored) (up : Bool) (s : Store)
    → IsValid s
    → IsValid (resume f e now up s).1
unfolding apply
resume-IsValid (answer b) e now up s v = v
resume-IsValid (claimable y p) (Event.other_event t) now up s v = v
resume-IsValid (claimable y p) Event.payment_canceled now up s v = canceled-IsValid y now s v
resume-IsValid (claimable y p) Event.payment_succeeded now up s v =
    elim (Bool-cases (not (is_subscription p.kind) && lacks_messages p.messages_count)) [
      | inl unfit ↦ rw unfit v
      | inr fit ↦ rw fit (succeeded-IsValid y p now up s v)
    ]
