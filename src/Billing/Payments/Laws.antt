-- ===== src/Billing/Payments/Laws.antt =====
-- The creation of a payment keeps the constraints of the schema, on every branch.
use native.Mathlib.Nat.{le_trans}
use mathlib.Core.Path.{subst}
use broadcaster.Prelude.{
  ℕ, ◌≤◌, ◌<◌, ◌≡◌, inl, inr, Bool, true, false, Option, some, List, arith, count, modify,
  All-modify, count-modify-le, count-modify-le_add, Bool-cases, Option-cases, ◌==◌, ap,
}
use broadcaster.Calendar.{Stored}
use broadcaster.Billing.Models.{
  Payment, PaymentStatus, is_subscription, is_open_intent, has_yookassa_id,
}
use broadcaster.Billing.Store.{
  Store, Outcome, ok, err, SdkRequest, SdkPayment, taken, has_payment_id, add_payment,
  payment_refused, insert_payment, IsValid,
}
use broadcaster.Billing.Store.Laws.{add_payment-IsValid}
use broadcaster.Billing.Payments.{
  Purchase, expire_stale_intents, is_stale_intent, set_status, set_yookassa_id, reserve_row,
  payment_row, reserve_subscription_intent, sdk_request, expire_reserve, enter_yookassa_id,
  insert_package, record_call, call_with_reserve, call_then_insert, continue_reserved,
  create_payment,
}

-- Putting rows out keeps the constraints, whichever rows they are.
pub expired-IsValid :
    (q : Payment → Bool) (s : Store)
    → IsValid s
    → IsValid (record s { payments = modify q (set_status PaymentStatus.expired) s.payments })
expired-IsValid q s v = record {
  one_payment = λ y.
      le_trans (count-modify-le (has_yookassa_id y) q out s.payments (λ p h e. e))
        (v.one_payment y);
  one_intent = λ u.
      le_trans (count-modify-le (is_open_intent u) q out s.payments (λ p h e. closed u p e))
        (v.one_intent u);
  one_payment_id = λ i.
      le_trans (count-modify-le (has_payment_id i) q out s.payments (λ p h e. e))
        (v.one_payment_id i);
  payment_ids =
      All-modify (λ p. p.id < s.next_payment_id) q out s.payments (λ p h. h) v.payment_ids;
  one_active = v.one_active;
  one_id = v.one_id;
  subscription_ids = v.subscription_ids;
}
  where
    out : Payment → Payment
    out = set_status PaymentStatus.expired

    closed : (u : ℕ) (p : Payment) → is_open_intent u (out p) ≡ true → is_open_intent u p ≡ true
    closed u p e = ground arith

-- An identifier that no row has is held by one row at most once it is entered.
entered_once :
    (reserved y z : ℕ) (ps : List Payment)
    → count (has_payment_id reserved) ps ≤ 1
    → taken (some y) ps ≡ false
    → count (has_yookassa_id z) ps ≤ 1
    → count (has_yookassa_id z) (modify (has_payment_id reserved) (set_yookassa_id y) ps) ≤ 1
entered_once reserved y z ps one free h = elim (Bool-cases (y == z)) [
  | inl same ↦ ground (
    arith,
    count-modify-le_add (has_yookassa_id z) (has_payment_id reserved) (set_yookassa_id y) ps,
    ap (λ (i : ℕ). count (has_yookassa_id i) ps),
  )
  | inr apart ↦
      le_trans
        (count-modify-le (has_yookassa_id z) (has_payment_id reserved) (set_yookassa_id y) ps
          (λ p g e. cc))
        h
]

enter_id-IsValid :
    (reserved y : ℕ) (s : Store)
    → IsValid s
    → taken (some y) s.payments ≡ false
    → IsValid
        (record s { payments = modify (has_payment_id reserved) (set_yookassa_id y) s.payments })
enter_id-IsValid reserved y s v free = record {
  one_payment =
      λ z. entered_once reserved y z s.payments (v.one_payment_id reserved) free (v.one_payment z);
  one_intent = λ u.
      le_trans (count-modify-le (is_open_intent u) q f s.payments (λ p h e. e)) (v.one_intent u);
  one_payment_id = λ i.
      le_trans (count-modify-le (has_payment_id i) q f s.payments (λ p h e. e))
        (v.one_payment_id i);
  payment_ids = All-modify (λ p. p.id < s.next_payment_id) q f s.payments (λ p h. h) v.payment_ids;
  one_active = v.one_active;
  one_id = v.one_id;
  subscription_ids = v.subscription_ids;
}
  where
    q : Payment → Bool
    q = has_payment_id reserved

    f : Payment → Payment
    f = set_yookassa_id y

sweep-IsValid :
    (u : ℕ) (now : Stored) (s : Store) → IsValid s → IsValid (expire_stale_intents u now s).1
unfolding expire_stale_intents
sweep-IsValid u now s v = expired-IsValid (is_stale_intent u now) s v

pub insert_payment-eq :
    (p : Payment) (s : Store) {s' : Store}
    → insert_payment p s ≡ some s'
    → (payment_refused p s ≡ false) × (add_payment p s ≡ s')
unfolding insert_payment
insert_payment-eq p s e = ground arith

insert_payment-IsValid :
    (p : Payment) (s : Store) {s' : Store} → IsValid s → insert_payment p s ≡ some s' → IsValid s'
insert_payment-IsValid p s v e =
    let (allowed, added) = insert_payment-eq p s e in
    subst IsValid added (add_payment-IsValid p s v allowed)

reserve-IsValid :
    (b : Purchase) (t : Stored) (s : Store)
    → IsValid s
    → IsValid (reserve_subscription_intent b t s).1
unfolding reserve_subscription_intent
reserve-IsValid b t s v = elim (Option-cases (insert_payment (reserve_row b (some t)) s)) [
  | inl refused ↦ rw (refused, reserve_subscription_intent) v
  | inr (s', e) ↦
      rw (e, reserve_subscription_intent) (insert_payment-IsValid (reserve_row b (some t)) s v e)
]

record_call-IsValid : (r : SdkRequest) (s : Store) → IsValid s → IsValid (record_call r s)
record_call-IsValid r s v = record {
  one_payment = v.one_payment;
  one_intent = v.one_intent;
  one_payment_id = v.one_payment_id;
  payment_ids = v.payment_ids;
  one_active = v.one_active;
  one_id = v.one_id;
  subscription_ids = v.subscription_ids;
}

enter-IsValid :
    (reserved : ℕ) (paid : SdkPayment) (s : Store)
    → IsValid s
    → IsValid (enter_yookassa_id reserved paid s).1
unfolding enter_yookassa_id
enter-IsValid reserved paid s v = elim (Bool-cases (taken (some paid.id) s.payments)) [
  | inl held ↦ rw held v
  | inr free ↦ rw free (enter_id-IsValid reserved paid.id s v free)
]

insert_package-IsValid :
    (b : Purchase) (paid : SdkPayment) (t : Stored) (s : Store)
    → IsValid s
    → IsValid (insert_package b paid t s).1
unfolding insert_package
insert_package-IsValid b paid t s v =
    elim (Option-cases (insert_payment (payment_row b (some paid.id) (some t)) s)) [
      | inl refused ↦ rw (refused, insert_package) v
      | inr (s', e) ↦
          rw (e, insert_package)
            (insert_payment-IsValid (payment_row b (some paid.id) (some t)) s v e)
    ]

module _ (sdk : SdkRequest → Option SdkPayment) (key : ℕ) where
  call_with_reserve-IsValid :
      (b : Purchase) (reserved : ℕ) (s : Store)
      → IsValid s
      → IsValid (call_with_reserve sdk key b reserved s).1
  unfolding call_with_reserve expire_reserve
  call_with_reserve-IsValid b reserved s v = elim (Option-cases (sdk (sdk_request b key))) [
    | inl failed ↦
        rw (failed, call_with_reserve)
          (expired-IsValid (has_payment_id reserved) _ (record_call-IsValid _ s v))
    | inr (paid, e) ↦
        rw (e, call_with_reserve) (enter-IsValid reserved paid _ (record_call-IsValid _ s v))
  ]

  call_then_insert-IsValid :
      (b : Purchase) (t : Stored) (s : Store)
      → IsValid s
      → IsValid (call_then_insert sdk key b t s).1
  unfolding call_then_insert
  call_then_insert-IsValid b t s v = elim (Option-cases (sdk (sdk_request b key))) [
    | inl failed ↦ rw (failed, call_then_insert) (record_call-IsValid _ s v)
    | inr (paid, e) ↦
        rw (e, call_then_insert) (insert_package-IsValid b paid t _ (record_call-IsValid _ s v))
  ]

  continue-IsValid :
      (b : Purchase) (r : Outcome ℕ × Store)
      → IsValid r.1
      → IsValid (continue_reserved sdk key b r).1
  continue-IsValid b (err e, s) v = v
  continue-IsValid b (ok reserved, s) v = call_with_reserve-IsValid b reserved s v

  -- Whatever a purchase buys and however it ends, tables that satisfy the constraints of the
  -- schema satisfy them afterwards.
  pub create_payment-IsValid :
      (b : Purchase) (now t : Stored) (s : Store)
      → IsValid s
      → IsValid (create_payment sdk key b now t s).1
  unfolding create_payment
  create_payment-IsValid b now t s v = elim (Bool-cases (is_subscription b.kind)) [
    | inl yes' ↦
        rw yes' (continue-IsValid b _ (reserve-IsValid b t _ (sweep-IsValid b.user_id now s v)))
    | inr no' ↦ rw no' (call_then_insert-IsValid b t s v)
  ]
