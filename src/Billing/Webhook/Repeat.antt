-- ===== src/Billing/Webhook/Repeat.antt =====
-- Repeated and late deliveries, and two payments of one user whose deliveries overlap.
use broadcaster.Prelude.{
  find-test, find-modify, find-count_pos, arith, ℕ, ◌≡◌, refl, Bool, true, false, not, ◌&&◌, inl,
  inr, Option, none, some, find, Bool-cases, sym, ◌∙◌,
}
use broadcaster.Calendar.{Stored}
use broadcaster.Billing.Models.{
  Payment, PaymentStatus, Subscription, is_terminal, is_subscription, has_yookassa_id, is_active_of,
}
use broadcaster.Billing.Store.{
  has_subscription_id, Store, IsValid, Outcome, ok, err, latest_active, insert_subscription,
  add_subscription, subscription_refused,
}
use broadcaster.Billing.Webhook.{
  Event, settle, claim_payment, lacks_messages, apply_extension, recover_extension,
  insert_or_recover, extend_from, extend_subscription, commit_extension, apply_succeeded,
  apply_canceled, apply, fetch, fetch_row, resume, handle_webhook,
}
use broadcaster.Billing.Store.Laws.{latest_active-find}
use broadcaster.Billing.Webhook.Term.{extended, move_date, claim-wins, moved_self}
use broadcaster.Billing.Webhook.Valid.{apply_extension-IsValid}
use broadcaster.Billing.Webhook.Deliver.{find-claimed, invalidate-payments}

recover-payments :
    (o : Option Subscription) (p : Payment) (now : Stored) (s : Store)
    → (recover_extension o p now s).1.payments ≡ s.payments
unfolding apply_extension
recover-payments none p now s = refl
recover-payments (some sub) p now s = refl

extend_from-payments :
    (seen : Option Subscription) (p : Payment) (now : Stored) (s : Store)
    → (extend_from seen p now s).1.payments ≡ s.payments
unfolding extend_from insert_subscription apply_extension add_subscription
extend_from-payments (some sub) p now s = refl
extend_from-payments none p now s = elim (Bool-cases (subscription_refused p.user_id s)) [
  | inl refused ↦ rw refused (recover-payments (latest_active p.user_id s.subscriptions) p now s)
  | inr free ↦ rw free refl
]

commit-payments :
    (up : Bool) (y : ℕ) (p : Payment) (before : Store) (r : Outcome Unit × Store)
    → (commit_extension up y p before r).0 ≡ ok true
    → (commit_extension up y p before r).1.payments ≡ r.1.payments
commit-payments up y p before (err e, s) h = cc
commit-payments up y p before (ok done, s) h = invalidate-payments up p.user_id s

-- The row of a payment after a delivery that was answered `True`.
abbrev Settled : ℕ → Store → Type 0
Settled y s =
    (q : Payment) × (find (has_yookassa_id y) s.payments ≡ some q) × (is_terminal q.status ≡ true)

module _ (y : ℕ) (now : Stored) (up : Bool) (s : Store) (p : Payment) (v : IsValid s)
    (found : find (has_yookassa_id y) s.payments ≡ some p)
    (unsettled : is_terminal p.status ≡ false) where
  canceled-Settled : Settled y (apply_canceled y now s).1
  unfolding apply_canceled
  canceled-Settled = rw (claim-wins y PaymentStatus.canceled now s p v found unsettled) (
    settle PaymentStatus.canceled now p,
    find-claimed y now up s p v found unsettled PaymentStatus.canceled,
    refl,
  )

  committed-Settled :
      let settled = (claim_payment y PaymentStatus.succeeded now s).1 in
      (commit_extension up y p s (extend_subscription p now settled)).0 ≡ ok true
      → Settled y (commit_extension up y p s (extend_subscription p now settled)).1
  unfolding extend_subscription
  committed-Settled h = (
    settle PaymentStatus.succeeded now p,
    rw (commit-payments up y p s _ h, extend_from-payments)
        (find-claimed y now up s p v found unsettled PaymentStatus.succeeded),
    refl,
  )

  succeeded-Settled :
      (apply_succeeded y p now up s).0 ≡ ok true → Settled y (apply_succeeded y p now up s).1
  unfolding apply_succeeded
  succeeded-Settled = elim (Bool-cases (is_subscription p.kind)) [
    | inl sub ↦
        rw (claim-wins y PaymentStatus.succeeded now s p v found unsettled, sub) committed-Settled
    | inr package_kind ↦
        rw (claim-wins y PaymentStatus.succeeded now s p v found unsettled, package_kind)
          (λ h. (
            settle PaymentStatus.succeeded now p,
            find-claimed y now up s p v found unsettled PaymentStatus.succeeded,
            refl,
          ))
  ]

  apply-Settled :
      (e : Event) → (apply e y p now up s).0 ≡ ok true → Settled y (apply e y p now up s).1
  unfolding apply
  apply-Settled (Event.other_event t) = λ h. cc
  apply-Settled Event.payment_canceled = λ h. canceled-Settled
  apply-Settled Event.payment_succeeded =
      elim (Bool-cases (not (is_subscription p.kind) && lacks_messages p.messages_count)) [
        | inl unfit ↦ rw unfit (λ h. cc)
        | inr fit ↦ rw fit succeeded-Settled
      ]

resume-Settled :
    (y : ℕ) (e : Event) (now : Stored) (up : Bool) (s : Store) (o : Option Payment)
    → IsValid s
    → find (has_yookassa_id y) s.payments ≡ o
    → (resume (fetch_row y o) e now up s).0 ≡ ok true
    → Settled y (resume (fetch_row y o) e now up s).1
resume-Settled y e now up s none v found = λ h. cc
resume-Settled y e now up s (some p) v found = elim (Bool-cases (is_terminal p.status)) [
  | inl terminal ↦ rw (terminal, fetch_row) (λ h. (p, found, terminal))
  | inr unsettled ↦ rw (unsettled, fetch_row) (apply-Settled y now up s p v found unsettled e)
]

handle_webhook-Settled :
    (y : ℕ) (e : Event) (now : Stored) (up : Bool) (s : Store)
    → IsValid s
    → (handle_webhook e (some y) now up s).0 ≡ ok true
    → Settled y (handle_webhook e (some y) now up s).1
unfolding handle_webhook fetch
handle_webhook-Settled y (Event.other_event t) now up s v = λ h. cc
handle_webhook-Settled y Event.payment_succeeded now up s v =
    resume-Settled y Event.payment_succeeded now up s _ v refl
handle_webhook-Settled y Event.payment_canceled now up s v =
    resume-Settled y Event.payment_canceled now up s _ v refl

-- An event that `KNOWN_EVENTS` names.
abbrev pub is_known : Event → Bool
is_known (Event.other_event t) = false
is_known _ = true

Settled-ignored :
    (y : ℕ) (e : Event) (now : Stored) (up : Bool) (s : Store)
    → Settled y s
    → is_known e ≡ true
    → handle_webhook e (some y) now up s ≡ (ok true, s)
unfolding handle_webhook fetch
Settled-ignored y (Event.other_event t) now up s (q, found, terminal) known = cc
Settled-ignored y Event.payment_succeeded now up s (q, found, terminal) known =
    rw (found, fetch_row, terminal) refl
Settled-ignored y Event.payment_canceled now up s (q, found, terminal) known =
    rw (found, fetch_row, terminal) refl

-- In valid tables, a delivery that was answered `True` settles its payment for good: every later
-- delivery of a known event for it, the same one again or a late cancellation, is answered `True`
-- and changes nothing.
pub handle_webhook_repeat :
    (y : ℕ) (e again : Event) (now later : Stored) (up up_later : Bool) (s : Store)
    → IsValid s
    → (handle_webhook e (some y) now up s).0 ≡ ok true
    → is_known again ≡ true
    → handle_webhook again (some y) later up_later (handle_webhook e (some y) now up s).1
      ≡ (ok true, (handle_webhook e (some y) now up s).1)
handle_webhook_repeat y e again now later up up_later s v done known =
    Settled-ignored y again later up_later _ (handle_webhook-Settled y e now up s v done) known

module _ (p : Payment) (r : Subscription) (now : Stored) (s : Store) (v : IsValid s)
    (active : latest_active p.user_id s.subscriptions ≡ some r) where
  moved_again :
      (q : Payment) (later : Stored)
      → find (is_active_of p.user_id) (apply_extension r p now s).subscriptions
        ≡ some (extended r now)
      → find
          (is_active_of p.user_id)
          (apply_extension r q later (apply_extension r p now s)).subscriptions
        ≡ some (extended r later)
  unfolding apply_extension
  moved_again q later found = ground (
    arith,
    find-modify (is_active_of p.user_id) (has_subscription_id r.id) (move_date r later) _
        (extended r now) (λ x. refl) found,
  )

  -- What a writer that has read `r` makes of a term that another one has moved.
  stale_move :
      (q : Payment) (later : Stored)
      → latest_active p.user_id
          (apply_extension r q later (apply_extension r p now s)).subscriptions
        ≡ some (extended r later)
  stale_move q later =
      let first = apply_extension-IsValid r p now s v in
      let second = apply_extension-IsValid r q later _ first in
      rw (latest_active-find p.user_id _ (second.one_active p.user_id)) (
        moved_again q later (
          sym (latest_active-find p.user_id _ (first.one_active p.user_id))
          ∙ moved_self s v r p now active))

  alone_moves :
      (q : Payment) (later : Stored)
      → latest_active p.user_id (apply_extension r q later s).subscriptions
        ≡ some (extended r later)
  unfolding apply_extension
  alone_moves q later = moved_self s v r p later active

  -- In valid tables, two payments of one user with an active subscription, whose deliveries both
  -- read the user's term before either has moved it: the term ends where the second alone would
  -- move it, so the first month is lost.
  pub overlapped_terms :
      (q : Payment) (later : Stored)
      → q.user_id ≡ p.user_id
      → latest_active p.user_id
          (extend_from (some r) q later (extend_from (some r) p now s).1).1.subscriptions
        ≡ latest_active p.user_id (extend_from (some r) q later s).1.subscriptions
  unfolding extend_from
  overlapped_terms q later same = stale_move q later ∙ sym (alone_moves q later)

  refused_by_active : subscription_refused p.user_id s ≡ true
  unfolding subscription_refused
  refused_by_active = ground (
    arith,
    sym (latest_active-find p.user_id s.subscriptions (v.one_active p.user_id)) ∙ active,
    find-test (is_active_of p.user_id) s.subscriptions {x = r},
    find-count_pos (is_active_of p.user_id) (is_active_of p.user_id) s.subscriptions r,
  )

  -- In valid tables, a delivery that found no term, and whose insert is refused since another
  -- delivery has opened one meanwhile, adds its month on top of that term.
  pub raced_first_payment :
      ((extend_from none p now s).0 ≡ ok tt)
      × (latest_active p.user_id (extend_from none p now s).1.subscriptions ≡ some (extended r now))
  unfolding extend_from insert_subscription
  raced_first_payment =
      rw (refused_by_active, insert_or_recover, active) (refl, moved_self s v r p now active)
