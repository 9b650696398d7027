-- ===== src/Billing/Webhook/Deliver.antt =====
-- One delivery that nothing overlaps, and the deliveries that follow it.
use broadcaster.Prelude.{
  ℕ, ◌≤◌, ◌≡◌, ◌≢◌, refl, sym, ◌∙◌, Bool, true, false, none, some, arith, count, find, ◌==◌,
  find-test, find-modify, find-append_none, find-none-count,
}
use broadcaster.Calendar.{Stored, aware}
use broadcaster.Billing.Models.{
  Payment, PaymentStatus, Subscription, is_terminal, has_yookassa_id, is_subscription, is_active_of,
}
use broadcaster.Billing.Period.{next_expiry}
use broadcaster.Billing.Store.{
  Store, IsValid, Outcome, ok, latest_active, insert_subscription, add_subscription,
  subscription_refused,
}
use broadcaster.Billing.Store.Laws.{latest_active-find, add_subscription-IsValid}
use broadcaster.Billing.Webhook.{
  Event, is_claimable, settle, claim_payment, apply_extension, extend_from, extend_subscription,
  invalidate_access_cache, commit_extension, apply_succeeded, handle_webhook,
}
use broadcaster.Billing.Webhook.Valid.{claim_payment-IsValid}
use broadcaster.Billing.Webhook.Term.{extended, claim-wins, moved_self, kept_other}

pub invalidate-payments :
    (up : Bool) (u : ℕ) (s : Store) → (invalidate_access_cache up u s).payments ≡ s.payments
unfolding invalidate_access_cache
invalidate-payments true u s = refl
invalidate-payments false u s = refl

invalidate-subscriptions :
    (up : Bool) (u : ℕ) (s : Store)
    → (invalidate_access_cache up u s).subscriptions ≡ s.subscriptions
unfolding invalidate_access_cache
invalidate-subscriptions true u s = refl
invalidate-subscriptions false u s = refl

invalidated : (s : Store) (u : ℕ) → (invalidate_access_cache true u s).cache u ≡ none
unfolding invalidate_access_cache
invalidated s u = ground arith

module _ (y : ℕ) (now : Stored) (up : Bool) (s : Store) (p : Payment) (v : IsValid s)
    (found : find (has_yookassa_id y) s.payments ≡ some p)
    (unsettled : is_terminal p.status ≡ false) where
  -- The store once the payment is claimed.
  abbrev claimed : PaymentStatus → Store
  claimed st = (claim_payment y st now s).1

  pub find-claimed :
      (st : PaymentStatus) → find (has_yookassa_id y) (claimed st).payments ≡ some (settle st now p)
  unfolding claim_payment
  find-claimed st = ground (
    arith,
    find-test (has_yookassa_id y) s.payments found,
    find-modify (has_yookassa_id y) (is_claimable y) (settle st now) s.payments p (λ q. refl) found,
  )

  succeeded_subscription :
      is_subscription p.kind ≡ true
      → handle_webhook Event.payment_succeeded (some y) now up s
        ≡ commit_extension up y p s (extend_subscription p now (claimed PaymentStatus.succeeded))
  unfolding handle_webhook apply_succeeded
  succeeded_subscription sub =
      rw (found, unsettled, sub, claim-wins y PaymentStatus.succeeded now s p v found unsettled)

  claimed-IsValid : IsValid (claimed PaymentStatus.succeeded)
  claimed-IsValid = claim_payment-IsValid y PaymentStatus.succeeded now s refl v

  module _ (sub : is_subscription p.kind ≡ true) where
    abbrev delivered : Outcome Bool × Store
    delivered = handle_webhook Event.payment_succeeded (some y) now up s

    -- The term that a first payment opens.
    abbrev pub opened : Subscription
    opened = record {
      id = s.next_subscription_id;
      user_id = p.user_id;
      expires_at = aware (next_expiry none now);
      is_active = true;
      has_free_access = false;
    }

    free :
        1 ≤ count (λ u. u == p.user_id) s.users
        → latest_active p.user_id s.subscriptions ≡ none
        → subscription_refused p.user_id (claimed PaymentStatus.succeeded) ≡ false
    unfolding claim_payment subscription_refused
    free known nobody = ground (
      arith,
      find-none-count (is_active_of p.user_id) s.subscriptions,
      latest_active-find p.user_id s.subscriptions (v.one_active p.user_id),
    )

    opened-found :
        1 ≤ count (λ u. u == p.user_id) s.users
        → latest_active p.user_id s.subscriptions ≡ none
        → latest_active p.user_id
            (add_subscription p.user_id
              (aware (next_expiry none now))
              (claimed PaymentStatus.succeeded)).subscriptions
          ≡ some opened
    unfolding claim_payment add_subscription find
    opened-found known nobody =
        let after =
          add_subscription-IsValid p.user_id (aware (next_expiry none now))
            (claimed PaymentStatus.succeeded) claimed-IsValid (free known nobody) in
        rw
          (
            latest_active-find p.user_id _ (after.one_active p.user_id),
            find-append_none (is_active_of p.user_id) s.subscriptions _ (
                sym (latest_active-find p.user_id s.subscriptions (v.one_active p.user_id))
                ∙ nobody),
          )
          (ground arith)

    -- In valid tables, the success event of a stored subscription payment that is not settled,
    -- whose user has an active subscription, is answered `True`: the payment is settled, the
    -- user's term moves to the next expiry, nobody else's term moves, and the cached verdict of
    -- the user is gone if Redis is up.
    pub handle_webhook-extended :
        (r : Subscription)
        → latest_active p.user_id s.subscriptions ≡ some r
        → (delivered.0 ≡ ok true)
          × (find (has_yookassa_id y) delivered.1.payments
              ≡ some (settle PaymentStatus.succeeded now p))
          × (latest_active p.user_id delivered.1.subscriptions ≡ some (extended r now))
          × ((u : ℕ)
              → u ≢ p.user_id
              → latest_active u delivered.1.subscriptions ≡ latest_active u s.subscriptions)
          × (up ≡ true → delivered.1.cache p.user_id ≡ none)
    unfolding extend_subscription extend_from claim_payment apply_extension
    handle_webhook-extended r active =
        rw (succeeded_subscription sub, active)
          (
            refl,
            rw invalidate-payments (find-claimed PaymentStatus.succeeded),
            rw invalidate-subscriptions (moved_self _ claimed-IsValid r p now active),
            λ u ne. rw invalidate-subscriptions (kept_other _ claimed-IsValid r p now u ne active),
            λ on. rw on (invalidated _ p.user_id),
          )

    -- In valid tables, the success event of a stored subscription payment that is not settled, of
    -- a known user without an active subscription, is answered `True`: the payment is settled, a
    -- term of one month from today is opened, and the cached verdict of the user is gone if Redis
    -- is up.
    pub handle_webhook-first :
        latest_active p.user_id s.subscriptions ≡ none
        → 1 ≤ count (λ u. u == p.user_id) s.users
        → (delivered.0 ≡ ok true)
          × (find (has_yookassa_id y) delivered.1.payments
              ≡ some (settle PaymentStatus.succeeded now p))
          × (latest_active p.user_id delivered.1.subscriptions ≡ some opened)
          × (up ≡ true → delivered.1.cache p.user_id ≡ none)
    unfolding extend_subscription extend_from insert_subscription subscription_refused claim_payment
        add_subscription
    handle_webhook-first nobody known =
        rw (succeeded_subscription sub, nobody, free known nobody)
          (
            refl,
            rw invalidate-payments (find-claimed PaymentStatus.succeeded),
            rw (invalidate-subscriptions, opened-found known nobody) refl,
            λ on. rw on (invalidated _ p.user_id),
          )
