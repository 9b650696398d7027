-- ===== src/Billing/Webhook/Term.antt =====
-- What a confirmed payment gives: the term of its user moves by `next_expiry`, and nothing else.
use native.Mathlib.Nat.{le_trans}
use broadcaster.Prelude.{
  ℕ, ◌≡◌, ◌≢◌, refl, ap, inl, inr, true, false, some, arith, find, find-test, find-count_pos,
  find_unique, find-modify, find-modify-none, count-modify-le, Option-cases, sym, ◌∙◌, count-le,
}
use broadcaster.Calendar.{Stored, aware}
use broadcaster.Billing.Models.{
  Payment, PaymentStatus, Subscription, is_terminal, has_yookassa_id, is_active_of,
}
use broadcaster.Billing.Period.{next_expiry}
use broadcaster.Billing.Store.{Store, IsValid, latest_active, has_subscription_id}
use broadcaster.Billing.Store.Laws.{latest_active-find}
use broadcaster.Billing.Webhook.{is_claimable, claim_payment, apply_extension}

-- The row with the moved date.
abbrev pub extended : Subscription → Stored → Subscription
extended sub now = record sub { expires_at = aware (next_expiry (some sub.expires_at) now) }

-- The row found for a payment that is not settled is the one that a claim will write.
pub claim-wins :
    (y : ℕ) (st : PaymentStatus) (now : Stored) (s : Store) (p : Payment)
    → IsValid s
    → find (has_yookassa_id y) s.payments ≡ some p
    → is_terminal p.status ≡ false
    → (claim_payment y st now s).0 ≡ true
unfolding claim_payment
claim-wins y st now s p v found open_ = ground (
  arith,
  find-test (has_yookassa_id y) s.payments found,
  find-count_pos (has_yookassa_id y) (is_claimable y) s.payments p found,
  count-le (is_claimable y) (has_yookassa_id y) s.payments (λ q h. ground arith),
  v.one_payment y,
)

abbrev pub move_date : Subscription → Stored → Subscription → Subscription
move_date sub now r = record r { expires_at = aware (next_expiry (some sub.expires_at) now) }

module _ (s : Store) (v : IsValid s) (sub : Subscription) (p : Payment) (now : Stored) where
  latest-found :
      (u : ℕ)
      → latest_active u (apply_extension sub p now s).subscriptions
        ≡ find (is_active_of u) (apply_extension sub p now s).subscriptions
  unfolding apply_extension
  latest-found u = latest_active-find u _ (
      le_trans
        (count-modify-le (is_active_of u) (has_subscription_id sub.id) (move_date sub now)
          s.subscriptions (λ r h e. e))
        (v.one_active u))

  active-found :
      latest_active p.user_id s.subscriptions ≡ some sub
      → find (is_active_of p.user_id) s.subscriptions ≡ some sub
  active-found active =
      sym (latest_active-find p.user_id s.subscriptions (v.one_active p.user_id)) ∙ active

  pub moved_self :
      latest_active p.user_id s.subscriptions ≡ some sub
      → latest_active p.user_id (apply_extension sub p now s).subscriptions
        ≡ some (extended sub now)
  unfolding apply_extension
  moved_self active = rw latest-found (
      ground (
        arith,
        find-modify (is_active_of p.user_id) (has_subscription_id sub.id) (move_date sub now)
            s.subscriptions sub (λ r. refl) (active-found active),
      ))

  apart :
      (u : ℕ) (r : Subscription)
      → u ≢ p.user_id
      → latest_active p.user_id s.subscriptions ≡ some sub
      → find (is_active_of u) s.subscriptions ≡ some r
      → has_subscription_id sub.id r ≡ false
  apart u r ne active found = ground (
    arith,
    find-test (is_active_of u) s.subscriptions found,
    find-test (is_active_of p.user_id) s.subscriptions (active-found active),
    find_unique (is_active_of u) (is_active_of p.user_id) (has_subscription_id sub.id)
        s.subscriptions r sub (v.one_id sub.id) found (active-found active),
    ap (λ (x : Subscription). x.user_id),
  )

  pub kept_other :
      (u : ℕ)
      → u ≢ p.user_id
      → latest_active p.user_id s.subscriptions ≡ some sub
      → latest_active u (apply_extension sub p now s).subscriptions
        ≡ latest_active u s.subscriptions
  unfolding apply_extension
  kept_other u ne active =
      rw (latest-found, latest_active-find u s.subscriptions (v.one_active u))
        (elim (Option-cases (find (is_active_of u) s.subscriptions)) [
          | inl nobody ↦ rw nobody (
              find-modify-none (is_active_of u) (has_subscription_id sub.id) (move_date sub now)
                s.subscriptions (λ r. refl) nobody)
          | inr (r, found) ↦ rw found (
              ground (
                arith,
                apart u r ne active found,
                find-modify (is_active_of u) (has_subscription_id sub.id) (move_date sub now)
                    s.subscriptions r (λ x. refl) found,
              ))
        ])
