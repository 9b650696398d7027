-- ===== src/Billing/Access/Repeat.antt =====
-- A trial opened twice, and a payment seen by the next send.
use broadcaster.Prelude.{
  ℕ, ◌≤◌, ◌≡◌, ◌≢◌, refl, Bool, true, false, inl, inr, none, some, arith, count, find, Bool-cases,
  find-test, ◌==◌, Option-cases, sym, ◌∙◌,
}
use broadcaster.Calendar.{Stored}
use broadcaster.Billing.Models.{
  Payment, Subscription, is_terminal, is_subscription, has_yookassa_id, is_active_of,
}
use broadcaster.Billing.Period.{access_is_open, subscription_is_live}
use broadcaster.Billing.Period.Laws.{IsValue, subscription_is_live-next_expiry}
use broadcaster.Billing.Store.{
  Store, IsValid, ok, allowed, latest_active, insert_subscription, subscription_refused,
}
use broadcaster.Billing.Store.Laws.{latest_active-find, add_subscription-IsValid}
use broadcaster.Billing.Webhook.{Event, handle_webhook}
use broadcaster.Billing.Webhook.Deliver.{handle_webhook-extended, handle_webhook-first, opened}
use broadcaster.Billing.Access.{
  start_trial, excuse_trial, check_access, Action, check_access_cached,
}
use broadcaster.Billing.Access.Laws.{trial-latest, has_trial}

-- A refused insert without an active row is raised again.
raised :
    (u : ℕ) (now : Stored) (s : Store)
    → latest_active u s.subscriptions ≡ none
    → subscription_refused u s ≡ true
    → (start_trial u now s).0 ≢ ok tt
unfolding start_trial insert_subscription
raised u now s nobody refused = rw (refused, excuse_trial, nobody) (λ e. cc)

opened_repeat :
    (u : ℕ) (now t : Stored) (s : Store)
    → IsValid s
    → subscription_refused u s ≡ false
    → start_trial u t (start_trial u now s).1 ≡ (ok tt, (start_trial u now s).1)
unfolding start_trial insert_subscription
opened_repeat u now t s v free =
    rw free
      (has_trial u _ (add_subscription-IsValid u _ s v free) t _ (trial-latest u s v now free))

-- A registration that is repeated, or a second one that races it, opens no second trial and moves
-- no term: in valid tables, once a call has succeeded, another at any time succeeds and changes
-- nothing.
pub start_trial_repeat :
    (u : ℕ) (now t : Stored) (s : Store)
    → IsValid s
    → (start_trial u now s).0 ≡ ok tt
    → start_trial u t (start_trial u now s).1 ≡ (ok tt, (start_trial u now s).1)
start_trial_repeat u now t s v done = elim (Bool-cases (subscription_refused u s)) [
  | inr free ↦ opened_repeat u now t s v free
  | inl refused ↦ elim (Option-cases (latest_active u s.subscriptions)) [
    | inl nobody ↦ absurd (raised u now s nobody refused done)
    | inr (r, found) ↦ rw (has_trial u s v now r found) (has_trial u s v t r found)
  ]
]

fresh :
    (read_up write_up : Bool) (u : ℕ) (now : Stored) (s : Store) (r : Subscription)
    → s.cache u ≡ none
    → latest_active u s.subscriptions ≡ some r
    → access_is_open (some r) now ≡ true
    → (check_access_cached read_up write_up Action.send u now s).0 ≡ allowed
unfolding check_access_cached check_access
fresh true write_up u now s r empty found open_ = rw (empty, found, open_) refl
fresh false write_up u now s r empty found open_ = rw (found, open_) refl

live_row :
    (r : Subscription) (e now : Stored)
    → r.is_active ≡ true
    → subscription_is_live (some e) now ≡ true
    → access_is_open (some (record r { expires_at = e })) now ≡ true
unfolding access_is_open
live_row r e now active live = ground arith

-- In valid tables, a known user whose unsettled subscription payment has just been confirmed, with
-- Redis up, is let through by the next check of a send, whatever verdict was cached before and
-- whether or not Redis still answers; today and the old term, if any, must be calendar moments.
pub paid_user_may_send :
    (y : ℕ) (now : Stored) (read_up write_up : Bool) (s : Store) (p : Payment)
    → IsValid s
    → find (has_yookassa_id y) s.payments ≡ some p
    → is_terminal p.status ≡ false
    → is_subscription p.kind ≡ true
    → 1 ≤ count (λ u. u == p.user_id) s.users
    → ((r : Subscription) → latest_active p.user_id s.subscriptions ≡ some r → IsValue r.expires_at)
    → IsValue now
    → (check_access_cached read_up write_up Action.send p.user_id now
        (handle_webhook Event.payment_succeeded (some y) now true s).1).0
      ≡ allowed
unfolding check_access_cached
paid_user_may_send y now read_up write_up s p v found unsettled sub known terms vn =
    elim (Option-cases (latest_active p.user_id s.subscriptions)) [
      | inl nobody ↦
          let paid = (handle_webhook Event.payment_succeeded (some y) now true s).1 in
          let first = handle_webhook-first y now true s p v found unsettled sub nobody known in
          fresh read_up write_up p.user_id now paid _ (first.3 refl) first.2 (
            live_row (opened y now true s p v found unsettled sub) _ now refl
              (subscription_is_live-next_expiry none now tt vn))
      | inr (r, active) ↦
          let paid = (handle_webhook Event.payment_succeeded (some y) now true s).1 in
          let moved = handle_webhook-extended y now true s p v found unsettled sub r active in
          fresh read_up write_up p.user_id now paid _ (moved.4 refl) moved.2 (
            live_row r _ now (is_active r active)
              (subscription_is_live-next_expiry (some r.expires_at) now (terms r active) vn))
    ]
  where
    is_active :
        (r : Subscription) → latest_active p.user_id s.subscriptions ≡ some r → r.is_active ≡ true
    is_active r active = ground (
      arith,
      find-test (is_active_of p.user_id) s.subscriptions {x = r},
      sym (latest_active-find p.user_id s.subscriptions (v.one_active p.user_id)) ∙ active,
    )
