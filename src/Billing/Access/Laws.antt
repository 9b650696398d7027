-- ===== src/Billing/Access/Laws.antt =====
-- The trial is five whole days, once; a payment lets its user send at once, whatever Redis kept.
use broadcaster.Prelude.{
  ℕ, ◌+◌, ◌*◌, ◌≤◌, ◌≡◌, refl, true, false, none, some, arith, count, find, find-test,
  find-append_none, find-count_pos, find-none-count, find-count_zero, ◌==◌, sym, ◌∙◌,
}
use broadcaster.Prelude.Int.{pos}
use broadcaster.Calendar.{
  Before, Stored, aware, normalize_utc, instant, reading, micros_per_day, days_between,
}
use broadcaster.Calendar.Laws.{add_days_lem, micros-add_days}
use broadcaster.Billing.Models.{Subscription, is_active_of}
use broadcaster.Billing.Period.{access_is_open, subscription_is_live, days_left}
use broadcaster.Billing.Period.Laws.{IsValue}
use broadcaster.Billing.Store.{
  Store, IsValid, ok, allowed, access_closed, latest_active, insert_subscription, add_subscription,
  subscription_refused,
}
use broadcaster.Billing.Store.Laws.{add_subscription-IsValid, latest_active-find}
use broadcaster.Billing.Access.{trial_days, trial_end, start_trial, check_access}

reading-trial_end :
    (now : Stored)
    → IsValue now
    → reading (trial_end now) (normalize_utc now)
      ≡ reading (normalize_utc now) (trial_end now) + trial_days * micros_per_day
unfolding trial_end instant
reading-trial_end now v =
    let today = (normalize_utc now).wall in
    omega (arith, (add_days_lem trial_days today v).1, micros-add_days trial_days today)

-- A trial counts five whole days at the moment that it opens.
days_left-trial_end :
    (now : Stored)
    → IsValue now
    → days_left (some (aware (trial_end now))) now ≡ some (pos trial_days)
unfolding days_left days_between normalize_utc
days_left-trial_end now v = ground (arith, reading-trial_end now v)

refused-count :
    (u : ℕ) (s : Store)
    → subscription_refused u s ≡ false
    → count (is_active_of u) s.subscriptions ≡ 0
unfolding subscription_refused
refused-count u s free = ground arith

allowed_row :
    (u : ℕ) (s : Store)
    → 1 ≤ count (λ w. w == u) s.users
    → find (is_active_of u) s.subscriptions ≡ none
    → subscription_refused u s ≡ false
unfolding subscription_refused
allowed_row u s known nobody =
    ground (arith, find-none-count (is_active_of u) s.subscriptions nobody)

-- A row of a trial.
abbrev pub trial_row : ℕ → Stored → Store → Subscription
trial_row u now s = record {
  id = s.next_subscription_id;
  user_id = u;
  expires_at = aware (trial_end now);
  is_active = true;
  has_free_access = false;
}

module _ (u : ℕ) (s : Store) (v : IsValid s) where
  pub trial-latest :
      (now : Stored)
      → subscription_refused u s ≡ false
      → latest_active u (add_subscription u (aware (trial_end now)) s).subscriptions
        ≡ some (trial_row u now s)
  unfolding add_subscription find
  trial-latest now free =
      let after = add_subscription-IsValid u (aware (trial_end now)) s v free in
      let nobody = find-count_zero (is_active_of u) s.subscriptions (refused-count u s free) in
      rw
        (
          latest_active-find u _ (after.one_active u),
          find-append_none (is_active_of u) s.subscriptions _ nobody,
        )
        (ground arith)

  live_trial : (now : Stored) → IsValue now → access_is_open (some (trial_row u now s)) now ≡ true
  unfolding access_is_open subscription_is_live normalize_utc
  live_trial now vn = ground (arith, reading-trial_end now vn)

  dead_trial :
      (now later : Stored)
      → ¬ Before (normalize_utc later) (trial_end now)
      → access_is_open (some (trial_row u now s)) later ≡ false
  unfolding access_is_open subscription_is_live normalize_utc
  dead_trial now later order = ground arith

  -- The trial of a registered user who has no active subscription, in valid tables: it opens
  -- access at once, counts five days, and access is closed again at every moment that is not
  -- before its end.
  pub start_trial_lem :
      (now : Stored)
      → IsValue now
      → 1 ≤ count (λ w. w == u) s.users
      → latest_active u s.subscriptions ≡ none
      → ((start_trial u now s).0 ≡ ok tt)
        × (latest_active u (start_trial u now s).1.subscriptions ≡ some (trial_row u now s))
        × (days_left (some (aware (trial_end now))) now ≡ some (pos trial_days))
        × (check_access u now (start_trial u now s).1 ≡ allowed)
        × ((later : Stored)
            → ¬ Before (normalize_utc later) (trial_end now)
            → check_access u later (start_trial u now s).1 ≡ access_closed)
  unfolding start_trial insert_subscription check_access
  start_trial_lem now vn known nobody =
      let free =
        allowed_row u s known
          (sym (latest_active-find u s.subscriptions (v.one_active u)) ∙ nobody) in
      rw free (
        refl,
        trial-latest now free,
        days_left-trial_end now vn,
        rw (trial-latest now free, live_trial now vn) refl,
        λ later order. rw (trial-latest now free, dead_trial now later order) refl,
      )

  pub has_trial :
      (t : Stored) (r : Subscription)
      → latest_active u s.subscriptions ≡ some r
      → start_trial u t s ≡ (ok tt, s)
  unfolding start_trial insert_subscription subscription_refused
  has_trial t r found = ground (
    arith,
    sym (latest_active-find u s.subscriptions (v.one_active u)) ∙ found,
    find-test (is_active_of u) s.subscriptions {x = r},
    find-count_pos (is_active_of u) (is_active_of u) s.subscriptions r,
  )
