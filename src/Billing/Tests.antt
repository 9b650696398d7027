-- ===== src/Billing/Tests.antt =====
-- Runs of the billing code: a user with a live term whose payment is open, a newcomer with an open
-- first payment, and a provider that answers or fails.
use mathlib.Core.Path.{subst}
use mathlib.Core.Option.{some-injective}
use broadcaster.Prelude.{
  ℕ, suc, ◌≤◌, ◌<◌, ◌+◌, ◌*◌, ◌≡◌, ◌≢◌, refl, sym, ◌⊎◌, Bool, true, false, Option, none, some, List,
  [], ◌∷◌, ◌++◌, ◌==◌, arith, count, find,
}
use broadcaster.Prelude.Int.{pos, negsuc}
use broadcaster.Calendar.{
  IsMoment, Stored, naive, aware, normalize_utc, Before, days_in_month, is_leap, micros_per_day,
  day_number, instant, days_before_month,
}
use broadcaster.Billing.Models.{
  Payment, PaymentStatus, Kind, Subscription, has_yookassa_id, is_open_intent,
}
use broadcaster.Billing.Period.{month_after, next_expiry, subscription_is_live, days_left}
use broadcaster.Billing.Period.Laws.{
  month_after_bounds, next_expiry_bounds, DaysAfter, WithinDays, IsValue,
}
use broadcaster.Billing.Period.Access.{days_left_lem, remainder}
use broadcaster.Billing.Store.{
  Store, IsValid, Outcome, ok, err, pending_intent_cap, payment_creation, SdkRequest, SdkPayment,
  allowed, access_closed, latest_active,
}
use broadcaster.Billing.Payments.{
  Purchase, create_payment, created, expire_stale_intents, sdk_request, set_status, set_yookassa_id,
}
use broadcaster.Billing.Payments.Cap.{
  is_fresh_intent, create_payment_cap, create_payment_failed, create_payment_succeeded, swept,
  reserved_row,
}
use broadcaster.Billing.Webhook.{Event, handle_webhook, extend_from, settle}
use broadcaster.Billing.Webhook.Claim.{is_credit}
use broadcaster.Billing.Webhook.Overlap.{Step, begin, finish, Server, run, run-IsValid}
use broadcaster.Billing.Webhook.Once.{TouchesAtMost, run_touches_once}
use broadcaster.Billing.Webhook.Term.{extended}
use broadcaster.Billing.Webhook.Deliver.{handle_webhook-extended, handle_webhook-first}
use broadcaster.Billing.Webhook.Repeat.{
  handle_webhook_repeat, overlapped_terms, raced_first_payment,
}
use broadcaster.Billing.Access.{
  start_trial, trial_end, trial_days, check_access, check_access_cached, Action,
}
use broadcaster.Billing.Access.Laws.{start_trial_lem, trial_row}
use broadcaster.Billing.Access.Repeat.{start_trial_repeat, paid_user_may_send}

abbrev pub date : ℕ → ℕ → ℕ → Stored
date y m d = naive (record { year = y; month = m; day = d; micros = 3600000000 })

-- The last day of January: the month that follows is shorter.
abbrev pub today : Stored
today = date 2026 1 31

abbrev pub tomorrow : Stored
tomorrow = date 2026 2 1

abbrev intent : ℕ → ℕ → ℕ → Stored → Payment
intent id user_id yookassa_id born = record {
  id = id;
  user_id = user_id;
  yookassa_payment_id = some yookassa_id;
  status = PaymentStatus.pending;
  amount_value = "990.00";
  amount_currency = "RUB";
  kind = Kind.subscription;
  plan = none;
  switch_authorized = none;
  messages_count = none;
  package_name = none;
  created_at = some born;
  confirmed_at = none;
}

abbrev term : Subscription
term = record {
  id = 1;
  user_id = 7;
  expires_at = date 2026 2 10;
  is_active = true;
  has_free_access = false;
}

-- User 7 has a term and an open payment, user 8 an open first payment, user 9 neither.
abbrev pub shop : Store
shop = record {
  users = 7 ∷ 8 ∷ 9 ∷ [];
  payments = intent 1 7 100 today ∷ intent 2 8 101 today ∷ [];
  next_payment_id = 3;
  subscriptions = term ∷ [];
  next_subscription_id = 2;
  cache = λ u. some access_closed;
  sdk_calls = [];
  journal = [];
}

shop-IsValid : IsValid shop
unfolding count
shop-IsValid = record {
  one_payment = λ y. ground arith;
  one_intent = λ u. ground arith;
  one_payment_id = λ i. ground arith;
  payment_ids = ground arith;
  one_active = λ u. ground arith;
  one_id = λ i. ground arith;
  subscription_ids = ground arith;
}

january : IsMoment (normalize_utc today).wall
unfolding normalize_utc days_in_month
january = record { month_in = ground arith; day_in = ground arith; micros_in = ground arith }

-- The end of January plus a month is the end of February.
clamped : next_expiry none today ≡ normalize_utc (date 2026 2 28)
unfolding next_expiry normalize_utc days_in_month is_leap
clamped = refl

term-IsValue : IsValue term.expires_at
unfolding normalize_utc days_in_month
term-IsValue = record { month_in = ground arith; day_in = ground arith; micros_in = ground arith }

term-latest : latest_active 7 shop.subscriptions ≡ some term
unfolding latest_active
term-latest = refl

february : (r : Subscription) → latest_active 7 shop.subscriptions ≡ some r → IsValue r.expires_at
february r e =
    subst (λ (o : Option Subscription). (x : Subscription) → o ≡ some x → IsValue x.expires_at)
      (sym term-latest) held r e
  where
    held : (x : Subscription) → some term ≡ some x → IsValue x.expires_at
    held x e =
        subst (λ (y : Subscription). IsValue y.expires_at) (some-injective term x e) term-IsValue

found_7 : find (has_yookassa_id 100) shop.payments ≡ some (intent 1 7 100 today)
unfolding find
found_7 = refl

known_7 : 1 ≤ count (λ u. u == 7) shop.users
unfolding count
known_7 = ground arith

found_8 : find (has_yookassa_id 101) shop.payments ≡ some (intent 2 8 101 today)
unfolding find
found_8 = refl

known_8 : 1 ≤ count (λ u. u == 8) shop.users
unfolding count
known_8 = ground arith

newcomer : latest_active 8 shop.subscriptions ≡ none
unfolding latest_active
newcomer = refl

-- Two deliveries for the payment of user 7, the second begun before the first is finished.
abbrev overlap : List Step
overlap =
    begin Event.payment_succeeded (some 100)
    ∷ begin Event.payment_canceled (some 100)
    ∷ finish 1 today true
    ∷ finish 0 today true
    ∷ []

abbrev server : Server
server = record { store = shop; flights = [] }

run_touches_once_example :
    TouchesAtMost 100 1 overlap server
    × (count (is_credit 100) (run overlap server).store.journal
        ≤ count (is_credit 100) shop.journal + 1)
run_touches_once_example = run_touches_once 100 overlap server shop-IsValid

run-IsValid_example : IsValid (run overlap server).store
run-IsValid_example = run-IsValid overlap server shop-IsValid

abbrev paid_7 : Outcome Bool × Store
paid_7 = handle_webhook Event.payment_succeeded (some 100) today true shop

abbrev paid_8 : Outcome Bool × Store
paid_8 = handle_webhook Event.payment_succeeded (some 101) today false shop

handle_webhook-extended_example :
    (paid_7.0 ≡ ok true)
    × (find (has_yookassa_id 100) paid_7.1.payments
        ≡ some (settle PaymentStatus.succeeded today (intent 1 7 100 today)))
    × (latest_active 7 paid_7.1.subscriptions ≡ some (extended term today))
    × ((u : ℕ)
        → u ≢ 7
        → latest_active u paid_7.1.subscriptions ≡ latest_active u shop.subscriptions)
    × (true ≡ true → paid_7.1.cache 7 ≡ none)
handle_webhook-extended_example =
    handle_webhook-extended 100 today true shop (intent 1 7 100 today) shop-IsValid found_7 refl
      refl term term-latest

handle_webhook-first_example :
    (paid_8.0 ≡ ok true)
    × (find (has_yookassa_id 101) paid_8.1.payments
        ≡ some (settle PaymentStatus.succeeded today (intent 2 8 101 today)))
    × (latest_active 8 paid_8.1.subscriptions
        ≡ some (record {
          id = 2;
          user_id = 8;
          expires_at = aware (next_expiry none today);
          is_active = true;
          has_free_access = false;
        }))
    × (false ≡ true → paid_8.1.cache 8 ≡ none)
handle_webhook-first_example =
    handle_webhook-first 101 today false shop (intent 2 8 101 today) shop-IsValid found_8 refl refl
      newcomer known_8

handle_webhook_repeat_example :
    handle_webhook Event.payment_canceled (some 100) tomorrow false paid_7.1 ≡ (ok true, paid_7.1)
handle_webhook_repeat_example =
    handle_webhook_repeat 100 Event.payment_succeeded Event.payment_canceled today tomorrow true
      false shop shop-IsValid
      (handle_webhook-extended 100 today true shop (intent 1 7 100 today) shop-IsValid found_7 refl
        refl term term-latest).0
      refl

raced_first_payment_example :
    ((extend_from none (intent 1 7 100 today) today shop).0 ≡ ok tt)
    × (latest_active 7 (extend_from none (intent 1 7 100 today) today shop).1.subscriptions
        ≡ some (extended term today))
raced_first_payment_example =
    raced_first_payment (intent 1 7 100 today) term today shop shop-IsValid term-latest

overlapped_terms_example :
    latest_active 7
      (extend_from
        (some term)
        (intent 3 7 102 today)
        tomorrow
        (extend_from (some term) (intent 1 7 100 today) today shop).1).1.subscriptions
    ≡ latest_active 7 (extend_from (some term) (intent 3 7 102 today) tomorrow shop).1.subscriptions
overlapped_terms_example =
    overlapped_terms (intent 1 7 100 today) term today shop shop-IsValid term-latest
      (intent 3 7 102 today) tomorrow refl

-- A provider that answers every request, and one that is down.
abbrev answer : SdkPayment
answer = record { id = 500; confirmation_url = "https://pay" }

abbrev answering : SdkRequest → Option SdkPayment
answering r = some answer

abbrev down : SdkRequest → Option SdkPayment
down r = none

abbrev month_of : ℕ → Purchase
month_of u = record {
  user_id = u;
  price = "990.00";
  kind = Kind.subscription;
  package_name = none;
  messages_count = none;
  plan = none;
  switch_authorized = none;
}

fresh_7 : 1 ≤ count (is_fresh_intent 7 tomorrow) shop.payments
unfolding count normalize_utc instant day_number days_before_month days_in_month
fresh_7 = ground arith

known_9 : 1 ≤ count (λ u. u == 9) shop.users
unfolding count
known_9 = ground arith

nobody_9 : latest_active 9 shop.subscriptions ≡ none
unfolding latest_active
nobody_9 = refl

no_intent_9 : count (is_fresh_intent 9 today) shop.payments ≡ 0
unfolding count
no_intent_9 = refl

create_payment_cap_example :
    (create_payment answering 1 (month_of 7) tomorrow tomorrow shop
      ≡ (err pending_intent_cap, (expire_stale_intents 7 tomorrow shop).1))
    × ((create_payment answering 1 (month_of 7) tomorrow tomorrow shop).1.sdk_calls ≡ [])
create_payment_cap_example =
    create_payment_cap answering 1 (month_of 7) tomorrow tomorrow shop refl fresh_7

create_payment_failed_example :
    ((create_payment down 1 (month_of 9) today today shop).0 ≡ err payment_creation)
    × ((create_payment down 1 (month_of 9) today today shop).1.payments
        ≡ swept 9 today shop
          ++ set_status PaymentStatus.expired (reserved_row down 1 (month_of 9) today today shop)
            ∷ [])
    × (count (is_open_intent 9) (create_payment down 1 (month_of 9) today today shop).1.payments
        ≡ 0)
    × ((create_payment down 1 (month_of 9) today today shop).1.sdk_calls
        ≡ sdk_request (month_of 9) 1 ∷ [])
create_payment_failed_example =
    create_payment_failed down 1 (month_of 9) today today shop shop-IsValid refl known_9 no_intent_9
      refl

new_500 : count (has_yookassa_id 500) shop.payments ≡ 0
unfolding count
new_500 = refl

create_payment_succeeded_example :
    let bought = create_payment answering 1 (month_of 9) today today shop in
    (bought.0 ≡ ok (created answer))
    × (bought.1.payments
        ≡ swept 9 today shop
          ++ set_yookassa_id 500 (reserved_row answering 1 (month_of 9) today today shop) ∷ [])
    × (count (is_open_intent 9) bought.1.payments ≡ 1)
    × (bought.1.sdk_calls ≡ sdk_request (month_of 9) 1 ∷ [])
create_payment_succeeded_example =
    create_payment_succeeded answering 1 (month_of 9) today today shop shop-IsValid refl known_9
      no_intent_9 answer refl new_500

month_after_bounds_example :
    IsMoment (month_after (normalize_utc today).wall)
    × (day_number (normalize_utc today).wall + 28
        ≤ day_number (month_after (normalize_utc today).wall))
    × (day_number (month_after (normalize_utc today).wall)
        ≤ day_number (normalize_utc today).wall + 31)
month_after_bounds_example = month_after_bounds (normalize_utc today).wall january

next_expiry_bounds_example :
    DaysAfter 28 (normalize_utc term.expires_at) (next_expiry (some term.expires_at) today)
    × DaysAfter 28 (normalize_utc today) (next_expiry (some term.expires_at) today)
    × (WithinDays 31 (normalize_utc today) (next_expiry (some term.expires_at) today)
        ⊎ WithinDays 31 (normalize_utc term.expires_at) (next_expiry (some term.expires_at) today))
next_expiry_bounds_example = next_expiry_bounds term.expires_at today term-IsValue january

days_left_lem_example :
    (subscription_is_live (some term.expires_at) today ≡ true
      → (k : ℕ) × (days_left (some term.expires_at) today ≡ some (pos k))
        × (k * micros_per_day ≤ remainder term.expires_at today)
        × (remainder term.expires_at today < suc k * micros_per_day))
    × ((k : ℕ)
        → days_left (some term.expires_at) today ≡ some (negsuc k)
        → subscription_is_live (some term.expires_at) today ≡ false)
days_left_lem_example = days_left_lem term.expires_at today

start_trial_lem_example :
    ((start_trial 9 today shop).0 ≡ ok tt)
    × (latest_active 9 (start_trial 9 today shop).1.subscriptions ≡ some (trial_row 9 today shop))
    × (days_left (some (aware (trial_end today))) today ≡ some (pos trial_days))
    × (check_access 9 today (start_trial 9 today shop).1 ≡ allowed)
    × ((later : Stored)
        → ¬ Before (normalize_utc later) (trial_end today)
        → check_access 9 later (start_trial 9 today shop).1 ≡ access_closed)
start_trial_lem_example = start_trial_lem 9 shop shop-IsValid today january known_9 nobody_9

start_trial_repeat_example :
    start_trial 9 tomorrow (start_trial 9 today shop).1 ≡ (ok tt, (start_trial 9 today shop).1)
start_trial_repeat_example =
    start_trial_repeat 9 today tomorrow shop shop-IsValid
      (start_trial_lem 9 shop shop-IsValid today january known_9 nobody_9).0

paid_user_may_send_example :
    (check_access_cached true true Action.send 7 today paid_7.1).0 ≡ allowed
paid_user_may_send_example =
    paid_user_may_send 100 today true true shop (intent 1 7 100 today) shop-IsValid found_7 refl
      refl known_7 february january
