-- ===== src/Billing/Store/Laws.antt =====
-- The inserts keep the constraints of the schema, and the query for the active subscription finds
-- the one row that they allow.
use native.Mathlib.Nat.{le_refl}
use broadcaster.Prelude.{
  ℕ, suc, ◌+◌, ◌≤◌, ◌<◌, ◌≡◌, refl, Bool, true, false, ◌||◌, ◌&&◌, Option, none, some, List, [],
  ◌∷◌, arith, ap, holds, count, find, All, All-append, All-weaken, count-append_one,
  find-count_zero, ltb, ◌==◌, if◌then◌else◌,
}
use broadcaster.Calendar.{Stored}
use broadcaster.Billing.Models.{
  Payment, Subscription, is_open_intent, has_yookassa_id, is_active_of,
}
use broadcaster.Billing.Store.{
  Store, taken, payment_refused, add_payment, add_subscription, subscription_refused, latest_active,
  has_payment_id, has_subscription_id, IsValid,
}

le_up : {a b : ℕ} → a < b → a < suc b
le_up h = omega arith

one_taken :
    (o : Option ℕ) (y : ℕ) (ps : List Payment)
    → taken o ps ≡ false
    → count (has_yookassa_id y) ps ≤ 1
    → count (has_yookassa_id y) ps + (if holds o y then 1 else 0) ≤ 1
one_taken none y ps free h = omega (arith, h)
one_taken (some z) y ps free h = ground (arith, ap (λ (i : ℕ). count (has_yookassa_id i) ps))

one_open :
    (p : Payment) (u : ℕ) (ps : List Payment)
    → (is_open_intent p.user_id p && ltb 0 (count (is_open_intent p.user_id) ps)) ≡ false
    → count (is_open_intent u) ps ≤ 1
    → count (is_open_intent u) ps + (if is_open_intent u p then 1 else 0) ≤ 1
one_open p u ps free h = ground (arith, ap (λ (i : ℕ). count (is_open_intent i) ps))

one_of_user :
    (u w : ℕ) (rows : List Subscription)
    → ltb 0 (count (is_active_of u) rows) ≡ false
    → count (is_active_of w) rows ≤ 1
    → count (is_active_of w) rows + (if (u == w) && true then 1 else 0) ≤ 1
one_of_user u w rows free h = ground (arith, ap (λ (i : ℕ). count (is_active_of i) rows))

or-false : (a b : Bool) → (a || b) ≡ false → (a ≡ false) × (b ≡ false)
or-false a b h = ground arith

pub fresh_payment_id :
    (n : ℕ) (rows : List Payment) → All (λ p. p.id < n) rows → count (has_payment_id n) rows ≡ 0
unfolding count
fresh_payment_id n [] h = refl
fresh_payment_id n (p ∷ rows) h = ground (arith, fresh_payment_id n rows h.1)

one_payment_with_id :
    (i n : ℕ) (rows : List Payment)
    → All (λ p. p.id < n) rows
    → count (has_payment_id i) rows ≤ 1
    → count (has_payment_id i) rows + (if n == i then 1 else 0) ≤ 1
one_payment_with_id i n rows below h =
    ground (arith, fresh_payment_id n rows below, ap (λ (k : ℕ). count (has_payment_id k) rows))

pub add_payment-IsValid :
    (p : Payment) (s : Store) → IsValid s → payment_refused p s ≡ false → IsValid (add_payment p s)
unfolding add_payment payment_refused
add_payment-IsValid p s v allowed =
    let free = or-false (taken p.yookassa_payment_id s.payments) _ (or-false _ _ allowed).1 in
    record {
      one_payment = λ y.
          rw count-append_one
            (one_taken p.yookassa_payment_id y s.payments free.0 (v.one_payment y));
      one_intent = λ u. rw count-append_one (one_open p u s.payments free.1 (v.one_intent u));
      one_payment_id = λ i.
          rw count-append_one
            (one_payment_with_id i s.next_payment_id s.payments v.payment_ids (v.one_payment_id i));
      payment_ids =
          All-append _ s.payments _ (All-weaken _ _ s.payments (λ q h. le_up h) v.payment_ids)
            (le_refl _, tt);
      one_active = v.one_active;
      one_id = v.one_id;
      subscription_ids = v.subscription_ids;
    }

fresh_id :
    (n : ℕ) (rows : List Subscription)
    → All (λ r. r.id < n) rows
    → count (has_subscription_id n) rows ≡ 0
unfolding count
fresh_id n [] h = refl
fresh_id n (r ∷ rows) h = ground (arith, fresh_id n rows h.1)

one_with_id :
    (i n : ℕ) (rows : List Subscription)
    → All (λ r. r.id < n) rows
    → count (has_subscription_id i) rows ≤ 1
    → count (has_subscription_id i) rows + (if n == i then 1 else 0) ≤ 1
one_with_id i n rows below h =
    ground (arith, fresh_id n rows below, ap (λ (k : ℕ). count (has_subscription_id k) rows))

pub add_subscription-IsValid :
    (u : ℕ) (t : Stored) (s : Store)
    → IsValid s
    → subscription_refused u s ≡ false
    → IsValid (add_subscription u t s)
unfolding add_subscription subscription_refused
add_subscription-IsValid u t s v allowed =
    let free = or-false _ _ allowed in
    record {
      one_payment = v.one_payment;
      one_intent = v.one_intent;
      one_payment_id = v.one_payment_id;
      payment_ids = v.payment_ids;
      one_active =
          λ w. rw count-append_one (one_of_user u w s.subscriptions free.1 (v.one_active w));
      one_id = λ i.
          rw count-append_one
            (one_with_id i s.next_subscription_id s.subscriptions v.subscription_ids (v.one_id i));
      subscription_ids =
          All-append _ s.subscriptions _
            (All-weaken _ _ s.subscriptions (λ q h. le_up h) v.subscription_ids) (le_refl _, tt);
    }

-- The query for the active subscription finds the one row that the index allows.
pub latest_active-find :
    (u : ℕ) (xs : List Subscription)
    → count (is_active_of u) xs ≤ 1
    → latest_active u xs ≡ find (is_active_of u) xs
unfolding latest_active find count
latest_active-find u [] h = refl
latest_active-find u (x ∷ xs) h =
    ground (arith, latest_active-find u xs, find-count_zero (is_active_of u) xs)
