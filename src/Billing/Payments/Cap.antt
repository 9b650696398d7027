-- ===== src/Billing/Payments/Cap.antt =====
-- The cap of one open subscription intent for each user: whom it stops, that it stops them before
-- any money moves, and how a person leaves the state that it creates.
use broadcaster.Prelude.{
  ℕ, ◌≤◌, ◌≡◌, refl, Bool, true, false, ◌&&◌, not, Option, none, some, List, [], ◌∷◌, arith, count,
  modify, ◌==◌, ◌++◌, count-append_one, modify-append_one, count-modify-le,
}
use broadcaster.Calendar.{Stored}
use broadcaster.Billing.Models.{
  Payment, PaymentStatus, is_subscription, is_open_intent, has_yookassa_id,
}
use broadcaster.Billing.Store.{
  Store, ok, err, pending_intent_cap, payment_creation, SdkRequest, SdkPayment, taken,
  has_payment_id, add_payment, payment_refused, insert_payment, IsValid,
}
use broadcaster.Billing.Store.Laws.{fresh_payment_id}
use broadcaster.Billing.Payments.{
  Purchase, created, expire_stale_intents, is_stale, is_stale_intent, set_status, set_yookassa_id,
  reserve_row, reserve_subscription_intent, is_open_intent_conflict, sdk_request, expire_reserve,
  enter_yookassa_id, call_with_reserve, create_payment,
}

-- An open intent of the user that has not reached its deadline.
abbrev pub is_fresh_intent : ℕ → Stored → Payment → Bool
is_fresh_intent u now p = is_open_intent u p && not (is_stale now p.created_at)

count_swept :
    (u : ℕ) (now : Stored) (ps : List Payment)
    → count
        (is_open_intent u)
        (modify (is_stale_intent u now) (set_status PaymentStatus.expired) ps)
      ≡ count (is_fresh_intent u now) ps
unfolding count modify
count_swept u now [] = refl
count_swept u now (p ∷ ps) = ground (arith, count_swept u now ps)

-- The sweep leaves the user exactly the intents that are still fresh.
pub count-expire_stale_intents :
    (u : ℕ) (now : Stored) (s : Store)
    → count (is_open_intent u) (expire_stale_intents u now s).1.payments
      ≡ count (is_fresh_intent u now) s.payments
unfolding expire_stale_intents
count-expire_stale_intents u now s = count_swept u now s.payments

-- The user is in the `users` table.
abbrev pub HasUser : ℕ → Store → Type 0
HasUser u s = 1 ≤ count (λ v. v == u) s.users

reserve_refused :
    (b : Purchase) (t : Stored) (s : Store)
    → 1 ≤ count (is_open_intent b.user_id) s.payments
    → reserve_subscription_intent b t s ≡ (err pending_intent_cap, s)
unfolding reserve_subscription_intent insert_payment payment_refused is_open_intent_conflict
reserve_refused b t s h = ground arith

reserve_free :
    (b : Purchase) (t : Stored) (s : Store)
    → HasUser b.user_id s
    → count (is_open_intent b.user_id) s.payments ≡ 0
    → reserve_subscription_intent b t s
      ≡ (ok s.next_payment_id, add_payment (reserve_row b (some t)) s)
unfolding reserve_subscription_intent insert_payment payment_refused
reserve_free b t s known h = ground arith

self_id : (n : ℕ) → (n == n) ≡ true
self_id n = ground arith

-- The rows once the user's stale intents are out.
abbrev pub swept : ℕ → Stored → Store → List Payment
swept u now s = (expire_stale_intents u now s).1.payments

swept_ids :
    (u : ℕ) (now : Stored) (s : Store)
    → IsValid s
    → count (has_payment_id s.next_payment_id) (swept u now s) ≡ 0
unfolding expire_stale_intents
swept_ids u now s v =
    let n = s.next_payment_id in
    let fresh = fresh_payment_id n s.payments v.payment_ids in
    omega (
      arith,
      fresh,
      count-modify-le (has_payment_id n) (is_stale_intent u now) (set_status PaymentStatus.expired)
          s.payments (λ p h e. e),
    )

module _ (sdk : SdkRequest → Option SdkPayment) (key : ℕ) (b : Purchase) (now t : Stored)
    (s : Store) where
  -- The row that a subscription purchase reserves.
  abbrev pub reserved_row : Payment
  reserved_row = record (reserve_row b (some t)) { id = s.next_payment_id }

  -- A subscription purchase of a user who has a fresh open intent is refused before the provider
  -- is called, and nothing is written but the sweep of the stale intents.
  pub create_payment_cap :
      is_subscription b.kind ≡ true
      → 1 ≤ count (is_fresh_intent b.user_id now) s.payments
      → (create_payment sdk key b now t s
          ≡ (err pending_intent_cap, (expire_stale_intents b.user_id now s).1))
        × ((create_payment sdk key b now t s).1.sdk_calls ≡ s.sdk_calls)
  unfolding create_payment expire_stale_intents
  create_payment_cap sub fresh =
      let e =
        reserve_refused b t (expire_stale_intents b.user_id now s).1
          (rw (count-expire_stale_intents b.user_id now s) fresh) in
      (ground (arith, e), ground (arith, e))

  module _ (valid : IsValid s) (sub : is_subscription b.kind ≡ true) (known : HasUser b.user_id s)
      (none_fresh : count (is_fresh_intent b.user_id now) s.payments ≡ 0) where
    reserved : reserve_subscription_intent b t (expire_stale_intents b.user_id now s).1 ≡ (
      ok s.next_payment_id,
      add_payment (reserve_row b (some t)) (expire_stale_intents b.user_id now s).1,
    )
    unfolding expire_stale_intents
    reserved =
        reserve_free b t (expire_stale_intents b.user_id now s).1 known
          (rw (count-expire_stale_intents b.user_id now s) none_fresh)

    -- A subscription purchase of a known user without a fresh open intent, in valid tables, for
    -- which the provider fails: the call ends in the creation error, the attempt's own row stays
    -- and is put out, no open intent of the user remains, and the provider was called once.
    pub create_payment_failed :
        sdk (sdk_request b key) ≡ none
        → ((create_payment sdk key b now t s).0 ≡ err payment_creation)
          × ((create_payment sdk key b now t s).1.payments
              ≡ swept b.user_id now s ++ set_status PaymentStatus.expired reserved_row ∷ [])
          × (count (is_open_intent b.user_id) (create_payment sdk key b now t s).1.payments ≡ 0)
          × ((create_payment sdk key b now t s).1.sdk_calls ≡ s.sdk_calls ++ sdk_request b key ∷ [])
    unfolding create_payment call_with_reserve expire_reserve add_payment expire_stale_intents
    create_payment_failed failed =
        let own =
          modify-append_one (has_payment_id s.next_payment_id) (set_status PaymentStatus.expired)
            (swept b.user_id now s) reserved_row (swept_ids b.user_id now s valid)
            (self_id s.next_payment_id) in
        rw (sub, reserved, failed, call_with_reserve)
          (
            refl,
            own,
            rw (own, count-append_one) (ground (arith, count-expire_stale_intents b.user_id now s)),
            refl,
          )

    untaken :
        (y : ℕ)
        → count (has_yookassa_id y) s.payments ≡ 0
        → taken (some y) (swept b.user_id now s ++ reserved_row ∷ []) ≡ false
    unfolding expire_stale_intents
    untaken y new = rw count-append_one (
        ground (
          arith,
          count-modify-le (has_yookassa_id y) (is_stale_intent b.user_id now)
              (set_status PaymentStatus.expired) s.payments (λ p h e. e),
        ))

    -- A subscription purchase of a known user without a fresh open intent, in valid tables, which
    -- the provider answers under an identifier that no row has: its answer is returned, the
    -- reserve is completed and no second row added, the user has one open intent, and the provider
    -- was called once.
    pub create_payment_succeeded :
        (paid : SdkPayment)
        → sdk (sdk_request b key) ≡ some paid
        → count (has_yookassa_id paid.id) s.payments ≡ 0
        → ((create_payment sdk key b now t s).0 ≡ ok (created paid))
          × ((create_payment sdk key b now t s).1.payments
              ≡ swept b.user_id now s ++ set_yookassa_id paid.id reserved_row ∷ [])
          × (count (is_open_intent b.user_id) (create_payment sdk key b now t s).1.payments ≡ 1)
          × ((create_payment sdk key b now t s).1.sdk_calls ≡ s.sdk_calls ++ sdk_request b key ∷ [])
    unfolding create_payment call_with_reserve enter_yookassa_id add_payment expire_stale_intents
    create_payment_succeeded paid answered new =
        let own =
          modify-append_one (has_payment_id s.next_payment_id) (set_yookassa_id paid.id)
            (swept b.user_id now s) reserved_row (swept_ids b.user_id now s valid)
            (self_id s.next_payment_id) in
        rw (sub, reserved, answered, call_with_reserve, untaken paid.id new)
          (
            refl,
            own,
            rw (own, count-append_one) (ground (arith, count-expire_stale_intents b.user_id now s)),
            refl,
          )
