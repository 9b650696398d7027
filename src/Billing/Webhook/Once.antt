-- ===== src/Billing/Webhook/Once.antt =====
-- Money is credited once (app/services/payment_service.py, `handle_webhook`): of all deliveries for one
-- payment, however they overlap, one at most touches a term.
use native.Mathlib.Nat.{le_refl, le_trans}
use broadcaster.Prelude.{
  ℕ, zero, suc, ◌+◌, ◌≤◌, ◌≡◌, refl, ap, ◌⊎◌, inl, inr, Bool, true, false, not, ◌&&◌, Option, none,
  some, List, [], ◌∷◌, arith, count, Bool-cases, if_cases, ◌==◌,
}
use broadcaster.Calendar.{Stored, aware}
use broadcaster.Billing.Models.{Payment, PaymentStatus, Subscription, is_subscription, is_terminal}
use broadcaster.Billing.Period.{next_expiry}
use broadcaster.Billing.Store.{
  Store, IsValid, Outcome, ok, err, latest_active, insert_subscription, add_subscription,
}
use broadcaster.Billing.Webhook.{
  is_claimable, claim_payment, apply_extension, extend_from, extend_subscription, recover_extension,
  insert_or_recover, commit_extension, invalidate_access_cache, apply_succeeded, apply_canceled,
  apply, Event, Fetched, lacks_messages, resume, answer, claimable,
}
use broadcaster.Billing.Webhook.Claim.{is_credit, claimed_once, claim-le}
use broadcaster.Billing.Webhook.Overlap.{
  Flight, Server, Step, begin, finish, get_elem?, finish_flight, step, run, run_credits_once,
  claimable-le,
}

-- How often payment `y` can still be claimed.
abbrev pub claims : ℕ → Store → ℕ
claims y s = count (is_claimable y) s.payments

-- An extension leaves the payments alone.
recover-payments :
    (o : Option Subscription) (p : Payment) (now : Stored) (s : Store)
    → (recover_extension o p now s).1.payments ≡ s.payments
unfolding apply_extension
recover-payments none p now s = refl
recover-payments (some sub) p now s = refl

insert-payments :
    (o : Option Store) (p : Payment) (now : Stored) (s : Store)
    → ((s' : Store) → o ≡ some s' → s'.payments ≡ s.payments)
    → (insert_or_recover o p now s).1.payments ≡ s.payments
insert-payments none p now s h = recover-payments (latest_active p.user_id s.subscriptions) p now s
insert-payments (some s') p now s h = h s' refl

inserted-payments :
    (u : ℕ) (t : Stored) (s s' : Store)
    → insert_subscription u t s ≡ some s'
    → s'.payments ≡ s.payments
unfolding insert_subscription add_subscription
inserted-payments u t s s' e = ground arith

extend-payments :
    (seen : Option Subscription) (p : Payment) (now : Stored) (s : Store)
    → (extend_from seen p now s).1.payments ≡ s.payments
unfolding extend_from apply_extension
extend-payments (some sub) p now s = refl
extend-payments none p now s =
    insert-payments (insert_subscription p.user_id (aware (next_expiry none now)) s) p now s
      (λ s' e. inserted-payments p.user_id _ s s' e)

-- Either nothing happened to the terms, the journal and the cache, or a claim on `y` was used up.
abbrev Uses : ℕ → Store → Store → Type 0
Uses y s after =
    ((after.subscriptions ≡ s.subscriptions) × (after.journal ≡ s.journal))
    ⊎ (claims y after + 1 ≤ claims y s)

won-claims :
    (y : ℕ) (now : Stored) (s : Store)
    → (claim_payment y PaymentStatus.succeeded now s).0 ≡ true
    → claims y (claim_payment y PaymentStatus.succeeded now s).1 + 1 ≤ claims y s
unfolding claim_payment
won-claims y now s won = ground (arith, claimed_once y PaymentStatus.succeeded now s.payments refl)

commit-Uses :
    (y : ℕ) (up : Bool) (p : Payment) (before : Store) (r : Outcome Unit × Store)
    → claims y r.1 + 1 ≤ claims y before
    → Uses y before (commit_extension up y p before r).1
unfolding invalidate_access_cache
commit-Uses y up p before (err e, s) h = inl (refl, refl)
commit-Uses y true p before (ok done, s) h = inr h
commit-Uses y false p before (ok done, s) h = inr h

succeeded-Uses :
    (y : ℕ) (p : Payment) (now : Stored) (up : Bool) (s : Store)
    → Uses y s (apply_succeeded y p now up s).1
unfolding apply_succeeded extend_subscription
succeeded-Uses y p now up s =
    let claimed = (claim_payment y PaymentStatus.succeeded now s).1 in
    elim (Bool-cases (claim_payment y PaymentStatus.succeeded now s).0) [
      | inr lost ↦ rw lost (inl (refl, refl))
      | inl won ↦ rw won (elim (Bool-cases (is_subscription p.kind)) [
        | inl credited ↦ rw credited (
            commit-Uses y up p s _ (
              rw (extend-payments (latest_active p.user_id claimed.subscriptions) p now claimed)
                (won-claims y now s won)))
        | inr journal_only ↦ rw journal_only (inr (won-claims y now s won))
      ])
    ]

canceled-Uses : (y : ℕ) (now : Stored) (s : Store) → Uses y s (apply_canceled y now s).1
unfolding apply_canceled claim_payment
canceled-Uses y now s =
    if_cases (λ (r : Outcome Bool × Store). Uses y s r.1) (count (is_claimable y) s.payments == 1)
      (λ _. inl (refl, refl)) (λ _. inl (refl, refl))

resume-Uses :
    (y : ℕ) (p : Payment) (e : Event) (now : Stored) (up : Bool) (s : Store)
    → Uses y s (resume (claimable y p) e now up s).1
unfolding apply
resume-Uses y p (Event.other_event t) now up s = inl (refl, refl)
resume-Uses y p Event.payment_canceled now up s = canceled-Uses y now s
resume-Uses y p Event.payment_succeeded now up s =
    if_cases (λ (r : Outcome Bool × Store). Uses y s r.1)
      (not (is_subscription p.kind) && lacks_messages p.messages_count) (λ _. inl (refl, refl))
      (λ _. succeeded-Uses y p now up s)

-- No delivery, of `y` or of another payment, makes `y` claimable again.
commit-claims :
    (y z : ℕ) (up : Bool) (p : Payment) (before : Store) (r : Outcome Unit × Store)
    → claims y r.1 ≤ claims y before
    → claims y (commit_extension up z p before r).1 ≤ claims y before
unfolding invalidate_access_cache
commit-claims y z up p before (err e, s) h = le_refl (claims y before)
commit-claims y z true p before (ok done, s) h = h
commit-claims y z false p before (ok done, s) h = h

claimed-claims :
    (y z : ℕ) (st : PaymentStatus) (now : Stored) (s : Store)
    → is_terminal st ≡ true
    → claims y (claim_payment z st now s).1 ≤ claims y s
unfolding claim_payment
claimed-claims y z st now s terminal = claim-le y z st now s.payments terminal

succeeded-claims :
    (y z : ℕ) (p : Payment) (now : Stored) (up : Bool) (s : Store)
    → claims y (apply_succeeded z p now up s).1 ≤ claims y s
unfolding apply_succeeded extend_subscription
succeeded-claims y z p now up s =
    let claimed = (claim_payment z PaymentStatus.succeeded now s).1 in
    let less = claimed-claims y z PaymentStatus.succeeded now s refl in
    if_cases (λ (r : Outcome Bool × Store). claims y r.1 ≤ claims y s)
      (not (claim_payment z PaymentStatus.succeeded now s).0) (λ _. le_refl (claims y s))
      λ _.
        if_cases (λ (r : Outcome Bool × Store). claims y r.1 ≤ claims y s) (is_subscription p.kind)
          (λ _. commit-claims y z up p s _ (
            rw (extend-payments (latest_active p.user_id claimed.subscriptions) p now claimed)
              less))
          (λ _. less)

resume-claims :
    (y : ℕ) (f : Fetched) (e : Event) (now : Stored) (up : Bool) (s : Store)
    → claims y (resume f e now up s).1 ≤ claims y s
unfolding apply apply_canceled
resume-claims y (answer b) e now up s = le_refl (claims y s)
resume-claims y (claimable z p) (Event.other_event t) now up s = le_refl (claims y s)
resume-claims y (claimable z p) Event.payment_canceled now up s =
    if_cases (λ (r : Outcome Bool × Store). claims y r.1 ≤ claims y s)
      (claim_payment z PaymentStatus.canceled now s).0
      (λ _. claimed-claims y z PaymentStatus.canceled now s refl) (λ _. le_refl (claims y s))
resume-claims y (claimable z p) Event.payment_succeeded now up s =
    if_cases (λ (r : Outcome Bool × Store). claims y r.1 ≤ claims y s)
      (not (is_subscription p.kind) && lacks_messages p.messages_count) (λ _. le_refl (claims y s))
      (λ _. succeeded-claims y z p now up s)

-- The step goes on with a delivery that has read the row of payment `y`.
abbrev pub is_of : ℕ → Option Flight → Bool
is_of y none = false
is_of y (some f) = elim f.fetched [ answer b ↦ false | claimable z p ↦ z == y ]

abbrev pub is_delivery_of : ℕ → Step → Server → Bool
is_delivery_of y (begin e z) w = false
is_delivery_of y (finish i now up) w = is_of y (get_elem? w.flights i)

-- A step with a delivery of `y` that leaves every term and the journal as they are.
abbrev pub IsIdle : ℕ → Step → Server → Type 0
IsIdle y a w =
    is_delivery_of y a w ≡ true
    → ((step a w).store.subscriptions ≡ w.store.subscriptions)
      × ((step a w).store.journal ≡ w.store.journal)

-- At most so many of the steps are not idle.
unfoldable pub TouchesAtMost : ℕ → ℕ → List Step → Server → Type 0
TouchesAtMost y n [] w = Unit
TouchesAtMost y zero (a ∷ as') w = IsIdle y a w × TouchesAtMost y zero as' (step a w)
TouchesAtMost y (suc n) (a ∷ as') w =
    (IsIdle y a w × TouchesAtMost y (suc n) as' (step a w)) ⊎ TouchesAtMost y n as' (step a w)

finish-cases :
    (y : ℕ) (o : Option Flight) (now : Stored) (up : Bool) (s : Store)
    → (is_of y o ≡ true
        → ((finish_flight o now up s).subscriptions ≡ s.subscriptions)
          × ((finish_flight o now up s).journal ≡ s.journal))
      ⊎ (claims y (finish_flight o now up s) + 1 ≤ claims y s)
finish-cases y none now up s = inl (λ h. cc h)
finish-cases y (some f) now up s = by_fetched f.fetched refl
  where
    by_fetched :
        (g : Fetched)
        → f.fetched ≡ g
        → (is_of y (some f) ≡ true
            → ((resume f.fetched f.event now up s).1.subscriptions ≡ s.subscriptions)
              × ((resume f.fetched f.event now up s).1.journal ≡ s.journal))
          ⊎ (claims y (resume f.fetched f.event now up s).1 + 1 ≤ claims y s)
    by_fetched (answer b) e = rw e (inl (λ h. (refl, refl)))
    by_fetched (claimable z p) e = rw e (elim (Bool-cases (z == y)) [
      | inr other ↦ inl (λ h. cc (h, other))
      | inl same ↦ elim (resume-Uses z p f.event now up s) [
        | inl idle ↦ inl (λ h. idle)
        | inr used ↦ inr (
            ground (
              arith,
              used,
              same,
              ap (λ k. claims k (resume (claimable z p) f.event now up s).1),
              ap (λ k. claims k s),
            ))
      ]
    ])

step-cases :
    (y : ℕ) (a : Step) (w : Server)
    → IsIdle y a w ⊎ (claims y (step a w).store + 1 ≤ claims y w.store)
unfolding step
step-cases y (begin e z) w = inl (λ h. cc h)
step-cases y (finish i now up) w = finish-cases y (get_elem? w.flights i) now up w.store

step-claims : (y : ℕ) (a : Step) (w : Server) → claims y (step a w).store ≤ claims y w.store
unfolding step
step-claims y (begin e z) w = le_refl (claims y w.store)
step-claims y (finish i now up) w = by_flight (get_elem? w.flights i)
  where
    by_flight : (o : Option Flight) → claims y (finish_flight o now up w.store) ≤ claims y w.store
    by_flight none = le_refl (claims y w.store)
    by_flight (some f) = resume-claims y f.fetched f.event now up w.store

touches :
    (y n : ℕ) (steps : List Step) (w : Server) → claims y w.store ≤ n → TouchesAtMost y n steps w
unfolding TouchesAtMost
touches y n [] w h = tt
touches y zero (a ∷ as') w h = elim (step-cases y a w) [
  | inl idle ↦ (idle, touches y zero as' (step a w) (le_trans (step-claims y a w) h))
  | inr used ↦ absurd (omega (arith, used, h))
]
touches y (suc n) (a ∷ as') w h = elim (step-cases y a w) [
  | inl idle ↦ inl (idle, touches y (suc n) as' (step a w) (le_trans (step-claims y a w) h))
  | inr used ↦ inr (touches y n as' (step a w) (omega (arith, used, h)))
]

-- Money is credited once: from valid tables, over any overlapping deliveries, each read and finished at
-- any time and in any order, at most one finish of a delivery for a payment changes a term of any
-- subscription or the journal, and at most one more credit for it is logged than before.
pub run_touches_once :
    (y : ℕ) (steps : List Step) (w : Server)
    → IsValid w.store
    → TouchesAtMost y 1 steps w
      × (count (is_credit y) (run steps w).store.journal ≤ count (is_credit y) w.store.journal + 1)
run_touches_once y steps w v =
    (touches y 1 steps w (claimable-le y w.store v), run_credits_once y steps w v)
