-- ===== src/Billing/Webhook/Claim.antt =====
-- The claim: of all deliveries for one payment, however they overlap, one at most is won.
use native.Mathlib.Nat.{le_refl}
use broadcaster.Prelude.{
  ℕ, ◌+◌, ◌≤◌, ◌≡◌, refl, ap, inl, inr, Bool, true, false, not, ◌&&◌, Option, none, some, List,
  arith, count, modify, count-append_one, count-modify-le, count-modify_none, Bool-cases,
  if◌then◌else◌, ◌==◌,
}
use broadcaster.Calendar.{Stored, aware}
use broadcaster.Billing.Models.{Payment, PaymentStatus, Subscription, is_terminal, is_subscription}
use broadcaster.Billing.Period.{next_expiry}
use broadcaster.Billing.Store.{
  Store, LogEntry, subscription_extended, subscription_payment_succeeded, insert_subscription,
  add_subscription, latest_active, Outcome, ok, err,
}
use broadcaster.Billing.Webhook.{
  is_claimable, settle, claim_payment, apply_extension, extend_from, extend_subscription,
  recover_extension, insert_or_recover, commit_extension, invalidate_access_cache, apply_succeeded,
  apply_canceled, apply, Event, Fetched, lacks_messages, resume, answer, claimable,
}

-- A claim puts the payment beyond any further claim.
pub claimed_once :
    (y : ℕ) (st : PaymentStatus) (now : Stored) (ps : List Payment)
    → is_terminal st ≡ true
    → count (is_claimable y) (modify (is_claimable y) (settle st now) ps) ≡ 0
claimed_once y st now ps terminal =
    count-modify_none (is_claimable y) (is_claimable y) (settle st now) ps (λ p h. ground arith)
      (λ p h. h)

-- The log line that a subscription payment was credited.
abbrev pub is_credit : ℕ → LogEntry → Bool
is_credit y (subscription_payment_succeeded u z) = z == y
is_credit y (subscription_extended u z live) = false

-- What payment `y` has given so far, and what it still can give.
abbrev pub spent : ℕ → Store → ℕ
spent y s = count (is_credit y) s.journal + count (is_claimable y) s.payments

pub claim-le :
    (y z : ℕ) (st : PaymentStatus) (now : Stored) (ps : List Payment)
    → is_terminal st ≡ true
    → count (is_claimable y) (modify (is_claimable z) (settle st now) ps)
      ≤ count (is_claimable y) ps
claim-le y z st now ps terminal =
    count-modify-le (is_claimable y) (is_claimable z) (settle st now) ps (λ p h e. ground arith)

apply_extension-spent :
    (y : ℕ) (sub : Subscription) (p : Payment) (now : Stored) (s : Store)
    → spent y (apply_extension sub p now s) ≡ spent y s
unfolding apply_extension
apply_extension-spent y sub p now s = rw count-append_one (omega arith)

recover-spent :
    (y : ℕ) (o : Option Subscription) (p : Payment) (now : Stored) (s : Store)
    → spent y (recover_extension o p now s).1 ≡ spent y s
recover-spent y none p now s = refl
recover-spent y (some sub) p now s = apply_extension-spent y sub p now s

insert-spent :
    (y : ℕ) (o : Option Store) (p : Payment) (now : Stored) (s : Store)
    → ((s' : Store) → o ≡ some s' → spent y s' ≡ spent y s)
    → spent y (insert_or_recover o p now s).1 ≡ spent y s
insert-spent y none p now s h = recover-spent y (latest_active p.user_id s.subscriptions) p now s
insert-spent y (some s') p now s h = h s' refl

inserted-spent :
    (y u : ℕ) (t : Stored) (s s' : Store)
    → insert_subscription u t s ≡ some s'
    → spent y s' ≡ spent y s
unfolding insert_subscription add_subscription
inserted-spent y u t s s' e = ground arith

-- An extension changes no payment, and logs no credit.
extend-spent :
    (y : ℕ) (seen : Option Subscription) (p : Payment) (now : Stored) (s : Store)
    → spent y (extend_from seen p now s).1 ≡ spent y s
unfolding extend_from
extend-spent y (some sub) p now s = apply_extension-spent y sub p now s
extend-spent y none p now s =
    insert-spent y (insert_subscription p.user_id (aware (next_expiry none now)) s) p now s
      (λ s' e. inserted-spent y p.user_id _ s s' e)

commit-spent :
    (y z : ℕ) (up : Bool) (p : Payment) (before : Store) (r : Outcome Unit × Store)
    → spent y r.1 + (if z == y then 1 else 0) ≤ spent y before
    → spent y (commit_extension up z p before r).1 ≤ spent y before
unfolding invalidate_access_cache
commit-spent y z up p before (err e, s) h = le_refl (spent y before)
commit-spent y z true p before (ok done, s) h = rw count-append_one (omega (arith, h))
commit-spent y z false p before (ok done, s) h = rw count-append_one (omega (arith, h))

-- A won claim takes away what a credit will add.
won-spent :
    (y z : ℕ) (st : PaymentStatus) (now : Stored) (s : Store)
    → is_terminal st ≡ true
    → (claim_payment z st now s).0 ≡ true
    → spent y (claim_payment z st now s).1 + (if z == y then 1 else 0) ≤ spent y s
unfolding claim_payment
won-spent y z st now s terminal won = elim (Bool-cases (z == y)) [
  | inl same ↦ ground (
    arith,
    claimed_once z st now s.payments terminal,
    claim-le y z st now s.payments terminal,
    ap (λ (i : ℕ). count (is_claimable i) s.payments),
    ap (λ (i : ℕ). count (is_claimable i) (modify (is_claimable z) (settle st now) s.payments)),
  )
  | inr apart ↦ ground (arith, claim-le y z st now s.payments terminal)
]

succeeded-spent :
    (y z : ℕ) (p : Payment) (now : Stored) (up : Bool) (s : Store)
    → spent y (apply_succeeded z p now up s).1 ≤ spent y s
unfolding apply_succeeded extend_subscription
succeeded-spent y z p now up s =
    elim (Bool-cases (claim_payment z PaymentStatus.succeeded now s).0) [
      | inr lost ↦ rw lost (le_refl (spent y s))
      | inl won ↦ rw won (elim (Bool-cases (is_subscription p.kind)) [
        | inl credited ↦ rw credited (
            commit-spent y z up p s _ (
              rw (extend-spent y _ p now (claim_payment z PaymentStatus.succeeded now s).1)
                (won-spent y z PaymentStatus.succeeded now s refl won)))
        | inr journal_only ↦
            rw journal_only (omega (arith, won-spent y z PaymentStatus.succeeded now s refl won))
      ])
    ]

canceled-spent :
    (y z : ℕ) (now : Stored) (s : Store) → spent y (apply_canceled z now s).1 ≤ spent y s
unfolding apply_canceled
canceled-spent y z now s = elim (Bool-cases (claim_payment z PaymentStatus.canceled now s).0) [
  | inr lost ↦ rw lost (le_refl (spent y s))
  | inl won ↦ rw won (omega (arith, won-spent y z PaymentStatus.canceled now s refl won))
]

-- The second half of a delivery, however old its reading of the row, spends no more than it finds.
pub resume-spent :
    (y : ℕ) (f : Fetched) (e : Event) (now : Stored) (up : Bool) (s : Store)
    → spent y (resume f e now up s).1 ≤ spent y s
unfolding apply
resume-spent y (answer b) e now up s = le_refl (spent y s)
resume-spent y (claimable z p) (Event.other_event t) now up s = le_refl (spent y s)
resume-spent y (claimable z p) Event.payment_canceled now up s = canceled-spent y z now s
resume-spent y (claimable z p) Event.payment_succeeded now up s =
    elim (Bool-cases (not (is_subscription p.kind) && lacks_messages p.messages_count)) [
      | inl unfit ↦ rw unfit (le_refl (spent y s))
      | inr fit ↦ rw fit (succeeded-spent y z p now up s)
    ]
