-- ===== src/Billing/Webhook/Overlap.antt =====
-- Deliveries that overlap: any number of them, for any payments, each begun and finished at any
-- time, in any order.
use native.Mathlib.Nat.{le_refl, le_trans}
use broadcaster.Prelude.{
  ℕ, zero, suc, ◌+◌, ◌≤◌, Bool, Option, none, some, List, [], ◌∷◌, ◌++◌, arith, count, count-le,
}
use broadcaster.Calendar.{Stored}
use broadcaster.Billing.Models.{has_yookassa_id}
use broadcaster.Billing.Store.{Store, IsValid}
use broadcaster.Billing.Webhook.{Event, Fetched, is_claimable, fetch, resume}
use broadcaster.Billing.Webhook.Valid.{resume-IsValid}
use broadcaster.Billing.Webhook.Claim.{is_credit, spent, resume-spent}

-- A delivery between its two halves.
pub record Flight : Type 0 where
  pub event : Event
  pub fetched : Fetched

pub record Server : Type 0 where
  pub store : Store
  pub flights : List Flight

-- A delivery arrives and reads its row, or the i-th that has begun goes on to its end
-- (the model lets it do so again).
pub data Step : Type 0 where
  begin : Event → Option ℕ → Step
  finish : ℕ → Stored → Bool → Step

abbrev pub get_elem? : List Flight → ℕ → Option Flight
get_elem? [] i = none
get_elem? (f ∷ fs) zero = some f
get_elem? (f ∷ fs) (suc i) = get_elem? fs i

abbrev pub finish_flight : Option Flight → Stored → Bool → Store → Store
finish_flight none now up s = s
finish_flight (some f) now up s = (resume f.fetched f.event now up s).1

unfoldable pub step : Step → Server → Server
step (begin e y) w = record w {
  flights = w.flights ++ record { event = e; fetched = fetch e y w.store } ∷ [];
}
step (finish i now up) w = record w { store = finish_flight (get_elem? w.flights i) now up w.store }

unfoldable pub run : List Step → Server → Server
run [] w = w
run (a ∷ as') w = run as' (step a w)

finish_flight-spent :
    (y : ℕ) (f : Option Flight) (now : Stored) (up : Bool) (s : Store)
    → spent y (finish_flight f now up s) ≤ spent y s
finish_flight-spent y none now up s = le_refl (spent y s)
finish_flight-spent y (some f) now up s = resume-spent y f.fetched f.event now up s

step-spent : (y : ℕ) (a : Step) (w : Server) → spent y (step a w).store ≤ spent y w.store
unfolding step
step-spent y (begin e z) w = le_refl (spent y w.store)
step-spent y (finish i now up) w = finish_flight-spent y (get_elem? w.flights i) now up w.store

run-spent : (y : ℕ) (steps : List Step) (w : Server) → spent y (run steps w).store ≤ spent y w.store
unfolding run
run-spent y [] w = le_refl (spent y w.store)
run-spent y (a ∷ as') w = le_trans (run-spent y as' (step a w)) (step-spent y a w)

pub claimable-le : (y : ℕ) (s : Store) → IsValid s → count (is_claimable y) s.payments ≤ 1
claimable-le y s v =
    le_trans (count-le (is_claimable y) (has_yookassa_id y) s.payments (λ p h. ground arith))
      (v.one_payment y)

-- Over any overlapping deliveries at most one more credit for a payment is logged than before.
pub run_credits_once :
    (y : ℕ) (steps : List Step) (w : Server)
    → IsValid w.store
    → count (is_credit y) (run steps w).store.journal ≤ count (is_credit y) w.store.journal + 1
run_credits_once y steps w v = omega (arith, run-spent y steps w, claimable-le y w.store v)

finish_flight-IsValid :
    (f : Option Flight) (now : Stored) (up : Bool) (s : Store)
    → IsValid s
    → IsValid (finish_flight f now up s)
finish_flight-IsValid none now up s v = v
finish_flight-IsValid (some f) now up s v = resume-IsValid f.fetched f.event now up s v

step-IsValid : (a : Step) (w : Server) → IsValid w.store → IsValid (step a w).store
unfolding step
step-IsValid (begin e z) w v = v
step-IsValid (finish i now up) w v = finish_flight-IsValid (get_elem? w.flights i) now up w.store v

-- Overlapping deliveries, in any order, keep the constraints of the schema: if no payment
-- identifier, open intent of a user, active subscription of a user or row identifier is there
-- twice, none is afterwards, and the identifiers to come stay unused.
pub run-IsValid : (steps : List Step) (w : Server) → IsValid w.store → IsValid (run steps w).store
unfolding run
run-IsValid [] w v = v
run-IsValid (a ∷ as') w v = run-IsValid as' (step a w) (step-IsValid a w v)
