-- ===== src/History/Handler/Once.antt =====
-- One send for a record in a minute, however often its button is pressed (app/pages/history.py,
-- `history_retry`).
use mathlib.Core.Path.{subst}
use broadcaster.Prelude.{
  ℕ, ◌+◌, ◌<◌, ◌≡◌, ◌∙◌, refl, ap, Bool, true, false, not, ◌||◌, Option, none, some, List, [], ◌∷◌,
  count, All, ◌==◌, arith, Bool-cases, if_cases, inl, inr, count-append_one,
}
use broadcaster.Billing.Store.{Store, Verdict, allowed, access_closed}
use broadcaster.Scheduling.Collect.{Base}
use broadcaster.Worker.Retry.{is_success, StoredLog}
use broadcaster.History.Slot.{Hold, click, retry_cooldown, claim_retry_slot}
use broadcaster.History.Slot.Window.{
  IsHeld, claim_held, release-IsHeld, happen-IsHeld, claim-IsHeld, eq_of_same,
}
use broadcaster.History.Handler.{
  Request, Response, Desk, Delivery, taken, not_connected, unclear, can_repeat, asked_log, released,
  hand_over, deliver, admitted, claimed, after_claim, with_log, logged_in, history_retry,
}

-- A handed task of the record.
abbrev pub is_task_of : ℕ → ℕ × ℕ → Bool
is_task_of n task = task.0 == n

abbrev pub handed_for : ℕ → Desk → ℕ
handed_for n d = count (is_task_of n) d.handed

module _ (n until : ℕ) where
  -- From one desk to the next the record stays held, and none of its tasks is handed over.
  abbrev Quiet : Desk → Desk → Type 0
  Quiet d d' = IsHeld n until d'.holds × (handed_for n d' ≡ handed_for n d)

  deliver-Quiet :
      (v : Delivery) (user : ℕ) (log : StoredLog) (d : Desk)
      → (log.id == n) ≡ false
      → IsHeld n until d.holds
      → Quiet d (deliver v user log d).1
  deliver-Quiet taken user log d differs held =
      (held, count-append_one (is_task_of n) d.handed (log.id, user) ∙ rw differs (omega arith))
  deliver-Quiet not_connected user log d differs held =
      (release-IsHeld log.id n until d.holds differs held, refl)
  deliver-Quiet unclear user log d differs held =
      (held, count-append_one (is_task_of n) d.handed (log.id, user) ∙ rw differs (omega arith))

  module _ (r : Request) (early : r.clock < until) where
    admitted-Quiet :
        (v : Verdict × Store) (user : ℕ) (log : StoredLog) (d : Desk)
        → (log.id == n) ≡ false
        → IsHeld n until d.holds
        → Quiet d (admitted r v user log d).1
    admitted-Quiet (allowed, s) user log d differs held =
        deliver-Quiet r.delivery user log (record d { store = s }) differs held
    admitted-Quiet (access_closed, s) user log d differs held =
        (release-IsHeld log.id n until d.holds differs held, refl)

    module _ (b : Base) where
      claimed-Quiet :
          (user : ℕ) (log : StoredLog) (d : Desk)
          → (log.id == n) ≡ false
          → IsHeld n until d.holds
          → Quiet d (claimed r b user log d).1
      claimed-Quiet user log d differs held =
          if_cases (λ (x : Response × Desk). Quiet d x.1) (can_repeat user log b)
            (λ fit. admitted-Quiet _ user log d differs held)
            (λ gone. (release-IsHeld log.id n until d.holds differs held, refl))

      after_claim-Quiet :
          (user : ℕ) (log : StoredLog) (c : Bool × List Hold) (d : Desk)
          → ((c.0 ≡ true) → (log.id == n) ≡ false)
          → IsHeld n until c.1
          → Quiet d (after_claim r b user log c d).1
      after_claim-Quiet user log (false, holds) d differs held = (held, refl)
      after_claim-Quiet user log (true, holds) d differs held =
          claimed-Quiet user log (record d { holds = holds }) (differs refl) held

      refused_if_same :
          (log : StoredLog) (d : Desk)
          → IsHeld n until d.holds
          → (claim_retry_slot r.clock log.id d.holds).0 ≡ true
          → (log.id == n) ≡ false
      refused_if_same log d held through = elim (Bool-cases (log.id == n)) [
        | inr differs ↦ differs
        | inl same ↦
            let key = eq_of_same log.id n same in
            let refused = ap (λ x. x.0) (claim_held r.clock n until d.holds early held) in
            cc (refused, through, ap (λ k. (claim_retry_slot r.clock k d.holds).0) key)
      ]

      with_log-Quiet :
          (user : ℕ) (log : Option StoredLog) (d : Desk)
          → IsHeld n until d.holds
          → Quiet d (with_log r b user log d).1
      with_log-Quiet user none d held = (held, refl)
      with_log-Quiet user (some log) d held =
          if_cases (λ (x : Response × Desk). Quiet d x.1)
            (not (log.user_id == user) || is_success log.status) (λ other. (held, refl))
            λ mine.
              after_claim-Quiet user log (claim_retry_slot r.clock log.id d.holds) d
                (refused_if_same log d held)
                (happen-IsHeld (click r.clock log.id) n until d.holds early held)

      logged_in-Quiet :
          (logs : List StoredLog) (u : Option ℕ) (d : Desk)
          → IsHeld n until d.holds
          → Quiet d (logged_in r logs b u d).1
      logged_in-Quiet logs none d held = (held, refl)
      logged_in-Quiet logs (some user) d held =
          if_cases (λ (x : Response × Desk). Quiet d x.1) r.same_origin
            (λ origin. with_log-Quiet user (asked_log r.log_id logs) d held) (λ other. (held, refl))

-- A click, with the tables as they are at it.
pub record Visit : Type 0 where
  pub request : Request
  pub logs : List StoredLog
  pub tables : Base

unfoldable pub serve : List Visit → Desk → Desk
unfolding history_retry
serve [] d = d
serve (v ∷ vs) d = serve vs (history_retry v.request v.logs v.tables d).1

abbrev pub IsBefore : ℕ → Visit → Type 0
IsBefore until v = v.request.clock < until

serve-Quiet :
    (n until : ℕ) (vs : List Visit) (d : Desk)
    → All (IsBefore until) vs
    → IsHeld n until d.holds
    → handed_for n (serve vs d) ≡ handed_for n d
unfolding serve history_retry
serve-Quiet n until [] d early held = refl
serve-Quiet n until (v ∷ vs) d (first, later) held =
    let q = logged_in-Quiet n until v.request first v.tables v.logs v.request.user d held in
    serve-Quiet n until vs _ later q.0 ∙ q.1

-- A click that hands a task of the record over leaves the record held.
module _ (n : ℕ) (r : Request) (b : Base) where
  abbrev Holds : Desk → Desk → Type 0
  Holds d d' = handed_for n d' ≡ handed_for n d + 1 → IsHeld n (r.clock + retry_cooldown) d'.holds

  nothing_handed : (d d' : Desk) → handed_for n d' ≡ handed_for n d → Holds d d'
  nothing_handed d d' e more = absurd (omega (arith, e, more))

  handed_same :
      (user : ℕ) (log : StoredLog) (d : Desk)
      → handed_for n (hand_over user log d) ≡ handed_for n d + 1
      → log.id ≡ n
  handed_same user log d more =
      ground (arith, count-append_one (is_task_of n) d.handed (log.id, user), more)

  deliver-Holds :
      (v : Delivery) (user : ℕ) (log : StoredLog) (d : Desk)
      → (log.id ≡ n → IsHeld n (r.clock + retry_cooldown) d.holds)
      → Holds d (deliver v user log d).1
  deliver-Holds taken user log d held more = held (handed_same user log d more)
  deliver-Holds not_connected user log d held more = absurd (omega (arith, more))
  deliver-Holds unclear user log d held more = held (handed_same user log d more)

  admitted-Holds :
      (v : Verdict × Store) (user : ℕ) (log : StoredLog) (d : Desk)
      → (log.id ≡ n → IsHeld n (r.clock + retry_cooldown) d.holds)
      → Holds d (admitted r v user log d).1
  admitted-Holds (allowed, s) user log d held =
      deliver-Holds r.delivery user log (record d { store = s }) held
  admitted-Holds (access_closed, s) user log d held =
      nothing_handed d (released log (record d { store = s })) refl

  claimed-Holds :
      (user : ℕ) (log : StoredLog) (d : Desk)
      → (log.id ≡ n → IsHeld n (r.clock + retry_cooldown) d.holds)
      → Holds d (claimed r b user log d).1
  claimed-Holds user log d held =
      if_cases (λ (x : Response × Desk). Holds d x.1) (can_repeat user log b)
        (λ fit. admitted-Holds _ user log d held) (λ gone. nothing_handed d (released log d) refl)

  after_claim-Holds :
      (user : ℕ) (log : StoredLog) (c : Bool × List Hold) (d : Desk)
      → (c.0 ≡ true → log.id ≡ n → IsHeld n (r.clock + retry_cooldown) c.1)
      → Holds d (after_claim r b user log c d).1
  after_claim-Holds user log (false, holds) d held =
      nothing_handed d (record d { holds = holds }) refl
  after_claim-Holds user log (true, holds) d held =
      claimed-Holds user log (record d { holds = holds }) (held refl)

  claim_same :
      (log : StoredLog) (d : Desk)
      → (claim_retry_slot r.clock log.id d.holds).0 ≡ true
      → log.id ≡ n
      → IsHeld n (r.clock + retry_cooldown) (claim_retry_slot r.clock log.id d.holds).1
  claim_same log d through key =
      subst (λ k. IsHeld k (r.clock + retry_cooldown) (claim_retry_slot r.clock log.id d.holds).1)
        key (claim-IsHeld r.clock log.id d.holds through)

  with_log-Holds :
      (user : ℕ) (log : Option StoredLog) (d : Desk) → Holds d (with_log r b user log d).1
  with_log-Holds user none d = nothing_handed d d refl
  with_log-Holds user (some log) d =
      if_cases (λ (x : Response × Desk). Holds d x.1)
        (not (log.user_id == user) || is_success log.status) (λ other. nothing_handed d d refl)
        λ mine.
          after_claim-Holds user log (claim_retry_slot r.clock log.id d.holds) d (claim_same log d)

  logged_in-Holds :
      (logs : List StoredLog) (u : Option ℕ) (d : Desk) → Holds d (logged_in r logs b u d).1
  logged_in-Holds logs none d = nothing_handed d d refl
  logged_in-Holds logs (some user) d =
      if_cases (λ (x : Response × Desk). Holds d x.1) r.same_origin
        (λ origin. with_log-Holds user (asked_log r.log_id logs) d)
        (λ other. nothing_handed d d refl)

-- A click that hands a repeat of a record to the broker is the only one for a minute: of the clicks
-- that are served after it and before the minute is over, by whomever, on whatever records and
-- whatever the tables and the broker do, none hands over a repeat of that record.
pub history_retry-once :
    (n : ℕ) (r : Request) (logs : List StoredLog) (b : Base) (d : Desk) (vs : List Visit)
    → handed_for n (history_retry r logs b d).1 ≡ handed_for n d + 1
    → All (IsBefore (r.clock + retry_cooldown)) vs
    → handed_for n (serve vs (history_retry r logs b d).1)
      ≡ handed_for n (history_retry r logs b d).1
unfolding history_retry
history_retry-once n r logs b d vs handed early =
    serve-Quiet n (r.clock + retry_cooldown) vs _ early (logged_in-Holds n r b logs r.user d handed)
