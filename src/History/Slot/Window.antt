-- ===== src/History/Slot/Window.antt =====
-- A hold lasts for its window, whatever else happens, and no longer (app/pages/history.py).
use broadcaster.Prelude.{
  ℕ, ◌+◌, ◌<◌, ◌≡◌, ◌∙◌, refl, ap, Bool, true, false, not, some, List, [], ◌∷◌, find, All, ltb, leb,
  ◌==◌, arith, Bool-cases, if_cases, inl, inr, find-select,
}
use broadcaster.History.Slot.{
  Hold, Event, click, release, happen, run, put, sweep, is_held, is_hold_of, retry_cooldown,
  claim_retry_slot, release_retry_slot,
}

abbrev pub hold : ℕ → ℕ → Hold
hold log_id until = record { log_id = log_id; until = until }

-- The record is held until the moment.
abbrev pub IsHeld : ℕ → ℕ → List Hold → Type 0
IsHeld log_id until hs = find (is_hold_of log_id) hs ≡ some (hold log_id until)

-- The event comes before the moment, and does not release the record.
abbrev pub Keeps : ℕ → ℕ → Event → Type 0
Keeps log_id until (click now other) = now < until
Keeps log_id until (release other) = (other == log_id) ≡ false

put-IsHeld : (log_id until : ℕ) (hs : List Hold) → IsHeld log_id until (put log_id until hs)
unfolding put find
put-IsHeld log_id until [] = ground arith
put-IsHeld log_id until (h ∷ hs) = ground (arith, put-IsHeld log_id until hs)

put_other :
    (log_id other until : ℕ) (hs : List Hold)
    → (other == log_id) ≡ false
    → find (is_hold_of log_id) (put other until hs) ≡ find (is_hold_of log_id) hs
unfolding put find
put_other log_id other until [] e = ground arith
put_other log_id other until (h ∷ hs) e = ground (arith, put_other log_id other until hs)

sweep-IsHeld :
    (now log_id until : ℕ) (hs : List Hold)
    → now < until
    → IsHeld log_id until hs
    → IsHeld log_id until (sweep now hs)
sweep-IsHeld now log_id until hs early held =
    find-select (is_hold_of log_id) (λ h. not (leb h.until now)) hs (hold log_id until) held
      (ground arith)

pub release-IsHeld :
    (other log_id until : ℕ) (hs : List Hold)
    → (other == log_id) ≡ false
    → IsHeld log_id until hs
    → IsHeld log_id until (release_retry_slot other hs)
unfolding release_retry_slot
release-IsHeld other log_id until hs differs held =
    find-select (is_hold_of log_id) (λ h. not (is_hold_of other h)) hs (hold log_id until) held
      (ground arith)

-- A claim of a held record is refused, and leaves the hold.
pub claim_held :
    (now log_id until : ℕ) (hs : List Hold)
    → now < until
    → IsHeld log_id until hs
    → claim_retry_slot now log_id hs ≡ (false, sweep now hs)
unfolding claim_retry_slot
claim_held now log_id until hs early held =
    rw (sweep-IsHeld now log_id until hs early held) (ground arith)

pub eq_of_same : (a b : ℕ) → (a == b) ≡ true → a ≡ b
eq_of_same a b h = ground arith

find_same :
    (other log_id until : ℕ) (hs : List Hold)
    → other ≡ log_id
    → IsHeld log_id until hs
    → find (is_hold_of other) hs ≡ some (hold log_id until)
find_same other log_id until hs e held = rw e held

held_now : (now until : ℕ) {b : Bool} → now < until → b ≡ ltb now until → b ≡ false → ⊥
held_now now until early e h = ground arith

pub happen-IsHeld :
    (e : Event) (log_id until : ℕ) (hs : List Hold)
    → Keeps log_id until e
    → IsHeld log_id until hs
    → IsHeld log_id until (happen e hs)
unfolding claim_retry_slot
happen-IsHeld (release other) log_id until hs k held = release-IsHeld other log_id until hs k held
happen-IsHeld (click now other) log_id until hs k held =
    let live = sweep-IsHeld now log_id until hs k held in
    if_cases (λ (r : Bool × List Hold). IsHeld log_id until r.1)
      (is_held now (find (is_hold_of other) (sweep now hs))) (λ busy. live)
      λ free. elim (Bool-cases (other == log_id)) [
        | inr differs ↦ put_other log_id other (now + retry_cooldown) (sweep now hs) differs ∙ live
        | inl e ↦ absurd (
            let found =
              find_same other log_id until (sweep now hs) (eq_of_same other log_id e) live in
            held_now now until k (ap (is_held now) found ∙ refl) free)
      ]

run-IsHeld :
    (es : List Event) (log_id until : ℕ) (hs : List Hold)
    → All (Keeps log_id until) es
    → IsHeld log_id until hs
    → IsHeld log_id until (run es hs)
unfolding run
run-IsHeld [] log_id until hs k held = held
run-IsHeld (e ∷ es) log_id until hs (k, ks) held =
    run-IsHeld es log_id until (happen e hs) ks (happen-IsHeld e log_id until hs k held)

pub claim-IsHeld :
    (now log_id : ℕ) (hs : List Hold)
    → (claim_retry_slot now log_id hs).0 ≡ true
    → IsHeld log_id (now + retry_cooldown) (claim_retry_slot now log_id hs).1
unfolding claim_retry_slot
claim-IsHeld now log_id hs =
    if_cases (λ (r : Bool × List Hold). r.0 ≡ true → IsHeld log_id (now + retry_cooldown) r.1)
      (is_held now (find (is_hold_of log_id) (sweep now hs))) (λ busy refused. cc refused)
      (λ free first. put-IsHeld log_id (now + retry_cooldown) (sweep now hs))

-- A repeat that was let through holds its record for a minute: whatever clicks on any records come
-- in between, and whatever releases of other records, a click on it before the minute is over is
-- refused.
pub claim_retry_slot-held :
    (now log_id : ℕ) (hs : List Hold) (es : List Event) (again : ℕ)
    → (claim_retry_slot now log_id hs).0 ≡ true
    → All (Keeps log_id (now + retry_cooldown)) es
    → again < now + retry_cooldown
    → (claim_retry_slot again log_id (run es (claim_retry_slot now log_id hs).1)).0 ≡ false
claim_retry_slot-held now log_id hs es again first keeps early =
    ap (λ r. r.0)
      (claim_held again log_id (now + retry_cooldown) _ early
        (run-IsHeld es log_id (now + retry_cooldown) _ keeps (claim-IsHeld now log_id hs first)))
