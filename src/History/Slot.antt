-- ===== src/History/Slot.antt =====
-- The register of held repeats (app/pages/history.py, `_claim_retry_slot` and `_release_retry_slot`).
-- The register is the dictionary of the process, the monotonic clock counts milliseconds.
pub mod Window
use broadcaster.Prelude.{
  ℕ, ◌+◌, Bool, true, false, not, Option, none, some, List, [], ◌∷◌, ◌++◌, find, select, count,
  modify, ltb, leb, ◌==◌, if◌then◌else◌,
}

-- An entry of `_RETRY_IN_FLIGHT`: the record's key, and the moment until which it is held.
pub record Hold : Type 0 where
  pub log_id : ℕ
  pub until : ℕ

-- `RETRY_COOLDOWN_SECONDS`
abbrev pub retry_cooldown : ℕ
retry_cooldown = 60000

abbrev pub is_hold_of : ℕ → Hold → Bool
is_hold_of log_id h = h.log_id == log_id

-- `_RETRY_IN_FLIGHT[log_id] = until`
unfoldable pub put : ℕ → ℕ → List Hold → List Hold
put log_id until [] = record { log_id = log_id; until = until } ∷ []
put log_id until (h ∷ hs) =
    if is_hold_of log_id h then record h { until = until } ∷ hs else h ∷ put log_id until hs

-- The sweep of the holds that have ended.
abbrev pub sweep : ℕ → List Hold → List Hold
sweep now hs = select (λ (h : Hold). not (leb h.until now)) hs

abbrev pub is_held : ℕ → Option Hold → Bool
is_held now none = false
is_held now (some h) = ltb now h.until

unfoldable pub claim_retry_slot : ℕ → ℕ → List Hold → Bool × List Hold
claim_retry_slot now log_id hs =
    let live = sweep now hs in
    if is_held now (find (is_hold_of log_id) live)
    then (false, live)
    else (true, put log_id (now + retry_cooldown) live)

-- `_RETRY_IN_FLIGHT.pop(log_id, None)`
unfoldable pub release_retry_slot : ℕ → List Hold → List Hold
release_retry_slot log_id hs = select (λ h. not (is_hold_of log_id h)) hs

-- What happens to the register: a click on some record at some moment, or a release.
pub data Event : Type 0 where
  click : ℕ → ℕ → Event
  release : ℕ → Event

abbrev pub happen : Event → List Hold → List Hold
happen (click now log_id) hs = (claim_retry_slot now log_id hs).1
happen (release log_id) hs = release_retry_slot log_id hs

unfoldable pub run : List Event → List Hold → List Hold
run [] hs = hs
run (e ∷ es) hs = run es (happen e hs)
