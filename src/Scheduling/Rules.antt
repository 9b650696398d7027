-- ===== src/Scheduling/Rules.antt =====
-- The rules that both entrances of the program put a schedule's values to
-- (app/services/schedule_rules.py). `\d` of Python's `re` takes any decimal digit of Unicode: which
-- code points those are, and what `int` makes of a text, are arguments. `$` also stands before one
-- newline at the end of the text.
pub mod Runnable
use broadcaster.Prelude.{
  ℕ, Bool, true, false, ◌&&◌, ◌||◌, not, Option, none, some, List, [], ◌∷◌, select, leb, ltb, ◌==◌,
  if◌then◌else◌, count,
}
use broadcaster.Prelude.Int.{ℤ, pos, negsuc}
use broadcaster.Scheduling.NextRun.{Result, ok, raised, Zone, compute_next_run_at, colon}

-- A value of a JSON document; `True` is an `int` in Python, and is told apart.
pub data Value : Type 0 where
  whole : ℤ → Value
  truth : Bool → Value
  text : List ℕ → Value
  other_value : Value

unfoldable pub is_valid_day_of_week : Value → Bool
is_valid_day_of_week (whole (pos n)) = leb n 6
is_valid_day_of_week _ = false

-- A code point of the class `[a-b]`.
abbrev pub in_class : ℕ → ℕ → ℕ → Bool
in_class a b c = leb a c && leb c b

-- The end of the text, or one newline there.
abbrev pub at_end : List ℕ → Bool
at_end [] = true
at_end (c ∷ []) = c == 10
at_end (c ∷ d ∷ rest) = false

module _ (is_digit : ℕ → Bool) where
  -- `([01]\d|2[0-3])`
  abbrev pub is_hour : ℕ → ℕ → Bool
  is_hour a b = (in_class 48 49 a && is_digit b) || ((a == 50) && in_class 48 51 b)

  -- `TIME_OF_DAY_RE.match`
  abbrev pub matches : List ℕ → Bool
  matches (a ∷ b ∷ c ∷ d ∷ e ∷ rest) =
      is_hour a b && ((c == colon) && (in_class 48 53 d && (is_digit e && at_end rest)))
  matches _ = false

  unfoldable pub is_valid_time_of_day : Value → Bool
  is_valid_time_of_day (text t) = matches t
  is_valid_time_of_day _ = false

abbrev pub is_empty {ℓ} : {A : Type ℓ} → List A → Bool
is_empty [] = true
is_empty (x ∷ xs) = false

-- An account's identifier counts unless it is 0.
abbrev pub names_account : Option ℕ → Bool
names_account none = false
names_account (some i) = not (i == 0)

unfoldable pub is_schedule_complete : Option ℕ → List ℕ → List ℤ → List (List ℕ) → Bool
is_schedule_complete account_id group_ids days_of_week times_of_day =
    names_account account_id
    && (not (is_empty group_ids) && (not (is_empty days_of_week) && not (is_empty times_of_day)))

-- Whatever `compute_next_run_at` raises stands for no moment.
abbrev pub or_none : Result (Option ℕ) → Option ℕ
or_none (raised e) = none
or_none (ok next) = next

unfoldable pub next_run_or_none :
    (List ℕ → Option ℤ) → List ℤ → List (List ℕ) → Option Zone → ℕ → Option ℕ
next_run_or_none int days times found now = or_none (compute_next_run_at int days times found now)
