-- ===== src/Scheduling/NextRun.antt =====
-- The next moment of a schedule (app/services/schedule_service.py, `compute_next_run_at`). A text
-- is the list of its code points. A wall-clock moment is the number of microseconds since the
-- start of the day with ordinal 0 (`date.toordinal`), a UTC moment likewise; Python compares the
-- candidates and `now` by the wall clock, since they share one `tzinfo`. The database of zones and
-- `int` of a text are not in the repository: they are arguments.
pub mod Candidates
pub mod Laws
pub mod First
use broadcaster.Prelude.{
  ℕ, zero, suc, ◌+◌, ◌*◌, ◌/◌, ◌%◌, Bool, true, false, ◌&&◌, ◌||◌, Option, none, some, List, [],
  ◌∷◌, ◌++◌, map, select, ltb, ◌==◌, if◌then◌else◌,
}
use broadcaster.Prelude.Int.{ℤ, pos, negsuc}
use broadcaster.Calendar.{micros_per_day}

-- What the function raises: `ValueError`, `IndexError` and `ZoneInfoNotFoundError`.
pub data Raised : Type 0 where
  value_error index_error zone_not_found : Raised

pub data Result {ℓ} (A : Type ℓ) : Type ℓ where
  ok : A → Result A
  raised : Raised → Result A

-- A zone by its two conversions.
pub record Zone : Type 0 where
  pub from_utc : ℕ → ℕ
  pub to_utc : ℕ → ℕ

abbrev pub colon : ℕ
colon = 58

-- `t_str.split(":")`, as its first part and the rest of the parts.
abbrev pub add_to_first : ℕ → List ℕ × List (List ℕ) → List ℕ × List (List ℕ)
add_to_first c (first, parts) = (c ∷ first, parts)

unfoldable pub split_colon : List ℕ → List ℕ × List (List ℕ)
split_colon [] = ([], [])
split_colon (c ∷ cs) =
    let rest = split_colon cs in if c == colon then ([], rest.0 ∷ rest.1) else add_to_first c rest

-- `time(hour, minute)`, in microseconds since midnight; both numbers are checked.
abbrev pub time : Option ℤ → Option ℤ → Result ℕ
time (some (pos h)) (some (pos m)) =
    if ltb h 24 && ltb m 60 then ok (h * 3600000000 + m * 60000000) else raised value_error
time _ _ = raised value_error

abbrev pub cons_time : Result ℕ → Result (List ℕ) → Result (List ℕ)
cons_time (raised e) rest = raised e
cons_time (ok t) (raised e) = raised e
cons_time (ok t) (ok ts) = ok (t ∷ ts)

module _ (int : List ℕ → Option ℤ) where
  abbrev pub parse_parts : List ℕ × List (List ℕ) → Result ℕ
  parse_parts (hour, []) = elim (int hour) [
    | none ↦ raised value_error
    | some h ↦ raised index_error
  ]
  parse_parts (hour, minute ∷ others) = time (int hour) (int minute)

  -- `time(int(parts[0]), int(parts[1]))`
  unfoldable pub parse_time : List ℕ → Result ℕ
  parse_time t = parse_parts (split_colon t)

  -- The loop that fills `parsed_times`.
  unfoldable pub parse_times : List (List ℕ) → Result (List ℕ)
  parse_times [] = ok []
  parse_times (t ∷ ts) = let rest = parse_times ts in cons_time (parse_time t) rest

-- `date.weekday()` of the date with this ordinal
unfoldable pub weekday : ℕ → ℕ
weekday d = (d + 6) % 7

-- `weekday in days_of_week`
unfoldable pub has_day : List ℤ → ℕ → Bool
has_day [] w = false
has_day (pos n ∷ ds) w = (n == w) || has_day ds w
has_day (negsuc n ∷ ds) w = has_day ds w

-- The candidates of one date: `datetime.combine(candidate_date, t, tzinfo=tz)`, kept if after now.
unfoldable pub slots : ℕ → List ℕ → ℕ → List ℕ
slots d times now = select (λ w. ltb now w) (map (λ t. d * micros_per_day + t) times)

-- The loop over the dates, from the date `d` on and `left` of them to go.
unfoldable pub candidates : List ℤ → List ℕ → ℕ → ℕ → ℕ → List ℕ
unfolding slots
candidates days times now d zero = []
candidates days times now d (suc left) =
    let rest = candidates days times now (d + 1) left in
    if has_day days (weekday d) then slots d times now ++ rest else rest

-- `min(candidates)`, and nothing where there are none.
abbrev pub earlier_of : ℕ → Option ℕ → ℕ
earlier_of w none = w
earlier_of w (some v) = if ltb v w then v else w

unfoldable pub earliest : List ℕ → Option ℕ
earliest [] = none
earliest (w ∷ ws) = some (earlier_of w (earliest ws))

-- `range(8)`
abbrev pub lookahead : ℕ
lookahead = 8

-- The earliest candidate, on the wall clock of the zone.
unfoldable pub next_wall : List ℤ → List ℕ → ℕ → Option ℕ
next_wall days times now = earliest (candidates days times now (now / micros_per_day) lookahead)

abbrev pub convert : Zone → Option ℕ → Option ℕ
convert z none = none
convert z (some w) = some (z.to_utc w)

abbrev pub next_of_times : List ℤ → Zone → ℕ → Result (List ℕ) → Result (Option ℕ)
next_of_times days z now (raised e) = raised e
next_of_times days z now (ok times) = ok (convert z (next_wall days times (z.from_utc now)))

abbrev pub in_zone :
    (List ℕ → Option ℤ) → List ℤ → List (List ℕ) → ℕ → Option Zone → Result (Option ℕ)
in_zone int days times now none = raised zone_not_found
in_zone int days times now (some z) = next_of_times days z now (parse_times int times)

-- The zone is looked up before the times are read, and neither where a list is empty.
unfoldable pub compute_next_run_at :
    (List ℕ → Option ℤ) → List ℤ → List (List ℕ) → Option Zone → ℕ → Result (Option ℕ)
compute_next_run_at int [] times found now = ok none
compute_next_run_at int (d ∷ days) [] found now = ok none
compute_next_run_at int (d ∷ days) (t ∷ times) found now =
    in_zone int (d ∷ days) (t ∷ times) now found
