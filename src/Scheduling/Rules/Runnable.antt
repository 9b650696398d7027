-- ===== src/Scheduling/Rules/Runnable.antt =====
-- What the rules let through can be run: a schedule of valid values that names a day and a time has
-- a next moment, which is the first one of all to come.
use mathlib.Core.Path.{subst}
use broadcaster.Prelude.{
  ℕ, suc, ◌+◌, ◌-◌, ◌*◌, ◌%◌, ◌/◌, ◌≤◌, ◌<◌, ◌≡◌, refl, sym, ◌∙◌, Bool, true, false, ◌&&◌, Option,
  some, List, [], ◌∷◌, All, length, arith, ◌==◌, Bool-cases, ap, inl, inr,
}
use broadcaster.Prelude.Int.{ℤ, pos, negsuc}
use broadcaster.Calendar.{micros_per_day}
use broadcaster.Scheduling.NextRun.{
  ok, Zone, parse_parts, parse_time, parse_times, cons_time, split_colon, weekday, has_day, colon,
}
use broadcaster.Scheduling.NextRun.Candidates.{elem, AreTimes, IsRun}
use broadcaster.Scheduling.NextRun.First.{compute_next_run_at_first, parse_times-AreTimes}
use broadcaster.Scheduling.NextRun.Laws.{slot_parts}
use broadcaster.Scheduling.Rules.{
  whole, text, is_valid_day_of_week, is_valid_time_of_day, is_hour, in_class, next_run_or_none,
  is_empty,
}

-- What Python documents of the digits and of `int`: the value of a digit is below 10, `0` to `9`
-- are digits with their values, `:` is none, two digits are read in base 10, and blanks around
-- them are passed over.
pub record IsInt (is_digit : ℕ → Bool) (value : ℕ → ℕ) (int : List ℕ → Option ℤ) : Type 0 where
  pub digit_value : (c : ℕ) → is_digit c ≡ true → value c ≤ 9
  pub ascii_digit : (k : ℕ) → k ≤ 9 → (is_digit (48 + k) ≡ true) × (value (48 + k) ≡ k)
  pub not_colon : is_digit colon ≡ false
  pub two_digits :
      (a b : ℕ)
      → is_digit a ≡ true
      → is_digit b ≡ true
      → int (a ∷ b ∷ []) ≡ some (pos (10 * value a + value b))
  pub trailing_newline :
      (a b : ℕ) → is_digit a ≡ true → is_digit b ≡ true → int (a ∷ b ∷ 10 ∷ []) ≡ int (a ∷ b ∷ [])

-- A date after `d` with the weekday `n`.
abbrev date_with : ℕ → ℕ → ℕ
date_with d n = d + 1 + (n + 7 - weekday (d + 1)) % 7

weekday-date_with : (d n : ℕ) → n ≤ 6 → weekday (date_with d n) ≡ n
unfolding weekday
weekday-date_with d n h = omega (arith, h)

-- A schedule that names a valid day and a time has a moment to come.
some-IsRun :
    (days : List ℤ) (times : List ℕ) (now : ℕ)
    → All (λ d. is_valid_day_of_week (whole d) ≡ true) days
    → AreTimes times
    → is_empty days ≡ false
    → is_empty times ≡ false
    → (w : ℕ) × IsRun days times now w
unfolding is_valid_day_of_week has_day elem
some-IsRun [] times now valid bounds some_day some_time = cc
some-IsRun (negsuc n ∷ days) times now valid bounds some_day some_time = cc
some-IsRun (pos n ∷ days) [] now valid bounds some_day some_time = cc
some-IsRun (pos n ∷ days) (t ∷ times) now valid bounds some_day some_time =
    let d = date_with (now / micros_per_day) n in
    let parts = slot_parts d t bounds.0 in
    (
      d * micros_per_day + t,
      (
        rw (parts.0, weekday-date_with (now / micros_per_day) n (ground (arith, valid.0)))
            (ground arith),
        rw parts.1 (ground arith),
        omega arith,
      ),
    )

kept_nonempty :
    (texts : List (List ℕ)) (times : List ℕ)
    → length times ≡ length texts
    → is_empty texts ≡ false
    → is_empty times ≡ false
kept_nonempty texts (t ∷ times) same some_text = refl
kept_nonempty (x ∷ texts) [] same some_text = absurd (omega (arith, same))
kept_nonempty [] [] same some_text = some_text

-- Two digits from a class of ASCII digits.
module _ (is_digit : ℕ → Bool) (value : ℕ → ℕ) (int : List ℕ → Option ℤ)
    (reads : IsInt is_digit value int) where
  class_digit :
      (low high c : ℕ)
      → 48 ≤ low
      → high ≤ 57
      → in_class low high c ≡ true
      → (is_digit c ≡ true) × (48 + value c ≡ c)
  class_digit low high c h k e =
      let known = reads.ascii_digit (c - 48) (ground arith) in
      subst (λ x. (is_digit x ≡ true) × (48 + value x ≡ x)) (ground arith)
        (known.0, rw known.1 refl)

  not_colon : (c : ℕ) → is_digit c ≡ true → (c == colon) ≡ false
  not_colon c digit =
      ground (arith, reads.not_colon, λ (same : c ≡ colon). sym digit ∙ ap is_digit same)

  pair_value :
      (a b : ℕ)
      → is_digit a ≡ true
      → is_digit b ≡ true
      → (int (a ∷ b ∷ []) ≡ some (pos (10 * value a + value b)))
        × ((a == colon) ≡ false)
        × ((b == colon) ≡ false)
  pair_value a b first second =
      (reads.two_digits a b first second, not_colon a first, not_colon b second)

  abbrev Reads : ℕ → ℕ → ℕ → Type 0
  Reads bound a b =
      (h : ℕ) × (h < bound)
      × (int (a ∷ b ∷ []) ≡ some (pos h))
      × (is_digit a ≡ true)
      × (is_digit b ≡ true)

  hour_value : (a b : ℕ) → is_hour is_digit a b ≡ true → Reads 24 a b
  hour_value a b e = elim (Bool-cases (in_class 48 49 a && is_digit b)) [
    | inl early ↦
        let tens = class_digit 48 49 a (omega arith) (omega arith) (ground (arith, early)) in
        let ones : is_digit b ≡ true = ground (arith, early) in
        (
          10 * value a + value b,
          ground (arith, tens.1, reads.digit_value b ones, early),
          reads.two_digits a b tens.0 ones,
          tens.0,
          ones,
        )
    | inr late ↦
        let tens = class_digit 50 50 a (omega arith) (omega arith) (ground (arith, late, e)) in
        let ones = class_digit 48 51 b (omega arith) (omega arith) (ground (arith, late, e)) in
        (
          10 * value a + value b,
          ground (arith, tens.1, ones.1, late, e),
          reads.two_digits a b tens.0 ones.0,
          tens.0,
          ones.0,
        )
  ]

  minute_value : (d e : ℕ) → in_class 48 53 d ≡ true → is_digit e ≡ true → Reads 60 d e
  minute_value d e tens ones =
      let first = class_digit 48 53 d (omega arith) (omega arith) tens in
      (
        10 * value d + value e,
        ground (arith, first.1, reads.digit_value e ones),
        reads.two_digits d e first.0 ones,
        first.0,
        ones,
      )

  time_read :
      (x y : List ℕ) (h m : ℕ)
      → int x ≡ some (pos h)
      → int y ≡ some (pos m)
      → h < 24
      → m < 60
      → parse_parts int (x, y ∷ []) ≡ ok (h * 3600000000 + m * 60000000)
  time_read x y h m hour minute early late =
      rw (parse_parts, hour, minute) (ground (arith, early, late))

  split_five :
      (a b c d e : ℕ)
      → (a == colon) ≡ false
      → (b == colon) ≡ false
      → (c == colon) ≡ true
      → (d == colon) ≡ false
      → (e == colon) ≡ false
      → split_colon (a ∷ b ∷ c ∷ d ∷ e ∷ []) ≡ (a ∷ b ∷ [], (d ∷ e ∷ []) ∷ [])
  unfolding split_colon
  split_five a b c d e ha hb hc hd he = rw (ha, hb, hc, hd, he) refl

  split_six :
      (a b c d e : ℕ)
      → (a == colon) ≡ false
      → (b == colon) ≡ false
      → (c == colon) ≡ true
      → (d == colon) ≡ false
      → (e == colon) ≡ false
      → split_colon (a ∷ b ∷ c ∷ d ∷ e ∷ 10 ∷ []) ≡ (a ∷ b ∷ [], (d ∷ e ∷ 10 ∷ []) ∷ [])
  unfolding split_colon
  split_six a b c d e ha hb hc hd he = rw (ha, hb, hc, hd, he) refl

  abbrev Parses : List ℕ → Type 0
  Parses t = (m : ℕ) × (parse_time int t ≡ ok m)

  parse_five :
      (a b c d e : ℕ)
      → Reads 24 a b
      → (c == colon) ≡ true
      → Reads 60 d e
      → Parses (a ∷ b ∷ c ∷ d ∷ e ∷ [])
  unfolding parse_time
  parse_five a b c d e (h, early, hour, first, second) middle (m, late, minute, third, fourth) = (
    h * 3600000000 + m * 60000000,
    rw
        (split_five a b c d e (not_colon a first) (not_colon b second) middle (not_colon d third)
          (not_colon e fourth))
        (time_read (a ∷ b ∷ []) (d ∷ e ∷ []) h m hour minute early late),
  )

  parse_six :
      (a b c d e : ℕ)
      → Reads 24 a b
      → (c == colon) ≡ true
      → Reads 60 d e
      → Parses (a ∷ b ∷ c ∷ d ∷ e ∷ 10 ∷ [])
  unfolding parse_time
  parse_six a b c d e (h, early, hour, first, second) middle (m, late, minute, third, fourth) = (
    h * 3600000000 + m * 60000000,
    rw
        (split_six a b c d e (not_colon a first) (not_colon b second) middle (not_colon d third)
          (not_colon e fourth))
        (time_read (a ∷ b ∷ []) (d ∷ e ∷ 10 ∷ []) h m hour
          (reads.trailing_newline d e third fourth ∙ minute) early late),
  )

  -- Every time that the rule lets through is read as a time of day.
  pub is_valid_time_of_day-parse_time :
      (t : List ℕ) → is_valid_time_of_day is_digit (text t) ≡ true → Parses t
  unfolding is_valid_time_of_day
  is_valid_time_of_day-parse_time [] valid = cc
  is_valid_time_of_day-parse_time (a ∷ []) valid = cc
  is_valid_time_of_day-parse_time (a ∷ b ∷ []) valid = cc
  is_valid_time_of_day-parse_time (a ∷ b ∷ c ∷ []) valid = cc
  is_valid_time_of_day-parse_time (a ∷ b ∷ c ∷ d ∷ []) valid = cc
  is_valid_time_of_day-parse_time (a ∷ b ∷ c ∷ d ∷ e ∷ []) valid =
      parse_five a b c d e (hour_value a b (ground (arith, valid))) (ground (arith, valid))
        (minute_value d e (ground (arith, valid)) (ground (arith, valid)))
  is_valid_time_of_day-parse_time (a ∷ b ∷ c ∷ d ∷ e ∷ f ∷ []) valid =
      subst (λ x. Parses (a ∷ b ∷ c ∷ d ∷ e ∷ x ∷ [])) (ground (arith, valid))
        (parse_six a b c d e (hour_value a b (ground (arith, valid))) (ground (arith, valid))
          (minute_value d e (ground (arith, valid)) (ground (arith, valid))))
  is_valid_time_of_day-parse_time (a ∷ b ∷ c ∷ d ∷ e ∷ f ∷ g ∷ rest) valid = ground (arith, valid)

  parse-All :
      (texts : List (List ℕ))
      → All (λ t. is_valid_time_of_day is_digit (text t) ≡ true) texts
      → (times : List ℕ) × (parse_times int texts ≡ ok times) × (length times ≡ length texts)
  unfolding parse_times
  parse-All [] valid = ([], refl, refl)
  parse-All (t ∷ texts) valid =
      let (m, read) = is_valid_time_of_day-parse_time t valid.0 in
      let (ms, rest, same) = parse-All texts valid.1 in
      (m ∷ ms, rw (read, rest, cons_time) refl, ap suc same)

  -- A schedule whose values pass the rules, with a day and a time among them, has a next moment at
  -- every moment and in every zone: `next_run_or_none` never takes it for one that cannot run.
  pub next_run_or_none-some :
      (days : List ℤ) (texts : List (List ℕ)) (z : Zone) (now : ℕ)
      → All (λ d. is_valid_day_of_week (whole d) ≡ true) days
      → All (λ t. is_valid_time_of_day is_digit (text t) ≡ true) texts
      → is_empty days ≡ false
      → is_empty texts ≡ false
      → (next : ℕ) × (next_run_or_none int days texts (some z) now ≡ some next)
  unfolding next_run_or_none
  next_run_or_none-some days texts z now valid_days valid_times some_day some_time =
      let (times, parsed, same) = parse-All texts valid_times in
      let (w, run) =
        some-IsRun days times (z.from_utc now) valid_days
          (parse_times-AreTimes int texts times parsed) some_day
          (kept_nonempty texts times same some_time) in
      let (m, found, first, least) =
        compute_next_run_at_first int days texts times z now parsed w run in
      (z.to_utc m, rw found refl)
