-- ===== src/Scheduling/NextRun/Laws.antt =====
-- The moment that `compute_next_run_at` returns is the first one of the schedule, of all times to
-- come and not of the week looked at only.
use native.Mathlib.Nat.{le_refl}
use broadcaster.Prelude.{
  ℕ, ◌+◌, ◌-◌, ◌*◌, ◌/◌, ◌%◌, ◌≤◌, ◌<◌, ◌≡◌, true, Option, none, some, List, arith, ltb, Bool-cases,
  inl, inr,
}
use broadcaster.Prelude.Int.{ℤ, pos, negsuc}
use broadcaster.Calendar.{micros_per_day}
use broadcaster.Scheduling.NextRun.{ok, time, weekday, candidates, lookahead, next_wall}
use broadcaster.Scheduling.NextRun.Candidates.{
  elem, AreTimes, IsRun, elem-candidates, earliest-some, earliest-none,
}

pub slot_parts :
    (d t : ℕ)
    → t < micros_per_day
    → ((d * micros_per_day + t) / micros_per_day ≡ d)
      × ((d * micros_per_day + t) % micros_per_day ≡ t)
slot_parts d t h = (omega (arith, h), omega (arith, h))

-- The first date after `d` with the weekday of `e`.
abbrev same_weekday : ℕ → ℕ → ℕ
same_weekday d e = d + 1 + (e - (d + 1)) % 7

weekday-same_weekday : (d e : ℕ) → d + 1 ≤ e → weekday (same_weekday d e) ≡ weekday e
unfolding weekday
weekday-same_weekday d e h = omega (arith, h)

module _ (days : List ℤ) (times : List ℕ) (now : ℕ) (all_times : AreTimes times) where
  abbrev Within : ℕ → Type 0
  Within w =
      (v : ℕ) × IsRun days times now v
      × (v ≤ w)
      × (v / micros_per_day < now / micros_per_day + lookahead)

  -- A moment of the schedule that comes later than the week looked at has one before it within
  -- the week.
  week_before : (w : ℕ) → IsRun days times now w → Within w
  week_before w run =
      elim (Bool-cases (ltb (w / micros_per_day) (now / micros_per_day + lookahead))) [
        | inl near ↦ (w, run, le_refl w, ground (arith, near))
        | inr far ↦ earlier (ground (arith, far))
      ]
    where
      d : ℕ
      d = same_weekday (now / micros_per_day) (w / micros_per_day)

      at_d :
          (d * micros_per_day + w % micros_per_day) / micros_per_day ≡ d
          × (d * micros_per_day + w % micros_per_day) % micros_per_day ≡ w % micros_per_day
      at_d = slot_parts d (w % micros_per_day) (omega arith)

      earlier : now / micros_per_day + lookahead ≤ w / micros_per_day → Within w
      earlier far = (
        d * micros_per_day + w % micros_per_day,
        (
          rw
              (
                at_d.0,
                weekday-same_weekday (now / micros_per_day) (w / micros_per_day)
                    (omega (arith, far)),
              )
              run.0,
          rw at_d.1 run.1,
          omega arith,
        ),
        omega (arith, far),
        rw at_d.0 (omega arith),
      )

  in_week :
      (w : ℕ)
      → IsRun days times now w
      → w / micros_per_day < now / micros_per_day + lookahead
      → elem w (candidates days times now (now / micros_per_day) lookahead) ≡ true
  in_week w run near =
      rw (elem-candidates days times now (now / micros_per_day) lookahead w all_times, run.0, run.1)
        (ground (arith, run.2))

  pub next_wall-some :
      (m : ℕ)
      → next_wall days times now ≡ some m
      → IsRun days times now m × ((w : ℕ) → IsRun days times now w → m ≤ w)
  unfolding next_wall
  next_wall-some m e =
      let least = earliest-some _ m e in
      (
        ground (
          arith,
          least.0,
          elem-candidates days times now (now / micros_per_day) lookahead m all_times,
        ),
        λ w run.
            let (v, run_v, before, near) = week_before w run in
            omega (arith, least.1 v (in_week v run_v near)),
      )

  pub next_wall-none : next_wall days times now ≡ none → (w : ℕ) → ¬ IsRun days times now w
  unfolding next_wall
  next_wall-none e w run =
      let (v, run_v, before, near) = week_before w run in
      ground (arith, earliest-none _ e v, in_week v run_v near)

pub time-bound : (h m : Option ℤ) (t : ℕ) → time h m ≡ ok t → t < micros_per_day
time-bound (some (pos h)) (some (pos m)) t e = ground arith
time-bound (some (pos h)) (some (negsuc m)) t e = cc
time-bound (some (pos h)) none t e = cc
time-bound (some (negsuc h)) m t e = cc
time-bound none m t e = cc
