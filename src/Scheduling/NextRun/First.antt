-- ===== src/Scheduling/NextRun/First.antt =====
-- `compute_next_run_at` as its callers see it.
use mathlib.Core.Path.{subst}
use broadcaster.Prelude.{
  ℕ, ◌≤◌, ◌<◌, ◌≡◌, refl, ◌∙◌, true, Option, none, some, List, [], ◌∷◌, Option-cases, inl, inr,
}
use broadcaster.Prelude.Int.{ℤ}
use broadcaster.Calendar.{micros_per_day}
use broadcaster.Scheduling.NextRun.{
  Result, ok, raised, Zone, parse_parts, parse_time, cons_time, parse_times, split_colon, has_day,
  next_wall, convert, next_of_times, compute_next_run_at,
}
use broadcaster.Scheduling.NextRun.Candidates.{elem, AreTimes, IsRun}
use broadcaster.Scheduling.NextRun.Laws.{next_wall-some, next_wall-none, time-bound}

module _ (int : List ℕ → Option ℤ) where
  parts-bound :
      (parts : List ℕ × List (List ℕ)) (t : ℕ) → parse_parts int parts ≡ ok t → t < micros_per_day
  parts-bound (hour, []) t = elim (Option-cases (int hour)) [
    | inl bad ↦ rw (parse_parts, bad) (λ e. cc)
    | inr (h, good) ↦ rw (parse_parts, good) (λ e. cc)
  ]
  parts-bound (hour, minute ∷ others) t = time-bound (int hour) (int minute) t

  pub parse_time-bound : (text : List ℕ) (t : ℕ) → parse_time int text ≡ ok t → t < micros_per_day
  unfolding parse_time
  parse_time-bound text t e = parts-bound (split_colon text) t e

  same_times : {xs ys : List ℕ} → Path (Result (List ℕ)) (ok xs) (ok ys) → AreTimes xs → AreTimes ys
  same_times e h = subst AreTimes (cc e) h

  cons-AreTimes :
      (r : Result ℕ) (rest : Result (List ℕ)) (times : List ℕ)
      → cons_time r rest ≡ ok times
      → ((t : ℕ) → r ≡ ok t → t < micros_per_day)
      → ((ts : List ℕ) → rest ≡ ok ts → AreTimes ts)
      → AreTimes times
  cons-AreTimes (raised x) rest times e hr hs = cc
  cons-AreTimes (ok t) (raised x) times e hr hs = cc
  cons-AreTimes (ok t) (ok ts) [] e hr hs = tt
  cons-AreTimes (ok t) (ok ts) (u ∷ us) e hr hs = same_times e (hr t refl, hs ts refl)

  pub parse_times-AreTimes :
      (texts : List (List ℕ)) (times : List ℕ) → parse_times int texts ≡ ok times → AreTimes times
  unfolding parse_times
  parse_times-AreTimes [] [] e = tt
  parse_times-AreTimes [] (t ∷ times) e = cc
  parse_times-AreTimes (x ∷ texts) times e =
      cons-AreTimes (parse_time int x) (parse_times int texts) times e (parse_time-bound x)
        (parse_times-AreTimes texts)

  -- A schedule that names a day and a time gets past the two early answers.
  in_force :
      (days : List ℤ) (texts : List (List ℕ)) (times : List ℕ) (z : Zone) (now d t : ℕ)
      → parse_times int texts ≡ ok times
      → has_day days d ≡ true
      → elem t times ≡ true
      → compute_next_run_at int days texts (some z) now
        ≡ ok (convert z (next_wall days times (z.from_utc now)))
  unfolding compute_next_run_at has_day parse_times elem
  in_force [] texts times z now w t parsed on at = cc
  in_force (d ∷ days) [] [] z now w t parsed on at = cc
  in_force (d ∷ days) [] (u ∷ us) z now w t parsed on at = cc
  in_force (d ∷ days) (x ∷ texts) times z now w t parsed on at = rw (parsed, next_of_times) refl

  module _ (days : List ℤ) (texts : List (List ℕ)) (times : List ℕ) (z : Zone) (now : ℕ)
      (parsed : parse_times int texts ≡ ok times) where
    are_times : AreTimes times
    are_times = parse_times-AreTimes texts times parsed

    computed :
        (w : ℕ)
        → IsRun days times (z.from_utc now) w
        → compute_next_run_at int days texts (some z) now
          ≡ ok (convert z (next_wall days times (z.from_utc now)))
    computed w run = in_force days texts times z now _ _ parsed run.0 run.1

    -- If the zone is known, the times can be read, and the schedule has any moment to come, near
    -- or far, the function returns one: the first of all to come on the wall clock.
    pub compute_next_run_at_first :
        (w : ℕ)
        → IsRun days times (z.from_utc now) w
        → (m : ℕ) × (compute_next_run_at int days texts (some z) now ≡ ok (some (z.to_utc m)))
          × IsRun days times (z.from_utc now) m
          × ((v : ℕ) → IsRun days times (z.from_utc now) v → m ≤ v)
    compute_next_run_at_first w run = elim (Option-cases (next_wall days times (z.from_utc now))) [
      | inl no_run ↦ absurd (next_wall-none days times (z.from_utc now) are_times no_run w run)
      | inr (m, found) ↦
          let first = next_wall-some days times (z.from_utc now) are_times m found in
          (m, computed w run ∙ rw found refl, first.0, first.1)
    ]

-- A zone that keeps the order of moments to come: what the wall clock shows later is later.
abbrev pub KeepsOrder : ℕ → Zone → Type 0
KeepsOrder now z = (w : ℕ) → z.from_utc now < w → now < z.to_utc w

converted-later :
    (days : List ℤ) (times : List ℕ) (z : Zone) (now u : ℕ)
    → AreTimes times
    → KeepsOrder now z
    → convert z (next_wall days times (z.from_utc now)) ≡ some u
    → now < u
converted-later days times z now u bounds order =
    elim (Option-cases (next_wall days times (z.from_utc now))) [
      | inl no_run ↦ rw (no_run, convert) (λ e. cc)
      | inr (m, found) ↦
          rw (found, convert)
            (λ e.
              subst (λ (x : ℕ). now < x) (cc e)
                (order m (next_wall-some days times (z.from_utc now) bounds m found).0.2))
    ]

-- In a zone that keeps the order of moments to come, the moment that is returned is never now or
-- past.
pub compute_next_run_at-later :
    (int : List ℕ → Option ℤ) (days : List ℤ) (texts : List (List ℕ)) (found : Option Zone)
    (now u : ℕ)
    → ((z : Zone) → found ≡ some z → KeepsOrder now z)
    → compute_next_run_at int days texts found now ≡ ok (some u)
    → now < u
unfolding compute_next_run_at
compute_next_run_at-later int [] texts found now u order e = cc
compute_next_run_at-later int (d ∷ days) [] found now u order e = cc
compute_next_run_at-later int (d ∷ days) (t ∷ texts) none now u order e = cc
compute_next_run_at-later int (d ∷ days) (t ∷ texts) (some z) now u order e =
    of_times (parse_times int (t ∷ texts)) refl e
  where
    of_times :
        (r : Result (List ℕ))
        → parse_times int (t ∷ texts) ≡ r
        → next_of_times (d ∷ days) z now r ≡ ok (some u)
        → now < u
    of_times (raised x) parsed h = cc
    of_times (ok times) parsed h =
        converted-later (d ∷ days) times z now u (parse_times-AreTimes int (t ∷ texts) times parsed)
          (order z refl) (cc h)
