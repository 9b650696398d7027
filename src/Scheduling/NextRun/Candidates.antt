-- ===== src/Scheduling/NextRun/Candidates.antt =====
-- What the loops of `compute_next_run_at` gather: the moments after now, on a chosen day and at a
-- chosen time, of the dates looked at.
use broadcaster.Prelude.{
  ℕ, zero, suc, ◌+◌, ◌*◌, ◌/◌, ◌%◌, ◌≤◌, ◌<◌, ◌≡◌, refl, Bool, true, false, ◌||◌, ◌&&◌, leb, none,
  some, List, [], ◌∷◌, ◌++◌, map, select, All, arith, ltb, ◌==◌, Bool-cases, Option-cases, ap, inl,
  inr,
}
use broadcaster.Prelude.Int.{ℤ}
use broadcaster.Calendar.{micros_per_day}
use broadcaster.Scheduling.NextRun.{weekday, has_day, slots, candidates, earliest}

-- Membership of a number.
unfoldable pub elem : ℕ → List ℕ → Bool
elem w [] = false
elem w (v ∷ vs) = (v == w) || elem w vs

pub elem-append : (w : ℕ) (vs us : List ℕ) → elem w (vs ++ us) ≡ (elem w vs || elem w us)
unfolding elem
elem-append w [] us = refl
elem-append w (v ∷ vs) us = ground (arith, elem-append w vs us)

-- Every time is a time of day.
abbrev pub AreTimes : List ℕ → Type 0
AreTimes times = All (λ t. t < micros_per_day) times

-- A moment of the schedule after now.
abbrev pub IsRun : List ℤ → List ℕ → ℕ → ℕ → Type 0
IsRun days times now w =
    (has_day days (weekday (w / micros_per_day)) ≡ true)
    × (elem (w % micros_per_day) times ≡ true)
    × (now < w)

elem-select :
    (now w : ℕ) (vs : List ℕ) → elem w (select (λ v. ltb now v) vs) ≡ (ltb now w && elem w vs)
unfolding select elem
elem-select now w [] = ground arith
elem-select now w (v ∷ vs) = ground (arith, elem-select now w vs)

same_slot :
    (d t w : ℕ)
    → t < micros_per_day
    → (d * micros_per_day + t == w) ≡ ((w / micros_per_day == d) && (t == w % micros_per_day))
same_slot d t w h = ground arith

elem-map :
    (d w : ℕ) (times : List ℕ)
    → AreTimes times
    → elem w (map (λ t. d * micros_per_day + t) times)
      ≡ ((w / micros_per_day == d) && elem (w % micros_per_day) times)
unfolding elem
elem-map d w [] h = ground arith
elem-map d w (t ∷ times) h = ground (arith, same_slot d t w h.0, elem-map d w times h.1)

elem-slots :
    (d : ℕ) (times : List ℕ) (now w : ℕ)
    → AreTimes times
    → elem w (slots d times now)
      ≡ (ltb now w && ((w / micros_per_day == d) && elem (w % micros_per_day) times))
unfolding slots
elem-slots d times now w h =
    ground
      (arith, elem-select now w (map (λ t. d * micros_per_day + t) times), elem-map d w times h)

same_day : (days : List ℤ) (d e : ℕ) → d ≡ e → has_day days (weekday d) ≡ has_day days (weekday e)
same_day days d e same = ap (λ k. has_day days (weekday k)) same

-- What the loop over the dates gathers, exactly.
pub elem-candidates :
    (days : List ℤ) (times : List ℕ) (now d left w : ℕ)
    → AreTimes times
    → elem w (candidates days times now d left) ≡ (
        leb d (w / micros_per_day)
        && ltb (w / micros_per_day) (d + left)
        && (has_day days (weekday (w / micros_per_day))
            && (elem (w % micros_per_day) times && ltb now w)))
unfolding candidates elem
elem-candidates days times now d zero w h = no_window
  where
    no_window : false ≡ (
        leb d (w / micros_per_day)
        && ltb (w / micros_per_day) (d + 0)
        && (has_day days (weekday (w / micros_per_day))
            && (elem (w % micros_per_day) times && ltb now w)))
    no_window = ground arith
elem-candidates days times now d (suc left) w h = elim (Bool-cases (has_day days (weekday d))) [
  | inl chosen ↦
      rw
        (
          chosen,
          elem-append,
          elem-slots d times now w h,
          elem-candidates days times now (d + 1) left w h,
        )
        (ground (arith, same_day days d (w / micros_per_day)))
  | inr skipped ↦
      rw (skipped, elem-candidates days times now (d + 1) left w h)
        (ground (arith, same_day days d (w / micros_per_day)))
]

pub earliest-none : (vs : List ℕ) → earliest vs ≡ none → (w : ℕ) → elem w vs ≡ false
unfolding earliest elem
earliest-none [] e w = refl
earliest-none (v ∷ vs) e w = cc

-- The least of a list.
pub earliest-some :
    (vs : List ℕ) (m : ℕ)
    → earliest vs ≡ some m
    → (elem m vs ≡ true) × ((w : ℕ) → elem w vs ≡ true → m ≤ w)
unfolding earliest elem
earliest-some [] m e = cc
earliest-some (v ∷ vs) m e = elim (Option-cases (earliest vs)) [
  | inl empty ↦ (ground (arith, empty), λ w h. ground (arith, empty, earliest-none vs empty w))
  | inr (l, found) ↦
      let rest = earliest-some vs l found in
      (ground (arith, found, rest.0), λ w h. ground (arith, found, rest.0, rest.1 w))
]
