-- ===== src/Scheduling/Collect/Once.antt =====
-- After a tick nothing is due at its moment any more, whatever branch each schedule took.
use mathlib.Core.Path.{subst}
use broadcaster.Prelude.{
  ℕ, ◌<◌, ◌≡◌, refl, sym, ap, ◌∙◌, true, false, inl, inr, Option, none, some, List, [], ◌∷◌, arith,
  All, Bool-cases,
}
use broadcaster.Scheduling.NextRun.{Result, ok, raised, Raised, Zone}
use broadcaster.Scheduling.NextRun.First.{KeepsOrder, compute_next_run_at-later}
use broadcaster.Scheduling.Collect.{
  Schedule, DispatchTask, Base, World, is_due, moved, kept, next_run, committed,
  collect_due_schedules,
}
use broadcaster.Scheduling.Collect.Direct.{direct, collect_due_schedules-direct}
use broadcaster.Scheduling.Collect.Tasks.{IsIn}

-- No schedule of the list is due.
abbrev pub NoneDue : ℕ → List Schedule → Type 0
NoneDue now ss = All (λ s. is_due now s ≡ false) ss

module _ (world : World) (now : ℕ)
    (order : (name : List ℕ) (z : Zone) → world.zones name ≡ some z → KeepsOrder now z) where
  abbrev AfterTick : Result (List DispatchTask × List Schedule) → Type 0
  AfterTick (raised e) = Unit
  AfterTick (ok (tasks, schedules)) = NoneDue now schedules

  not_due_yet :
      (s : Schedule) (o : Option ℕ)
      → ((u : ℕ) → o ≡ some u → now < u)
      → is_due now (record s { next_run_at = o }) ≡ false
  not_due_yet s none later = ground arith
  not_due_yet s (some u) later = ground (arith, later u refl)

  moved-AfterTick :
      (s : Schedule) (r : Result (Option ℕ)) (rest : Result (List DispatchTask × List Schedule))
      (tasks : List DispatchTask)
      → ((u : ℕ) → r ≡ ok (some u) → now < u)
      → AfterTick rest
      → AfterTick (moved s r rest tasks)
  moved-AfterTick s (raised e) rest tasks later held = tt
  moved-AfterTick s (ok next) (raised e) tasks later held = tt
  moved-AfterTick s (ok next) (ok (others, schedules)) tasks later held =
      (not_due_yet s next (λ u e. later u (ap (λ (x : Option ℕ). ok x) e)), held)

  kept-AfterTick :
      (s : Schedule) (rest : Result (List DispatchTask × List Schedule))
      → is_due now s ≡ false
      → AfterTick rest
      → AfterTick (kept s rest)
  kept-AfterTick s (raised e) not_due held = tt
  kept-AfterTick s (ok (tasks, schedules)) not_due held = (not_due, held)

  direct-AfterTick : (b : Base) (ss : List Schedule) → AfterTick (direct world b now ss)
  unfolding direct
  direct-AfterTick b [] = tt
  direct-AfterTick b (s ∷ ss) = elim (Bool-cases (is_due now s)) [
    | inl due ↦ rw due (
        moved-AfterTick s _ _ _
          (λ u e.
            compute_next_run_at-later world.int s.days_of_week s.times_of_day
              (world.zones s.timezone) now u (order s.timezone) e)
          (direct-AfterTick b ss))
    | inr not_due ↦ rw not_due (kept-AfterTick s _ not_due (direct-AfterTick b ss))
  ]

  idle : (b : Base) (ss : List Schedule) → NoneDue now ss → direct world b now ss ≡ ok ([], ss)
  unfolding direct
  idle b [] none_due = refl
  idle b (s ∷ ss) none_due = rw (none_due.0, idle b ss none_due.1) refl

  idle_tick : (b : Base) → NoneDue now b.schedules → collect_due_schedules world b now ≡ (ok [], b)
  idle_tick b none_due =
      collect_due_schedules-direct world b now ∙ rw (idle b b.schedules none_due) refl

  committed-NoneDue :
      (b : Base) (r : Result (List DispatchTask × List Schedule)) (tasks : List DispatchTask)
      → AfterTick r
      → (committed b r).0 ≡ ok tasks
      → NoneDue now (committed b r).1.schedules
  committed-NoneDue b (raised e) tasks held h = cc
  committed-NoneDue b (ok (found, schedules)) tasks held h = held

  -- No backlog: after a tick that ended well no schedule is due at its moment, those of drafts, of
  -- blocked users and of groups that are off included, so a second tick at that moment sends
  -- nothing and writes nothing. The zones must keep the order of moments to come.
  pub collect_due_schedules-once :
      (b : Base) (tasks : List DispatchTask)
      → (collect_due_schedules world b now).0 ≡ ok tasks
      → NoneDue now (collect_due_schedules world b now).1.schedules
        × (collect_due_schedules world (collect_due_schedules world b now).1 now
            ≡ (ok [], (collect_due_schedules world b now).1))
  collect_due_schedules-once b tasks h =
      let none_due = after (collect_due_schedules-direct world b now) in
      (none_due, idle_tick _ none_due)
    where
      after :
          collect_due_schedules world b now ≡ committed b (direct world b now b.schedules)
          → NoneDue now (collect_due_schedules world b now).1.schedules
      after e = rw e (
          committed-NoneDue b (direct world b now b.schedules) tasks
            (direct-AfterTick b b.schedules)
            (sym (ap (λ (x : Result (List DispatchTask) × Base). x.0) e) ∙ h))

-- A schedule of the list whose next moment cannot be computed.
module _ (world : World) (b : Base) (now : ℕ) where
  moved-raised :
      (s : Schedule) (r : Result (Option ℕ)) (rest : Result (List DispatchTask × List Schedule))
      (tasks : List DispatchTask) (e : Raised)
      → rest ≡ raised e
      → (f : Raised) × (moved s r rest tasks ≡ raised f)
  moved-raised s (raised f) rest tasks e h = (f, refl)
  moved-raised s (ok next) (raised f) tasks e h = (f, refl)
  moved-raised s (ok next) (ok (later, schedules)) tasks e h = cc

  direct-raised :
      (ss : List Schedule) (s : Schedule) (e : Raised)
      → IsIn s ss
      → is_due now s ≡ true
      → next_run world b now s ≡ raised e
      → (f : Raised) × (direct world b now ss ≡ raised f)
  unfolding direct
  direct-raised [] s e at due bad = absurd at
  direct-raised (x ∷ ss) s e (inl same) due bad = (e, first (sym same))
    where
      first : x ≡ s → direct world b now (x ∷ ss) ≡ raised e
      first h =
          subst (λ (y : Schedule). direct world b now (y ∷ ss) ≡ raised e) (sym h)
            (rw (due, bad, moved) refl)
  direct-raised (x ∷ ss) s e (inr at) due bad =
      let (f, rest) = direct-raised ss s e at due bad in
      elim (Bool-cases (is_due now x)) [
        | inl due_x ↦ rw due_x (moved-raised x _ _ _ f rest)
        | inr not_due ↦ rw (not_due, rest, kept) (f, refl)
      ]

  -- One due schedule whose stored values cannot be read ends the whole tick: no task of any user
  -- is sent and no next moment is written, so the same tick fails again.
  pub collect_due_schedules-raised :
      (s : Schedule) (e : Raised)
      → IsIn s b.schedules
      → is_due now s ≡ true
      → next_run world b now s ≡ raised e
      → (f : Raised) × (collect_due_schedules world b now ≡ (raised f, b))
  collect_due_schedules-raised s e at due bad =
      let (f, stopped) = direct-raised b.schedules s e at due bad in
      (f, collect_due_schedules-direct world b now ∙ rw stopped refl)
