-- ===== src/Scheduling/Collect/Direct.antt =====
-- The memory of verdicts is an economy alone: a tick gives what it would give if each schedule
-- asked for its own.
use broadcaster.Prelude.{
  ℕ, ◌≡◌, refl, ap, Bool, Option, none, some, List, [], ◌∷◌, arith, if◌then◌else◌,
}
use broadcaster.Scheduling.NextRun.{Result, ok}
use broadcaster.Scheduling.Collect.{
  Ad, Account, Schedule, DispatchTask, Base, World, Verdicts, checked, ask, user_send_verdict,
  group_tasks, sendable, ad_of, account_of, is_due, moved, kept, next_run, schedule_tasks, collect,
  committed, collect_due_schedules,
}

module _ (world : World) (b : Base) where
  -- What a schedule sends, where its ad, account and user admit it.
  abbrev pub admitted_tasks : Option (Ad × Account) → Schedule → List DispatchTask
  admitted_tasks none s = []
  admitted_tasks (some (ad, account)) s =
      if user_send_verdict world b ad.user_id
      then group_tasks world b ad account s s.group_ids
      else []

  abbrev pub own_tasks : Schedule → List DispatchTask
  own_tasks s = admitted_tasks (sendable (ad_of s.ad_id b) (account_of s.account_id b)) s

  -- The tick without a memory.
  unfoldable pub direct : ℕ → List Schedule → Result (List DispatchTask × List Schedule)
  direct now [] = ok ([], [])
  direct now (s ∷ ss) =
      let rest = direct now ss in
      if is_due now s then moved s (next_run world b now s) rest (own_tasks s) else kept s rest

  -- Every verdict remembered is the one that would be given.
  abbrev AreTrue : Verdicts → Type 0
  AreTrue vs =
      (u : ℕ) (allowed : Bool) → checked u vs ≡ some allowed → allowed ≡ user_send_verdict world b u

  ask_remembers :
      (u : ℕ) (vs : Verdicts) (o : Option Bool)
      → checked u vs ≡ o
      → AreTrue vs
      → ((ask world b o u vs).0 ≡ user_send_verdict world b u) × AreTrue (ask world b o u vs).1
  unfolding checked
  ask_remembers u vs none e true_so_far = (
    refl,
    λ v allowed h.
        ground (arith, true_so_far v allowed, ap (λ (x : ℕ). user_send_verdict world b x)),
  )
  ask_remembers u vs (some allowed) e true_so_far = (true_so_far u allowed e, true_so_far)

  schedule_tasks-admitted_tasks :
      (o : Option (Ad × Account)) (s : Schedule) (vs : Verdicts)
      → AreTrue vs
      → ((schedule_tasks world b o s vs).0 ≡ admitted_tasks o s)
        × AreTrue (schedule_tasks world b o s vs).1
  schedule_tasks-admitted_tasks none s vs true_so_far = (refl, true_so_far)
  schedule_tasks-admitted_tasks (some (ad, account)) s vs true_so_far =
      let asked = ask_remembers ad.user_id vs (checked ad.user_id vs) refl true_so_far in
      (rw asked.0 refl, asked.1)

  collect-direct :
      (now : ℕ) (ss : List Schedule) (vs : Verdicts)
      → AreTrue vs
      → collect world b now ss vs ≡ direct now ss
  unfolding collect direct
  collect-direct now [] vs true_so_far = refl
  collect-direct now (s ∷ ss) vs true_so_far =
      let own =
        schedule_tasks-admitted_tasks (sendable (ad_of s.ad_id b) (account_of s.account_id b)) s vs
          true_so_far in
      rw (collect-direct now ss _ own.1, collect-direct now ss vs true_so_far, own.0) refl

  -- The tick gives what it would give if it asked for each schedule anew: the same tasks in the same order, the same next moments, or the same error.
  pub collect_due_schedules-direct :
      (now : ℕ) → collect_due_schedules world b now ≡ committed b (direct now b.schedules)
  unfolding collect_due_schedules checked
  collect_due_schedules-direct now = rw (collect-direct now b.schedules [] nothing_yet) refl
    where
      nothing_yet :
          (u : ℕ) (allowed : Bool)
          → checked u [] ≡ some allowed
          → allowed ≡ user_send_verdict world b u
      nothing_yet u allowed e = cc
