-- ===== src/Worker/Dispatch/Lost.antt =====
-- A tick that finds no Redis (app/worker/tasks.py, `check_schedules_async`): the next moments are
-- committed before the dispatch.
use broadcaster.Prelude.{
  ℕ, ◌+◌, ◌≤◌, ◌≡◌, refl, ap, false, some, List, [], ◌∷◌, count, length, arith,
}
use broadcaster.Scheduling.NextRun.{ok, Zone}
use broadcaster.Scheduling.NextRun.First.{KeepsOrder}
use broadcaster.Scheduling.Collect.{DispatchTask, Base, World, collect_due_schedules}
use broadcaster.Scheduling.Collect.Once.{collect_due_schedules-once}
use broadcaster.Worker.Dispatch.{
  Broker, Bucket, all_up, all_down, Dispatched, dispatched, nothing_due, connection_error,
  call_telegram, sort_tasks, unsorted, total_in, push_buckets, dispatch_sorted, dispatch_send_tasks,
  check_schedules, send_out,
}
use broadcaster.Worker.Dispatch.Buckets.{is_routed, total_of-sort_tasks}

module _ (stamp : ℕ → ℕ × ℕ) where
  -- The first call or pipeline that is needed raises.
  sorted-lost :
      (tg unrouted : List DispatchTask) (wa max : List Bucket) (b : Broker)
      → 1 ≤ length tg + total_in wa + total_in max
      → dispatch_sorted stamp all_down
          (record {
            tg_tasks = tg;
            wa_tasks_by_account = wa;
            max_tasks_by_account = max;
            unrouted = unrouted;
          })
          (call_telegram (λ n. false) 0 tg b)
        ≡ (connection_error, b)
  unfolding call_telegram total_in push_buckets
  sorted-lost (t ∷ ts) unrouted wa max b h = refl
  sorted-lost [] unrouted (x ∷ wa) max b h = refl
  sorted-lost [] unrouted [] (x ∷ max) b h = same_number (b.made + 0) (omega arith)
    where
      same_number :
          (n : ℕ)
          → n ≡ b.made
          → ◌≡◌ {A = Dispatched × Broker}
              (connection_error, record b { made = n })
              (connection_error, b)
      same_number n e = ap (λ k. (connection_error, record b { made = k })) e
  sorted-lost [] unrouted [] [] b h = absurd (omega (arith, h))

  dispatch_send_tasks-lost :
      (ts : List DispatchTask) (b : Broker)
      → 1 ≤ count is_routed ts
      → dispatch_send_tasks stamp all_down ts b ≡ (connection_error, b)
  unfolding dispatch_send_tasks
  dispatch_send_tasks-lost ts b h =
      let s = sort_tasks ts unsorted in
      sorted-lost s.tg_tasks s.unrouted s.wa_tasks_by_account s.max_tasks_by_account b
        (omega (arith, total_of-sort_tasks ts, h))

  send_out-lost :
      (ts : List DispatchTask) (b : Broker)
      → 1 ≤ count is_routed ts
      → send_out stamp all_down (ok ts) b ≡ (dispatched connection_error, b)
  unfolding count
  send_out-lost [] b h = absurd (omega arith)
  send_out-lost (t ∷ ts) b h =
      ap (λ r. (dispatched r.0, r.1)) (dispatch_send_tasks-lost (t ∷ ts) b h)

module _ (stamp : ℕ → ℕ × ℕ) (world : World) (now : ℕ)
    (order : (name : List ℕ) (z : Zone) → world.zones name ≡ some z → KeepsOrder now z) where
  -- A tick that collected a task whose account is of a known type and finds no Redis, neither for
  -- Celery nor for the pipelines, hands over nothing: no call is made, every queue stays as it was,
  -- and it ends by the lost connection with the next moments committed. A second tick at that
  -- moment, with Redis back, finds nothing due and sends nothing. The zones must keep the order of
  -- moments to come.
  pub check_schedules-lost :
      (b : Base) (ts : List DispatchTask) (broker : Broker)
      → (collect_due_schedules world b now).0 ≡ ok ts
      → 1 ≤ count is_routed ts
      → (check_schedules stamp world now all_down b broker
          ≡ (dispatched connection_error, broker, (collect_due_schedules world b now).1))
        × ((later : Broker)
            → check_schedules stamp world now all_up (collect_due_schedules world b now).1 later
              ≡ (nothing_due, later, (collect_due_schedules world b now).1))
  unfolding check_schedules
  check_schedules-lost b ts broker e h = (
    rw e (
        ap (λ r. (r.0, r.1, (collect_due_schedules world b now).1))
          (send_out-lost stamp ts broker h)),
    λ later. rw ((collect_due_schedules-once world now order b ts e).1) refl,
  )
