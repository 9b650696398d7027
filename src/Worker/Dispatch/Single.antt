-- ===== src/Worker/Dispatch/Single.antt =====
-- A dispatch of one task (app/worker/tasks.py, `dispatch_send_tasks`), whether Redis answers or not.
use broadcaster.Prelude.{
  ℕ, ◌+◌, ◌≡◌, ◌∙◌, refl, sym, ap, Bool, true, false, ◌||◌, [], ◌∷◌, count, if◌then◌else◌, arith,
}
use broadcaster.Scheduling.Collect.{AccountType, DispatchTask}
use broadcaster.Worker.Dispatch.{
  Broker, Redis, all_up, Dispatched, total, connection_error, call_telegram, apply_async,
  sort_tasks, sort_by, unsorted, set_default, push_buckets, push_tasks, push_wa, dispatch_wa,
  dispatch_max, total_in, dispatch_send_tasks,
}
use broadcaster.Worker.Dispatch.Buckets.{is_tg_user, is_wa, is_max}
use broadcaster.Worker.Dispatch.Routes.{view, route_by, route_all, dispatch_send_tasks-route_all}

-- Whether Redis answers what a task of the type needs.
abbrev pub answers : AccountType → Redis → Bool
answers AccountType.tg_user redis = redis.tg_up 0
answers AccountType.wa redis = redis.wa_up
answers AccountType.max redis = redis.max_up
answers (AccountType.other_type t) redis = true

abbrev pub is_known : AccountType → Bool
is_known y = is_tg_user y || is_wa y || is_max y

module _ (stamp : ℕ → ℕ × ℕ) (t : DispatchTask) (b : Broker) where
  abbrev Same : Redis → Type 0
  Same redis =
      dispatch_send_tasks stamp redis (t ∷ []) b ≡ dispatch_send_tasks stamp all_up (t ∷ []) b

  dispatch-Same :
      (y : AccountType) (redis : Redis) → t.type' ≡ y → answers y redis ≡ true → Same redis
  unfolding dispatch_send_tasks sort_tasks set_default call_telegram total_in push_buckets
      push_tasks
  dispatch-Same AccountType.tg_user redis e h = rw (e, h) (no_pipelines redis.wa_up redis.max_up)
    where
      no_pipelines :
          (wa_up max_up : Bool)
          → dispatch_wa stamp
              (record { tg_up = redis.tg_up; wa_up = wa_up; max_up = max_up })
              (sort_by AccountType.tg_user t unsorted)
              (apply_async t b)
            ≡ dispatch_wa stamp all_up (sort_by AccountType.tg_user t unsorted) (apply_async t b)
      no_pipelines true true = refl
      no_pipelines true false = refl
      no_pipelines false true = refl
      no_pipelines false false = refl
  dispatch-Same AccountType.wa redis e h = rw (e, h) (no_other redis.max_up)
    where
      no_other :
          (max_up : Bool)
          → dispatch_max stamp max_up
              (sort_by AccountType.wa t unsorted)
              (push_wa stamp (set_default t []) b)
            ≡ dispatch_max stamp true
                (sort_by AccountType.wa t unsorted)
                (push_wa stamp (set_default t []) b)
      no_other true = refl
      no_other false = refl
  dispatch-Same AccountType.max redis e h = rw (e, h) (no_other redis.wa_up)
    where
      no_other :
          (wa_up : Bool)
          → dispatch_wa stamp
              (record { tg_up = redis.tg_up; wa_up = wa_up; max_up = true })
              (sort_by AccountType.max t unsorted)
              b
            ≡ dispatch_wa stamp all_up (sort_by AccountType.max t unsorted) b
      no_other true = refl
      no_other false = refl
  dispatch-Same (AccountType.other_type u) redis e h = rw e (nothing redis.wa_up redis.max_up)
    where
      nothing :
          (wa_up max_up : Bool)
          → dispatch_wa stamp
              (record { tg_up = redis.tg_up; wa_up = wa_up; max_up = max_up })
              (sort_by (AccountType.other_type u) t unsorted)
              b
            ≡ dispatch_wa stamp all_up (sort_by (AccountType.other_type u) t unsorted) b
      nothing true true = refl
      nothing true false = refl
      nothing false true = refl
      nothing false false = refl

  nothing_made :
      (n : ℕ)
      → b.made ≡ n
      → ◌≡◌ {A = Dispatched × Broker}
          (connection_error, record b { made = n })
          (connection_error, b)
  nothing_made n e = ap (λ k. (connection_error, record b { made = k })) (sym e)

  lost :
      (y : AccountType) (redis : Redis)
      → t.type' ≡ y
      → answers y redis ≡ false
      → dispatch_send_tasks stamp redis (t ∷ []) b ≡ (connection_error, b)
  unfolding dispatch_send_tasks sort_tasks set_default push_buckets total_in call_telegram
  lost AccountType.tg_user redis e h = rw (e, h) refl
  lost AccountType.wa redis e h = rw (e, h) refl
  lost AccountType.max redis e h = rw (e, h) (by_wa redis.wa_up)
    where
      by_wa :
          (wa_up : Bool)
          → dispatch_wa stamp
              (record { tg_up = redis.tg_up; wa_up = wa_up; max_up = false })
              (sort_by AccountType.max t unsorted)
              b
            ≡ (connection_error, b)
      by_wa true = nothing_made (b.made + 0) (omega arith)
      by_wa false = nothing_made (b.made + 0) (omega arith)
  lost (AccountType.other_type u) redis e h = cc

  route_unknown : (y : AccountType) → is_known y ≡ false → route_by y t (view b) ≡ view b
  route_unknown AccountType.tg_user h = cc
  route_unknown AccountType.wa h = cc
  route_unknown AccountType.max h = cc
  route_unknown (AccountType.other_type u) h = refl

  -- Where Redis answers what it needs, the task is routed, and counted if its type is known;
  -- otherwise nothing is queued.
  pub dispatch-single_up :
      (redis : Redis)
      → answers t.type' redis ≡ true
      → ((dispatch_send_tasks stamp redis (t ∷ []) b).0 ≡ total (if is_known t.type' then 1 else 0))
        × (view (dispatch_send_tasks stamp redis (t ∷ []) b).1 ≡ route_by t.type' t (view b))
  unfolding route_all count
  dispatch-single_up redis h =
      let same = dispatch-Same t.type' redis refl h in
      let done = dispatch_send_tasks-route_all stamp (t ∷ []) b in
      (ap (λ r. r.0) same ∙ done.0 ∙ ap total (omega arith), ap (λ r. view r.1) same ∙ done.1)

  pub dispatch-single_unknown :
      (redis : Redis)
      → answers t.type' redis ≡ true
      → is_known t.type' ≡ false
      → ((dispatch_send_tasks stamp redis (t ∷ []) b).0 ≡ total 0)
        × (view (dispatch_send_tasks stamp redis (t ∷ []) b).1 ≡ view b)
  dispatch-single_unknown redis h k =
      let done = dispatch-single_up redis h in
      (done.0 ∙ rw k refl, done.1 ∙ route_unknown t.type' k)

  pub dispatch-single_lost :
      (redis : Redis)
      → answers t.type' redis ≡ false
      → ((dispatch_send_tasks stamp redis (t ∷ []) b).0 ≡ connection_error)
        × (view (dispatch_send_tasks stamp redis (t ∷ []) b).1 ≡ view b)
  dispatch-single_lost redis h =
      let gone = lost t.type' redis refl h in (ap (λ r. r.0) gone, ap (λ r. view r.1) gone)
