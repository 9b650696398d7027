-- ===== src/Worker/Dispatch/Routes.antt =====
-- What a dispatch promises, one task at a time, and that the code does it (app/worker/tasks.py,
-- `dispatch_send_tasks`). The abstract outbox has no buckets, pipelines, numbers or moments: a task
-- goes to the end of the queue of its messenger and account.
use mathlib.Core.List.{append-nil, append_assoc}
use broadcaster.Prelude.{
  ℕ, ◌+◌, length, ◌≡◌, ◌∙◌, refl, sym, ap, Bool, true, ◌&&◌, ◌||◌, not, List, [], ◌∷◌, ◌++◌, map,
  select, count, ◌==◌, if◌then◌else◌, arith, Bool-cases, inl, inr,
}
use broadcaster.Scheduling.Rules.{is_empty}
use broadcaster.Scheduling.Collect.{AccountType, DispatchTask}
use broadcaster.Worker.Dispatch.{
  Body, Broker, Channel, TelegramCall, total, body_of, telegram_call, is_member, unsorted,
  sort_tasks, dispatch_send_tasks, dispatch_wa, dispatch_sorted, call_telegram, apply_async, all_up,
  total_in,
}
use broadcaster.Worker.Dispatch.Buckets.{
  for_telegram, for_wa, for_max, is_routed, is_tg_user, is_wa, is_max, tg_tasks-sort_tasks,
  wa_tasks-sort_tasks, max_tasks-sort_tasks, total_of-sort_tasks, sort_tasks-AreGrouped,
}
use broadcaster.Worker.Dispatch.Pushes.{
  bodies, bodies-push_buckets, active-push_buckets, has_bucket-tasks_of,
}

-- The queues of a messenger by account, and whether the account is in the set of active ones.
pub record Lane : Type 0 where
  pub waiting : ℕ → List Body
  pub is_awake : ℕ → Bool

pub record Outbox : Type 0 where
  pub telegram : List TelegramCall
  pub wa : Lane
  pub max : Lane

abbrev pub lane : Channel → Lane
lane c = record { waiting = λ a. bodies a c; is_awake = λ a. is_member a c.active_accounts }

unfoldable pub view : Broker → Outbox
view b = record { telegram = b.telegram; wa = lane b.wa; max = lane b.max }

-- One task to the end of its account's queue, and the account is awake.
abbrev pub append : DispatchTask → Lane → Lane
append t l = record {
  waiting = λ a. l.waiting a ++ (if t.account_id == a then body_of t ∷ [] else []);
  is_awake = λ a. l.is_awake a || (t.account_id == a);
}

abbrev pub route_by : AccountType → DispatchTask → Outbox → Outbox
route_by AccountType.tg_user t o = record o { telegram = o.telegram ++ telegram_call t ∷ [] }
route_by AccountType.wa t o = record o { wa = append t o.wa }
route_by AccountType.max t o = record o { max = append t o.max }
route_by (AccountType.other_type u) t o = o

-- The tasks one after the other.
unfoldable pub route_all : List DispatchTask → Outbox → Outbox
route_all [] o = o
route_all (t ∷ ts) o = route_all ts (route_by t.type' t o)

abbrev mapped_if {ℓ} : {B : Type ℓ} → (DispatchTask → B) → Bool → DispatchTask → List B
mapped_if f b t = if b then f t ∷ [] else []

-- A queue that a task extends by itself, or not at all, is extended by the tasks of the batch that
-- pass its test, in their order.
module _ {ℓ} {B : Type ℓ} (queue : Outbox → List B) (f : DispatchTask → B)
    (test : DispatchTask → Bool)
    (step : (t : DispatchTask) (o : Outbox)
      → queue (route_by t.type' t o) ≡ queue o ++ mapped_if f (test t) t) where
  map-select-cons :
      (t : DispatchTask) (ts : List DispatchTask)
      → mapped_if f (test t) t ++ map f (select test ts) ≡ map f (select test (t ∷ ts))
  unfolding select
  map-select-cons t ts = elim (Bool-cases (test t)) [ inl e ↦ rw e refl | inr e ↦ rw e refl ]

  queue-route_all :
      (ts : List DispatchTask) (o : Outbox)
      → queue (route_all ts o) ≡ queue o ++ map f (select test ts)
  unfolding route_all select
  queue-route_all [] o = sym (append-nil (queue o))
  queue-route_all (t ∷ ts) o =
      queue-route_all ts (route_by t.type' t o)
      ∙ ap (λ q. q ++ map f (select test ts)) (step t o)
      ∙ append_assoc (queue o) (mapped_if f (test t) t) (map f (select test ts))
      ∙ ap (λ q. queue o ++ q) (map-select-cons t ts)

-- The same for the sign that an account is awake.
module _ (sign : Outbox → Bool) (test : DispatchTask → Bool)
    (step : (t : DispatchTask) (o : Outbox) → sign (route_by t.type' t o) ≡ sign o || test t) where
  sign-route_all :
      (ts : List DispatchTask) (o : Outbox)
      → sign (route_all ts o) ≡ sign o || not (is_empty (select test ts))
  unfolding route_all select
  sign-route_all [] o = ground arith
  sign-route_all (t ∷ ts) o = ground (arith, sign-route_all ts (route_by t.type' t o), step t o)

telegram_step :
    (y : AccountType) (t : DispatchTask) (o : Outbox)
    → (route_by y t o).telegram ≡ o.telegram ++ mapped_if telegram_call (is_tg_user y) t
telegram_step AccountType.tg_user t o = refl
telegram_step AccountType.wa t o = sym (append-nil o.telegram)
telegram_step AccountType.max t o = sym (append-nil o.telegram)
telegram_step (AccountType.other_type u) t o = sym (append-nil o.telegram)

module _ (a : ℕ) where
  wa_step :
      (y : AccountType) (t : DispatchTask) (o : Outbox)
      → (route_by y t o).wa.waiting a
        ≡ o.wa.waiting a ++ mapped_if body_of (is_wa y && (t.account_id == a)) t
  wa_step AccountType.wa t o = refl
  wa_step AccountType.tg_user t o = sym (append-nil (o.wa.waiting a))
  wa_step AccountType.max t o = sym (append-nil (o.wa.waiting a))
  wa_step (AccountType.other_type u) t o = sym (append-nil (o.wa.waiting a))

  max_step :
      (y : AccountType) (t : DispatchTask) (o : Outbox)
      → (route_by y t o).max.waiting a
        ≡ o.max.waiting a ++ mapped_if body_of (is_max y && (t.account_id == a)) t
  max_step AccountType.max t o = refl
  max_step AccountType.tg_user t o = sym (append-nil (o.max.waiting a))
  max_step AccountType.wa t o = sym (append-nil (o.max.waiting a))
  max_step (AccountType.other_type u) t o = sym (append-nil (o.max.waiting a))

  wa_awake_step :
      (y : AccountType) (t : DispatchTask) (o : Outbox)
      → (route_by y t o).wa.is_awake a ≡ o.wa.is_awake a || (is_wa y && (t.account_id == a))
  wa_awake_step AccountType.wa t o = refl
  wa_awake_step AccountType.tg_user t o = ground arith
  wa_awake_step AccountType.max t o = ground arith
  wa_awake_step (AccountType.other_type u) t o = ground arith

  max_awake_step :
      (y : AccountType) (t : DispatchTask) (o : Outbox)
      → (route_by y t o).max.is_awake a ≡ o.max.is_awake a || (is_max y && (t.account_id == a))
  max_awake_step AccountType.max t o = refl
  max_awake_step AccountType.tg_user t o = ground arith
  max_awake_step AccountType.wa t o = ground arith
  max_awake_step (AccountType.other_type u) t o = ground arith

-- Where Redis takes every call of Celery, they all stand at the end of its queue.
call_telegram-up :
    (n : ℕ) (ts : List DispatchTask) (b : Broker)
    → call_telegram (λ k. true) n ts b
      ≡ (true, record b { telegram = b.telegram ++ map telegram_call ts })
unfolding call_telegram
call_telegram-up n [] b = ap (λ l. (true, record b { telegram = l })) (sym (append-nil b.telegram))
call_telegram-up n (t ∷ ts) b =
    call_telegram-up (n + 1) ts (apply_async t b)
    ∙ ap (λ l. (true, record b { telegram = l }))
        (append_assoc b.telegram (telegram_call t ∷ []) (map telegram_call ts))

-- The sorted buckets, pushed by one pipeline for each messenger, do the same.
module _ (stamp : ℕ → ℕ × ℕ) (ts : List DispatchTask) (b : Broker) where
  after : Broker
  after =
      (dispatch_wa stamp all_up (sort_tasks ts unsorted) (record b {
        telegram = b.telegram ++ map telegram_call (sort_tasks ts unsorted).tg_tasks;
      })).1

  dispatch_send_tasks-after : dispatch_send_tasks stamp all_up ts b ≡ (
    total (
        length (sort_tasks ts unsorted).tg_tasks
        + total_in (sort_tasks ts unsorted).wa_tasks_by_account
        + total_in (sort_tasks ts unsorted).max_tasks_by_account),
    after,
  )
  unfolding dispatch_send_tasks after
  dispatch_send_tasks-after =
      ap (dispatch_sorted stamp all_up (sort_tasks ts unsorted))
        (call_telegram-up 0 (sort_tasks ts unsorted).tg_tasks b)

  telegram-after : after.telegram ≡ (route_all ts (view b)).telegram
  unfolding after view
  telegram-after =
      ap (λ l. b.telegram ++ map telegram_call l) (tg_tasks-sort_tasks ts)
      ∙ sym (
          queue-route_all (λ o. o.telegram) telegram_call for_telegram
            (λ t o. telegram_step t.type' t o) ts (view b))

  wa-after : (a : ℕ) → bodies a after.wa ≡ (route_all ts (view b)).wa.waiting a
  unfolding after view
  wa-after a =
      bodies-push_buckets stamp a b.made (sort_tasks ts unsorted).wa_tasks_by_account b.wa
        (sort_tasks-AreGrouped ts).0
      ∙ ap (λ l. bodies a b.wa ++ map body_of l) (wa_tasks-sort_tasks a ts)
      ∙ sym (
          queue-route_all (λ o. o.wa.waiting a) body_of (for_wa a) (λ t o. wa_step a t.type' t o) ts
            (view b))

  max-after : (a : ℕ) → bodies a after.max ≡ (route_all ts (view b)).max.waiting a
  unfolding after view
  max-after a =
      bodies-push_buckets stamp a _ (sort_tasks ts unsorted).max_tasks_by_account b.max
        (sort_tasks-AreGrouped ts).1
      ∙ ap (λ l. bodies a b.max ++ map body_of l) (max_tasks-sort_tasks a ts)
      ∙ sym (
          queue-route_all (λ o. o.max.waiting a) body_of (for_max a) (λ t o. max_step a t.type' t o)
            ts (view b))

  wa_awake-after :
      (a : ℕ) → is_member a after.wa.active_accounts ≡ (route_all ts (view b)).wa.is_awake a
  unfolding after view
  wa_awake-after a =
      active-push_buckets stamp a b.made (sort_tasks ts unsorted).wa_tasks_by_account b.wa
      ∙ rw
          (
            has_bucket-tasks_of a (sort_tasks ts unsorted).wa_tasks_by_account
                (sort_tasks-AreGrouped ts).0,
            wa_tasks-sort_tasks a ts,
          )
          (sym (
            sign-route_all (λ o. o.wa.is_awake a) (for_wa a) (λ t o. wa_awake_step a t.type' t o) ts
              (view b)))

  max_awake-after :
      (a : ℕ) → is_member a after.max.active_accounts ≡ (route_all ts (view b)).max.is_awake a
  unfolding after view
  max_awake-after a =
      active-push_buckets stamp a _ (sort_tasks ts unsorted).max_tasks_by_account b.max
      ∙ rw
          (
            has_bucket-tasks_of a (sort_tasks ts unsorted).max_tasks_by_account
                (sort_tasks-AreGrouped ts).1,
            max_tasks-sort_tasks a ts,
          )
          (sym (
            sign-route_all (λ o. o.max.is_awake a) (for_max a) (λ t o. max_awake_step a t.type' t o)
              ts (view b)))

  view-after : view after ≡ route_all ts (view b)
  unfolding view
  view-after = λ i. record {
    telegram = telegram-after i;
    wa = record { waiting = λ a. wa-after a i; is_awake = λ a. wa_awake-after a i };
    max = record { waiting = λ a. max-after a i; is_awake = λ a. max_awake-after a i };
  }

  -- Where Redis answers, a dispatch does to the queues what its tasks do one after the other: each
  -- call of Telegram and each payload stands in the order of the batch at the end of its queue, the
  -- accounts that got a payload are awake, and nothing else changes. The number returned is that of
  -- the tasks whose account is of a known type.
  pub dispatch_send_tasks-route_all :
      ((dispatch_send_tasks stamp all_up ts b).0 ≡ total (count is_routed ts))
      × (view (dispatch_send_tasks stamp all_up ts b).1 ≡ route_all ts (view b))
  dispatch_send_tasks-route_all = (
    ap (λ r. r.0) dispatch_send_tasks-after ∙ ap total (total_of-sort_tasks ts),
    ap (λ r. view r.1) dispatch_send_tasks-after ∙ view-after,
  )
