-- ===== src/Worker/Dispatch/Pushes.antt =====
-- The pipelines to Redis (app/worker/tasks.py, `dispatch_send_tasks`): what one adds to each queue
-- and to the set of active accounts.
use mathlib.Core.List.{append-nil, append_assoc, map-append}
use broadcaster.Prelude.{
  ℕ, ◌+◌, ◌≡◌, ◌∙◌, ◌≤◌, refl, sym, ap, Bool, true, false, not, ◌||◌, List, [], ◌∷◌, ◌++◌, map,
  length, ◌==◌, if◌then◌else◌, arith, Bool-cases, inl, inr,
}
use broadcaster.Scheduling.Rules.{is_empty}
use broadcaster.Scheduling.Collect.{DispatchTask}
use broadcaster.Worker.Dispatch.{
  Body, Payload, Channel, Bucket, body_of, is_member, payload, push_tasks, push_buckets, rpush,
  sadd,
}
use broadcaster.Worker.Dispatch.Buckets.{tasks_of, has_bucket, IsGrouped}

-- What waits in an account's queue, without the numbers and moments of the payloads.
abbrev pub bodies : ℕ → Channel → List Body
bodies a c = map (λ (p : Payload). p.body) (c.queue a)

abbrev tasks_if : Bool → List DispatchTask → List DispatchTask
tasks_if b ts = if b then ts else []

tasks_of_none : (k : ℕ) (bs : List Bucket) → has_bucket k bs ≡ false → tasks_of k bs ≡ []
unfolding tasks_of has_bucket
tasks_of_none k [] h = refl
tasks_of_none k (b ∷ bs) h = ground (arith, tasks_of_none k bs)

is_full : (ts : List DispatchTask) → 1 ≤ length ts → is_empty ts ≡ false
is_full [] h = absurd (omega arith)
is_full (t ∷ ts) h = refl

-- An account has a bucket exactly when it has tasks.
pub has_bucket-tasks_of :
    (k : ℕ) (bs : List Bucket) → IsGrouped bs → has_bucket k bs ≡ not (is_empty (tasks_of k bs))
unfolding tasks_of has_bucket
has_bucket-tasks_of k [] g = refl
has_bucket-tasks_of k (b ∷ bs) (fresh, full, g) = elim (Bool-cases (b.account_id == k)) [
  | inl e ↦ rw (e, is_full b.tasks full) refl
  | inr e ↦ rw e (has_bucket-tasks_of k bs g)
]

eq_back : (k a : ℕ) → (k == a) ≡ true → (a == k) ≡ true
eq_back k a h = ground arith

ne_back : (k a : ℕ) → (k == a) ≡ false → (a == k) ≡ false
ne_back k a h = ground arith

same_has :
    (k : ℕ) (b : Bucket) (bs : List Bucket)
    → (k == b.account_id) ≡ true
    → has_bucket b.account_id bs ≡ false
    → has_bucket k bs ≡ false
same_has k b bs e h = ground arith

module _ (stamp : ℕ → ℕ × ℕ) where
  bodies-rpush :
      (k a n : ℕ) (t : DispatchTask) (c : Channel)
      → bodies k (rpush a (payload stamp n t) c)
        ≡ bodies k c ++ map body_of (tasks_if (k == a) (t ∷ []))
  bodies-rpush k a n t c = elim (Bool-cases (k == a)) [
    | inl e ↦ rw e (map-append _ (c.queue k) (payload stamp n t ∷ []))
    | inr e ↦ rw e (sym (append-nil (bodies k c)))
  ]

  map-tasks_if :
      (b : Bool) (t : DispatchTask) (ts : List DispatchTask)
      → map body_of (tasks_if b (t ∷ [])) ++ map body_of (tasks_if b ts)
        ≡ map body_of (tasks_if b (t ∷ ts))
  map-tasks_if true t ts = refl
  map-tasks_if false t ts = refl

  map-tasks_if_nil : (b : Bool) → map body_of (tasks_if b []) ≡ []
  map-tasks_if_nil true = refl
  map-tasks_if_nil false = refl

  bodies-push_tasks :
      (k a n : ℕ) (ts : List DispatchTask) (c : Channel)
      → bodies k (push_tasks stamp a n ts c) ≡ bodies k c ++ map body_of (tasks_if (k == a) ts)
  unfolding push_tasks
  bodies-push_tasks k a n [] c = rw (map-tasks_if_nil (k == a)) (sym (append-nil (bodies k c)))
  bodies-push_tasks k a n (t ∷ ts) c =
      bodies-push_tasks k a (n + 1) ts (rpush a (payload stamp n t) c)
      ∙ ap (λ q. q ++ map body_of (tasks_if (k == a) ts)) (bodies-rpush k a n t c)
      ∙ append_assoc (bodies k c) (map body_of (tasks_if (k == a) (t ∷ [])))
          (map body_of (tasks_if (k == a) ts))
      ∙ ap (λ q. bodies k c ++ q) (map-tasks_if (k == a) t ts)

  active-push_tasks :
      (a n : ℕ) (ts : List DispatchTask) (c : Channel)
      → (push_tasks stamp a n ts c).active_accounts ≡ c.active_accounts
  unfolding push_tasks
  active-push_tasks a n [] c = refl
  active-push_tasks a n (t ∷ ts) c = active-push_tasks a (n + 1) ts (rpush a (payload stamp n t) c)

  is_member-sadd :
      (k a : ℕ) (c : Channel)
      → is_member k (sadd a c).active_accounts ≡ is_member k c.active_accounts || (a == k)
  unfolding is_member
  is_member-sadd k a c = elim (Bool-cases (is_member a c.active_accounts)) [
    | inl e ↦ rw e (ground arith)
    | inr e ↦ rw e (ground arith)
  ]

  map-tasks_of :
      (k : ℕ) (b : Bucket) (bs : List Bucket)
      → has_bucket b.account_id bs ≡ false
      → map body_of (tasks_if (k == b.account_id) b.tasks) ++ map body_of (tasks_of k bs)
        ≡ map body_of (tasks_of k (b ∷ bs))
  unfolding tasks_of
  map-tasks_of k b bs fresh = elim (Bool-cases (k == b.account_id)) [
    | inl e ↦
        rw (e, eq_back k b.account_id e, tasks_of_none k bs (same_has k b bs e fresh))
          (append-nil _)
    | inr e ↦ rw (e, ne_back k b.account_id e) refl
  ]

  -- A pipeline adds each account's bucket to its queue, and nothing to another one.
  pub bodies-push_buckets :
      (k n : ℕ) (bs : List Bucket) (c : Channel)
      → IsGrouped bs
      → bodies k (push_buckets stamp n bs c) ≡ bodies k c ++ map body_of (tasks_of k bs)
  unfolding push_buckets tasks_of
  bodies-push_buckets k n [] c g = sym (append-nil (bodies k c))
  bodies-push_buckets k n (b ∷ bs) c (fresh, full, g) =
      bodies-push_buckets k (n + length b.tasks) bs
        (sadd b.account_id (push_tasks stamp b.account_id n b.tasks c)) g
      ∙ ap (λ q. q ++ map body_of (tasks_of k bs)) (bodies-push_tasks k b.account_id n b.tasks c)
      ∙ append_assoc (bodies k c) (map body_of (tasks_if (k == b.account_id) b.tasks))
          (map body_of (tasks_of k bs))
      ∙ ap (λ q. bodies k c ++ q) (map-tasks_of k b bs fresh)

  pub active-push_buckets :
      (k n : ℕ) (bs : List Bucket) (c : Channel)
      → is_member k (push_buckets stamp n bs c).active_accounts
        ≡ is_member k c.active_accounts || has_bucket k bs
  unfolding push_buckets has_bucket
  active-push_buckets k n [] c = ground arith
  active-push_buckets k n (b ∷ bs) c = ground (
    arith,
    active-push_buckets k (n + length b.tasks) bs
        (sadd b.account_id (push_tasks stamp b.account_id n b.tasks c)),
    is_member-sadd k b.account_id (push_tasks stamp b.account_id n b.tasks c),
    active-push_tasks b.account_id n b.tasks c,
  )
