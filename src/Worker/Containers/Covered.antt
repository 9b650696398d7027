-- ===== src/Worker/Containers/Covered.antt =====
-- The set of active accounts and the queues (app/worker/tasks.py, `manage_wa_containers`): the accounts
-- with waiting payloads are in the set, and how one comes to be out of it where the watch is not
-- atomic.
use broadcaster.Prelude.{
  ℕ, ◌≡◌, ◌∙◌, refl, sym, ap, Bool, true, false, not, ◌&&◌, ◌||◌, List, [], ◌∷◌, ◌++◌, map, select,
  ◌==◌, arith, Bool-cases, if_cases, inl, inr,
}
use broadcaster.Scheduling.Rules.{is_empty}
use broadcaster.Scheduling.Collect.{DispatchTask}
use broadcaster.Worker.Dispatch.{
  Payload, Channel, Bucket, body_of, is_member, sort_tasks, unsorted, push_buckets,
}
use broadcaster.Worker.Dispatch.Buckets.{
  IsGrouped, tasks_of, for_wa, wa_tasks-sort_tasks, sort_tasks-AreGrouped,
}
use broadcaster.Worker.Dispatch.Pushes.{
  bodies, bodies-push_buckets, active-push_buckets, has_bucket-tasks_of,
}
use broadcaster.Worker.Containers.{
  Keys, Step, sent, popped, watched, happen, run, Started, running, no_endpoint, start_raised, srem,
  retire, ensure, manage_by, manage_all, manage_containers, rest_of, lpop,
}

-- An account whose queue is not empty is in the set of active accounts.
abbrev pub IsCovered : Channel → Type 0
IsCovered c = (a : ℕ) → is_empty (c.queue a) ≡ false → is_member a c.active_accounts ≡ true

is_empty-map : (ps : List Payload) → is_empty (map (λ (p : Payload). p.body) ps) ≡ is_empty ps
is_empty-map [] = refl
is_empty-map (p ∷ ps) = refl

is_empty-append-map :
    {A B : Type 0} (f : A → B) (xs : List B) (ys : List A)
    → is_empty (xs ++ map f ys) ≡ is_empty xs && is_empty ys
is_empty-append-map f [] [] = refl
is_empty-append-map f [] (y ∷ ys) = refl
is_empty-append-map f (x ∷ xs) ys = refl

-- A pipeline keeps the cover: what it pushes, it adds the account of.
push_buckets-IsCovered :
    (stamp : ℕ → ℕ × ℕ) (n : ℕ) (bs : List Bucket) (c : Channel)
    → IsGrouped bs
    → IsCovered c
    → IsCovered (push_buckets stamp n bs c)
push_buckets-IsCovered stamp n bs c grouped covered a waits =
    active-push_buckets stamp a n bs c
    ∙ rw (has_bucket-tasks_of a bs grouped) (
        by_parts (is_empty (c.queue a)) (is_empty (tasks_of a bs)) refl (
          sym (
            is_empty-append-map body_of (bodies a c) (tasks_of a bs)
            ∙ ap (λ e. e && is_empty (tasks_of a bs)) (is_empty-map (c.queue a)))
          ∙ sym (ap is_empty (bodies-push_buckets stamp a n bs c grouped))
          ∙ is_empty-map ((push_buckets stamp n bs c).queue a)
          ∙ waits))
  where
    by_parts :
        (before pushed : Bool)
        → is_empty (c.queue a) ≡ before
        → before && pushed ≡ false
        → is_member a c.active_accounts || not pushed ≡ true
    by_parts false pushed e h = rw (covered a e) refl
    by_parts true pushed e h = ground arith

pub is_member-select :
    (x a : ℕ) (xs : List ℕ)
    → (x == a) ≡ false
    → is_member x (select (λ y. not (y == a)) xs) ≡ is_member x xs
unfolding is_member select
is_member-select x a [] h = refl
is_member-select x a (y ∷ xs) h = ground (arith, is_member-select x a xs)

is_member-srem : (a : ℕ) (xs : List ℕ) → is_member a (select (λ y. not (y == a)) xs) ≡ false
unfolding is_member select
is_member-srem a [] = refl
is_member-srem a (y ∷ xs) = ground (arith, is_member-srem a xs)

-- An account leaves the set only with its queue empty.
srem-IsCovered : (a : ℕ) (c : Channel) → c.queue a ≡ [] → IsCovered c → IsCovered (srem a c)
srem-IsCovered a c idle covered x waits = elim (Bool-cases (x == a)) [
  | inr other ↦ is_member-select x a c.active_accounts other ∙ covered x waits
  | inl same ↦ absurd (idle_waits (eq_of_test x a same) waits)
]
  where
    eq_of_test : (m n : ℕ) → (m == n) ≡ true → m ≡ n
    eq_of_test m n h = ground arith

    idle_waits : x ≡ a → is_empty (c.queue x) ≡ false → ⊥
    idle_waits e h = cc (ap (λ y. is_empty (c.queue y)) e, ap is_empty idle, h)

lpop-IsCovered : (a : ℕ) (k : Keys) → IsCovered k.channel → IsCovered (lpop a k).channel
unfolding lpop
lpop-IsCovered a k covered x =
    if_cases
      (λ (q : List Payload). is_empty q ≡ false → is_member x k.channel.active_accounts ≡ true)
      (x == a) (λ _ waits. covered x (waits_before (k.channel.queue x) waits)) (λ _. covered x)
  where
    waits_before : (ps : List Payload) → is_empty (rest_of ps) ≡ false → is_empty ps ≡ false
    waits_before [] h = h
    waits_before (p ∷ ps) h = refl

module _ (is_max : Bool) (start : ℕ → Started) where
  ensure_channel :
      (a : ℕ) (s : Started) (k : Keys) → (ensure is_max start a s k).1.channel ≡ k.channel
  ensure_channel a (running e) k = refl
  ensure_channel a no_endpoint k =
      if_cases (λ (x : Keys). x.channel ≡ k.channel) is_max (λ _. refl) (λ _. refl)
  ensure_channel a start_raised k = refl

  manage_by-IsCovered :
      (a : ℕ) (q : List Payload) (k : Keys)
      → k.channel.queue a ≡ q
      → IsCovered k.channel
      → IsCovered (manage_by is_max start a q k).1.channel
  manage_by-IsCovered a [] k idle covered = srem-IsCovered a k.channel idle covered
  manage_by-IsCovered a (p ∷ ps) k e covered = rw (ensure_channel a (start a) k) covered

  manage_all-IsCovered :
      (accounts : List ℕ) (k : Keys)
      → IsCovered k.channel
      → IsCovered (manage_all is_max start accounts k).channel
  unfolding manage_all
  manage_all-IsCovered [] k covered = covered
  manage_all-IsCovered (a ∷ accounts) k covered =
      let once = manage_by-IsCovered a (k.channel.queue a) k refl covered in
      if_cases (λ (x : Keys). IsCovered x.channel)
        (manage_by is_max start a (k.channel.queue a) k).0
        (λ _. manage_all-IsCovered accounts _ once) (λ _. once)

module _ (stamp : ℕ → ℕ × ℕ) (start : ℕ → Started) where
  happen-IsCovered :
      (s : Step) (k : Keys) → IsCovered k.channel → IsCovered (happen stamp start s k).channel
  unfolding manage_containers
  happen-IsCovered (sent n ts) k covered =
      push_buckets-IsCovered stamp n (sort_tasks ts unsorted).wa_tasks_by_account k.channel
        (sort_tasks-AreGrouped ts).0 covered
  happen-IsCovered (popped a) k covered = lpop-IsCovered a k covered
  happen-IsCovered watched k covered =
      manage_all-IsCovered false start k.channel.active_accounts k covered

  -- In any order, and whatever Docker answers.
  pub run-IsCovered :
      (ss : List Step) (k : Keys) → IsCovered k.channel → IsCovered (run stamp start ss k).channel
  unfolding run
  run-IsCovered [] k covered = covered
  run-IsCovered (s ∷ ss) k covered = run-IsCovered ss _ (happen-IsCovered s k covered)

  -- The watch is not one transaction: it reads the length of a queue, and takes the account out of
  -- the set afterwards. A dispatch to the account in between leaves its payloads in the queue of an
  -- account that is in the set no more.
  pub retire_unwatched :
      (n a : ℕ) (ts : List DispatchTask) (k : Keys)
      → k.channel.queue a ≡ []
      → is_empty (select (for_wa a) ts) ≡ false
      → (is_empty ((retire a (happen stamp start (sent n ts) k)).channel.queue a) ≡ false)
        × (is_member a (retire a (happen stamp start (sent n ts) k)).channel.active_accounts
            ≡ false)
  retire_unwatched n a ts k idle some_task =
      let bs = (sort_tasks ts unsorted).wa_tasks_by_account in
      let pushed = push_buckets stamp n bs k.channel in
      (
        sym (is_empty-map (pushed.queue a))
            ∙ ap is_empty (bodies-push_buckets stamp a n bs k.channel (sort_tasks-AreGrouped ts).0)
            ∙ is_empty-append-map body_of (bodies a k.channel) (tasks_of a bs)
            ∙ rw (idle, wa_tasks-sort_tasks a ts) some_task,
        is_member-srem a pushed.active_accounts,
      )
