-- ===== src/Worker/Dispatch/Buckets.antt =====
-- The sorting of tasks by messenger and account (app/worker/tasks.py, the first loop of
-- `dispatch_send_tasks`): every bucket holds its account's tasks in their order, and no account has
-- two buckets.
use mathlib.Core.List.{append-nil, append_assoc}
use broadcaster.Prelude.{
  ℕ, ◌+◌, ◌≤◌, ◌≡◌, refl, sym, Bool, true, false, ◌&&◌, ◌||◌, List, [], ◌∷◌, ◌++◌, length, select,
  count, length-append_one, ◌==◌, if◌then◌else◌, arith, Bool-cases, inl, inr,
}
use broadcaster.Scheduling.Collect.{AccountType, DispatchTask}
use broadcaster.Worker.Dispatch.{
  Bucket, Sorted, set_default, sort_by, sort_tasks, unsorted, total_in,
}

abbrev pub is_tg_user : AccountType → Bool
is_tg_user AccountType.tg_user = true
is_tg_user _ = false

abbrev pub is_wa : AccountType → Bool
is_wa AccountType.wa = true
is_wa _ = false

abbrev pub is_max : AccountType → Bool
is_max AccountType.max = true
is_max _ = false

abbrev pub for_telegram : DispatchTask → Bool
for_telegram t = is_tg_user t.type'

abbrev pub for_wa : ℕ → DispatchTask → Bool
for_wa a t = is_wa t.type' && (t.account_id == a)

abbrev pub for_max : ℕ → DispatchTask → Bool
for_max a t = is_max t.type' && (t.account_id == a)

abbrev pub is_routed : DispatchTask → Bool
is_routed t = is_tg_user t.type' || is_wa t.type' || is_max t.type'

-- The tasks of an account's bucket.
unfoldable pub tasks_of : ℕ → List Bucket → List DispatchTask
tasks_of a [] = []
tasks_of a (b ∷ bs) = if b.account_id == a then b.tasks else tasks_of a bs

unfoldable pub has_bucket : ℕ → List Bucket → Bool
has_bucket a [] = false
has_bucket a (b ∷ bs) = (b.account_id == a) || has_bucket a bs

-- Each account has one bucket at most, and none of them is empty.
abbrev pub IsGrouped : List Bucket → Type 0
IsGrouped [] = Unit
IsGrouped (b ∷ bs) = (has_bucket b.account_id bs ≡ false) × (1 ≤ length b.tasks) × IsGrouped bs

abbrev one_if : Bool → DispatchTask → List DispatchTask
one_if b t = if b then t ∷ [] else []

tasks_of-set_default :
    (a : ℕ) (t : DispatchTask) (bs : List Bucket)
    → tasks_of a (set_default t bs) ≡ tasks_of a bs ++ one_if (t.account_id == a) t
unfolding tasks_of set_default
tasks_of-set_default a t [] = ground arith
tasks_of-set_default a t (b ∷ bs) = elim (Bool-cases (b.account_id == t.account_id)) [
  | inl e ↦ rw e (ground (arith, append-nil (tasks_of a bs)))
  | inr e ↦ rw e (ground (arith, tasks_of-set_default a t bs, append-nil b.tasks))
]

total_in-set_default :
    (t : DispatchTask) (bs : List Bucket) → total_in (set_default t bs) ≡ total_in bs + 1
unfolding total_in set_default
total_in-set_default t [] = omega arith
total_in-set_default t (b ∷ bs) =
    ground (arith, total_in-set_default t bs, length-append_one b.tasks t)

has_bucket-set_default :
    (a : ℕ) (t : DispatchTask) (bs : List Bucket)
    → has_bucket a (set_default t bs) ≡ has_bucket a bs || (t.account_id == a)
unfolding has_bucket set_default
has_bucket-set_default a t [] = ground arith
has_bucket-set_default a t (b ∷ bs) = ground (arith, has_bucket-set_default a t bs)

set_default-IsGrouped :
    (t : DispatchTask) (bs : List Bucket) → IsGrouped bs → IsGrouped (set_default t bs)
unfolding set_default has_bucket
set_default-IsGrouped t [] g = (refl, omega arith, tt)
set_default-IsGrouped t (b ∷ bs) (fresh, full, g) =
    elim (Bool-cases (b.account_id == t.account_id)) [
      | inl e ↦ rw e (fresh, omega (arith, length-append_one b.tasks t), g)
      | inr e ↦ rw e (
        ground (arith, has_bucket-set_default b.account_id t bs),
        full,
        set_default-IsGrouped t bs g,
      )
    ]

-- What the sorting has at hand for a channel, over its loop.
select-cons :
    (p : DispatchTask → Bool) (t : DispatchTask) (ts : List DispatchTask)
    → select p (t ∷ ts) ≡ one_if (p t) t ++ select p ts
unfolding select
select-cons p t ts = ground arith

-- One task, by its type.
tg_tasks-sort_by :
    (y : AccountType) (t : DispatchTask) (s : Sorted)
    → (sort_by y t s).tg_tasks ≡ s.tg_tasks ++ one_if (is_tg_user y) t
tg_tasks-sort_by AccountType.tg_user t s = refl
tg_tasks-sort_by AccountType.wa t s = sym (append-nil s.tg_tasks)
tg_tasks-sort_by AccountType.max t s = sym (append-nil s.tg_tasks)
tg_tasks-sort_by (AccountType.other_type u) t s = sym (append-nil s.tg_tasks)

wa_tasks-sort_by :
    (a : ℕ) (y : AccountType) (t : DispatchTask) (s : Sorted)
    → tasks_of a (sort_by y t s).wa_tasks_by_account
      ≡ tasks_of a s.wa_tasks_by_account ++ one_if (is_wa y && (t.account_id == a)) t
wa_tasks-sort_by a AccountType.wa t s = tasks_of-set_default a t s.wa_tasks_by_account
wa_tasks-sort_by a AccountType.tg_user t s = sym (append-nil (tasks_of a s.wa_tasks_by_account))
wa_tasks-sort_by a AccountType.max t s = sym (append-nil (tasks_of a s.wa_tasks_by_account))
wa_tasks-sort_by a (AccountType.other_type u) t s =
    sym (append-nil (tasks_of a s.wa_tasks_by_account))

max_tasks-sort_by :
    (a : ℕ) (y : AccountType) (t : DispatchTask) (s : Sorted)
    → tasks_of a (sort_by y t s).max_tasks_by_account
      ≡ tasks_of a s.max_tasks_by_account ++ one_if (is_max y && (t.account_id == a)) t
max_tasks-sort_by a AccountType.max t s = tasks_of-set_default a t s.max_tasks_by_account
max_tasks-sort_by a AccountType.tg_user t s = sym (append-nil (tasks_of a s.max_tasks_by_account))
max_tasks-sort_by a AccountType.wa t s = sym (append-nil (tasks_of a s.max_tasks_by_account))
max_tasks-sort_by a (AccountType.other_type u) t s =
    sym (append-nil (tasks_of a s.max_tasks_by_account))

abbrev pub total_of : Sorted → ℕ
total_of s = length s.tg_tasks + total_in s.wa_tasks_by_account + total_in s.max_tasks_by_account

total_of-sort_by :
    (y : AccountType) (t : DispatchTask) (s : Sorted)
    → total_of (sort_by y t s) ≡ total_of s + (if is_tg_user y || is_wa y || is_max y then 1 else 0)
total_of-sort_by AccountType.tg_user t s = omega (arith, length-append_one s.tg_tasks t)
total_of-sort_by AccountType.wa t s = omega (arith, total_in-set_default t s.wa_tasks_by_account)
total_of-sort_by AccountType.max t s = omega (arith, total_in-set_default t s.max_tasks_by_account)
total_of-sort_by (AccountType.other_type u) t s = omega arith

abbrev AreGrouped : Sorted → Type 0
AreGrouped s = IsGrouped s.wa_tasks_by_account × IsGrouped s.max_tasks_by_account

sort_by-AreGrouped :
    (y : AccountType) (t : DispatchTask) (s : Sorted) → AreGrouped s → AreGrouped (sort_by y t s)
sort_by-AreGrouped AccountType.wa t s (g, h) = (set_default-IsGrouped t s.wa_tasks_by_account g, h)
sort_by-AreGrouped AccountType.max t s (g, h) =
    (g, set_default-IsGrouped t s.max_tasks_by_account h)
sort_by-AreGrouped AccountType.tg_user t s g = g
sort_by-AreGrouped (AccountType.other_type u) t s g = g

-- A view of the sorted tasks that one task extends by itself, or not at all, is extended by the
-- tasks of the batch that pass its test, in their order.
module _ (view : Sorted → List DispatchTask) (test : DispatchTask → Bool)
    (step : (t : DispatchTask) (s : Sorted)
      → view (sort_by t.type' t s) ≡ view s ++ one_if (test t) t) where
  view-sort_tasks :
      (ts : List DispatchTask) (s : Sorted) → view (sort_tasks ts s) ≡ view s ++ select test ts
  unfolding sort_tasks select
  view-sort_tasks [] s = sym (append-nil (view s))
  view-sort_tasks (t ∷ ts) s =
      rw (view-sort_tasks ts (sort_by t.type' t s), step t s, select-cons test t ts, append_assoc)

pub tg_tasks-sort_tasks :
    (ts : List DispatchTask) → (sort_tasks ts unsorted).tg_tasks ≡ select for_telegram ts
tg_tasks-sort_tasks ts =
    view-sort_tasks (λ s. s.tg_tasks) for_telegram (λ t s. tg_tasks-sort_by t.type' t s) ts unsorted

pub wa_tasks-sort_tasks :
    (a : ℕ) (ts : List DispatchTask)
    → tasks_of a (sort_tasks ts unsorted).wa_tasks_by_account ≡ select (for_wa a) ts
unfolding tasks_of
wa_tasks-sort_tasks a ts =
    view-sort_tasks (λ s. tasks_of a s.wa_tasks_by_account) (for_wa a)
      (λ t s. wa_tasks-sort_by a t.type' t s) ts unsorted

pub max_tasks-sort_tasks :
    (a : ℕ) (ts : List DispatchTask)
    → tasks_of a (sort_tasks ts unsorted).max_tasks_by_account ≡ select (for_max a) ts
unfolding tasks_of
max_tasks-sort_tasks a ts =
    view-sort_tasks (λ s. tasks_of a s.max_tasks_by_account) (for_max a)
      (λ t s. max_tasks-sort_by a t.type' t s) ts unsorted

total_of-sort_tasks_from :
    (ts : List DispatchTask) (s : Sorted)
    → total_of (sort_tasks ts s) ≡ total_of s + count is_routed ts
unfolding sort_tasks count
total_of-sort_tasks_from [] s = omega arith
total_of-sort_tasks_from (t ∷ ts) s =
    omega (arith, total_of-sort_tasks_from ts (sort_by t.type' t s), total_of-sort_by t.type' t s)

pub total_of-sort_tasks :
    (ts : List DispatchTask) → total_of (sort_tasks ts unsorted) ≡ count is_routed ts
unfolding total_in
total_of-sort_tasks ts = omega (arith, total_of-sort_tasks_from ts unsorted)

sort_tasks-AreGrouped_from :
    (ts : List DispatchTask) (s : Sorted) → AreGrouped s → AreGrouped (sort_tasks ts s)
unfolding sort_tasks
sort_tasks-AreGrouped_from [] s g = g
sort_tasks-AreGrouped_from (t ∷ ts) s g =
    sort_tasks-AreGrouped_from ts (sort_by t.type' t s) (sort_by-AreGrouped t.type' t s g)

pub sort_tasks-AreGrouped :
    (ts : List DispatchTask)
    → IsGrouped (sort_tasks ts unsorted).wa_tasks_by_account
      × IsGrouped (sort_tasks ts unsorted).max_tasks_by_account
sort_tasks-AreGrouped ts = sort_tasks-AreGrouped_from ts unsorted (tt, tt)
