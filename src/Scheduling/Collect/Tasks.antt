-- ===== src/Scheduling/Collect/Tasks.antt =====
-- What a tick sends and what it leaves behind.
use broadcaster.Prelude.{ℕ, ◌≡◌, true, false, ◌⊎◌, some, List, [], ◌∷◌, All, Among}
use broadcaster.Scheduling.NextRun.{Result, ok, raised}
use broadcaster.Scheduling.Collect.{
  Ad, Account, Group, Schedule, DispatchTask, Base, World, is_connected, is_draft,
  effective_ad_status, build_dispatch_task, ad_of, account_of, group_of, is_due, user_send_verdict,
}

-- The schedule is one of the list.
abbrev pub IsIn : Schedule → List Schedule → Type 0
IsIn s [] = ⊥
IsIn s (x ∷ xs) = (s ≡ x) ⊎ IsIn s xs

module _ (world : World) (b : Base) where
  -- Why a task is sent: a schedule that came due, its published ad, its connected account, a user
  -- who is neither blocked nor without access, and a group of the schedule that is there and on.
  pub record IsJustified (now : ℕ) (ss : List Schedule) (t : DispatchTask) : Type 0 where
    pub schedule : Schedule
    pub ad : Ad
    pub account : Account
    pub group : Group
    pub group_id : ℕ
    pub is_in : IsIn schedule ss
    pub due : is_due now schedule ≡ true
    pub has_ad : ad_of schedule.ad_id b ≡ some ad
    pub published : is_draft (effective_ad_status ad) ≡ false
    pub has_account : account_of schedule.account_id b ≡ some account
    pub connected : is_connected account.status ≡ true
    pub admitted : user_send_verdict world b ad.user_id ≡ true
    pub listed : Among group_id schedule.group_ids
    pub has_group : group_of group_id b ≡ some group
    pub group_on : group.is_active ≡ true
    pub built : t ≡ build_dispatch_task world.s3_public_url ad group account (some schedule.id)

  -- What a schedule needs besides its groups.
  pub record IsSendable (now : ℕ) (ss : List Schedule) (s : Schedule) (ad : Ad) (account : Account)
      : Type 0 where
    pub is_in : IsIn s ss
    pub due : is_due now s ≡ true
    pub has_ad : ad_of s.ad_id b ≡ some ad
    pub published : is_draft (effective_ad_status ad) ≡ false
    pub has_account : account_of s.account_id b ≡ some account
    pub connected : is_connected account.status ≡ true
    pub admitted : user_send_verdict world b ad.user_id ≡ true

  -- The tasks of a result, where it has some.
  abbrev AllTasks : (DispatchTask → Type 0) → Result (List DispatchTask × List Schedule) → Type 0
  AllTasks P (raised e) = Unit
  AllTasks P (ok (tasks, schedules)) = All P tasks
